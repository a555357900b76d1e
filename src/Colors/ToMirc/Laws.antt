-- ===== src/Colors/ToMirc/Laws.antt =====
-- The tags of a text are read in the same way in both passes.
use xdccget_for_windows.Base.{
  append_assoc, ◌*◌, ◌≢◌, ◌^◌, ◌≡◌, ◌++◌, arith, [], length, ◌⊎◌, ◌+◌, ◌≤◌, ◌∙◌, true, refl, ◌<◌,
  Bool, ap, zero, ◌∷◌, some, u32, suc, none, All, ℕ, length-append, inl, inr, sym,
}
use xdccget_for_windows.Colors.{converted, reads_behind}
use xdccget_for_windows.Colors.ToMirc.{
  rest_of, TagRound, tag_pass, passed_behind, tag_round, passed, add_text,
  irc_color_convert_to_mirc, goes_on, TagOutput, goes_behind, split_at, TagPass,
}
use xdccget_for_windows.Colors.Safety.{size_is_left}
use xdccget_for_windows.Colors.ToMirc.Rounds.{IsShort, tag_round-IsShort}
use xdccget_for_windows.Bytes.{Bytes}
use xdccget_for_windows.Requests.Laws.{wanted}

abbrev counted : ℕ → TagOutput
counted n = record { written = none; destlen = u32 n }

abbrev pub put : Bytes → ℕ → TagOutput
put text size = record { written = some text; destlen = size }

-- Either pass over `cur` goes on behind the end, or it adds the same text.
abbrev Agrees : ℕ → Bytes → Type 0
Agrees fuel cur =
    ((o : TagOutput) → tag_pass fuel cur o ≡ passed_behind)
    ⊎ ((text : Bytes) × (length text ≤ 7 * length cur)
        × ((n : ℕ) → tag_pass fuel cur (counted n) ≡ passed (counted (n + length text)))
        × ((front : Bytes) (size : ℕ)
            → tag_pass fuel cur (put front size) ≡ passed (put (front ++ text) size)))

counted_text : (str : Bytes) (n : ℕ) → add_text str (counted n) ≡ counted (n + length str)
unfolding add_text
counted_text str n = ap (λ (d : ℕ). record { written = none; destlen = d }) (sum n (length str))
  where
    sum : (n k : ℕ) → u32 (u32 n + k) ≡ u32 (n + k)
    sum n k = omega arith

tag_pass-Agrees : (fuel : ℕ) (cur : Bytes) → length cur < fuel → Agrees fuel cur
unfolding tag_pass add_text
tag_pass-Agrees zero cur h = absurd (omega arith)
tag_pass-Agrees (suc fuel) cur h =
    by_round (tag_round cur) refl (tag_round-IsShort cur)
      (λ behind shorter. tag_pass-Agrees fuel behind shorter)
  where
    by_round :
        (r : TagRound)
        → tag_round cur ≡ r
        → IsShort cur r
        → ((behind : Bytes) → length behind < fuel → Agrees fuel behind)
        → Agrees (suc fuel) cur
    by_round (rest_of str) e short later = inr (
      str,
      omega (arith, short),
      λ n. rw (tag_pass, e) (ap passed (counted_text str n)),
      λ front size. rw (tag_pass, e) refl,
    )
    by_round goes_behind e short later = inl (λ o. rw (tag_pass, e) refl)
    by_round (goes_on str behind) e (less, short) later =
        elim (later behind (omega (arith, h, less))) [
          | inl behind_ ↦ inl (λ o. rw (tag_pass, e) (behind_ (add_text str o)))
          | inr (text, most, counts, put_again) ↦ inr (
            str ++ text,
            omega (arith, short, most, length-append str text),
            λ n.
                rw (tag_pass, e)
                  (ap (tag_pass fuel behind) (counted_text str n)
                    ∙ counts (n + length str)
                    ∙ ap (λ (k : ℕ). passed (counted k)) (omega (arith, length-append str text))),
            λ front size.
                rw (tag_pass, e)
                  (put_again (front ++ str) size
                    ∙ ap (λ (t : Bytes). passed (put t size)) (append_assoc front str text)),
          )
        ]

abbrev text_put : TagPass → Bytes
text_put (passed o) = elim o.written [ none ↦ [] | some text ↦ text ]
text_put _ = []

-- What one pass put_again is what both passes write, in the memory that the first one counts.
pub irc_color_convert_to_mirc-passed :
    (source text : Bytes)
    → length source < 2 ^ 26
    → tag_pass (length source + 1) source (put [] 0) ≡ passed (put text 0)
    → irc_color_convert_to_mirc true source ≡ some (converted text)
unfolding irc_color_convert_to_mirc
irc_color_convert_to_mirc-passed source text h e =
    elim (tag_pass-Agrees (length source + 1) source (omega arith)) [
      | inl behind ↦ absurd (ground (arith, sym (behind (put [] 0)) ∙ e))
      | inr (written_, most, counts, put_again) ↦
          rw
            (
              irc_color_convert_to_mirc,
              counts 0,
              size_is_left (length written_) (omega (arith, most)),
              put_again [] (length written_ + 1),
            )
            (ground arith)
          ∙ ap (λ (t : Bytes). some (converted t)) (ap text_put (sym (put_again [] 0) ∙ e))
    ]

one_more : (n : ℕ) → n + 1 ≡ suc n
one_more n = omega arith

pub split_at-none : (wanted : ℕ) (s : Bytes) → All (λ c. c ≢ wanted) s → split_at wanted s ≡ none
unfolding split_at
split_at-none wanted [] h = refl
split_at-none wanted (c ∷ s) h = ground (arith, h.0, split_at-none wanted s h.1)

pub split_at_first :
    (wanted : ℕ) (before behind : Bytes)
    → All (λ c. c ≢ wanted) before
    → split_at wanted (before ++ (wanted ∷ behind)) ≡ some (before, behind)
unfolding split_at
split_at_first wanted [] behind h = ground arith
split_at_first wanted (c ∷ before) behind h =
    ground (arith, h.0, split_at_first wanted before behind h.1)

unclosed :
    (n : ℕ) (before behind : Bytes) (o : TagOutput)
    → All (λ c. c ≢ b'[') before
    → All (λ c. c ≢ b']') behind
    → tag_pass (n + 1) (before ++ (b'[' ∷ behind)) o ≡ passed_behind
unfolding tag_pass tag_round
unclosed n before behind o h h' =
    rw
      (
        one_more n,
        tag_pass,
        tag_round,
        split_at_first b'[' before behind h,
        split_at-none b']' behind h',
      )
      refl

-- A text whose first opening bracket has no closing bracket behind it is read behind its end.
pub irc_color_convert_to_mirc_unclosed :
    (has_memory : Bool) (before behind : Bytes)
    → All (λ c. c ≢ b'[') before
    → All (λ c. c ≢ b']') behind
    → irc_color_convert_to_mirc has_memory (before ++ (b'[' ∷ behind)) ≡ some reads_behind
unfolding irc_color_convert_to_mirc
irc_color_convert_to_mirc_unclosed has_memory before behind h h' =
    rw
      (
        irc_color_convert_to_mirc,
        unclosed (length (before ++ (b'[' ∷ behind))) before behind
            (record { written = none; destlen = 0 }) h h',
      )
      refl
