-- ===== src/Colors/Strip.antt =====
-- Removing the codes of a message.
use mathlib.Core.Option.{some-injective}
use xdccget_for_windows.Base.{
  true, ap, ◌<◌, false, ◌==◌, if◌then◌else◌, inl, some, append_assoc, Bool-cases, none, inr, ◌≡◌,
  ◌||◌, ◌∙◌, length, suc, ◌^◌, ◌≤◌, ◌++◌, ◌∷◌, arith, append-nil, All, ℕ, zero, Option, refl, sym,
  [], Bool,
}
use xdccget_for_windows.Colors.{
  in_range, used_by, libirc_colorparser_closetags, set_color, read_color, ColorParser, set_code,
  mask_bit, converted, no_mask, convert_pass, libirc_colorparser_addorcat,
  irc_color_strip_from_mirc, ColorMask, convert_byte, ColorCode, convert_bytes,
}
use xdccget_for_windows.Colors.Emits.{writing}
use xdccget_for_windows.Colors.Safety.{irc2code-converted}
use xdccget_for_windows.Bytes.{Bytes}

-- The bytes that begin a code.
abbrev pub is_code : ℕ → Bool
is_code c = c == 2 || c == 31 || c == 22 || c == 15 || c == 3

abbrev pub IsPlain : Bytes → Type 0
IsPlain s = All (λ c. is_code c ≡ false) s

unfoldable pub without_codes : Bytes → ℕ → Bytes
without_codes [] skip = []
without_codes (c ∷ s) (suc skip) = without_codes s skip
without_codes (c ∷ s) zero =
    let rest = without_codes s (used_by c s) in if is_code c then rest else c ∷ rest

without_codes-IsPlain : (s : Bytes) (skip : ℕ) → IsPlain (without_codes s skip)
unfolding without_codes
without_codes-IsPlain [] skip = tt
without_codes-IsPlain (c ∷ s) (suc skip) = without_codes-IsPlain s skip
without_codes-IsPlain (c ∷ s) zero = elim (Bool-cases (is_code c)) [
  | inl e ↦ rw (without_codes, e) (without_codes-IsPlain s (used_by c s))
  | inr e ↦ rw (without_codes, e) (e, without_codes-IsPlain s (used_by c s))
]

without_codes_short : (s : Bytes) (skip : ℕ) → length (without_codes s skip) ≤ length s
unfolding without_codes
without_codes_short [] skip = omega arith
without_codes_short (c ∷ s) (suc skip) = omega (arith, without_codes_short s skip)
without_codes_short (c ∷ s) zero = ground (arith, without_codes_short s (used_by c s))

not_three : (c : ℕ) → is_code c ≡ false → (c == 3) ≡ false
not_three c h = ground arith

pub used_by_plain : (c : ℕ) (s : Bytes) → is_code c ≡ false → used_by c s ≡ 0
unfolding used_by
used_by_plain c s h = rw (used_by, not_three c h) refl

without_codes_plain : (s : Bytes) → IsPlain s → without_codes s 0 ≡ s
unfolding without_codes
without_codes_plain [] h = refl
without_codes_plain (c ∷ s) (h, hs) =
    rw (without_codes, h, used_by_plain c s h, without_codes_plain s hs) refl

set_code_strip : (code : Option ColorCode) (p : ColorParser) → set_code true code p ≡ p
unfolding set_color
set_code_strip none p = refl
set_code_strip (some c) p = elim (Bool-cases (in_range c)) [
  | inl e ↦ rw (set_color, e) refl
  | inr e ↦ rw (set_color, e) refl
]

convert_byte_code :
    (c : ℕ) (s : Bytes) (p : ColorParser) → is_code c ≡ true → convert_byte true c s p ≡ p
unfolding convert_byte
convert_byte_code c s p h = ground (arith, set_code_strip (read_color s) p)

pub convert_byte_plain :
    (strip : Bool) (c : ℕ) (s : Bytes) (p : ColorParser)
    → is_code c ≡ false
    → convert_byte strip c s p ≡ libirc_colorparser_addorcat (c ∷ []) p
unfolding convert_byte
convert_byte_plain strip c s p h = ground arith

strip_writes :
    (s : Bytes) (skip : ℕ) (mask : ColorMask) (bg : ℕ) (front : Bytes) (size : ℕ)
    → convert_bytes true s skip (writing mask bg front size)
      ≡ writing mask bg (front ++ without_codes s skip) size
unfolding convert_bytes without_codes libirc_colorparser_addorcat
strip_writes [] skip mask bg front size = ap (λ t. writing mask bg t size) (sym (append-nil front))
strip_writes (c ∷ s) (suc skip) mask bg front size = strip_writes s skip mask bg front size
strip_writes (c ∷ s) zero mask bg front size = elim (Bool-cases (is_code c)) [
  | inl e ↦
      rw (without_codes, e)
        (ap (λ p. convert_bytes true s (used_by c s) p)
            (convert_byte_code c s (writing mask bg front size) e)
          ∙ strip_writes s (used_by c s) mask bg front size)
  | inr e ↦
      rw (without_codes, e)
        (ap (λ p. convert_bytes true s (used_by c s) p)
            (convert_byte_plain true c s (writing mask bg front size) e)
          ∙ strip_writes s (used_by c s) mask bg (front ++ (c ∷ [])) size
          ∙ ap (λ t. writing mask bg t size)
              (append_assoc front (c ∷ []) (without_codes s (used_by c s))))
]

stripped_text :
    (message : Bytes) (size : ℕ)
    → (convert_pass true message
        (record { mask = no_mask; written = some []; destlen = size; current_bg = 0 })).written
      ≡ some (without_codes message 0)
unfolding convert_pass libirc_colorparser_closetags mask_bit
stripped_text message size =
    ap (λ p. (libirc_colorparser_closetags p).written) (strip_writes message 0 no_mask 0 [] size)

pub stripped :
    (message : Bytes)
    → length message < 2 ^ 26
    → irc_color_strip_from_mirc true message ≡ some (converted (without_codes message 0))
unfolding irc_color_strip_from_mirc
stripped message h =
    let (text, result, _, in_second) = irc2code-converted true message (inl refl) h in
    result
    ∙ ap (λ t. some (converted t))
        (some-injective _ _ (sym (in_second 0) ∙ stripped_text message 0))

-- Removing the codes of a message of less than 64 MB gives a text of at most its length, and writes
-- nothing behind the memory that is allocated. No byte of the text begins a code, and removing its
-- codes gives it back.
pub irc_color_strip_from_mirc-IsPlain :
    (message : Bytes)
    → length message < 2 ^ 26
    → (text : Bytes) × (irc_color_strip_from_mirc true message ≡ some (converted text))
      × IsPlain text
      × (length text ≤ length message)
      × (irc_color_strip_from_mirc true text ≡ some (converted text))
irc_color_strip_from_mirc-IsPlain message h =
    let text = without_codes message 0 in
    let plain = without_codes-IsPlain message 0 in
    let short = without_codes_short message 0 in
    (
      text,
      stripped message h,
      plain,
      short,
      stripped text (omega arith) ∙ ap (λ t. some (converted t)) (without_codes_plain text plain),
    )
