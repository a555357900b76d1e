-- ===== src/Colors/ToMirc/Exact.antt =====
-- The pass over a text that is made of plain text and tags.
use xdccget_for_windows.Colors.ToMirc.Pieces.{
  TagPiece, color_tag_piece, tag_text, color_code_right, tag_or_text_known, tag_name, plain_part,
  background_name, IsTagPiece, IsBackground, other_tag, color_end, tag_or_text_unknown, reverse_tag,
  background_code, bold_tag, underline_tag, fits, has_no, color_name_right, text_of, has_no-All,
  source_of, brackets, tag_bytes, replaced_tag-IsUnknown,
}
use xdccget_for_windows.Bytes.{str_equals, Bytes, starts_with, codes}
use xdccget_for_windows.Colors.ToMirc.{
  goes_on, replaced_tag, tag_or_text, two_digits, passed, add_text, tag_round, tag_pass,
  irc_color_convert_to_mirc,
}
use xdccget_for_windows.Base.{
  false, ◌∷◌, inl, inr, some, ℕ, ◌<◌, ◌≡◌, ◌++◌, refl, Option, true, none, ◌≢◌, All, length-append,
  length, suc, arith, ◌⊎◌, ap, List, ◌≤◌, [], zero, ◌∙◌, sym, append_assoc, ◌^◌, ◌+◌,
}
use xdccget_for_windows.Colors.{color_name, converted}
use xdccget_for_windows.Colors.ToMirc.Laws.{
  split_at_first, put, split_at-none, irc_color_convert_to_mirc-passed,
}

abbrev IsTag : TagPiece → Type 0
IsTag (plain_part s) = ⊥
IsTag p = IsTagPiece p

All-append : (P : ℕ → Type 0) (xs ys : Bytes) → All P xs → All P ys → All P (xs ++ ys)
All-append P [] ys h h' = h'
All-append P (x ∷ xs) ys (e, h) h' = (e, All-append P xs ys h h')

fits_short : (tag : Bytes) → 1 ≤ length tag → length tag ≤ 29 → fits tag ≡ true
unfolding fits
fits_short tag h h' = ground (arith, h, h')

unfit : (tag : Bytes) → (tag ≡ []) ⊎ (29 < length tag) → fits tag ≡ false
unfolding fits
unfit tag (inl e) = ap fits e
unfit tag (inr h) = ground (arith, h)

background_name_short : (bg : Option ℕ) → IsBackground bg → length (background_name bg) ≤ 10
background_name_short none h = omega arith
background_name_short (some bg) h = omega (arith, (color_name_right bg h).3)

color_known :
    (part behind : Bytes) (color : ℕ) (bg : Option ℕ)
    → color < 16
    → IsBackground bg
    → tag_or_text part (tag_name (color_tag_piece color bg)) behind
      ≡ goes_on (part ++ tag_text (color_tag_piece color bg)) behind
unfolding replaced_tag fits str_equals starts_with
color_known part behind color bg h h' =
    tag_or_text_known part (tag_name (color_tag_piece color bg)) behind
      (3 ∷ (two_digits color ++ background_code bg))
      (fits_short (tag_name (color_tag_piece color bg)) (omega arith) (
        omega (
          arith,
          length-append (color_name color) (background_name bg),
          (color_name_right color h).3,
          background_name_short bg h',
        )))
      (color_code_right color bg h h')

tag_replaced :
    (p : TagPiece) (part behind : Bytes)
    → IsTag p
    → tag_or_text part (tag_name p) behind ≡ goes_on (part ++ tag_text p) behind
unfolding replaced_tag str_equals starts_with
tag_replaced (plain_part s) part behind h = absurd h
tag_replaced (bold_tag true) part behind h = refl
tag_replaced (bold_tag false) part behind h = refl
tag_replaced (underline_tag true) part behind h = refl
tag_replaced (underline_tag false) part behind h = refl
tag_replaced (reverse_tag true) part behind h = refl
tag_replaced (reverse_tag false) part behind h = refl
tag_replaced color_end part behind h = refl
tag_replaced (color_tag_piece color bg) part behind (h, h') = color_known part behind color bg h h'
tag_replaced (other_tag tag) part behind (_, inl h) =
    tag_or_text_unknown part tag behind (inl (unfit tag h))
tag_replaced (other_tag tag) part behind (_, inr h) =
    tag_or_text_unknown part tag behind (inr (replaced_tag-IsUnknown tag h))

unbracketed_color :
    (color : ℕ) (bg : Option ℕ)
    → color < 16
    → IsBackground bg
    → All (λ c. c ≢ b']') (color_name color ++ background_name bg)
unbracketed_color color none h h' =
    All-append (λ c. c ≢ b']') (color_name color) [] (color_name_right color h).2 tt
unbracketed_color color (some bg) h h' =
    All-append (λ c. c ≢ b']') (color_name color) (b'/' ∷ color_name bg)
      (color_name_right color h).2 (λ e. omega arith, (color_name_right bg h').2)

no_bracket : (tag : Bytes) → has_no b']' tag ≡ true → All (λ c. c ≢ b']') tag
no_bracket = has_no-All b']'

tag_unbracketed : (p : TagPiece) → IsTag p → All (λ c. c ≢ b']') (tag_name p)
unfolding has_no
tag_unbracketed (plain_part s) h = absurd h
tag_unbracketed (bold_tag true) h = no_bracket (tag_name (bold_tag true)) refl
tag_unbracketed (bold_tag false) h = no_bracket (tag_name (bold_tag false)) refl
tag_unbracketed (underline_tag true) h = no_bracket (tag_name (underline_tag true)) refl
tag_unbracketed (underline_tag false) h = no_bracket (tag_name (underline_tag false)) refl
tag_unbracketed (reverse_tag true) h = no_bracket (tag_name (reverse_tag true)) refl
tag_unbracketed (reverse_tag false) h = no_bracket (tag_name (reverse_tag false)) refl
tag_unbracketed color_end h = no_bracket (tag_name color_end) refl
tag_unbracketed (color_tag_piece color bg) (h, h') =
    All-append (λ c. c ≢ b']') (codes "COLOR=") (color_name color ++ background_name bg)
      (no_bracket (codes "COLOR=") refl) (unbracketed_color color bg h h')
tag_unbracketed (other_tag tag) (h, _) = h

-- The round that takes a tag, and the plain text in front of it.
tag_taken :
    (p : TagPiece) (front rest : Bytes)
    → IsTag p
    → All (λ c. c ≢ b'[') front
    → tag_round (front ++ (b'[' ∷ (tag_name p ++ (b']' ∷ rest))))
      ≡ goes_on (front ++ tag_text p) rest
unfolding tag_round
tag_taken p front rest h plain =
    rw
      (
        tag_round,
        split_at_first b'[' front (tag_name p ++ (b']' ∷ rest)) plain,
        split_at_first b']' (tag_name p) rest (tag_unbracketed p h),
      )
      (tag_replaced p front rest h)

abbrev Passes : List TagPiece → Type 0
Passes ps =
    (front before : Bytes) (size fuel : ℕ)
    → All (λ c. c ≢ b'[') front
    → length (front ++ source_of ps) < fuel
    → tag_pass fuel (front ++ source_of ps) (put before size)
      ≡ passed (put (before ++ (front ++ text_of ps)) size)

tag-Passes :
    (p : TagPiece) (ps : List TagPiece)
    → IsTag p
    → tag_bytes p ≡ brackets (tag_name p)
    → Passes ps
    → Passes (p ∷ ps)
unfolding tag_pass add_text
tag-Passes p ps h bracketed later front before size zero plain short = absurd (omega arith)
tag-Passes p ps h bracketed later front before size (suc fuel) plain short =
    let rest = source_of ps in
    let same =
      ap (λ (s : Bytes). front ++ s)
        (ap (λ (s : Bytes). s ++ rest) bracketed
          ∙ ap (λ (s : Bytes). b'[' ∷ s) (append_assoc (tag_name p) (b']' ∷ []) rest)) in
    let shorter : length rest < fuel = omega (
      arith,
      short,
      length-append front (tag_bytes p ++ rest),
      length-append (tag_bytes p) rest,
      ap length bracketed,
    ) in
    ap (λ (s : Bytes). tag_pass (suc fuel) s (put before size)) same
    ∙ rw (tag_pass, tag_taken p front rest h plain)
        (later [] (before ++ (front ++ tag_text p)) size fuel tt shorter
          ∙ ap (λ (b : Bytes). passed (put b size))
              (append_assoc before (front ++ tag_text p) (text_of ps)
                ∙ ap (λ (b : Bytes). before ++ b) (append_assoc front (tag_text p) (text_of ps))))

pieces-Passes : (ps : List TagPiece) → All IsTagPiece ps → Passes ps
unfolding tag_pass tag_round add_text
pieces-Passes [] h front before size zero plain short = absurd (omega arith)
pieces-Passes [] h front before size (suc fuel) plain short =
    let free = All-append (λ c. c ≢ b'[') front [] plain tt in
    rw (tag_pass, tag_round, split_at-none b'[' (front ++ []) free) refl
pieces-Passes (plain_part s ∷ ps) (h, hs) front before size fuel plain short =
    let more = All-append (λ c. c ≢ b'[') front s plain h in
    let regroup = append_assoc front s (source_of ps) in
    ap (λ (r : Bytes). tag_pass fuel r (put before size)) (sym regroup)
    ∙ (pieces-Passes ps hs (front ++ s) before size fuel more
          (omega (arith, short, ap length regroup))
        ∙ ap (λ (b : Bytes). passed (put (before ++ b) size)) (append_assoc front s (text_of ps)))
pieces-Passes (bold_tag opens ∷ ps) (h, hs) front before size fuel plain short =
    tag-Passes (bold_tag opens) ps h refl (pieces-Passes ps hs) front before size fuel plain short
pieces-Passes (underline_tag opens ∷ ps) (h, hs) front before size fuel plain short =
    tag-Passes (underline_tag opens) ps h refl (pieces-Passes ps hs) front before size fuel plain
      short
pieces-Passes (reverse_tag opens ∷ ps) (h, hs) front before size fuel plain short =
    tag-Passes (reverse_tag opens) ps h refl (pieces-Passes ps hs) front before size fuel plain
      short
pieces-Passes (color_end ∷ ps) (h, hs) front before size fuel plain short =
    tag-Passes color_end ps h refl (pieces-Passes ps hs) front before size fuel plain short
pieces-Passes (color_tag_piece color bg ∷ ps) (h, hs) front before size fuel plain short =
    tag-Passes (color_tag_piece color bg) ps h refl (pieces-Passes ps hs) front before size fuel
      plain short
pieces-Passes (other_tag tag ∷ ps) (h, hs) front before size fuel plain short =
    tag-Passes (other_tag tag) ps h refl (pieces-Passes ps hs) front before size fuel plain short

-- A text of less than 64 MB that is made of plain text and tags is converted to its plain text, with
-- each tag for bold, underlined or reversed text, for one of the 16 colours, with a background or
-- without, and for the end of a colour replaced by its code, and with the tags that are empty, too
-- long or unknown as they were; it fits the memory that is allocated for it.
pub irc_color_convert_to_mirc-text_of :
    (ps : List TagPiece)
    → All IsTagPiece ps
    → length (source_of ps) < 2 ^ 26
    → irc_color_convert_to_mirc true (source_of ps) ≡ some (converted (text_of ps))
irc_color_convert_to_mirc-text_of ps h short =
    irc_color_convert_to_mirc-passed (source_of ps) (text_of ps) short
      (pieces-Passes ps h [] [] 0 (length (source_of ps) + 1) tt (omega arith))
