-- ===== src/Colors/Overflow.antt =====
-- The background that the first pass ends with is the one that the second pass starts with.
use xdccget_for_windows.Colors.{
  convert_bytes, set_color, libirc_colorparser_applymask, read_color, read_number, ColorMask,
  libirc_colorparser_addorcat, convert_byte, with_bit, no_mask, libirc_colorparser_closetags,
  convert_pass, read_background, mask_bit, used_by, libirc_colorparser_applycolor, overflow,
  irc_color_convert_from_mirc, libirc_colorparser_irc2code,
}
use xdccget_for_windows.Base.{
  ℕ, append_assoc, false, ◌++◌, ap, [], ◌≡◌, none, sym, ap₂, ◌∙◌, arith, u32, append-nil, ◌∷◌, ◌+◌,
  some, length, ◌<◌, true, length-append, ◌^◌,
}
use xdccget_for_windows.Colors.Strip.{IsPlain, used_by_plain, convert_byte_plain}
use xdccget_for_windows.Bytes.{codes, Bytes}
use xdccget_for_windows.Colors.Emits.{writing, counting, u32_add}

plain_counts :
    (front s : Bytes) (mask : ColorMask) (bg n : ℕ)
    → IsPlain front
    → convert_bytes false (front ++ s) 0 (counting mask bg n)
      ≡ convert_bytes false s 0 (counting mask bg (n + length front))
unfolding convert_bytes libirc_colorparser_addorcat
plain_counts [] s mask bg n h = ap (λ k. convert_bytes false s 0 (counting mask bg k)) (omega arith)
plain_counts (c ∷ front) s mask bg n (h, hs) =
    ap₂ (λ k p. convert_bytes false (front ++ s) k p) (used_by_plain c (front ++ s) h)
      (convert_byte_plain false c (front ++ s) (counting mask bg n) h
        ∙ ap (λ (d : ℕ). record { mask = mask; written = none; destlen = d; current_bg = bg })
            (u32_add n 1))
    ∙ plain_counts front s mask bg (n + 1) hs
    ∙ ap (λ k. convert_bytes false s 0 (counting mask bg k)) (omega arith)

plain_writes :
    (front s text : Bytes) (mask : ColorMask) (bg size : ℕ)
    → IsPlain front
    → convert_bytes false (front ++ s) 0 (writing mask bg text size)
      ≡ convert_bytes false s 0 (writing mask bg (text ++ front) size)
unfolding convert_bytes libirc_colorparser_addorcat
plain_writes [] s text mask bg size h =
    ap (λ t. convert_bytes false s 0 (writing mask bg t size)) (sym (append-nil text))
plain_writes (c ∷ front) s text mask bg size (h, hs) =
    ap₂ (λ k p. convert_bytes false (front ++ s) k p) (used_by_plain c (front ++ s) h)
      (convert_byte_plain false c (front ++ s) (writing mask bg text size) h)
    ∙ plain_writes front s (text ++ (c ∷ [])) mask bg size hs
    ∙ ap (λ t. convert_bytes false s 0 (writing mask bg t size)) (append_assoc text (c ∷ []) front)

-- A red "a", and then brown on dark blue.
abbrev pub late_background : Bytes
late_background = (3 ∷ codes "4a") ++ (3 ∷ codes "5,2")

late_counts :
    (n : ℕ)
    → n < 2 ^ 26
    → convert_pass false late_background (counting no_mask 0 n)
      ≡ record { mask = no_mask; written = none; destlen = n + 51; current_bg = 2 }
unfolding convert_pass convert_bytes libirc_colorparser_addorcat libirc_colorparser_closetags
    libirc_colorparser_applymask libirc_colorparser_applycolor mask_bit with_bit used_by read_color
    read_number read_background convert_byte set_color
late_counts n h =
    ap (λ (d : ℕ). record { mask = no_mask; written = none; destlen = d; current_bg = 2 })
      (omega arith)

late_writes :
    (text : Bytes) (size : ℕ)
    → (convert_pass false late_background (writing no_mask 2 text size)).written
      ≡ some (
          text ++ (codes "[COLOR=RED/DARKBLUE]a[/COLOR]" ++ codes "[COLOR=BROWN/DARKBLUE][/COLOR]"))
unfolding convert_pass convert_bytes libirc_colorparser_addorcat libirc_colorparser_closetags
    libirc_colorparser_applymask libirc_colorparser_applycolor mask_bit with_bit used_by read_color
    read_number read_background convert_byte set_color
late_writes text size = simp (append_assoc)

first_pass :
    (front : Bytes)
    → IsPlain front
    → length front < 2 ^ 26
    → convert_pass false
        (front ++ late_background)
        (record { mask = no_mask; written = none; destlen = 0; current_bg = 0 })
      ≡ record { mask = no_mask; written = none; destlen = length front + 51; current_bg = 2 }
unfolding convert_pass
first_pass front plain h =
    ap (λ p. let q = libirc_colorparser_closetags p in record q { destlen = u32 (q.destlen + 1) })
      (plain_counts front late_background no_mask 0 0 plain)
    ∙ late_counts (0 + length front) (omega arith)
    ∙ ap (λ (d : ℕ). record { mask = no_mask; written = none; destlen = d; current_bg = 2 })
        (omega arith)

second_pass :
    (front : Bytes)
    → IsPlain front
    → (size : ℕ)
    → (convert_pass false
        (front ++ late_background)
        (record { mask = no_mask; written = some []; destlen = size; current_bg = 2 })).written
      ≡ some (
          front
          ++ (codes "[COLOR=RED/DARKBLUE]a[/COLOR]" ++ codes "[COLOR=BROWN/DARKBLUE][/COLOR]"))
unfolding convert_pass
second_pass front plain size =
    ap (λ p. (libirc_colorparser_closetags p).written)
      (plain_writes front late_background [] no_mask 2 size plain)
    ∙ late_writes front size

-- A plain text of less than 64 MB with a red "a" and then brown on dark blue behind it is converted
-- to a text that is longer than the memory that is allocated for it: the second pass begins with the
-- background that the first one ended with, and its tag for the red "a" is longer.
pub irc_color_convert_from_mirc_overflows :
    (front : Bytes)
    → IsPlain front
    → length front < 2 ^ 26
    → irc_color_convert_from_mirc true (front ++ late_background)
      ≡ some (
          overflow (
            front
            ++ (codes "[COLOR=RED/DARKBLUE]a[/COLOR]" ++ codes "[COLOR=BROWN/DARKBLUE][/COLOR]")))
unfolding irc_color_convert_from_mirc libirc_colorparser_irc2code
irc_color_convert_from_mirc_overflows front plain h =
    rw
      (
        libirc_colorparser_irc2code,
        first_pass front plain h,
        second_pass front plain (length front + 51),
      )
      (ground (
        arith,
        length-append front
            (codes "[COLOR=RED/DARKBLUE]a[/COLOR]" ++ codes "[COLOR=BROWN/DARKBLUE][/COLOR]"),
      ))
