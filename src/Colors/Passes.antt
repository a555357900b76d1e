-- ===== src/Colors/Passes.antt =====
-- The two passes over a message do the same: what the first one counts, the second one writes.
use xdccget_for_windows.Base.{
  none, length, ◌==◌, Bool-cases, some, ◌∷◌, ◌++◌, List, inr, ap, true, ◌≤◌, ◌*◌, length-append,
  ◌&&◌, if◌then◌else◌, arith, leb, ◌≡◌, [], Option, suc, ℕ, ◌∙◌, refl, false, not, ◌||◌, Bool, zero,
  inl, get_or,
}
use xdccget_for_windows.Bytes.{codes, Bytes}
use xdccget_for_windows.Colors.{
  bit_bold, set_code, bit_color, with_bit, libirc_colorparser_applymask, convert_byte, used_by,
  in_range, read_color, ColorCode, ColorBit, color_name, set_background, bit_underline,
  convert_bytes, close_tag, libirc_colorparser_applycolor, mask_bit, bit_reverse, ColorMask,
  set_color, libirc_colorparser_closetags, color_replacement_table, color_tag,
}
use xdccget_for_windows.Colors.Emits.{
  Emits, Emits-more, Emits-addorcat, Emits-then, Emits-after, Emits-same, Emits-if, Emits-nothing,
}

Emits-applymask :
    (bit : ColorBit) (start end : Bytes) (most : ℕ) (mask : ColorMask) (bg : ℕ)
    → length start ≤ most
    → length end ≤ most
    → Emits (libirc_colorparser_applymask bit start end) most mask bg
unfolding libirc_colorparser_applymask
Emits-applymask bit start end most mask bg h h' = elim (Bool-cases (mask_bit mask bit)) [
  | inl e ↦
      Emits-same
        (λ p same _. rw (libirc_colorparser_applymask, ap (λ m. mask_bit m bit) same ∙ e) refl)
        (Emits-after (λ m. with_bit m bit false) (λ b. b)
          (Emits-addorcat end most (with_bit mask bit false) bg h'))
  | inr e ↦
      Emits-same
        (λ p same _. rw (libirc_colorparser_applymask, ap (λ m. mask_bit m bit) same ∙ e) refl)
        (Emits-after (λ m. with_bit m bit true) (λ b. b)
          (Emits-addorcat start most (with_bit mask bit true) bg h))
]

Emits-close_tag :
    (bit : ColorBit) (end : Bytes) (most : ℕ) (mask : ColorMask) (bg : ℕ)
    → length end ≤ most
    → Emits (close_tag bit end) most mask bg
Emits-close_tag bit end most mask bg h = elim (Bool-cases (mask_bit mask bit)) [
  | inl e ↦
      Emits-same (λ p same _. rw (close_tag, ap (λ m. mask_bit m bit) same ∙ e) refl)
        (Emits-applymask bit [] end most mask bg (omega arith) h)
  | inr e ↦
      Emits-same (λ p same _. rw (close_tag, ap (λ m. mask_bit m bit) same ∙ e) refl)
        (Emits-nothing most mask bg)
]

pub Emits-closetags : (mask : ColorMask) (bg : ℕ) → Emits libirc_colorparser_closetags 20 mask bg
unfolding libirc_colorparser_closetags
Emits-closetags mask bg =
    let bold_ = Emits-close_tag bit_bold (codes "[/B]") 4 mask bg (omega arith) in
    let underline_ =
      Emits-close_tag bit_underline (codes "[/U]") 4 bold_.new_mask bold_.new_bg (omega arith) in
    let two = Emits-then bold_ underline_ in
    let reverse_ =
      Emits-close_tag bit_reverse (codes "[/I]") 4 two.new_mask two.new_bg (omega arith) in
    let three = Emits-then two reverse_ in
    Emits-then three
      (Emits-close_tag bit_color (codes "[/COLOR]") 8 three.new_mask three.new_bg (omega arith))

all_short : (names : List Bytes) → Bool
all_short [] = true
all_short (name ∷ names) = leb (length name) 9 && all_short names

get_or_short :
    (names : List Bytes) (i : ℕ) → all_short names ≡ true → length (get_or names i []) ≤ 9
unfolding all_short
get_or_short [] i h = omega arith
get_or_short (name ∷ names) zero h = ground arith
get_or_short (name ∷ names) (suc i) h = get_or_short names i (ground arith)

color_name_short : (i : ℕ) → length (color_name i) ≤ 9
unfolding all_short
color_name_short i = get_or_short color_replacement_table i refl

color_tag_short : (color bg : ℕ) → length (color_tag color bg) ≤ 27
color_tag_short color bg = elim (Bool-cases (bg == 0)) [
  | inl e ↦
      rw e (omega (arith, color_name_short color, length-append (color_name color) (codes "]")))
  | inr e ↦ rw e (
      omega (
        arith,
        color_name_short color,
        color_name_short bg,
        length-append (color_name color) (codes "/" ++ (color_name bg ++ codes "]")),
        length-append (color_name bg) (codes "]"),
      ))
]

Emits-applycolor :
    (color back : ℕ) (mask : ColorMask) (bg : ℕ)
    → Emits (libirc_colorparser_applycolor color back) 35 mask bg
unfolding libirc_colorparser_applycolor
Emits-applycolor color back mask bg = elim (Bool-cases (mask_bit mask bit_color)) [
  | inl e ↦
      let end = Emits-addorcat (codes "[/COLOR]") 8 mask bg (omega arith) in
      Emits-same
        (λ p same _.
          rw (libirc_colorparser_applycolor, ap (λ m. mask_bit m bit_color) same ∙ e) refl)
        (Emits-then end (
          Emits-addorcat (color_tag color back) 27 end.new_mask end.new_bg
            (color_tag_short color back)))
  | inr e ↦
      Emits-same
        (λ p same _.
          rw (libirc_colorparser_applycolor, ap (λ m. mask_bit m bit_color) same ∙ e) refl)
        (Emits-after (λ m. with_bit m bit_color true) (λ b. b)
          (Emits-addorcat (color_tag color back) 35 (with_bit mask bit_color true) bg
            (omega (arith, color_tag_short color back))))
]

Emits-set_color :
    (strip : Bool) (c : ColorCode) (mask : ColorMask) (bg : ℕ)
    → Emits (set_color strip c) 35 mask bg
unfolding set_color
Emits-set_color strip c mask bg =
    Emits-if (not (in_range c) || strip) (Emits-nothing 35 mask bg)
      (colored c.foreground c.background)
  where
    colored :
        (color : ℕ) (back : Option ℕ)
        → Emits
            (λ p.
              libirc_colorparser_applycolor color
                (set_background back p).current_bg
                (set_background back p))
            35
            mask
            bg
    colored color none =
        Emits-same (λ p _ same. ap (λ b. libirc_colorparser_applycolor color b p) same)
          (Emits-applycolor color bg mask bg)
    colored color (some back) =
        Emits-after (λ m. m) (λ b. back) (Emits-applycolor color back mask back)

Emits-set_code :
    (strip : Bool) (c : Option ColorCode) (mask : ColorMask) (bg : ℕ)
    → Emits (set_code strip c) 35 mask bg
Emits-set_code strip none mask bg = Emits-nothing 35 mask bg
Emits-set_code strip (some c) mask bg = Emits-set_color strip c mask bg

Emits-convert_byte :
    (strip : Bool) (c : ℕ) (s : Bytes) (mask : ColorMask) (bg : ℕ)
    → Emits (convert_byte strip c s) 35 mask bg
unfolding convert_byte
Emits-convert_byte strip c s mask bg =
    Emits-if (c == 2) (style bit_bold (codes "[B]") (codes "[/B]") (omega arith) (omega arith)) (
      Emits-if (c == 31)
        (style bit_underline (codes "[U]") (codes "[/U]") (omega arith) (omega arith))
        (Emits-if (c == 22)
          (style bit_reverse (codes "[I]") (codes "[/I]") (omega arith) (omega arith))
          (Emits-if (c == 15)
            (Emits-if strip (Emits-nothing 35 mask bg)
              (Emits-more (Emits-closetags mask bg) (omega arith)))
            (Emits-if (c == 3) (Emits-set_code strip (read_color s) mask bg)
              (Emits-addorcat (c ∷ []) 35 mask bg (omega arith))))))
  where
    style :
        (bit : ColorBit) (start end : Bytes)
        → length start ≤ 35
        → length end ≤ 35
        → Emits (λ p. if strip then p else libirc_colorparser_applymask bit start end p) 35 mask bg
    style bit start end h h' =
        Emits-if strip (Emits-nothing 35 mask bg) (Emits-applymask bit start end 35 mask bg h h')

pub Emits-convert_bytes :
    (strip : Bool) (s : Bytes) (skip : ℕ) (mask : ColorMask) (bg : ℕ)
    → Emits (convert_bytes strip s skip) (35 * length s) mask bg
unfolding convert_bytes
Emits-convert_bytes strip [] skip mask bg = Emits-nothing 0 mask bg
Emits-convert_bytes strip (c ∷ s) (suc skip) mask bg =
    Emits-more (Emits-convert_bytes strip s skip mask bg) (omega arith)
Emits-convert_bytes strip (c ∷ s) zero mask bg =
    let byte = Emits-convert_byte strip c s mask bg in
    Emits-more
      (Emits-then byte (Emits-convert_bytes strip s (used_by c s) byte.new_mask byte.new_bg))
      (omega arith)
