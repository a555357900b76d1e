-- ===== src/Colors/Background.antt =====
-- What the conversion of a message leaves of the mask and of the background.
use mathlib.Core.Option.{some-injective}
use xdccget_for_windows.Colors.{
  bit_underline, read_background, libirc_colorparser_closetags, set_code, close_tag, ColorCode,
  mask_bit, libirc_colorparser_applymask, no_mask, read_color, bit_bold,
  libirc_colorparser_addorcat, with_bit, ColorParser, libirc_colorparser_applycolor, bit_reverse,
  bit_color, set_color, ColorMask, ColorBit, color_tag, convert_byte, convert_bytes, used_by,
  in_range, read_number, set_background,
}
use xdccget_for_windows.Base.{
  ◌⊎◌, ◌≢◌, Bool, drop, arith, Option-cases, ◌∙◌, inl, none, suc, inr, false, Bool-cases, ℕ, true,
  ◌∷◌, [], refl, ap, ◌≡◌, zero, All, some, sym, ◌==◌, not, ◌||◌, if◌then◌else◌,
}
use xdccget_for_windows.Bytes.{Bytes, codes}

addorcat-mask :
    (str : Bytes) (p : ColorParser)
    → ((libirc_colorparser_addorcat str p).mask ≡ p.mask)
      × ((libirc_colorparser_addorcat str p).current_bg ≡ p.current_bg)
unfolding libirc_colorparser_addorcat
addorcat-mask str p = elim (Option-cases p.written) [
  | inl e ↦ rw (libirc_colorparser_addorcat, e) (refl, refl)
  | inr (text, e) ↦ rw (libirc_colorparser_addorcat, e) (refl, refl)
]

applymask-background :
    (bit : ColorBit) (start end : Bytes) (p : ColorParser)
    → (libirc_colorparser_applymask bit start end p).current_bg ≡ p.current_bg
unfolding libirc_colorparser_applymask
applymask-background bit start end p = elim (Bool-cases (mask_bit p.mask bit)) [
  | inl e ↦
      rw (libirc_colorparser_applymask, e)
        (addorcat-mask end (record p { mask = with_bit p.mask bit false })).1
  | inr e ↦
      rw (libirc_colorparser_applymask, e)
        (addorcat-mask start (record p { mask = with_bit p.mask bit true })).1
]

with_bit_unset :
    (m : ColorMask) (bit : ColorBit) → mask_bit m bit ≡ false → m ≡ with_bit m bit false
unfolding with_bit mask_bit
with_bit_unset m bit_bold e = ap (λ (b : Bool). record m { bold = b }) e
with_bit_unset m bit_underline e = ap (λ (b : Bool). record m { underline = b }) e
with_bit_unset m bit_reverse e = ap (λ (b : Bool). record m { reverse = b }) e
with_bit_unset m bit_color e = ap (λ (b : Bool). record m { color = b }) e

close_tag-mask :
    (bit : ColorBit) (end : Bytes) (p : ColorParser)
    → ((close_tag bit end p).mask ≡ with_bit p.mask bit false)
      × ((close_tag bit end p).current_bg ≡ p.current_bg)
unfolding libirc_colorparser_applymask
close_tag-mask bit end p = elim (Bool-cases (mask_bit p.mask bit)) [
  | inl e ↦
      rw (close_tag, e)
        (rw (libirc_colorparser_applymask, e)
          (addorcat-mask end (record p { mask = with_bit p.mask bit false })))
  | inr e ↦ rw (close_tag, e) (with_bit_unset p.mask bit e, refl)
]

-- No tag stays open.
pub closetags-mask :
    (p : ColorParser)
    → ((libirc_colorparser_closetags p).mask ≡ no_mask)
      × ((libirc_colorparser_closetags p).current_bg ≡ p.current_bg)
unfolding libirc_colorparser_closetags with_bit
closetags-mask p =
    let p₁ = close_tag bit_bold (codes "[/B]") p in
    let p₂ = close_tag bit_underline (codes "[/U]") p₁ in
    let p₃ = close_tag bit_reverse (codes "[/I]") p₂ in
    let (m₁, b₁) = close_tag-mask bit_bold (codes "[/B]") p in
    let (m₂, b₂) = close_tag-mask bit_underline (codes "[/U]") p₁ in
    let (m₃, b₃) = close_tag-mask bit_reverse (codes "[/I]") p₂ in
    let (m₄, b₄) = close_tag-mask bit_color (codes "[/COLOR]") p₃ in
    (
      m₄
          ∙ ap (λ m. with_bit m bit_color false)
              (m₃
                ∙ ap (λ m. with_bit m bit_reverse false)
                    (m₂ ∙ ap (λ m. with_bit m bit_underline false) m₁)),
      b₄ ∙ (b₃ ∙ (b₂ ∙ b₁)),
    )

applycolor-background :
    (color bg : ℕ) (p : ColorParser)
    → (libirc_colorparser_applycolor color bg p).current_bg ≡ p.current_bg
unfolding libirc_colorparser_applycolor
applycolor-background color bg p = elim (Bool-cases (mask_bit p.mask bit_color)) [
  | inl e ↦
      rw (libirc_colorparser_applycolor, e)
        ((addorcat-mask (color_tag color bg) (libirc_colorparser_addorcat (codes "[/COLOR]") p)).1
          ∙ (addorcat-mask (codes "[/COLOR]") p).1)
  | inr e ↦
      rw (libirc_colorparser_applycolor, e)
        (addorcat-mask (color_tag color bg) (record p { mask = with_bit p.mask bit_color true })).1
]

-- The text has no comma, or its codes are removed.
abbrev pub KeepsBackground : Bool → Bytes → Type 0
KeepsBackground strip s = (strip ≡ true) ⊎ All (λ c. c ≢ b',') s

behind :
    {strip : Bool} (c : ℕ) (s : Bytes) → KeepsBackground strip (c ∷ s) → KeepsBackground strip s
behind c s (inl e) = inl e
behind c s (inr h) = inr h.1

drop-All : (n : ℕ) (s : Bytes) → All (λ c. c ≢ b',') s → All (λ c. c ≢ b',') (drop n s)
drop-All zero s h = h
drop-All (suc n) [] h = h
drop-All (suc n) (c ∷ s) h = drop-All n s h.1

read_background-none : (s : Bytes) → All (λ c. c ≢ b',') s → read_background s ≡ none
unfolding read_background
read_background-none [] h = refl
read_background-none (c ∷ s) h = ground (arith, h.0)

set_color-background :
    (strip : Bool) (c : ColorCode) (p : ColorParser)
    → (strip ≡ true) ⊎ (c.background ≡ none)
    → (set_color strip c p).current_bg ≡ p.current_bg
unfolding set_color
set_color-background strip c p h = elim (Bool-cases (not (in_range c) || strip)) [
  | inl e ↦ rw (set_color, e) refl
  | inr e ↦
      rw (set_color, e)
        (applycolor-background c.foreground (set_background c.background p).current_bg
            (set_background c.background p)
          ∙ elim h [
            | inl stripped ↦ absurd (ground (arith, rw stripped at e))
            | inr none_ ↦ ap (λ b. (set_background b p).current_bg) none_
          ])
]

read_color-background :
    (s : Bytes) (c : ColorCode)
    → All (λ c. c ≢ b',') s
    → read_color s ≡ some c
    → c.background ≡ none
unfolding read_color
read_color-background s c h e = elim (Option-cases (read_number s)) [
  | inl none_ ↦ absurd (ground (arith, rw (read_color, none_) at e))
  | inr ((color, n), number) ↦
      let no_background = read_background-none (drop n s) (drop-All n s h) in
      ap (λ (x : ColorCode). x.background)
        (sym (some-injective _ _ (rw (read_color, number, no_background) at e)))
]

set_code-background :
    (strip : Bool) (s : Bytes) (p : ColorParser)
    → KeepsBackground strip s
    → (set_code strip (read_color s) p).current_bg ≡ p.current_bg
set_code-background strip s p h = elim (Option-cases (read_color s)) [
  | inl e ↦ rw e refl
  | inr (c, e) ↦ rw e (
      set_color-background strip c p (elim h [
        | inl stripped ↦ inl stripped
        | inr plain ↦ inr (read_color-background s c plain e)
      ]))
]

convert_byte-background :
    (strip : Bool) (c : ℕ) (s : Bytes) (p : ColorParser)
    → KeepsBackground strip s
    → (convert_byte strip c s p).current_bg ≡ p.current_bg
unfolding convert_byte
convert_byte-background strip c s p h =
    if-both (c == 2) _ _ (style bit_bold (codes "[B]") (codes "[/B]")) (
      if-both (c == 31) _ _ (style bit_underline (codes "[U]") (codes "[/U]")) (
        if-both (c == 22) _ _ (style bit_reverse (codes "[I]") (codes "[/I]")) (
          if-both (c == 15) _ _ (if-both strip _ _ refl (closetags-mask p).1)
            (if-both (c == 3) _ _ (set_code-background strip s p h) (addorcat-mask (c ∷ []) p).1))))
  where
    if-both :
        (b : Bool) (x y : ColorParser)
        → x.current_bg ≡ p.current_bg
        → y.current_bg ≡ p.current_bg
        → (if b then x else y).current_bg ≡ p.current_bg
    if-both true x y e f = e
    if-both false x y e f = f

    style :
        (bit : ColorBit) (start end : Bytes)
        → (if strip then p else libirc_colorparser_applymask bit start end p).current_bg
          ≡ p.current_bg
    style bit start end = if-both strip _ _ refl (applymask-background bit start end p)

pub convert_bytes-background :
    (strip : Bool) (s : Bytes) (skip : ℕ) (p : ColorParser)
    → KeepsBackground strip s
    → (convert_bytes strip s skip p).current_bg ≡ p.current_bg
unfolding convert_bytes
convert_bytes-background strip [] skip p h = refl
convert_bytes-background strip (c ∷ s) (suc skip) p h =
    convert_bytes-background strip s skip p (behind c s h)
convert_bytes-background strip (c ∷ s) zero p h =
    convert_bytes-background strip s (used_by c s) (convert_byte strip c s p) (behind c s h)
    ∙ convert_byte-background strip c s p (behind c s h)
