-- ===== src/Colors/Emits.antt =====
-- Operations that put out in the second pass what they count in the first one.
use xdccget_for_windows.Base.{
  ◌∙◌, u32, Bool, ◌++◌, none, refl, arith, ◌≤◌, append-nil, ap, append_assoc, sym, some, ℕ,
  length-append, length, [], ◌≡◌, ◌+◌, true, if◌then◌else◌, false,
}
use xdccget_for_windows.Colors.{libirc_colorparser_addorcat, ColorMask, ColorParser}
use xdccget_for_windows.Bytes.{Bytes}

abbrev pub counting : ColorMask → ℕ → ℕ → ColorParser
counting mask bg n = record { mask = mask; written = none; destlen = u32 n; current_bg = bg }

abbrev pub writing : ColorMask → ℕ → Bytes → ℕ → ColorParser
writing mask bg text size = record {
  mask = mask;
  written = some text;
  destlen = size;
  current_bg = bg;
}

-- From a mask and a background, the operation puts the same text out in either pass, at most `most`
-- bytes.
pub record Emits (op : ColorParser → ColorParser) (most : ℕ) (mask : ColorMask) (bg : ℕ)
    : Type 0 where
  pub new_mask : ColorMask
  pub new_bg : ℕ
  pub text : Bytes
  pub counts : (n : ℕ) → op (counting mask bg n) ≡ counting new_mask new_bg (n + length text)
  pub writes :
      (front : Bytes) (size : ℕ)
      → op (writing mask bg front size) ≡ writing new_mask new_bg (front ++ text) size
  pub is_short : length text ≤ most

pub u32_add : (n k : ℕ) → u32 (u32 n + k) ≡ u32 (n + k)
u32_add n k = omega arith

pub Emits-addorcat :
    (str : Bytes) (most : ℕ) (mask : ColorMask) (bg : ℕ)
    → length str ≤ most
    → Emits (libirc_colorparser_addorcat str) most mask bg
unfolding libirc_colorparser_addorcat
Emits-addorcat str most mask bg h = record {
  new_mask = mask;
  new_bg = bg;
  text = str;
  counts = λ n.
      ap (λ d. record { mask = mask; written = none; destlen = d; current_bg = bg })
        (u32_add n (length str));
  writes = λ front size. refl;
  is_short = h;
}

-- Behind a change of the mask and the background that both passes make.
pub Emits-after :
    (f : ColorMask → ColorMask) (g : ℕ → ℕ) {op : ColorParser → ColorParser} {most : ℕ}
    {mask : ColorMask} {bg : ℕ}
    → Emits op most (f mask) (g bg)
    → Emits (λ p. op (record p { mask = f p.mask; current_bg = g p.current_bg })) most mask bg
Emits-after f g e = record {
  new_mask = e.new_mask;
  new_bg = e.new_bg;
  text = e.text;
  counts = e.counts;
  writes = e.writes;
  is_short = e.is_short;
}

pub Emits-nothing : (most : ℕ) (mask : ColorMask) (bg : ℕ) → Emits (λ p. p) most mask bg
Emits-nothing most mask bg = record {
  new_mask = mask;
  new_bg = bg;
  text = [];
  counts = λ n. ap (counting mask bg) (omega arith);
  writes = λ front size. ap (λ t. writing mask bg t size) (sym (append-nil front));
  is_short = omega arith;
}

pub Emits-more :
    {op : ColorParser → ColorParser} {k l : ℕ} {mask : ColorMask} {bg : ℕ}
    → Emits op l mask bg
    → l ≤ k
    → Emits op k mask bg
Emits-more e h = record {
  new_mask = e.new_mask;
  new_bg = e.new_bg;
  text = e.text;
  counts = e.counts;
  writes = e.writes;
  is_short = omega (arith, e.is_short);
}

module _ {f g : ColorParser → ColorParser} {k : ℕ} {mask : ColorMask} {bg : ℕ} where
  pub Emits-then :
      {l : ℕ} (e : Emits f k mask bg)
      → Emits g l e.new_mask e.new_bg
      → Emits (λ p. g (f p)) (k + l) mask bg
  Emits-then e e' = record {
    new_mask = e'.new_mask;
    new_bg = e'.new_bg;
    text = e.text ++ e'.text;
    counts = λ n.
        ap g (e.counts n)
        ∙ e'.counts (n + length e.text)
        ∙ ap (counting e'.new_mask e'.new_bg) (omega (arith, length-append e.text e'.text));
    writes = λ front size.
        ap g (e.writes front size)
        ∙ e'.writes (front ++ e.text) size
        ∙ ap (λ t. writing e'.new_mask e'.new_bg t size) (append_assoc front e.text e'.text);
    is_short = omega (arith, length-append e.text e'.text, e.is_short, e'.is_short);
  }

  -- An operation that does the same from this mask and this background.
  pub Emits-same :
      ((p : ColorParser) → p.mask ≡ mask → p.current_bg ≡ bg → f p ≡ g p)
      → Emits g k mask bg
      → Emits f k mask bg
  Emits-same same e = record {
    new_mask = e.new_mask;
    new_bg = e.new_bg;
    text = e.text;
    counts = λ n. same (counting mask bg n) refl refl ∙ e.counts n;
    writes = λ front size. same (writing mask bg front size) refl refl ∙ e.writes front size;
    is_short = e.is_short;
  }

  pub Emits-if :
      (b : Bool)
      → Emits f k mask bg
      → Emits g k mask bg
      → Emits (λ p. if b then f p else g p) k mask bg
  Emits-if true e e' = e
  Emits-if false e e' = e'
