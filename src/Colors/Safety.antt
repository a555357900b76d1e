-- ===== src/Colors/Safety.antt =====
-- Messages whose conversion counts in the first pass what it writes in the second one.
use xdccget_for_windows.Colors.{
  no_mask, libirc_colorparser_closetags, ColorMask, converted, libirc_colorparser_irc2code,
  ColorParser, convert_bytes, convert_pass, irc_color_convert_from_mirc,
}
use xdccget_for_windows.Base.{
  u32, Bool, ◌∙◌, true, ℕ, some, sym, ◌*◌, ◌<◌, length, ◌^◌, ◌≡◌, [], ◌+◌, ap₂, arith, ap, none,
  false, All, inr, ◌≢◌,
}
use xdccget_for_windows.Colors.Background.{
  convert_bytes-background, KeepsBackground, closetags-mask,
}
use xdccget_for_windows.Bytes.{Bytes}
use xdccget_for_windows.Colors.Emits.{Emits, Emits-then}
use xdccget_for_windows.Colors.Passes.{Emits-closetags, Emits-convert_bytes}

abbrev pub start : ColorParser
start = record { mask = no_mask; written = none; destlen = 0; current_bg = 0 }

-- The second pass starts where the first one has ended.
abbrev pub refill : ℕ → ColorParser
refill size = record start { written = some []; destlen = size }

Emits-source :
    (strip : Bool) (source : Bytes)
    → Emits
        (λ p. libirc_colorparser_closetags (convert_bytes strip source 0 p))
        (35 * length source + 20)
        no_mask
        0
Emits-source strip source =
    let e = Emits-convert_bytes strip source 0 no_mask 0 in
    Emits-then e (Emits-closetags e.new_mask e.new_bg)

pub size_is_left : (n : ℕ) → n + 1 < 2 ^ 32 → u32 (u32 (0 + n) + 1) ≡ n + 1
size_is_left n h = omega arith

module _ (strip : Bool) (source : Bytes) (keeps : KeepsBackground strip source) where
  abbrev put_out :
      Emits
        (λ p. libirc_colorparser_closetags (convert_bytes strip source 0 p))
        (35 * length source + 20)
        no_mask
        0
  put_out = Emits-source strip source

  ends_unmasked : put_out.new_mask ≡ no_mask
  ends_unmasked =
      ap (λ (p : ColorParser). p.mask) (sym (put_out.counts 0))
      ∙ (closetags-mask (convert_bytes strip source 0 start)).0

  ends_uncolored : put_out.new_bg ≡ 0
  ends_uncolored =
      ap (λ (p : ColorParser). p.current_bg) (sym (put_out.counts 0))
      ∙ ((closetags-mask (convert_bytes strip source 0 start)).1
          ∙ convert_bytes-background strip source 0 start keeps)

  first_pass :
      length source < 2 ^ 26
      → convert_pass strip source start ≡ record {
        mask = no_mask;
        written = none;
        destlen = length put_out.text + 1;
        current_bg = 0;
      }
  unfolding convert_pass
  first_pass h =
      ap (λ (p : ColorParser). record p { destlen = u32 (p.destlen + 1) }) (put_out.counts 0)
      ∙ ap₂
          (λ (m : ColorMask) (bg : ℕ). record {
            mask = m;
            written = none;
            destlen = u32 (u32 (0 + length put_out.text) + 1);
            current_bg = bg;
          })
          ends_unmasked ends_uncolored
      ∙ ap (λ (n : ℕ). record { mask = no_mask; written = none; destlen = n; current_bg = 0 })
          (size_is_left (length put_out.text) (omega (arith, put_out.is_short)))

  second_pass :
      (size : ℕ)
      → (convert_pass strip source
          (record { mask = no_mask; written = some []; destlen = size; current_bg = 0 })).written
        ≡ some put_out.text
  unfolding convert_pass
  second_pass size = ap (λ (p : ColorParser). p.written) (put_out.writes [] size)

  pub irc2code-converted :
      length source < 2 ^ 26
      → (text : Bytes) × (libirc_colorparser_irc2code true strip source ≡ some (converted text))
        × ((convert_pass strip source start).destlen ≡ length text + 1)
        × ((size : ℕ) → (convert_pass strip source (refill size)).written ≡ some text)
  unfolding libirc_colorparser_irc2code
  irc2code-converted h = (
    put_out.text,
    rw (libirc_colorparser_irc2code, first_pass h, second_pass (length put_out.text + 1))
        (ground arith),
    ap (λ (p : ColorParser). p.destlen) (first_pass h),
    second_pass,
  )

-- For a message without a comma, of less than 64 MB, the first pass counts exactly the bytes of the
-- text that the second pass writes, whatever the memory's size, and the NUL behind it; the conversion
-- to tags gives this text, and writes nothing behind the memory that is allocated for it.
pub irc_color_convert_from_mirc_fits :
    (message : Bytes)
    → All (λ c. c ≢ b',') message
    → length message < 2 ^ 26
    → (text : Bytes) × ((convert_pass false message start).destlen ≡ length text + 1)
      × ((size : ℕ) → (convert_pass false message (refill size)).written ≡ some text)
      × (irc_color_convert_from_mirc true message ≡ some (converted text))
unfolding irc_color_convert_from_mirc
irc_color_convert_from_mirc_fits message plain h =
    let (text, result, counted, in_second) = irc2code-converted false message (inr plain) h in
    (text, counted, in_second, result)
