-- ===== src/Colors.antt =====
-- libircclient-src/colors.c: the codes for bold, underlined, reversed and coloured text, which are
-- removed from a message or written as tags.
pub mod Emits
pub mod Background
pub mod Overflow
pub mod ToMirc
pub mod Passes
pub mod Pieces
pub mod Safety
pub mod Strip
use xdccget_for_windows.Base.{
  length, ◌-◌, zero, List, true, if◌then◌else◌, ◌++◌, ℕ, [], suc, ◌∷◌, ◌*◌, false, drop, not, ◌==◌,
  ◌+◌, Bool, u32, some, Option, get_or, none, ◌&&◌, leb, ◌||◌,
}
use xdccget_for_windows.Bytes.{Bytes, codes, isdigit}

-- The bits of the mask.
pub data ColorBit : Type 0 where
  bit_bold bit_underline bit_reverse bit_color : ColorBit

pub record ColorMask : Type 0 where
  pub bold : Bool
  pub underline : Bool
  pub reverse : Bool
  pub color : Bool

abbrev pub no_mask : ColorMask
no_mask = record { bold = false; underline = false; reverse = false; color = false }

unfoldable pub mask_bit : ColorMask → ColorBit → Bool
mask_bit m bit_bold = m.bold
mask_bit m bit_underline = m.underline
mask_bit m bit_reverse = m.reverse
mask_bit m bit_color = m.color

unfoldable pub with_bit : ColorMask → ColorBit → Bool → ColorMask
with_bit m bit_bold b = record m { bold = b }
with_bit m bit_underline b = record m { underline = b }
with_bit m bit_reverse b = record m { reverse = b }
with_bit m bit_color b = record m { color = b }

-- The variables of libirc_colorparser_irc2code. `written` is the text in front of `d` in the second
-- pass, and `none` where `d` is null.
pub record ColorParser : Type 0 where
  pub mask : ColorMask
  pub written : Option Bytes
  pub destlen : ℕ
  pub current_bg : ℕ

abbrev pub color_replacement_table : List Bytes
color_replacement_table =
    codes "WHITE"
    ∷ codes "BLACK"
    ∷ codes "DARKBLUE"
    ∷ codes "DARKGREEN"
    ∷ codes "RED"
    ∷ codes "BROWN"
    ∷ codes "PURPLE"
    ∷ codes "OLIVE"
    ∷ codes "YELLOW"
    ∷ codes "GREEN"
    ∷ codes "TEAL"
    ∷ codes "CYAN"
    ∷ codes "BLUE"
    ∷ codes "MAGENTA"
    ∷ codes "DARKGRAY"
    ∷ codes "LIGHTGRAY"
    ∷ []

abbrev pub max_colors : ℕ
max_colors = 15

unfoldable pub libirc_colorparser_addorcat : Bytes → ColorParser → ColorParser
libirc_colorparser_addorcat str p = elim p.written [
  | some text ↦ record p { written = some (text ++ str) }
  | none ↦ record p { destlen = u32 (p.destlen + length str) }
]

unfoldable pub libirc_colorparser_applymask : ColorBit → Bytes → Bytes → ColorParser → ColorParser
libirc_colorparser_applymask bit start end p = elim (mask_bit p.mask bit) [
  | true ↦ libirc_colorparser_addorcat end (record p { mask = with_bit p.mask bit false })
  | false ↦ libirc_colorparser_addorcat start (record p { mask = with_bit p.mask bit true })
]

abbrev pub color_name : ℕ → Bytes
color_name i = get_or color_replacement_table i []

abbrev pub color_tag : ℕ → ℕ → Bytes
color_tag color bg =
    if not (bg == 0)
    then codes "[COLOR=" ++ (color_name color ++ (codes "/" ++ (color_name bg ++ codes "]")))
    else codes "[COLOR=" ++ (color_name color ++ codes "]")

unfoldable pub libirc_colorparser_applycolor : ℕ → ℕ → ColorParser → ColorParser
libirc_colorparser_applycolor color bg p = elim (mask_bit p.mask bit_color) [
  | true ↦
      libirc_colorparser_addorcat (color_tag color bg)
        (libirc_colorparser_addorcat (codes "[/COLOR]") p)
  | false ↦
      libirc_colorparser_addorcat (color_tag color bg)
        (record p { mask = with_bit p.mask bit_color true })
]

abbrev pub close_tag : ColorBit → Bytes → ColorParser → ColorParser
close_tag bit end p = elim (mask_bit p.mask bit) [
  | true ↦ libirc_colorparser_applymask bit [] end p
  | false ↦ p
]

unfoldable pub libirc_colorparser_closetags : ColorParser → ColorParser
libirc_colorparser_closetags p = close_tag bit_color (codes "[/COLOR]") (
    close_tag bit_reverse (codes "[/I]")
      (close_tag bit_underline (codes "[/U]") (close_tag bit_bold (codes "[/B]") p)))

-- One digit or two in front of a text: the number, and the bytes it takes.
unfoldable pub read_number : Bytes → Option (ℕ × ℕ)
read_number [] = none
read_number (a ∷ []) = if isdigit a then some (a - b'0', 1) else none
read_number (a ∷ b ∷ s) =
    if isdigit a
    then if isdigit b then some ((a - b'0') * 10 + (b - b'0'), 2) else some (a - b'0', 1)
    else none

unfoldable pub read_background : Bytes → Option (ℕ × ℕ)
read_background [] = none
read_background (c ∷ s) = if c == b',' then read_number s else none

-- What stands behind the byte 3: the colour, the background, and the bytes that are read.
pub record ColorCode : Type 0 where
  pub foreground : ℕ
  pub background : Option ℕ
  pub used : ℕ

unfoldable pub read_color : Bytes → Option ColorCode
read_color s = elim (read_number s) [
  | none ↦ none
  | some (color, n) ↦ elim (read_background (drop n s)) [
    | none ↦ some (record { foreground = color; background = none; used = n })
    | some (bg, m) ↦ some (record { foreground = color; background = some bg; used = n + 1 + m })
  ]
]

abbrev pub background_in_range : Option ℕ → Bool
background_in_range none = true
background_in_range (some bg) = leb bg max_colors

abbrev pub in_range : ColorCode → Bool
in_range c = leb c.foreground max_colors && background_in_range c.background

abbrev pub set_background : Option ℕ → ColorParser → ColorParser
set_background none p = p
set_background (some bg) p = record p { current_bg = bg }

unfoldable pub set_color : Bool → ColorCode → ColorParser → ColorParser
set_color strip c p =
    if not (in_range c) || strip
    then p
    else let q = set_background c.background p in
      libirc_colorparser_applycolor c.foreground q.current_bg q

abbrev pub set_code : Bool → Option ColorCode → ColorParser → ColorParser
set_code strip none p = p
set_code strip (some code) p = set_color strip code p

-- The bytes that one round of the loop takes behind its first.
unfoldable pub used_by : ℕ → Bytes → ℕ
used_by c s = if c == 3 then elim (read_color s) [ none ↦ 0 | some code ↦ code.used ] else 0

-- One round: the byte `c`, with the text `s` behind it.
unfoldable pub convert_byte : Bool → ℕ → Bytes → ColorParser → ColorParser
convert_byte strip c s p =
    if c == 2
    then if strip then p else libirc_colorparser_applymask bit_bold (codes "[B]") (codes "[/B]") p
    else if c == 31
    then if strip
      then p
      else libirc_colorparser_applymask bit_underline (codes "[U]") (codes "[/U]") p
    else if c == 22
    then if strip
      then p
      else libirc_colorparser_applymask bit_reverse (codes "[I]") (codes "[/I]") p
    else if c == 15
    then if strip then p else libirc_colorparser_closetags p
    else if c == 3
    then set_code strip (read_color s) p
    else libirc_colorparser_addorcat (c ∷ []) p

-- The loop over the text; the next `skip` bytes are taken already.
unfoldable pub convert_bytes : Bool → Bytes → ℕ → ColorParser → ColorParser
convert_bytes strip [] skip p = p
convert_bytes strip (c ∷ s) (suc skip) p = convert_bytes strip s skip p
convert_bytes strip (c ∷ s) zero p = convert_bytes strip s (used_by c s) (convert_byte strip c s p)

unfoldable pub convert_pass : Bool → Bytes → ColorParser → ColorParser
convert_pass strip source p =
    let q = libirc_colorparser_closetags (convert_bytes strip source 0 p) in
    record q { destlen = u32 (q.destlen + 1) }

-- A null pointer, a source that is read behind its end, a text, or a text that is written behind the
-- memory that is allocated for it.
pub data ColorResult : Type 0 where
  no_memory reads_behind : ColorResult
  converted overflow : Bytes → ColorResult

abbrev pub with_zero : ℕ → Option Bytes → Option ColorResult
with_zero size none = none
with_zero size (some text) =
    if leb (length text + 1) size then some (converted text) else some (overflow text)

-- Two passes: the first one counts, the second one writes. `none` stands for a third pass, which
-- comes if the length wraps to 0. `has_memory` tells whether malloc succeeds.
unfoldable pub libirc_colorparser_irc2code : Bool → Bool → Bytes → Option ColorResult
libirc_colorparser_irc2code has_memory strip source =
    let p =
      convert_pass strip source
        (record { mask = no_mask; written = none; destlen = 0; current_bg = 0 }) in
    if p.destlen == 0
    then none
    else if not has_memory
    then some no_memory
    else with_zero p.destlen (convert_pass strip source (record p { written = some [] })).written

unfoldable pub irc_color_strip_from_mirc : Bool → Bytes → Option ColorResult
irc_color_strip_from_mirc has_memory message = libirc_colorparser_irc2code has_memory true message

unfoldable pub irc_color_convert_from_mirc : Bool → Bytes → Option ColorResult
irc_color_convert_from_mirc has_memory message =
    libirc_colorparser_irc2code has_memory false message
