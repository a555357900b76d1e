-- ===== src/Colors/ToMirc.antt =====
-- libircclient-src/colors.c: irc_color_convert_to_mirc, which writes tags as codes.
pub mod Rounds
pub mod Laws
pub mod Pieces
pub mod Exact
use xdccget_for_windows.Base.{
  [], ◌+◌, ◌%◌, u32, Option, length, some, if◌then◌else◌, ◌==◌, drop, ◌++◌, not, ◌||◌, leb, ◌/◌,
  List, ◌∷◌, none, zero, Bool, ◌&&◌, suc, ℕ,
}
use xdccget_for_windows.Bytes.{str_equals, codes, starts_with, Bytes}
use xdccget_for_windows.Colors.{
  ColorResult, converted, color_replacement_table, overflow, reads_behind, no_memory,
}
use xdccget_for_windows.Requests.Laws.{wanted}

-- The bytes in front of a byte, and those behind it; `none` where it does not occur.
unfoldable pub split_at : ℕ → Bytes → Option (Bytes × Bytes)
split_at wanted [] = none
split_at wanted (c ∷ s) =
    let rest = split_at wanted s in
    if c == wanted
    then some ([], s)
    else elim rest [ none ↦ none | some (before, behind) ↦ some (c ∷ before, behind) ]

abbrev pub lookup_from : ℕ → List Bytes → Bytes → Option ℕ
lookup_from i [] color = none
lookup_from i (name ∷ names) color =
    let rest = lookup_from (i + 1) names color in if str_equals color name then some i else rest

unfoldable pub libirc_colorparser_colorlookup : Bytes → Option ℕ
libirc_colorparser_colorlookup color = lookup_from 0 color_replacement_table color

-- printf's "%02d", for a number below 100.
abbrev pub two_digits : ℕ → Bytes
two_digits n = (b'0' + n / 10) ∷ (b'0' + n % 10) ∷ []

-- The text behind "COLOR=".
unfoldable pub color_code : Bytes → Option Bytes
color_code s = elim (split_at b'/' s) [
  | none ↦ elim (libirc_colorparser_colorlookup s) [
    | none ↦ none
    | some color ↦ some (3 ∷ two_digits color)
  ]
  | some (name, back) ↦ elim (libirc_colorparser_colorlookup name) [
    | none ↦ none
    | some color ↦ elim (libirc_colorparser_colorlookup back) [
      | none ↦ none
      | some bg ↦ some (3 ∷ (two_digits color ++ (b',' ∷ two_digits bg)))
    ]
  ]
]

unfoldable pub replaced_tag : Bytes → Option Bytes
replaced_tag tag =
    if str_equals tag (codes "/COLOR")
    then some (15 ∷ [])
    else if starts_with tag (codes "COLOR=")
    then color_code (drop 6 tag)
    else if str_equals tag (codes "B") || str_equals tag (codes "/B")
    then some (2 ∷ [])
    else if str_equals tag (codes "U") || str_equals tag (codes "/U")
    then some (31 ∷ [])
    else if str_equals tag (codes "I") || str_equals tag (codes "/I")
    then some (22 ∷ [])
    else none

-- What one round of the inner loop adds, and where it goes on. Without a bracket that closes, it
-- copies the NUL and goes on behind it.
pub data TagRound : Type 0 where
  rest_of : Bytes → TagRound
  goes_on : Bytes → Bytes → TagRound
  goes_behind : TagRound

abbrev pub tag_or_text : Bytes → Bytes → Bytes → TagRound
tag_or_text part tag behind =
    elim (if leb 1 (length tag) && leb (length tag) 29 then replaced_tag tag else none) [
      | some code ↦ goes_on (part ++ code) behind
      | none ↦ goes_on (part ++ (b'[' ∷ (tag ++ (b']' ∷ [])))) behind
    ]

unfoldable pub tag_round : Bytes → TagRound
tag_round cur = elim (split_at b'[' cur) [
  | none ↦ rest_of cur
  | some (part, from_tag) ↦ elim (split_at b']' from_tag) [
    | none ↦ goes_behind
    | some (tag, behind) ↦ tag_or_text part tag behind
  ]
]

-- `destlen` is counted while nothing is written.
pub record TagOutput : Type 0 where
  pub written : Option Bytes
  pub destlen : ℕ

unfoldable pub add_text : Bytes → TagOutput → TagOutput
add_text str o = elim o.written [
  | some text ↦ record o { written = some (text ++ str) }
  | none ↦ record o { destlen = u32 (o.destlen + length str) }
]

-- The end of a pass: the text is added, or the pass goes on behind the end of the source.
pub data TagPass : Type 0 where
  passed : TagOutput → TagPass
  passed_behind unfinished : TagPass

-- One pass. Each round takes a byte or more.
unfoldable pub tag_pass : ℕ → Bytes → TagOutput → TagPass
tag_pass zero cur o = unfinished
tag_pass (suc fuel) cur o = elim (tag_round cur) [
  | rest_of str ↦ passed (add_text str o)
  | goes_behind ↦ passed_behind
  | goes_on str behind ↦ tag_pass fuel behind (add_text str o)
]

abbrev pub fill : ℕ → Option Bytes → Option ColorResult
fill size none = none
fill size (some text) =
    if leb (length text + 1) size then some (converted text) else some (overflow text)

abbrev pub second_pass : ℕ → TagPass → Option ColorResult
second_pass size (passed o) = fill size o.written
second_pass size passed_behind = some reads_behind
second_pass size unfinished = none

abbrev pub first_pass : Bool → TagPass → (ℕ → TagPass) → Option ColorResult
first_pass has_memory unfinished rerun = none
first_pass has_memory passed_behind rerun = some reads_behind
first_pass has_memory (passed o) rerun =
    let size = u32 (o.destlen + 1) in
    if size == 0
    then none
    else if not has_memory
    then some no_memory
    else second_pass size (rerun size)

-- `none` stands for a loop that goes on.
unfoldable pub irc_color_convert_to_mirc : Bool → Bytes → Option ColorResult
irc_color_convert_to_mirc has_memory source =
    first_pass has_memory
      (tag_pass (length source + 1) source (record { written = none; destlen = 0 }))
      (λ size. tag_pass (length source + 1) source (record { written = some []; destlen = size }))
