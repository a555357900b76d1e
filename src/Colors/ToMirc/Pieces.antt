-- ===== src/Colors/ToMirc/Pieces.antt =====
-- Texts that are made of plain text and tags, and what they are converted to.
use xdccget_for_windows.Colors.ToMirc.{
  two_digits, libirc_colorparser_colorlookup, replaced_tag, color_code, goes_on, tag_or_text,
}
use xdccget_for_windows.Base.{
  inl, true, Option, Bool, leb, ◌&&◌, not, arith, false, ◌++◌, refl, inr, zero, none, if◌then◌else◌,
  ℕ, ◌==◌, suc, ◌≡◌, List, ◌∷◌, All, ◌<◌, length, some, ◌≢◌, [], ◌⊎◌, Bool-cases, ◌≤◌, ==_iff,
  append-nil, ◌∙◌, ap,
}
use xdccget_for_windows.Bytes.{Bytes, str_equals, codes, starts_with}
use xdccget_for_windows.Colors.{color_name}
use xdccget_for_windows.Colors.ToMirc.Laws.{split_at-none, split_at_first}
use xdccget_for_windows.Bytes.Laws.{str_equals_iff}

-- A plain text; a tag that opens or closes bold, underlined or reversed text; one for a colour, with a
-- background or without; the one behind a colour; and a tag that has no meaning.
pub data TagPiece : Type 0 where
  plain_part : Bytes → TagPiece
  bold_tag underline_tag reverse_tag : (opens : Bool) → TagPiece
  color_tag_piece : ℕ → Option ℕ → TagPiece
  color_end : TagPiece
  other_tag : Bytes → TagPiece

abbrev slash : Bool → Bytes → Bytes
slash opens name = if opens then name else b'/' ∷ name

abbrev pub background_name : Option ℕ → Bytes
background_name none = []
background_name (some bg) = b'/' ∷ color_name bg

abbrev pub tag_name : TagPiece → Bytes
tag_name (plain_part s) = []
tag_name (bold_tag opens) = slash opens (codes "B")
tag_name (underline_tag opens) = slash opens (codes "U")
tag_name (reverse_tag opens) = slash opens (codes "I")
tag_name (color_tag_piece color bg) = codes "COLOR=" ++ (color_name color ++ background_name bg)
tag_name color_end = codes "/COLOR"
tag_name (other_tag tag) = tag

abbrev pub brackets : Bytes → Bytes
brackets tag = b'[' ∷ (tag ++ (b']' ∷ []))

abbrev pub tag_bytes : TagPiece → Bytes
tag_bytes (plain_part s) = s
tag_bytes p = brackets (tag_name p)

abbrev pub background_code : Option ℕ → Bytes
background_code none = []
background_code (some bg) = b',' ∷ two_digits bg

abbrev pub tag_text : TagPiece → Bytes
tag_text (plain_part s) = s
tag_text (bold_tag opens) = 2 ∷ []
tag_text (underline_tag opens) = 31 ∷ []
tag_text (reverse_tag opens) = 22 ∷ []
tag_text (color_tag_piece color bg) = 3 ∷ (two_digits color ++ background_code bg)
tag_text color_end = 15 ∷ []
tag_text (other_tag tag) = brackets tag

abbrev pub source_of : List TagPiece → Bytes
source_of [] = []
source_of (p ∷ ps) = tag_bytes p ++ source_of ps

abbrev pub text_of : List TagPiece → Bytes
text_of [] = []
text_of (p ∷ ps) = tag_text p ++ text_of ps

abbrev pub IsBackground : Option ℕ → Type 0
IsBackground none = Unit
IsBackground (some bg) = bg < 16

abbrev known_tags : List Bytes
known_tags =
    codes "/COLOR" ∷ codes "B" ∷ codes "/B" ∷ codes "U" ∷ codes "/U" ∷ codes "I" ∷ codes "/I" ∷ []

abbrev pub IsUnknown : Bytes → Type 0
IsUnknown tag = All (λ name. tag ≢ name) known_tags × (starts_with tag (codes "COLOR=") ≡ false)

-- A plain text has no opening bracket. A tag without a meaning is empty, longer than 29 bytes, or
-- neither one of those that are known nor begins with "COLOR="; it has no closing bracket.
abbrev pub IsTagPiece : TagPiece → Type 0
IsTagPiece (plain_part s) = All (λ c. c ≢ b'[') s
IsTagPiece (color_tag_piece color bg) = (color < 16) × IsBackground bg
IsTagPiece (other_tag tag) =
    All (λ c. c ≢ b']') tag × (((tag ≡ []) ⊎ (29 < length tag)) ⊎ IsUnknown tag)
IsTagPiece _ = Unit

is_looked_up : ℕ → Bool
is_looked_up n = elim (libirc_colorparser_colorlookup (color_name n)) [
  | none ↦ false
  | some m ↦ m == n
]

unfoldable pub has_no : ℕ → Bytes → Bool
has_no b [] = true
has_no b (c ∷ s) = not (c == b) && has_no b s

all_below : ℕ → (ℕ → Bool) → Bool
all_below zero f = true
all_below (suc n) f = f n && all_below n f

and_left : (a b : Bool) → (a && b) ≡ true → a ≡ true
and_left a b h = ground arith

all_below_at : (n k : ℕ) (f : ℕ → Bool) → all_below n f ≡ true → k < n → f k ≡ true
unfolding all_below
all_below_at zero k f h l = absurd (omega arith)
all_below_at (suc n) k f h l = elim (Bool-cases (k == n)) [
  | inl e ↦ ap f ((==_iff k n).0 e) ∙ and_left (f n) (all_below n f) h
  | inr e ↦ all_below_at n k f (ground arith) (ground arith)
]

is_name : ℕ → Bool
is_name n =
    is_looked_up n
    && (has_no b'/' (color_name n) && (has_no b']' (color_name n) && leb (length (color_name n)) 9))

names_right : all_below 16 is_name ≡ true
unfolding all_below is_name is_looked_up has_no libirc_colorparser_colorlookup str_equals
names_right = refl

pub has_no-All : (b : ℕ) (s : Bytes) → has_no b s ≡ true → All (λ c. c ≢ b) s
unfolding has_no
has_no-All b [] h = tt
has_no-All b (c ∷ s) h = (λ e. ground arith, has_no-All b s (ground arith))

-- What a name of a colour is like.
pub color_name_right :
    (n : ℕ)
    → n < 16
    → (libirc_colorparser_colorlookup (color_name n) ≡ some n)
      × All (λ c. c ≢ b'/') (color_name n)
      × All (λ c. c ≢ b']') (color_name n)
      × (length (color_name n) ≤ 9)
unfolding is_name is_looked_up
color_name_right n h =
    let right = all_below_at 16 n is_name names_right h in
    (
      ground (arith, right),
      has_no-All b'/' (color_name n) (ground (arith, right)),
      has_no-All b']' (color_name n) (ground (arith, right)),
      ground (arith, right),
    )

pub color_code_right :
    (color : ℕ) (bg : Option ℕ)
    → color < 16
    → IsBackground bg
    → color_code (color_name color ++ background_name bg)
      ≡ some (3 ∷ (two_digits color ++ background_code bg))
unfolding color_code
color_code_right color none h tt =
    let (found, free, _, _) = color_name_right color h in
    ap color_code (append-nil (color_name color))
    ∙ rw (color_code, split_at-none b'/' (color_name color) free, found) refl
color_code_right color (some bg) h h' =
    let (found, free, _, _) = color_name_right color h in
    let (found', _, _, _) = color_name_right bg h' in
    rw (color_code, split_at_first b'/' (color_name color) (color_name bg) free, found, found') refl

unfoldable pub fits : Bytes → Bool
fits tag = leb 1 (length tag) && leb (length tag) 29

pub tag_or_text_known :
    (part tag behind code : Bytes)
    → fits tag ≡ true
    → replaced_tag tag ≡ some code
    → tag_or_text part tag behind ≡ goes_on (part ++ code) behind
unfolding fits
tag_or_text_known part tag behind code h e = rw (tag_or_text, h, e) refl

pub tag_or_text_unknown :
    (part tag behind : Bytes)
    → (fits tag ≡ false) ⊎ (replaced_tag tag ≡ none)
    → tag_or_text part tag behind ≡ goes_on (part ++ brackets tag) behind
unfolding fits
tag_or_text_unknown part tag behind (inl h) = rw (tag_or_text, h) refl
tag_or_text_unknown part tag behind (inr e) = elim (Bool-cases (fits tag)) [
  | inl h ↦ rw (tag_or_text, h, e) refl
  | inr h ↦ rw (tag_or_text, h) refl
]

unequal : (s r : Bytes) → s ≢ r → str_equals s r ≡ false
unequal s r ne = elim (Bool-cases (str_equals s r)) [
  | inl e ↦ absurd (ne ((str_equals_iff s r).0 e))
  | inr e ↦ e
]

pub replaced_tag-IsUnknown : (tag : Bytes) → IsUnknown tag → replaced_tag tag ≡ none
unfolding replaced_tag
replaced_tag-IsUnknown tag ((a, (b, (c, (d, (e, (f, (g, _))))))), starts) =
    rw
      (
        replaced_tag,
        unequal tag (codes "/COLOR") a,
        unequal tag (codes "B") b,
        unequal tag (codes "/B") c,
        unequal tag (codes "U") d,
        unequal tag (codes "/U") e,
        unequal tag (codes "I") f,
        unequal tag (codes "/I") g,
        starts,
      )
      refl
