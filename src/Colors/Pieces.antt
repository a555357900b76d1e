-- ===== src/Colors/Pieces.antt =====
-- Messages that are made of plain texts and codes, and what is left of them without the codes.
use xdccget_for_windows.Base.{
  ◌≡◌, some, [], ◌/◌, ◌≢◌, refl, ◌<◌, ℕ, true, ◌%◌, ◌+◌, ◌∷◌, false, Option, Bool, length, ◌++◌,
  arith, none, ◌==◌, List, ◌-◌, ap, ◌^◌, ◌∙◌, ◌*◌,
}
use xdccget_for_windows.Colors.Strip.{is_code, used_by_plain, IsPlain, without_codes, stripped}
use xdccget_for_windows.Bytes.{Bytes, isdigit}
use xdccget_for_windows.Colors.ToMirc.{two_digits}
use xdccget_for_windows.Colors.{
  used_by, read_background, read_number, read_color, converted, irc_color_strip_from_mirc,
}

-- A plain text, a code for a style, or a colour with a background or without, with two digits each.
pub data Piece : Type 0 where
  plain_text : Bytes → Piece
  style : ℕ → Piece
  colored : ℕ → Option ℕ → Piece

abbrev pub color_digits : ℕ → Option ℕ → Bytes
color_digits color none = two_digits color
color_digits color (some bg) = two_digits color ++ (b',' ∷ two_digits bg)

abbrev pub piece_bytes : Piece → Bytes
piece_bytes (plain_text s) = s
piece_bytes (style c) = c ∷ []
piece_bytes (colored color bg) = 3 ∷ color_digits color bg

abbrev pub pieces_bytes : List Piece → Bytes
pieces_bytes [] = []
pieces_bytes (p ∷ ps) = piece_bytes p ++ pieces_bytes ps

abbrev pub pieces_text : List Piece → Bytes
pieces_text [] = []
pieces_text (plain_text s ∷ ps) = s ++ pieces_text ps
pieces_text (_ ∷ ps) = pieces_text ps

abbrev pub starts_with_comma : Bytes → Bool
starts_with_comma [] = false
starts_with_comma (c ∷ s) = c == b','

-- No comma follows a colour without a background.
abbrev pub ArePieces : List Piece → Type 0
ArePieces [] = Unit
ArePieces (plain_text s ∷ ps) = IsPlain s × ArePieces ps
ArePieces (style c ∷ ps) = (is_code c ≡ true) × (c ≢ 3) × ArePieces ps
ArePieces (colored color none ∷ ps) =
    (color < 100) × (starts_with_comma (pieces_bytes ps) ≡ false) × ArePieces ps
ArePieces (colored color (some bg) ∷ ps) = (color < 100) × (bg < 100) × ArePieces ps

without_codes-append : (s r : Bytes) → IsPlain s → without_codes (s ++ r) 0 ≡ s ++ without_codes r 0
unfolding without_codes
without_codes-append [] r h = refl
without_codes-append (c ∷ s) r (h, hs) =
    rw (without_codes, h, used_by_plain c (s ++ r) h, without_codes-append s r hs) refl

isdigit_high : (n : ℕ) → n < 100 → isdigit (b'0' + n / 10) ≡ true
isdigit_high n h = ground arith

isdigit_low : (n : ℕ) → isdigit (b'0' + n % 10) ≡ true
isdigit_low n = ground arith

read_number-two_digits :
    (n : ℕ) (r : Bytes) → n < 100 → (v : ℕ) × (read_number (two_digits n ++ r) ≡ some (v, 2))
unfolding read_number
read_number-two_digits n r h = (
  (b'0' + n / 10 - b'0') * 10 + (b'0' + n % 10 - b'0'),
  rw (read_number, isdigit_high n h, isdigit_low n) refl,
)

read_background_absent : (r : Bytes) → starts_with_comma r ≡ false → read_background r ≡ none
unfolding read_background
read_background_absent [] h = refl
read_background_absent (c ∷ s) h = rw (read_background, h) refl

used_by_colored :
    (color : ℕ) (bg : Option ℕ) (ps : List Piece)
    → ArePieces (colored color bg ∷ ps)
    → used_by 3 (color_digits color bg ++ pieces_bytes ps) ≡ length (color_digits color bg)
unfolding used_by read_color read_background
used_by_colored color none ps (h, free, _) =
    let (v, number) = read_number-two_digits color (pieces_bytes ps) h in
    rw (used_by, read_color, number, read_background_absent (pieces_bytes ps) free) refl
used_by_colored color (some bg) ps (h, h', _) =
    let (v, number) = read_number-two_digits color (b',' ∷ (two_digits bg ++ pieces_bytes ps)) h in
    let (v', number') = read_number-two_digits bg (pieces_bytes ps) h' in
    rw (used_by, read_color, number, read_background, number') refl

without_codes-skip : (s r : Bytes) → without_codes (s ++ r) (length s) ≡ without_codes r 0
unfolding without_codes
without_codes-skip [] r = refl
without_codes-skip (c ∷ s) r = without_codes-skip s r

style_used : (c : ℕ) (s : Bytes) → c ≢ 3 → used_by c s ≡ 0
unfolding used_by
style_used c s h = ground (arith, h)

behind_color :
    (color : ℕ) (bg : Option ℕ) (ps : List Piece) → ArePieces (colored color bg ∷ ps) → ArePieces ps
behind_color color none ps (_, _, h) = h
behind_color color (some bg) ps (_, _, h) = h

without_codes-pieces :
    (ps : List Piece) → ArePieces ps → without_codes (pieces_bytes ps) 0 ≡ pieces_text ps
unfolding without_codes
without_codes-pieces [] h = refl
without_codes-pieces (plain_text s ∷ ps) (plain, h) =
    without_codes-append s (pieces_bytes ps) plain
    ∙ ap (λ (r : Bytes). s ++ r) (without_codes-pieces ps h)
without_codes-pieces (style c ∷ ps) (code, other, h) =
    rw (without_codes, code, style_used c (pieces_bytes ps) other) (without_codes-pieces ps h)
without_codes-pieces (colored color bg ∷ ps) h =
    rw (without_codes, used_by_colored color bg ps h)
      (without_codes-skip (color_digits color bg) (pieces_bytes ps)
        ∙ without_codes-pieces ps (behind_color color bg ps h))

-- Removing the codes of a message of less than 64 MB that is made of plain texts, styles, and colours
-- with two digits gives its plain texts one behind the other; no comma follows a colour without a
-- background.
pub irc_color_strip_from_mirc-pieces_text :
    (ps : List Piece)
    → ArePieces ps
    → length (pieces_bytes ps) < 2 ^ 26
    → irc_color_strip_from_mirc true (pieces_bytes ps) ≡ some (converted (pieces_text ps))
irc_color_strip_from_mirc-pieces_text ps h short =
    stripped (pieces_bytes ps) short ∙ ap (λ t. some (converted t)) (without_codes-pieces ps h)
