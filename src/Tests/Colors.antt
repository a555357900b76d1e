-- ===== src/Tests/Colors.antt =====
-- Messages with colours and tags.
use xdccget_for_windows.Colors.{
  convert_bytes, set_color, libirc_colorparser_applymask, libirc_colorparser_irc2code, used_by,
  reads_behind, convert_pass, libirc_colorparser_closetags, overflow, irc_color_convert_from_mirc,
  irc_color_strip_from_mirc, libirc_colorparser_applycolor, converted, libirc_colorparser_addorcat,
  read_number, mask_bit, with_bit, convert_byte, read_background, read_color,
}
use xdccget_for_windows.Base.{
  ◌++◌, arith, ◌≤◌, ◌∷◌, some, refl, ◌≡◌, true, [], length, List, none, false, inr, ◌+◌, ℕ, ◌≢◌,
}
use xdccget_for_windows.Colors.Overflow.{late_background, irc_color_convert_from_mirc_overflows}
use xdccget_for_windows.Bytes.{codes, str_equals, Bytes, starts_with}
use xdccget_for_windows.Colors.ToMirc.{
  replaced_tag, tag_round, tag_pass, irc_color_convert_to_mirc, color_code, split_at,
  libirc_colorparser_colorlookup, add_text,
}
use xdccget_for_windows.Colors.Safety.{irc_color_convert_from_mirc_fits, refill, start}
use xdccget_for_windows.Colors.Strip.{IsPlain, irc_color_strip_from_mirc-IsPlain}
use xdccget_for_windows.Colors.ToMirc.Laws.{irc_color_convert_to_mirc_unclosed}
use xdccget_for_windows.Colors.Pieces.{
  Piece, irc_color_strip_from_mirc-pieces_text, plain_text, pieces_bytes, colored, style,
}
use xdccget_for_windows.Colors.ToMirc.Pieces.{
  bold_tag, TagPiece, color_tag_piece, plain_part, other_tag, color_end, IsUnknown,
}
use xdccget_for_windows.Colors.ToMirc.Exact.{irc_color_convert_to_mirc-text_of}
use xdccget_for_windows.Bytes.Laws.{str_equals_iff}

-- "b" in bold, and "c" in red.
abbrev formatted : Bytes
formatted = 2 ∷ b'b' ∷ 2 ∷ 3 ∷ b'4' ∷ b'c' ∷ []

irc_color_strip_from_mirc-IsPlain_example :
    (text : Bytes) × (irc_color_strip_from_mirc true formatted ≡ some (converted text))
    × IsPlain text
    × (length text ≤ length formatted)
    × (irc_color_strip_from_mirc true text ≡ some (converted text))
irc_color_strip_from_mirc-IsPlain_example =
    irc_color_strip_from_mirc-IsPlain formatted (omega arith)

abbrev styled_pieces : List Piece
styled_pieces =
    style 2
    ∷ plain_text (codes "b")
    ∷ style 15
    ∷ colored 4 (some 1)
    ∷ plain_text (codes "7,")
    ∷ colored 12 none
    ∷ plain_text (codes "c,3")
    ∷ []

irc_color_strip_from_mirc-pieces_text_example :
    irc_color_strip_from_mirc true (pieces_bytes styled_pieces) ≡ some (converted (codes "b7,c,3"))
irc_color_strip_from_mirc-pieces_text_example =
    irc_color_strip_from_mirc-pieces_text styled_pieces
      (
        refl,
        λ e. omega arith,
        (
          (refl, tt),
          (
            refl,
            λ e. omega arith,
            (
              omega arith,
              omega arith,
              ((refl, (refl, tt)), (omega arith, refl, ((refl, (refl, (refl, tt))), tt))),
            ),
          ),
        ),
      )
      (omega arith)

irc_color_convert_from_mirc_fits_example :
    (text : Bytes) × ((convert_pass false formatted start).destlen ≡ length text + 1)
    × ((size : ℕ) → (convert_pass false formatted (refill size)).written ≡ some text)
    × (irc_color_convert_from_mirc true formatted ≡ some (converted text))
irc_color_convert_from_mirc_fits_example =
    irc_color_convert_from_mirc_fits formatted
      (
        λ e. omega arith,
        (
          λ e. omega arith,
          (λ e. omega arith, (λ e. omega arith, (λ e. omega arith, (λ e. omega arith, tt)))),
        ),
      )
      (omega arith)

irc_color_convert_from_mirc_overflows_example :
    irc_color_convert_from_mirc true (codes "hi " ++ late_background)
    ≡ some (
        overflow (
          codes "hi "
          ++ (codes "[COLOR=RED/DARKBLUE]a[/COLOR]" ++ codes "[COLOR=BROWN/DARKBLUE][/COLOR]")))
irc_color_convert_from_mirc_overflows_example =
    irc_color_convert_from_mirc_overflows (codes "hi ") (refl, (refl, (refl, tt))) (omega arith)

distinct : (s r : Bytes) → str_equals s r ≡ false → s ≢ r
distinct s r h e = absurd (ground (arith, h, (str_equals_iff s r).1 e))

y-IsUnknown : IsUnknown (codes "y")
unfolding str_equals starts_with
y-IsUnknown = (
  (
    distinct (codes "y") (codes "/COLOR") refl,
    (
      distinct (codes "y") (codes "B") refl,
      (
        distinct (codes "y") (codes "/B") refl,
        (
          distinct (codes "y") (codes "U") refl,
          (
            distinct (codes "y") (codes "/U") refl,
            (distinct (codes "y") (codes "I") refl, (distinct (codes "y") (codes "/I") refl, tt)),
          ),
        ),
      ),
    ),
  ),
  refl,
)

abbrev tagged : List TagPiece
tagged =
    bold_tag true
    ∷ plain_part (codes "hi]")
    ∷ bold_tag false
    ∷ color_tag_piece 4 (some 1)
    ∷ plain_part (codes "x")
    ∷ color_end
    ∷ other_tag (codes "y")
    ∷ []

irc_color_convert_to_mirc-text_of_example :
    irc_color_convert_to_mirc true (codes "[B]hi][/B][COLOR=RED/BLACK]x[/COLOR][y]")
    ≡ some (converted (2 ∷ b'h' ∷ b'i' ∷ b']' ∷ 2 ∷ 3 ∷ (codes "04,01x" ++ (15 ∷ codes "[y]"))))
irc_color_convert_to_mirc-text_of_example =
    irc_color_convert_to_mirc-text_of tagged
      (
        tt,
        (
          (λ e. omega arith, (λ e. omega arith, (λ e. omega arith, tt))),
          (
            tt,
            (
              (omega arith, omega arith),
              ((λ e. omega arith, tt), (tt, (((λ e. omega arith, tt), inr y-IsUnknown), tt))),
            ),
          ),
        ),
      )
      (omega arith)

irc_color_convert_to_mirc_unclosed_example :
    irc_color_convert_to_mirc true (codes "a" ++ (b'[' ∷ codes "b")) ≡ some reads_behind
irc_color_convert_to_mirc_unclosed_example =
    irc_color_convert_to_mirc_unclosed true (codes "a") (codes "b") (λ e. omega arith, tt)
      (λ e. omega arith, tt)

-- The tags of a text.
tags_to_mirc :
    irc_color_convert_to_mirc true (codes "[COLOR=RED]a[/COLOR] [x]")
    ≡ some (converted (3 ∷ b'0' ∷ b'4' ∷ b'a' ∷ 15 ∷ codes " [x]"))
unfolding irc_color_convert_to_mirc tag_pass tag_round split_at replaced_tag color_code str_equals
    starts_with libirc_colorparser_colorlookup add_text
tags_to_mirc = refl

tags_from_mirc :
    irc_color_convert_from_mirc true formatted
    ≡ some (converted (codes "[B]b[/B][COLOR=RED]c[/COLOR]"))
unfolding irc_color_convert_from_mirc libirc_colorparser_irc2code convert_pass convert_bytes
    libirc_colorparser_addorcat libirc_colorparser_closetags libirc_colorparser_applymask
    libirc_colorparser_applycolor mask_bit with_bit used_by read_color read_number read_background
    convert_byte set_color
tags_from_mirc = refl
