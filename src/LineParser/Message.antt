-- ===== src/LineParser/Message.antt =====
-- The messages of RFC 1459, as the comment in libircclient-src/irc_line_parser.c gives them.
use xdccget_for_windows.Base.{
  ℕ, Bool, true, false, Option, none, some, List, [], ◌∷◌, ◌++◌, ◌==◌, ◌||◌, ◌&&◌, ◌≡◌, ◌≤◌, not,
  length, All, ◌+◌,
}
use xdccget_for_windows.Bytes.{Bytes}
use xdccget_for_windows.LineParser.{IrcParserResult, empty_result, max_params_allowed}

-- <nick> [ '!' <user> ] [ '@' <host> ], or a server's name.
pub record Prefix : Type 0 where
  pub nick : Bytes
  pub user : Option Bytes
  pub host : Option Bytes

-- The parameters are the middle ones and the last, which may stand behind a colon.
pub record Message : Type 0 where
  pub prefix : Option Prefix
  pub command : Bytes
  pub middles : List Bytes
  pub last : Bytes
  pub is_trailing : Bool

abbrev pub render_option : ℕ → Option Bytes → Bytes
render_option c none = []
render_option c (some s) = c ∷ s

abbrev pub render_prefix : Option Prefix → Bytes
render_prefix none = []
render_prefix (some p) =
    b':' ∷ (p.nick ++ (render_option b'!' p.user ++ (render_option b'@' p.host ++ b' ' ∷ [])))

abbrev pub render_middles : List Bytes → Bytes
render_middles [] = []
render_middles (s ∷ ss) = (s ++ b' ' ∷ []) ++ render_middles ss

abbrev pub render_last : Bool → Bytes → Bytes
render_last true s = b':' ∷ s
render_last false s = s

-- The line without its end.
unfoldable pub render_line : Message → Bytes
render_line m =
    render_prefix m.prefix
    ++ ((m.command ++ b' ' ∷ []) ++ (render_middles m.middles ++ render_last m.is_trailing m.last))

unfoldable pub render : Message → Bytes
render m = render_line m ++ 13 ∷ 10 ∷ []

-- None of the bytes is one of `stops`.
abbrev pub one_of : ℕ → Bytes → Bool
one_of c [] = false
one_of c (d ∷ stops) = c == d || one_of c stops

abbrev pub lacks : Bytes → Bytes → Bool
lacks stops [] = true
lacks stops (c ∷ s) = not (one_of c stops) && lacks stops s

abbrev pub lacks_option : Bytes → Option Bytes → Bool
lacks_option stops none = true
lacks_option stops (some s) = lacks stops s

-- NUL, CR, LF and space.
abbrev pub separators : Bytes
separators = 0 ∷ 10 ∷ 13 ∷ b' ' ∷ []

abbrev pub starts_with_colon : Bytes → Bool
starts_with_colon [] = false
starts_with_colon (c ∷ s) = c == b':'

abbrev pub IsPrefix : Prefix → Type 0
IsPrefix p =
    (lacks (b'!' ∷ b'@' ∷ separators) p.nick ≡ true)
    × (lacks_option (b'@' ∷ separators) p.user ≡ true)
    × (lacks_option separators p.host ≡ true)

abbrev pub IsMiddle : Bytes → Type 0
IsMiddle s = (lacks separators s ≡ true) × (starts_with_colon s ≡ false)

abbrev pub IsPrefixOption : Option Prefix → Type 0
IsPrefixOption none = Unit
IsPrefixOption (some p) = IsPrefix p

abbrev pub IsLast : Bool → Bytes → Type 0
IsLast true s = lacks (0 ∷ 10 ∷ 13 ∷ []) s ≡ true
IsLast false s = IsMiddle s

-- A message that the parser can take: no part holds the byte that ends it, and the line and the
-- number of parameters are in the limits.
pub record IsMessage (m : Message) : Type 0 where
  pub prefix_ok : IsPrefixOption m.prefix
  pub command_ok : IsMiddle m.command
  pub middles_ok : All IsMiddle m.middles
  pub last_ok : IsLast m.is_trailing m.last
  pub in_buffer : length (render_line m) ≤ 512
  pub in_params : length m.middles + 1 ≤ max_params_allowed

-- The parts of a message, as a result of the parser.
abbrev pub with_prefix : IrcParserResult → Option Prefix → IrcParserResult
with_prefix r none = r
with_prefix r (some p) = record r { nick = some p.nick; name = p.user; host = p.host }

unfoldable pub parts : Message → IrcParserResult
parts m = record (with_prefix empty_result m.prefix) {
  command = some m.command;
  params = m.middles ++ m.last ∷ [];
}
