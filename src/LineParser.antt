-- ===== src/LineParser.antt =====
-- libircclient-src/irc_line_parser.c: the callbacks that collect the parts of a line, and the
-- parser of a session. The user's data is a pair: the parts, and what the end of a line acts on.
pub mod Message
pub mod Reading
pub mod RoundTrip
pub mod Following
pub mod Execute
use xdccget_for_windows.Base.{
  ℕ, Bool, Option, none, some, List, [], ◌∷◌, ◌++◌, ltb, ◌==◌, if◌then◌else◌, length, ◌&&◌, false,
}
use xdccget_for_windows.Bytes.{Bytes, isdigit}
use xdccget_for_windows.Parser.{IrcParser, IrcParserCb, IrcParserSettings}

-- irc_parser_result_t; num_params is the length of the list.
pub record IrcParserResult : Type 0 where
  pub nick : Option Bytes
  pub name : Option Bytes
  pub host : Option Bytes
  pub command : Option Bytes
  pub params : List Bytes

abbrev pub empty_result : IrcParserResult
empty_result = record { nick = none; name = none; host = none; command = none; params = [] }

-- strncpy stops at a NUL.
unfoldable pub calloc_and_copy_string : Bytes → Bytes
calloc_and_copy_string [] = []
calloc_and_copy_string (c ∷ s) =
    let rest = calloc_and_copy_string s in if c == 0 then [] else c ∷ rest

abbrev pub max_params_allowed : ℕ
max_params_allowed = 100

-- create_prefix_from_result.
unfoldable pub create_prefix_from_result : IrcParserResult → Bytes
create_prefix_from_result r = elim r.nick [
  | none ↦ []
  | some nick ↦ elim r.name [
    | none ↦ nick
    | some name ↦ elim r.host [
      | none ↦ nick ++ b'!' ∷ name
      | some host ↦ nick ++ b'!' ∷ (name ++ b'@' ∷ host)
    ]
  ]
]

unfoldable pub is_numeric_command : Bytes → Bool
is_numeric_command (a ∷ b ∷ c ∷ []) = isdigit a && (isdigit b && isdigit c)
is_numeric_command _ = false

-- The parser of a session, with its data.
abbrev pub LineParser : Type 0 → Type 0
LineParser S = IrcParser (IrcParserResult × S)

module _ {S : Type 0} where
  unfoldable pub on_nick : IrcParserCb (IrcParserResult × S)
  unfolding calloc_and_copy_string
  on_nick (r, s) bytes = ((record r { nick = some (calloc_and_copy_string bytes) }, s), 0)

  unfoldable pub on_name : IrcParserCb (IrcParserResult × S)
  unfolding calloc_and_copy_string
  on_name (r, s) bytes = ((record r { name = some (calloc_and_copy_string bytes) }, s), 0)

  unfoldable pub on_host : IrcParserCb (IrcParserResult × S)
  unfolding calloc_and_copy_string
  on_host (r, s) bytes = ((record r { host = some (calloc_and_copy_string bytes) }, s), 0)

  unfoldable pub on_command : IrcParserCb (IrcParserResult × S)
  unfolding calloc_and_copy_string
  on_command (r, s) bytes = ((record r { command = some (calloc_and_copy_string bytes) }, s), 0)

  unfoldable pub on_param : IrcParserCb (IrcParserResult × S)
  unfolding calloc_and_copy_string
  on_param (r, s) bytes =
      if ltb (length r.params) max_params_allowed
      then ((record r { params = r.params ++ calloc_and_copy_string bytes ∷ [] }, s), 0)
      else ((r, s), 0)

  -- It only writes to the log.
  unfoldable pub on_error : IrcParserCb (IrcParserResult × S)
  on_error u bytes = (u, 0)

  -- The settings of create_line_parser; the end of a line runs `handle` on its parts, if there is a
  -- command.
  abbrev pub handle_end :
      (IrcParserResult → S → IrcParserResult × S) → IrcParserCb (IrcParserResult × S)
  handle_end handle (r, s) bytes = elim r.command [ none ↦ ((r, s), 0) | some _ ↦ (handle r s, 0) ]

  unfoldable pub create_line_parser :
      (IrcParserResult → S → IrcParserResult × S) → IrcParserSettings (IrcParserResult × S)
  unfolding on_nick on_name on_host on_command on_param on_error
  create_line_parser handle = record {
    on_nick = some on_nick;
    on_name = some on_name;
    on_host = some on_host;
    on_command = some on_command;
    on_param = some on_param;
    on_end = some (handle_end handle);
    on_error = some on_error;
  }

  unfoldable pub free_parser_result : LineParser S → LineParser S
  free_parser_result p = record p { user = (empty_result, p.user.1) }
