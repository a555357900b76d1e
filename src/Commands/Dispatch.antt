-- ===== src/Commands/Dispatch.antt =====
-- libircclient-src/irc_line_parser.c and utils.c: the end of a line, and the session's own answer to
-- CTCP requests.
use xdccget_for_windows.Base.{
  ℕ, length, not, some, ◌==◌, none, ◌||◌, ◌*◌, ◌&&◌, [], ◌∷◌, ◌+◌, ◌-◌, ◌++◌, Option, if◌then◌else◌,
  true,
}
use xdccget_for_windows.Commands.{IrcCallbacks, EventCallback, call_event, execute, get_command}
use xdccget_for_windows.Bytes.{codes, str_equals, starts_with, Bytes}
use xdccget_for_windows.LineParser.{is_numeric_command, IrcParserResult}
use xdccget_for_windows.Session.{irc_target_get_nick, IrcSession, irc_cmd_ctcp_reply}

-- atoi of three digits.
abbrev three_digits : Bytes → ℕ
three_digits (a ∷ b ∷ c ∷ []) = 100 * (a - b'0') + 10 * (b - b'0') + (c - b'0')
three_digits _ = 0

abbrev call_numeric :
    Option (IrcSession → ℕ → IrcParserResult → IrcSession)
    → IrcSession
    → ℕ
    → IrcParserResult
    → IrcSession
call_numeric none s code r = s
call_numeric (some f) s code r = f s code r

-- The first end of the message of the day, or its absence, means that the server took the client.
abbrev connect_at_motd : IrcCallbacks → IrcSession → ℕ → IrcParserResult → IrcSession
connect_at_motd cbs s code r =
    if (code == 376 || code == 422) && not s.motd_received
    then (call_event cbs.event_connect (record s { motd_received = true }) (codes "CONNECT") r).1
    else s

unfoldable pub handle_numeric :
    IrcCallbacks → ℕ → IrcParserResult → IrcSession → IrcParserResult × IrcSession
handle_numeric cbs code r s =
    (r, call_numeric cbs.event_numeric (connect_at_motd cbs s code r) code r)

unfoldable pub handle_command :
    IrcCallbacks → Bytes → IrcParserResult → IrcSession → IrcParserResult × IrcSession
handle_command cbs command r s =
    if is_numeric_command command
    then handle_numeric cbs (three_digits command) r s
    else execute cbs (get_command command (length command)) s command r

unfoldable pub handle_parser_result :
    IrcCallbacks → IrcParserResult → IrcSession → IrcParserResult × IrcSession
handle_parser_result cbs r s = elim r.command [
  | none ↦ (r, s)
  | some command ↦ handle_command cbs command r s
]

abbrev get_or_text : Option Bytes → Bytes → Bytes
get_or_text none text = text
get_or_text (some t) text = t

-- The names in the answer to FINGER are short enough for its buffer; `time_text` is what strftime
-- prints. The nick is looked for in the line's host.
unfoldable pub libirc_event_ctcp_internal : Bytes → EventCallback
libirc_event_ctcp_internal time_text s event r = elim r.host [
  | none ↦ s
  | some origin ↦ elim r.params [
    | [] ↦ s
    | request ∷ _ ↦
        let reply = λ (text : Bytes).
          (irc_cmd_ctcp_reply s (some (irc_target_get_nick origin 128)) (some text)).0 in
        if starts_with request (codes "PING")
        then reply request
        else if str_equals request (codes "VERSION")
        then reply (codes "VERSION  mIRC v6.16")
        else if str_equals request (codes "FINGER")
        then reply (
            codes "FINGER "
            ++ (get_or_text s.username (codes "nobody")
                ++ (codes " ("
                    ++ (get_or_text s.realname (codes "noname") ++ codes ") Idle 0 seconds"))))
        else if str_equals request (codes "TIME")
        then reply time_text
        else s
  ]
]
