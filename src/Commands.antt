-- ===== src/Commands.antt =====
-- libircclient-src/commands.c, utils.c and irc_line_parser.c: what a line of the server makes the
-- session do. A handler may change the parts of the line, as the source does through its pointer.
-- The parameters are those below num_params; one that is not there is NULL, and reading it ends in
-- `fault`.
pub mod Dispatch
pub mod Laws
use xdccget_for_windows.World.{fault}
use xdccget_for_windows.Session.{IrcSession, on_client, irc_send_raw}
use xdccget_for_windows.LineParser.{IrcParserResult}
use xdccget_for_windows.Base.{
  ℕ, Bool, false, Option, none, some, List, [], ◌∷◌, ◌++◌, ◌==◌, ◌&&◌, if◌then◌else◌, length, take,
  drop, min,
}
use xdccget_for_windows.Bytes.{Bytes, codes, strn_equals, str_case_equals}

abbrev pub EventCallback : Type 0
EventCallback = IrcSession → Bytes → IrcParserResult → IrcSession

-- irc_callbacks_t, as far as a line of the server calls its members; `dcc_request` is
-- libirc_dcc_request, and `time_text` what strftime prints.
pub record IrcCallbacks : Type 0 where
  pub event_connect : Option EventCallback
  pub event_nick : Option EventCallback
  pub event_quit : Option EventCallback
  pub event_join : Option EventCallback
  pub event_part : Option EventCallback
  pub event_mode : Option EventCallback
  pub event_umode : Option EventCallback
  pub event_topic : Option EventCallback
  pub event_kick : Option EventCallback
  pub event_channel : Option EventCallback
  pub event_privmsg : Option EventCallback
  pub event_notice : Option EventCallback
  pub event_channel_notice : Option EventCallback
  pub event_invite : Option EventCallback
  pub event_ctcp_req : Option EventCallback
  pub event_ctcp_rep : Option EventCallback
  pub event_ctcp_action : Option EventCallback
  pub event_unknown : Option EventCallback
  pub event_numeric : Option (IrcSession → ℕ → IrcParserResult → IrcSession)
  pub dcc_request : IrcSession → IrcParserResult → Bytes → IrcSession

pub data IrcCommand : Type 0 where
  irc_ping irc_nick irc_quit irc_join irc_part irc_mode irc_topic irc_kick : IrcCommand
  irc_privmsg irc_notice irc_invite irc_kill irc_unknown : IrcCommand

abbrev pub commands : List (Bytes × IrcCommand)
commands =
    (codes "PING", irc_ping)
    ∷ (codes "NICK", irc_nick)
    ∷ (codes "QUIT", irc_quit)
    ∷ (codes "JOIN", irc_join)
    ∷ (codes "PART", irc_part)
    ∷ (codes "MODE", irc_mode)
    ∷ (codes "TOPIC", irc_topic)
    ∷ (codes "KICK", irc_kick)
    ∷ (codes "PRIVMSG", irc_privmsg)
    ∷ (codes "NOTICE", irc_notice)
    ∷ (codes "INVITE", irc_invite)
    ∷ (codes "KILL", irc_kill)
    ∷ []

-- The loop of get_command.
unfoldable pub find_command : List (Bytes × IrcCommand) → Bytes → ℕ → IrcCommand
find_command [] text n = irc_unknown
find_command ((name, command) ∷ rest) text n =
    if strn_equals text name n then command else find_command rest text n

unfoldable pub get_command : Bytes → ℕ → IrcCommand
get_command text n = if n == 0 then irc_unknown else find_command commands text n

abbrev Handled : Type 0
Handled = IrcParserResult × IrcSession

abbrev crash : IrcSession → IrcSession
crash s = on_client s (λ w. fault)

abbrev pub call_event : Option EventCallback → IrcSession → Bytes → IrcParserResult → Handled
call_event none s event r = (r, s)
call_event (some f) s event r = (r, f s event r)

unfoldable pub irc_ping_command : IrcSession → IrcParserResult → Handled
irc_ping_command s r = elim r.params [
  | [] ↦ (r, s)
  | text ∷ _ ↦ (r, (irc_send_raw s (codes "PONG " ++ text)).0)
]

-- strncmp may not be given the nick of a line without a prefix.
unfoldable pub irc_nick_command : IrcCallbacks → IrcSession → Bytes → IrcParserResult → Handled
irc_nick_command cbs s command r = elim r.nick [
  | none ↦ (r, crash s)
  | some nick ↦ elim r.params [
    | [] ↦ call_event cbs.event_nick s command r
    | new_nick ∷ _ ↦
        call_event cbs.event_nick
          (if strn_equals nick s.nick (length s.nick) then record s { nick = new_nick } else s)
          command r
  ]
]

unfoldable pub irc_mode_command : IrcCallbacks → IrcSession → Bytes → IrcParserResult → Handled
irc_mode_command cbs s command r = elim r.params [
  | [] ↦ call_event cbs.event_mode s command r
  | target ∷ rest ↦
      if strn_equals target s.nick (length s.nick)
      then call_event cbs.event_umode s command (record r { params = take 1 rest })
      else call_event cbs.event_mode s command r
]

-- strncasecmp(s, t, n) == 0.
unfoldable pub strn_case_equals : Bytes → Bytes → ℕ → Bool
strn_case_equals s t n = str_case_equals (take n s) (take n t)

unfoldable pub is_dcc_request : Bytes → Bool
is_dcc_request text = strn_case_equals text (codes "DCC ") 4

unfoldable pub is_action_message : Bytes → Bool
is_action_message text = strn_case_equals text (codes "ACTION ") 7

abbrev pub last_is_one : Bytes → Bool
last_is_one [] = false
last_is_one (c ∷ []) = c == 1
last_is_one (c ∷ d ∷ s) = last_is_one (d ∷ s)

unfoldable pub is_ctcp_request : Bytes → Bool
is_ctcp_request [] = false
is_ctcp_request (c ∷ s) = c == 1 && last_is_one (c ∷ s)

unfoldable pub is_private_message : Bytes → Bytes → Bool
is_private_message text nick = strn_case_equals text nick (length nick)

-- The bytes between the first and the last, at most `size` of them. The length of a single byte less
-- 2 wraps, and what is copied then stands behind the string.
abbrev pub ctcp_text : ℕ → Bytes → Option Bytes
ctcp_text size (c ∷ d ∷ s) = some (take (min size (length s)) (d ∷ s))
ctcp_text size _ = none

unfoldable pub handle_ctcp_request :
    IrcCallbacks → IrcSession → IrcParserResult → Bytes → Bytes → Handled
handle_ctcp_request cbs s r target message = elim (ctcp_text 2047 message) [
  | none ↦ (r, crash s)
  | some text ↦
      if is_dcc_request text
      then (r, cbs.dcc_request s r text)
      else let request =
          call_event cbs.event_ctcp_req s (codes "CTCP") (record r { params = text ∷ [] }) in
        if is_action_message text
        then elim cbs.event_ctcp_action [
          | some f ↦
              call_event (some f) s (codes "ACTION")
                (record r { params = target ∷ drop 7 text ∷ [] })
          | none ↦ request
        ]
        else request
]

unfoldable pub irc_privmsg_command : IrcCallbacks → IrcSession → IrcParserResult → Handled
irc_privmsg_command cbs s r = elim r.params [
  | target ∷ message ∷ _ ↦
      if is_ctcp_request message
      then handle_ctcp_request cbs s r target message
      else if is_private_message target s.nick
      then call_event cbs.event_privmsg s (codes "PRIVMSG") r
      else call_event cbs.event_channel s (codes "CHANNEL") r
  | _ ↦ (r, s)
]

-- strlen may not be given a missing parameter. The size of the copy is that of a pointer, 8 bytes.
unfoldable pub irc_notice_command : IrcCallbacks → IrcSession → Bytes → IrcParserResult → Handled
irc_notice_command cbs s command r = elim r.params [
  | target ∷ message ∷ _ ↦
      let other =
        if is_private_message target s.nick
        then call_event cbs.event_notice s command r
        else call_event cbs.event_channel_notice s command r in
      if is_ctcp_request message
      then elim cbs.event_ctcp_rep [
        | none ↦ other
        | some f ↦ elim (ctcp_text 7 message) [
          | none ↦ (r, crash s)
          | some text ↦ call_event (some f) s (codes "CTCP") (record r { params = text ∷ [] })
        ]
      ]
      else other
  | _ ↦ (r, crash s)
]

-- The member `execute` of a command.
unfoldable pub execute : IrcCallbacks → IrcCommand → IrcSession → Bytes → IrcParserResult → Handled
execute cbs irc_ping s command r = irc_ping_command s r
execute cbs irc_nick s command r = irc_nick_command cbs s command r
execute cbs irc_quit s command r = call_event cbs.event_quit s command r
execute cbs irc_join s command r = call_event cbs.event_join s command r
execute cbs irc_part s command r = call_event cbs.event_part s command r
execute cbs irc_mode s command r = irc_mode_command cbs s command r
execute cbs irc_topic s command r = call_event cbs.event_topic s command r
execute cbs irc_kick s command r = call_event cbs.event_kick s command r
execute cbs irc_privmsg s command r = irc_privmsg_command cbs s r
execute cbs irc_notice s command r = irc_notice_command cbs s command r
execute cbs irc_invite s command r = call_event cbs.event_invite s command r
execute cbs irc_kill s command r = (r, s)
execute cbs irc_unknown s command r = call_event cbs.event_unknown s command r
