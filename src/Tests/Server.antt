-- ===== src/Tests/Server.antt =====
-- Lines of a server: a bot's DCC request, a message, and a line that is too long.
use xdccget_for_windows.Base.{
  ℕ, ◌≡◌, refl, arith, true, some, none, [], ◌∷◌, List, concat, map, All, replicate, length, ◌^◌,
  ◌<◌, suc, ◌+◌, get_elem?, ◌-◌, false, ◌⊎◌, ◌++◌, ◌≤◌, append-nil, Option,
}
use xdccget_for_windows.Bytes.{Bytes, codes, starts_with, str_case_equals}
use xdccget_for_windows.World.{done, connected, Outcome, World}
use xdccget_for_windows.Tests.Download.{test_net, test_world}
use xdccget_for_windows.Parser.{irc_parser_execute, state_error}
use xdccget_for_windows.Parser.Lines.{ready}
use xdccget_for_windows.LineParser.{IrcParserResult, LineParser, empty_result, create_line_parser}
use xdccget_for_windows.LineParser.Message.{Message, Prefix, IsMessage, render, render_line, parts}
use xdccget_for_windows.Incoming.{process_incoming, process_reads, libirc_findcrlf}
use xdccget_for_windows.Incoming.Messages.{handled, process_reads-handled}
use xdccget_for_windows.Incoming.Overlong.{process_each, overlong_line_silences}
use xdccget_for_windows.Incoming.Chunks.{process_reads-concat}
use xdccget_for_windows.Commands.{
  commands, strn_case_equals, is_dcc_request, get_command, IrcCommand, irc_unknown,
}
use xdccget_for_windows.Connection.{Connection, Answers, with_session}
use xdccget_for_windows.Client.Requests.{process_reads-dcc_request, ctcp}
use xdccget_for_windows.Client.{Host, client_handle}
use xdccget_for_windows.Commands.Laws.{get_command-commands}
use xdccget_for_windows.Session.{on_client, IrcSession, session_connected, SessionState}
use xdccget_for_windows.Receive.Request.{libirc_dcc_request}
use xdccget_for_windows.Parser.Returns.{irc_parser_execute_returns}
use xdccget_for_windows.Tests.Library.{test_sds}
use xdccget_for_windows.LineParser.Execute.{irc_parser_execute-render}

-- The handler counts the lines.
abbrev count_lines : IrcParserResult → ℕ → IrcParserResult × ℕ
count_lines r n = (r, suc n)

abbrev bot_prefix : Prefix
bot_prefix = record { nick = codes "Bot"; user = some (codes "b"); host = some (codes "host.org") }

abbrev hello : Message
hello = record {
  prefix = some bot_prefix;
  command = codes "PRIVMSG";
  middles = codes "#chan" ∷ [];
  last = codes "hello you";
  is_trailing = true;
}

hello-IsMessage : IsMessage hello
hello-IsMessage = record {
  prefix_ok = (refl, refl, refl);
  command_ok = (refl, refl);
  middles_ok = ((refl, refl), tt);
  last_ok = refl;
  in_buffer = unfold render_line in omega arith;
  in_params = omega arith;
}

irc_parser_execute-render_example :
    (raw' : ℕ → ℕ) × (irc_parser_execute
        (create_line_parser count_lines)
        (ready (empty_result, 0) (λ j. 0))
        (render hello)
      ≡ some (ready (count_lines (parts hello) 0) raw', length (render hello)))
irc_parser_execute-render_example =
    irc_parser_execute-render count_lines hello 0 (λ j. 0) hello-IsMessage

irc_parser_execute_returns_example :
    (q : LineParser ℕ) × (r : ℕ) × (irc_parser_execute
        (create_line_parser count_lines)
        (ready (empty_result, 0) (λ j. 0))
        (codes "PING\n")
      ≡ some (q, r))
    × ((r ≡ length (codes "PING\n"))
        ⊎ ((r < length (codes "PING\n")) × (q.state ≡ state_error))
        ⊎ (r ≡ 2 ^ 64 - 1))
    × (q.last ≤ q.len)
irc_parser_execute_returns_example =
    irc_parser_execute_returns (create_line_parser count_lines) (ready (empty_result, 0) (λ j. 0))
      (codes "PING\n") (omega arith)

abbrev cut_line : List Bytes
cut_line = codes ":a PI" ∷ codes "NG x\r" ∷ codes "\nJO" ∷ []

no_line : libirc_findcrlf (codes "PI") ≡ 0
unfolding libirc_findcrlf
no_line = refl

process_reads-concat_example :
    process_reads count_lines (ready (empty_result, 0) (λ j. 0)) (codes "PI") cut_line
    ≡ process_incoming count_lines (ready (empty_result, 0) (λ j. 0)) (codes "PI") (concat cut_line)
process_reads-concat_example =
    process_reads-concat count_lines (ready (empty_result, 0) (λ j. 0)) (codes "PI") cut_line
      no_line

abbrev two_reads : List Bytes
two_reads =
    codes ":Bot!b@host.org PRIVMSG #chan :hel"
    ∷ codes "lo you\r\n:Bot!b@host.org PRIVMSG #chan :hello you\r\n"
    ∷ []

two_reads-concat : concat two_reads ≡ concat (map render (hello ∷ hello ∷ []))
unfolding render render_line
two_reads-concat = refl

process_reads-handled_example :
    (raw' : ℕ → ℕ) × (process_reads count_lines (ready (empty_result, 0) (λ j. 0)) [] two_reads
      ≡ some (ready (empty_result, handled count_lines 0 (hello ∷ hello ∷ [])) raw', []))
process_reads-handled_example =
    process_reads-handled count_lines (hello ∷ hello ∷ []) two_reads 0 (λ j. 0)
      (hello-IsMessage, (hello-IsMessage, tt)) two_reads-concat

overlong_line_silences_example :
    (q : LineParser ℕ) × (process_each count_lines
        (ready (empty_result, 0) (λ j. 0))
        ((replicate 600 b'a' ++ codes "\r\n") ∷ codes "PING x\r\n" ∷ [])
      ≡ some q)
    × (q.state ≡ state_error)
    × (q.user.1 ≡ 0)
    × (q.len ≡ 513 + 1)
overlong_line_silences_example =
    overlong_line_silences count_lines (replicate 600 b'a') (codes "\r\n") (codes "PING x\r\n" ∷ [])
      0 (λ j. 0) refl (omega arith) ((b'P', codes "ING x\r\n", refl, refl), tt)

get_command-commands_example :
    ((i : ℕ) × (name : Bytes) × (get_elem? commands i
        ≡ some (name, get_command (codes "P") (length (codes "P"))))
      × (starts_with name (codes "P") ≡ true))
    ⊎ ((get_command (codes "P") (length (codes "P")) ≡ irc_unknown)
        × All (λ (e : Bytes × IrcCommand). starts_with e.0 (codes "P") ≡ false) commands)
get_command-commands_example = get_command-commands (codes "P") (λ e. cc)

abbrev pub server_session : IrcSession
server_session = record {
  state = session_connected;
  sock_open = true;
  server_password = none;
  motd_received = false;
  ssl_connection = false;
  uses_ipv6 = false;
  server = none;
  nick = codes "me";
  username = none;
  realname = none;
  outgoing = [];
  client = done tt (test_world connected);
}

abbrev pub test_host : Host
test_host = record {
  net = test_net;
  scan = record {
    send_reverse = λ _. none;
    send = λ _. some (codes "a.iso", 2130706433, 4000, 7);
    send_quoted = λ _. none;
    send_no_size = λ _. none;
    ssend = λ _. none;
    accept_reverse = λ _. none;
    accept = λ _. none;
  };
  sds = test_sds;
  resolve = λ _. none;
  time_text = codes "now";
}

abbrev send_command : Bytes
send_command = codes "DCC SEND a.iso 2130706433 4000 7"

abbrev send_request : Message
send_request = ctcp bot_prefix (codes "me") send_command

send_request-IsMessage : IsMessage send_request
send_request-IsMessage = record {
  prefix_ok = (refl, refl, refl);
  command_ok = (refl, refl);
  middles_ok = ((refl, refl), tt);
  last_ok = refl;
  in_buffer = unfold render_line in omega arith;
  in_params = omega arith;
}

is_dcc_send : is_dcc_request send_command ≡ true
unfolding is_dcc_request strn_case_equals str_case_equals
is_dcc_send = refl

process_reads-dcc_request_example :
    (raw' : ℕ → ℕ) × (process_reads
        (client_handle test_host)
        (ready (empty_result, server_session) (λ j. 0))
        []
        (render send_request ∷ [])
      ≡ some (
        ready
            (
              empty_result,
              on_client server_session
                  (λ w. libirc_dcc_request test_net test_host.scan w (codes "Bot") send_command),
            )
            raw',
        [],
      ))
process_reads-dcc_request_example =
    process_reads-dcc_request test_host bot_prefix (codes "me") send_command
      (render send_request ∷ []) server_session (λ j. 0) send_request-IsMessage is_dcc_send
      (append-nil (render send_request))

-- The socket is readable and writable; the DCC sessions do nothing.
abbrev pub test_answers : Answers
test_answers = record {
  readable = true;
  writable = true;
  has_names = true;
  read = some (render send_request);
  write = some 2;
  dcc = λ w. done tt w;
}

abbrev pub test_connection : SessionState → Option Bytes → Connection
test_connection state password = record {
  parser =
      ready
        (
          empty_result,
          record server_session {
            state = state;
            server_password = password;
            outgoing = codes "PING";
          },
        )
        (λ j. 0);
  incoming = [];
}

abbrev slow_answers : Answers
slow_answers = record test_answers { readable = false; writable = false }

-- The callback for a round does nothing.
abbrev no_callback : World → Outcome Unit
no_callback w = done tt w

abbrev closing_answers : Answers
closing_answers = record test_answers { readable = true; read = none }

abbrev logged_in : Connection
logged_in = with_session (test_connection session_connected none) (record server_session {
  outgoing =
      codes "PING"
      ++ (codes "NICK me" ++ (13 ∷ 10 ∷ codes "USER me me unknown :realname" ++ (13 ∷ 10 ∷ [])));
})
