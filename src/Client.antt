-- ===== src/Client.antt =====
-- xdccget.c: the callbacks of the client, as initCallbacks sets them, and the client's session.
-- dump_event, which most of them are or call first, only writes to the log.
pub mod Requests
use xdccget_for_windows.World.{World, Outcome, done, fault, Net}
use xdccget_for_windows.Session.{IrcSession, on_client}
use xdccget_for_windows.Commands.{IrcCallbacks, EventCallback}
use xdccget_for_windows.Base.{ℕ, not, some, ◌==◌, none, [], ◌∷◌, Option, if◌then◌else◌}
use xdccget_for_windows.Events.{event_umode, event_join, on_connect_event, event_notice, event_mode}
use xdccget_for_windows.Bytes.Sds.{Sds}
use xdccget_for_windows.LineParser.{IrcParserResult}
use xdccget_for_windows.Receive.Request.{libirc_dcc_request, Sscanf}
use xdccget_for_windows.Commands.Dispatch.{libirc_event_ctcp_internal, handle_parser_result}
use xdccget_for_windows.Bytes.{Bytes}

-- What the client uses of others: the system and the TLS library, sscanf, sds, the address that
-- gethostbyname and inet_ntoa give for a name, and the text of the time.
pub record Host : Type 0 where
  pub net : Net
  pub scan : Sscanf
  pub sds : Sds
  pub resolve : Bytes → Option Bytes
  pub time_text : Bytes

-- strrchr, for a byte that is not NUL: what follows its last occurrence.
abbrev after_last : Bytes → ℕ → Option Bytes
after_last [] c = none
after_last (a ∷ s) c = elim (after_last s c) [
  | some rest ↦ some rest
  | none ↦ if a == c then some s else none
]

event_numeric : (Bytes → Option Bytes) → World → ℕ → IrcParserResult → World
event_numeric resolve w code r = elim r.params [
  | _ ∷ text ∷ _ ↦ if not (code == 1) then w else elim (after_last text b'@') [
    | none ↦ w
    | some name ↦ elim (resolve name) [
      | none ↦ w
      | some ip ↦ elim w.cfg.listen_ip [
        | none ↦ record w { cfg = record w.cfg { listen_ip = some ip } }
        | some _ ↦ w
      ]
    ]
  ]
  | _ ↦ w
]

abbrev returned : Option World → Outcome Unit
returned none = fault
returned (some w) = done tt w

abbrev on_world : (World → IrcParserResult → Outcome Unit) → EventCallback
on_world f s event r = on_client s (λ w. f w r)

abbrev dump_event : EventCallback
dump_event s event r = s

-- A request of a line without a prefix has no nick, which strcasecmp may not be given.
unfoldable pub dcc_request : Host → IrcSession → IrcParserResult → Bytes → IrcSession
dcc_request host s r text = on_client s (λ w. elim r.nick [
  | none ↦ fault
  | some nick ↦ libirc_dcc_request host.net host.scan w nick text
])

unfoldable pub init_callbacks : Host → IrcCallbacks
unfolding event_numeric
init_callbacks host = record {
  event_connect = some (on_world (λ w r. done tt (on_connect_event host.sds w)));
  event_nick = none;
  event_quit = none;
  event_join = some (on_world (λ w r. returned (event_join w)));
  event_part = none;
  event_mode = some (on_world (λ w r. returned (event_mode w r)));
  event_umode = some (on_world (λ w r. returned (event_umode w r)));
  event_topic = none;
  event_kick = none;
  event_channel = none;
  event_privmsg = some dump_event;
  event_notice = some (λ s event r. on_client s (λ w. returned (event_notice host.sds w event r)));
  event_channel_notice = none;
  event_invite = none;
  event_ctcp_req = some (libirc_event_ctcp_internal host.time_text);
  event_ctcp_rep = some dump_event;
  event_ctcp_action = some dump_event;
  event_unknown = some dump_event;
  event_numeric =
      some (λ s code r. on_client s (λ w. done tt (event_numeric host.resolve w code r)));
  dcc_request = dcc_request host;
}

-- The handler of the lines of the client's session.
abbrev pub client_handle : Host → IrcParserResult → IrcSession → IrcParserResult × IrcSession
client_handle host = handle_parser_result (init_callbacks host)
