-- ===== src/Connection/Select.antt =====
-- libircclient-src/libircclient.c and dcc.c: what a round of the main loop puts on the watch list.
pub mod Watched
pub mod Checks
use xdccget_for_windows.Watcher.{
  Watcher, fdwatch_set_fd, fdw_write, fdwatch_zero, fdw_read, fdwatch_add_fd,
}
use xdccget_for_windows.Dcc.{libirc_dcc_add_descriptors, err_state}
use xdccget_for_windows.Session.{session_connecting, session_connected, buffer_size, on_client}
use xdccget_for_windows.Connection.{is_unusable, set_error, with_session, Connection, session_of}
use xdccget_for_windows.Base.{
  ◌-◌, length, none, Bool, some, [], ◌||◌, not, ltb, Option, List, ℕ, if◌then◌else◌, ◌∷◌,
}
use xdccget_for_windows.World.{
  Outcome, connected, connecting, done, IrcDccSession, confirm_size, init_passive,
}
use xdccget_for_windows.Incoming.{libirc_findcrlf}

-- The numbers that the system gave to the socket of the server, and to that of each DCC session.
pub record Numbers : Type 0 where
  pub server : ℕ
  pub dcc : ℕ → ℕ

-- SESSIONFL_SSL_WRITE_WANTS_READ and SESSIONFL_SSL_READ_WANTS_WRITE.
pub record Waits : Type 0 where
  pub write_wants_read : Bool
  pub read_wants_write : Bool

abbrev pub number_if : Bool → ℕ → Option ℕ
number_if open_ n = if open_ then some n else none

unfoldable pub add_dcc_descriptor : Numbers → Watcher → IrcDccSession → Option Watcher
add_dcc_descriptor numbers w s =
    let fd = number_if s.sock_open (numbers.dcc s.id) in
    let w' = fdwatch_add_fd w fd in
    elim s.state [
      | connecting ↦ fdwatch_set_fd w' fd fdw_write
      | connected ↦ fdwatch_set_fd w' fd fdw_read
      | confirm_size ↦ fdwatch_set_fd w' fd fdw_write
      | init_passive ↦ fdwatch_set_fd w' fd fdw_read
      | _ ↦ some w'
    ]

unfoldable pub add_dcc_descriptors : Numbers → Watcher → List IrcDccSession → Option Watcher
add_dcc_descriptors numbers w [] = some w
add_dcc_descriptors numbers w (s ∷ ss) = elim (add_dcc_descriptor numbers w s) [
  | none ↦ none
  | some w' ↦ add_dcc_descriptors numbers w' ss
]

abbrev room_to_read : Connection → Waits → Bool
room_to_read c waits = ltb (length c.incoming) (buffer_size - 1) || waits.write_wants_read

abbrev line_to_write : Connection → Waits → Bool
line_to_write c waits = ltb 0 (libirc_findcrlf (session_of c).outgoing) || waits.read_wants_write

abbrev set_if : Bool → Watcher → Option ℕ → ℕ → Option Watcher
set_if test w fd access = if test then fdwatch_set_fd w fd access else some w

unfoldable pub set_server : Numbers → Waits → Connection → Watcher → Option Watcher
set_server numbers waits c w =
    let fd = number_if (session_of c).sock_open numbers.server in
    elim (session_of c).state [
      | session_connecting ↦ fdwatch_set_fd w fd fdw_write
      | session_connected ↦ elim (set_if (room_to_read c waits) w fd fdw_read) [
        | none ↦ none
        | some w' ↦ set_if (line_to_write c waits) w' fd fdw_write
      ]
      | _ ↦ some w
    ]

-- The sessions of a client that has ended are not looked at any more.
abbrev pub sessions_of : Outcome Unit → List IrcDccSession
sessions_of (done _ w) = w.dcc_sessions
sessions_of _ = []

unfoldable pub irc_add_select_descriptors :
    Numbers → Waits → Connection → Watcher → Option (Watcher × Connection × ℕ)
irc_add_select_descriptors numbers waits c w =
    if not (session_of c).sock_open || is_unusable (session_of c).state
    then some (w, with_session c (set_error (session_of c) err_state), 1)
    else elim (set_server numbers waits c w) [
      | none ↦ none
      | some w₁ ↦
          let s = on_client (session_of c) (λ x. done tt (libirc_dcc_add_descriptors x)) in
          elim (add_dcc_descriptors numbers w₁ (sessions_of s.client)) [
            | none ↦ none
            | some w₂ ↦ some (w₂, with_session c s, 0)
          ]
    ]

-- What irc_run does before it waits.
unfoldable pub prepare_wait :
    Numbers → Waits → Connection → Watcher → Option (Watcher × Connection × ℕ)
prepare_wait numbers waits c w =
    irc_add_select_descriptors numbers waits c
      (fdwatch_add_fd (fdwatch_zero w) (number_if (session_of c).sock_open numbers.server))
