-- ===== src/Connection.antt =====
-- libircclient-src/libircclient.c: the states of the connection to the server, and a round of the
-- main loop. The session is the second part of the data of its line parser.
pub mod Open
pub mod Registration
pub mod Rounds
pub mod Run
pub mod Select
use mathlib.Core.Option.{map as map_option}
use xdccget_for_windows.Base.{
  ℕ, not, true, none, ◌&&◌, Bool, ◌||◌, if◌then◌else◌, Option, ◌++◌, take, ◌==◌, false, some, [],
  drop, ◌∷◌,
}
use xdccget_for_windows.World.{World, Outcome, done, fault}
use xdccget_for_windows.Session.{
  IrcSession, SessionState, irc_send_raw, on_client, session_init, session_connecting,
  session_connected, session_disconnected, is_connected,
}
use xdccget_for_windows.LineParser.{LineParser, IrcParserResult}
use xdccget_for_windows.Incoming.{process_incoming}
use xdccget_for_windows.Bytes.{codes, Bytes}
use xdccget_for_windows.Dcc.{err_state}

-- What the system answers in a round: whether the socket is readable and writable, getsockname and
-- getpeername, the bytes that a read gives, and the number of bytes that a write takes; `none` is an
-- error. `dcc` is libirc_dcc_process_descriptors.
pub record Answers : Type 0 where
  pub readable : Bool
  pub writable : Bool
  pub has_names : Bool
  pub read : Option Bytes
  pub write : Option ℕ
  pub dcc : World → Outcome Unit

-- The session's parser, and the bytes in incoming_buf.
pub record Connection : Type 0 where
  pub parser : LineParser IrcSession
  pub incoming : Bytes

abbrev pub session_of : Connection → IrcSession
session_of c = c.parser.user.1

abbrev pub with_session : Connection → IrcSession → Connection
with_session c s = record c { parser = record c.parser { user = (c.parser.user.0, s) } }

abbrev pub set_error : IrcSession → ℕ → IrcSession
set_error s error = on_client s (λ w. done tt (record w { lasterror = error }))

-- A read or a write that fails leaves an error that the TLS library has set.
abbrev pub set_error_if_none : IrcSession → ℕ → IrcSession
set_error_if_none s error =
    on_client s (λ w. done tt (if w.lasterror == 0 then record w { lasterror = error } else w))

abbrev pub disconnected : IrcSession → IrcSession
disconnected s = record s { state = session_disconnected }

-- A text that is used as a format: "%%" prints one '%', any other conversion reads an argument that
-- is not there.
unfoldable pub as_format : Bytes → Option Bytes
as_format [] = some []
as_format (c ∷ []) = if c == b'%' then none else some (c ∷ [])
as_format (c ∷ d ∷ s) = elim (c == b'%') [
  | true ↦ elim (d == b'%') [
    | true ↦ map_option (λ (r : Bytes). c ∷ r) (as_format s)
    | false ↦ none
  ]
  | false ↦ map_option (λ (r : Bytes). c ∷ r) (as_format (d ∷ s))
]

unfoldable pub send_format : IrcSession → Bytes → IrcSession
send_format s text = elim (as_format text) [
  | none ↦ on_client s (λ w. fault)
  | some t ↦ (irc_send_raw s t).0
]

-- snprintf to a buffer of 256 bytes.
abbrev pub cut : Bytes → Bytes
cut text = take 255 text

abbrev pub send_password : IrcSession → Option Bytes → IrcSession
send_password s none = s
send_password s (some password) = send_format s (cut (codes "PASS " ++ password))

abbrev pub realname_text : Option Bytes → Bytes
realname_text none = codes "realname"
realname_text (some realname) = realname

abbrev pub user_text : Bytes → Option Bytes → Bytes
user_text nick realname =
    codes "USER "
    ++ (nick ++ (codes " " ++ (nick ++ (codes " unknown :" ++ realname_text realname))))

unfoldable pub irc_handle_connecting_state : IrcSession → Bool → IrcSession × ℕ
irc_handle_connecting_state s has_names =
    if not has_names
    then (set_error (disconnected s) 4, 1)
    else let s₁ = send_password (record s { state = session_connected }) s.server_password in
      let s₂ = send_format s₁ (cut (codes "NICK " ++ s.nick)) in
      (send_format s₂ (cut (user_text s.nick s.realname)), 0)

abbrev pub is_unusable : SessionState → Bool
is_unusable session_init = true
is_unusable session_disconnected = true
is_unusable _ = false

abbrev pub is_connecting : SessionState → Bool
is_connecting session_connecting = true
is_connecting _ = false

module _ (handle : IrcParserResult → IrcSession → IrcParserResult × IrcSession) where
  abbrev pub write_outgoing : Connection → Answers → Option (Connection × ℕ)
  write_outgoing c a = if not a.writable then some (c, 0) else elim a.write [
    | none ↦ some (with_session c (set_error_if_none (disconnected (session_of c)) 15), 1)
    | some n ↦
        some
          (with_session c (record (session_of c) { outgoing = drop n (session_of c).outgoing }), 0)
  ]

  abbrev pub read_incoming : Connection → Answers → Option (Connection × ℕ)
  read_incoming c a = if not a.readable then write_outgoing c a else elim a.read [
    | none ↦ some (with_session c (set_error_if_none (disconnected (session_of c)) 15), 1)
    | some bytes ↦ elim (process_incoming handle c.parser c.incoming bytes) [
      | none ↦ none
      | some x ↦ write_outgoing (record { parser = x.0; incoming = x.1 }) a
    ]
  ]

  abbrev pub with_result : Connection → IrcSession × ℕ → Option (Connection × ℕ)
  with_result c x = some (with_session c x.0, x.1)

  -- The DCC sessions are served first; lasterror is 0 before.
  unfoldable pub irc_process_select_descriptors : Connection → Answers → Option (Connection × ℕ)
  irc_process_select_descriptors c a =
      if not (session_of c).sock_open || is_unusable (session_of c).state
      then some (with_session c (set_error (session_of c) err_state), 1)
      else let s = on_client (session_of c) (λ w. a.dcc (record w { lasterror = 0 })) in
        if is_connecting s.state && a.writable
        then with_result c (irc_handle_connecting_state s a.has_names)
        else if not (is_connected s.state)
        then some (with_session c (set_error (disconnected s) err_state), 1)
        else read_incoming (with_session c s) a

unfoldable pub irc_is_connected : IrcSession → Bool
irc_is_connected s = is_connected s.state || is_connecting s.state

unfoldable pub irc_disconnect : IrcSession → IrcSession
irc_disconnect s = record s { sock_open = false; state = session_init }
