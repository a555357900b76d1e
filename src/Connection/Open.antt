-- ===== src/Connection/Open.antt =====
-- libircclient-src/libircclient.c: irc_connect_generic, which opens the socket to the server.
pub mod Laws
pub mod Start
use xdccget_for_windows.Dcc.{err_socket, err_connect, err_state}
use xdccget_for_windows.Base.{
  some, List, Option, drop, true, ◌==◌, ℕ, false, Bool, if◌then◌else◌, [], ◌&&◌, none, ◌∷◌, length,
  not, ◌||◌,
}
use xdccget_for_windows.Session.{
  SessionState, session_connecting, IrcSession, session_init, err_inval,
}
use xdccget_for_windows.Connection.{set_error}
use xdccget_for_windows.Bytes.{Bytes}

pub data Family : Type 0 where
  family_unspec family_inet family_inet6 : Family

-- An address that the name of the server has, and what the system answers at it: whether a socket
-- is created and made nonblocking, the result of ssl_init, whether connect starts, whether the socket
-- is writable within five seconds, and whether getsockname and getpeername succeed. An address of
-- another family is `family_unspec`.
pub record Address : Type 0 where
  pub family : Family
  pub creates : Bool
  pub nonblocking : Bool
  pub ssl_init : ℕ
  pub connects : Bool
  pub gets_writable : Bool
  pub has_sockname : Bool
  pub has_peername : Bool

abbrev pub err_resolv : ℕ
err_resolv = 2

unfoldable pub is_connection_established : Address → Bool
is_connection_established a = a.has_sockname || a.has_peername

unfoldable pub has_connection : Address → Bool
has_connection a = a.gets_writable && is_connection_established a

unfoldable pub init_socket : IrcSession → Address → IrcSession × ℕ
init_socket s a =
    if not a.creates
    then (set_error (record s { sock_open = false }) err_socket, 1)
    else if not a.nonblocking
    then (set_error (record s { sock_open = true }) err_socket, 1)
    else if s.ssl_connection && not (a.ssl_init == 0)
    then (set_error (record s { sock_open = true }) a.ssl_init, 1)
    else (record s { sock_open = true }, 0)

-- try_to_connect_ipv4 and try_to_connect_ipv6; `true` where they return 0.
unfoldable pub try_to_connect : IrcSession → Address → IrcSession × Bool
try_to_connect s a =
    let (s₁, ret) = init_socket s a in
    if not (ret == 0) || not a.connects then (set_error s₁ err_socket, false) else (s₁, true)

abbrev pub is_inet : Family → Bool
is_inet family_unspec = false
is_inet _ = true

abbrev pub is_inet6 : Family → Bool
is_inet6 family_inet6 = true
is_inet6 _ = false

abbrev pub is_init : SessionState → Bool
is_init session_init = true
is_init _ = false

abbrev pub connected_to : IrcSession → Family → IrcSession
connected_to s protocol_family = record s {
  state = session_connecting;
  uses_ipv6 = s.uses_ipv6 || is_inet6 protocol_family;
}

-- The addresses from the selected one on.
unfoldable pub try_addresses : IrcSession → Family → List Address → IrcSession × ℕ
try_addresses s protocol_family [] = (set_error s err_connect, 1)
try_addresses s protocol_family (a ∷ addresses) =
    let later =
      try_addresses (record (try_to_connect s a).0 { sock_open = false }) protocol_family
        addresses in
    if not (is_inet a.family)
    then (s, 1)
    else if not (try_to_connect s a).1
    then ((try_to_connect s a).0, 1)
    else if has_connection a
    then (connected_to (try_to_connect s a).0 protocol_family, 0)
    else later

abbrev pub ssl_prefix : ℕ
ssl_prefix = b'#'

-- The name of the server without the prefix that asks for TLS.
abbrev pub without_prefix : Bytes → Bytes
without_prefix [] = []
without_prefix (c ∷ s) = if c == ssl_prefix then s else c ∷ s

abbrev pub has_prefix : Bytes → Bool
has_prefix [] = false
has_prefix (c ∷ s) = c == ssl_prefix

-- The arguments of irc_connect_generic.
pub record ConnectTo : Type 0 where
  pub server : Option Bytes
  pub server_password : Option Bytes
  pub nick : Option Bytes
  pub username : Option Bytes
  pub realname : Option Bytes

abbrev pub named : IrcSession → Bytes → Bytes → ConnectTo → IrcSession
named s server nick to = record s {
  ssl_connection = s.ssl_connection || has_prefix server;
  username = to.username;
  server_password = to.server_password;
  realname = to.realname;
  nick = nick;
  server = some (without_prefix server);
}

-- `resolve` is resolve_hostname_by_dns, and `none` its null pointer; `selected` is the number that
-- rand_range gives for the number of the addresses.
unfoldable pub irc_connect_generic :
    (Bytes → Family → Option (List Address))
    → (ℕ → ℕ)
    → IrcSession
    → ConnectTo
    → Family
    → IrcSession × ℕ
irc_connect_generic resolve selected s to protocol_family = elim to.server [
  | none ↦ (set_error s err_inval, 1)
  | some server ↦ elim to.nick [
    | none ↦ (set_error s err_inval, 1)
    | some nick ↦
        if not (is_init s.state)
        then (set_error s err_state, 1)
        else elim (resolve (without_prefix server) protocol_family) [
          | none ↦ (set_error (named s server nick to) err_resolv, 1)
          | some addresses ↦
              try_addresses (named s server nick to) protocol_family
                (drop (selected (length addresses)) addresses)
        ]
  ]
]

unfoldable pub irc_connect :
    (Bytes → Family → Option (List Address)) → (ℕ → ℕ) → IrcSession → ConnectTo → IrcSession × ℕ
irc_connect resolve selected s to = irc_connect_generic resolve selected s to family_unspec

unfoldable pub irc_connect4 :
    (Bytes → Family → Option (List Address)) → (ℕ → ℕ) → IrcSession → ConnectTo → IrcSession × ℕ
irc_connect4 resolve selected s to = irc_connect_generic resolve selected s to family_inet

unfoldable pub irc_connect6 :
    (Bytes → Family → Option (List Address)) → (ℕ → ℕ) → IrcSession → ConnectTo → IrcSession × ℕ
irc_connect6 resolve selected s to = irc_connect_generic resolve selected s to family_inet6
