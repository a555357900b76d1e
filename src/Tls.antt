-- ===== src/Tls.antt =====
-- libircclient-src/ssl.c: how a session reads from its socket and writes to it, over TLS and without.
pub mod Streams
pub mod Waiting
use xdccget_for_windows.Base.{
  if◌then◌else◌, Option, Bool, length, [], none, false, ℕ, some, not, drop, ◌++◌, true,
}
use xdccget_for_windows.Bytes.{Bytes}

abbrev pub err_connect_ssl_failed : ℕ
err_connect_ssl_failed = 19

abbrev pub err_ssl_cert_verify_failed : ℕ
err_ssl_cert_verify_failed = 20

-- The members of the session that reading and writing use: whether `ssl` is set, the two flags of a
-- read or a write that has to wait for the other direction, the bytes below incoming_offset and those
-- below outgoing_offset.
pub record Transport : Type 0 where
  pub has_ssl : Bool
  pub read_wants_write : Bool
  pub write_wants_read : Bool
  pub incoming : Bytes
  pub outgoing : Bytes
  pub lasterror : ℕ

-- The reason of an error of OpenSSL.
pub data SslReason : Type 0 where
  verify_failed unknown_protocol other_reason : SslReason

-- What SSL_read and SSL_write answer: a positive count, 0, or an error.
pub data SslAnswer (A : Type 0) : Type 0 where
  moved : A → SslAnswer A
  ssl_closed wants_read wants_write : SslAnswer A
  ssl_failed : SslReason → SslAnswer A

-- The answers to a read or a write: of SSL_read with the bytes it gives and of SSL_write with the
-- number of the bytes it takes, and those of socket_recv and socket_send; `none` is a count of 0 or
-- less.
pub record SocketAnswers : Type 0 where
  pub ssl_read : SslAnswer Bytes
  pub ssl_write : SslAnswer ℕ
  pub recv : Option Bytes
  pub send : Option ℕ

unfoldable pub ssl_handle_error : Transport → SslReason → Transport
ssl_handle_error t verify_failed = record t { lasterror = err_ssl_cert_verify_failed }
ssl_handle_error t unknown_protocol = record t { lasterror = err_connect_ssl_failed }
ssl_handle_error t other_reason = t

-- `none` is -1. The bytes stand behind incoming_offset, which the caller moves on.
unfoldable pub ssl_recv : Transport → SocketAnswers → Transport × Option Bytes
ssl_recv t a = elim a.ssl_read [
  | moved bytes ↦ (t, some bytes)
  | ssl_closed ↦ (t, none)
  | wants_read ↦ (t, some [])
  | wants_write ↦ (record t { read_wants_write = true }, some [])
  | ssl_failed reason ↦ (ssl_handle_error t reason, none)
]

-- The number of the bytes that are sent; `none` is -1.
unfoldable pub ssl_send : Transport → SocketAnswers → Transport × Option ℕ
ssl_send t a = elim a.ssl_write [
  | moved n ↦ (t, some n)
  | ssl_closed ↦ (t, none)
  | wants_read ↦ (record t { write_wants_read = true }, some 0)
  | wants_write ↦ (t, some 0)
  | ssl_failed reason ↦ (ssl_handle_error t reason, none)
]

unfoldable pub session_socket_read : Transport → SocketAnswers → Transport × Option Bytes
session_socket_read t a =
    if not t.has_ssl
    then (t, a.recv)
    else if t.read_wants_write
    then ((ssl_send (record t { read_wants_write = false }) a).0, some [])
    else ssl_recv t a

unfoldable pub session_socket_write : Transport → SocketAnswers → Transport × Option ℕ
session_socket_write t a =
    if not t.has_ssl
    then (t, a.send)
    else if t.write_wants_read
    then ((ssl_recv (record t { write_wants_read = false }) a).0, some 0)
    else ssl_send t a

-- What a round of the main loop does with the results, in libircclient.c: it moves incoming_offset on,
-- and takes what is sent from the outgoing buffer. `none`: the session is disconnected.
unfoldable pub read_turn : Transport → SocketAnswers → Option Transport
read_turn t a =
    let (t', length) = session_socket_read t a in
    elim length [ none ↦ none | some bytes ↦ some (record t' { incoming = t'.incoming ++ bytes }) ]

unfoldable pub write_turn : Transport → SocketAnswers → Option Transport
write_turn t a =
    let (t', length) = session_socket_write t a in
    elim length [ none ↦ none | some n ↦ some (record t' { outgoing = drop n t'.outgoing }) ]
