-- ===== src/Connection/Open/Laws.antt =====
-- Which address a session is connected to, and what the next round makes of it.
use xdccget_for_windows.Base.{
  List, ◌++◌, All, false, true, refl, ◌∷◌, [], ◌≡◌, Bool, ◌∙◌, ℕ, Option, some, ◌&&◌, drop,
  drop-length-append, ap, if◌then◌else◌, not, length,
}
use xdccget_for_windows.Connection.Open.{
  try_addresses, is_inet, Address, connected_to, has_connection, is_connection_established,
  try_to_connect, init_socket, Family, ConnectTo, without_prefix, named, is_init,
  irc_connect_generic,
}
use xdccget_for_windows.Session.{IrcSession, session_init}
use xdccget_for_windows.Connection.Registration.{if_false}
use xdccget_for_windows.Bytes.{Bytes}

-- The socket is opened, and the connection is on its way.
abbrev pub Opens : Address → Type 0
Opens a =
    (is_inet a.family ≡ true)
    × (a.creates ≡ true)
    × (a.nonblocking ≡ true)
    × (a.ssl_init ≡ 0)
    × (a.connects ≡ true)

abbrev pub TimesOut : Address → Type 0
TimesOut a = Opens a × (a.gets_writable ≡ false)

abbrev pub GetsWritable : Address → Type 0
GetsWritable a = Opens a × (a.gets_writable ≡ true) × (a.has_sockname ≡ true)

if_and_false : {A : Type 0} (b : Bool) (x y : A) → (if b && false then x else y) ≡ y
if_and_false true x y = refl
if_and_false false x y = refl

init_socket-Opens :
    (s : IrcSession) (a : Address) → Opens a → init_socket s a ≡ (record s { sock_open = true }, 0)
unfolding init_socket
init_socket-Opens s a (family_, creates_, nonblocking_, ssl_, connects_) =
    rw (init_socket, creates_, nonblocking_, ssl_) (if_and_false s.ssl_connection _ _)

try_to_connect-Opens :
    (s : IrcSession) (a : Address)
    → Opens a
    → try_to_connect s a ≡ (record s { sock_open = true }, true)
unfolding try_to_connect
try_to_connect-Opens s a opens =
    let (family_, creates_, nonblocking_, ssl_, connects_) = opens in
    rw (try_to_connect, init_socket-Opens s a opens, connects_) refl

try_addresses_first :
    (s : IrcSession) (family : Family) (tried : List Address) (a : Address) (later : List Address)
    → All TimesOut tried
    → GetsWritable a
    → try_addresses s family (tried ++ (a ∷ later))
      ≡ (connected_to (record s { sock_open = true }) family, 0)
unfolding try_addresses has_connection is_connection_established
try_addresses_first s family [] a later h (opens, writable_, sockname) =
    rw (try_addresses, opens.0, try_to_connect-Opens s a opens, writable_, sockname) refl
try_addresses_first s family (b ∷ tried) a later ((opens, writable_), hs) h =
    rw (try_addresses, opens.0, try_to_connect-Opens s b opens, writable_)
      (try_addresses_first (record s { sock_open = false }) family tried a later hs h)

-- The session that is connected for these arguments.
abbrev pub opened : IrcSession → Bytes → Bytes → ConnectTo → Family → IrcSession
opened s server nick to family =
    connected_to (record (named s server nick to) { sock_open = true }) family

drop_before : {A : Type 0} (xs ys : List A) (n : ℕ) → n ≡ length xs → drop n (xs ++ ys) ≡ ys
drop_before xs ys n e = rw e (drop-length-append xs ys)

pub irc_connect_generic_first :
    (resolve : Bytes → Family → Option (List Address)) (selected : ℕ → ℕ) (s : IrcSession)
    (to : ConnectTo) (family : Family) (server nick : Bytes) (before tried : List Address)
    (a : Address) (later : List Address)
    → to.server ≡ some server
    → to.nick ≡ some nick
    → s.state ≡ session_init
    → resolve (without_prefix server) family ≡ some (before ++ (tried ++ (a ∷ later)))
    → selected (length (before ++ (tried ++ (a ∷ later)))) ≡ length before
    → All TimesOut tried
    → GetsWritable a
    → irc_connect_generic resolve selected s to family ≡ (opened s server nick to family, 0)
unfolding irc_connect_generic
irc_connect_generic_first resolve selected s to family server nick before tried a later e f g r h ht
      ha =
    rw (irc_connect_generic, e, f)
      (if_false _ _ (ap (λ x. not (is_init x)) g)
        ∙ rw r (
            ap (try_addresses (named s server nick to) family) (
              drop_before before (tried ++ (a ∷ later))
                (selected (length (before ++ (tried ++ (a ∷ later))))) h)
            ∙ try_addresses_first (named s server nick to) family tried a later ht ha))
