-- ===== src/Tls/Streams.antt =====
-- The bytes that a session reads and writes, against those that its socket gives and takes.
use mathlib.Core.Option.{some-injective}
use xdccget_for_windows.Base.{
  take, Option, if◌then◌else◌, ◌≡◌, Bool, not, some, ◌++◌, ℕ, ◌∷◌, List, true, [], none, false, ◌⊎◌,
  ap, suc, append-nil, inl, zero, arith, drop, inr, refl, All, sym, Option-cases, ◌∙◌, append_assoc,
}
use xdccget_for_windows.Tls.{
  read_turn, Transport, write_turn, wants_read, wants_write, moved, SocketAnswers, SslAnswer,
  ssl_closed, ssl_recv, session_socket_read, ssl_failed, ssl_send, session_socket_write,
}
use xdccget_for_windows.Bytes.{Bytes}

pub data Turn : Type 0 where
  reads writes : SocketAnswers → Turn

abbrev pub Streams : Type 0
Streams = Bytes × Bytes

abbrev pub moved_bytes : SslAnswer Bytes → Bytes
moved_bytes (moved bytes) = bytes
moved_bytes _ = []

abbrev pub moved_count : SslAnswer ℕ → ℕ
moved_count (moved n) = n
moved_count _ = 0

abbrev pub or_no_bytes : Option Bytes → Bytes
or_no_bytes none = []
or_no_bytes (some bytes) = bytes

abbrev pub or_zero : Option ℕ → ℕ
or_zero none = 0
or_zero (some n) = n

-- The bytes that the socket gives in a turn, over TLS or without.
abbrev pub given : Transport → Turn → Bytes
given t (reads a) =
    if not t.has_ssl
    then or_no_bytes a.recv
    else if t.read_wants_write
    then []
    else moved_bytes a.ssl_read
given t (writes a) =
    if not t.has_ssl then [] else if t.write_wants_read then moved_bytes a.ssl_read else []

-- The bytes that the socket takes in a turn.
abbrev pub taken : Transport → Turn → Bytes
taken t (reads a) =
    if not t.has_ssl
    then []
    else if t.read_wants_write
    then take (moved_count a.ssl_write) t.outgoing
    else []
taken t (writes a) =
    if not t.has_ssl
    then take (or_zero a.send) t.outgoing
    else if t.write_wants_read
    then []
    else take (moved_count a.ssl_write) t.outgoing

abbrev pub turn : Transport → Turn → Option Transport
turn t (reads a) = read_turn t a
turn t (writes a) = write_turn t a

-- The session behind some turns, and all that the socket has given and taken.
unfoldable pub turns : Transport → List Turn → Option (Transport × Streams)
turns t [] = some (t, ([], []))
turns t (x ∷ xs) = elim (turn t x) [
  | none ↦ none
  | some t' ↦ elim (turns t' xs) [
    | none ↦ none
    | some (t'', (g, k)) ↦ some (t'', (given t x ++ g, taken t x ++ k))
  ]
]

-- Does the turn's call not ask to wait for the other direction?
abbrev is_wants_write : SslAnswer Bytes → Bool
is_wants_write wants_write = true
is_wants_write _ = false

abbrev is_wants_read : SslAnswer ℕ → Bool
is_wants_read wants_read = true
is_wants_read _ = false

abbrev pub IsDirect : Turn → Type 0
IsDirect (reads a) = is_wants_write a.ssl_read ≡ false
IsDirect (writes a) = is_wants_read a.ssl_write ≡ false

abbrev pub direct : Bool → Bytes → Bytes → ℕ → Transport
direct ssl incoming outgoing error = record {
  has_ssl = ssl;
  read_wants_write = false;
  write_wants_read = false;
  incoming = incoming;
  outgoing = outgoing;
  lasterror = error;
}

take-drop : (n : ℕ) (s : Bytes) → take n s ++ drop n s ≡ s
take-drop zero s = refl
take-drop (suc n) [] = refl
take-drop (suc n) (c ∷ s) = ap (λ (r : Bytes). c ∷ r) (take-drop n s)

-- The session is disconnected, or both streams are whole.
abbrev Keeps : Bool → Bytes → Bytes → ℕ → Option (Transport × Streams) → Type 0
Keeps ssl i o e result =
    (result ≡ none)
    ⊎ ((i' : Bytes) × (o' : Bytes) × (e' : ℕ) × (g : Bytes) × (k : Bytes) × (result
          ≡ some (direct ssl i' o' e', (g, k)))
        × (i' ≡ i ++ g)
        × (k ++ o' ≡ o))

abbrev one_turn : Transport → Turn → Option (Transport × Streams)
one_turn t x = elim (turn t x) [ none ↦ none | some t' ↦ some (t', (given t x, taken t x)) ]

read-Keeps :
    (ssl : Bool) (i o : Bytes) (e : ℕ) (r : SslAnswer Bytes) (w : SslAnswer ℕ) (v : Option Bytes)
    (s : Option ℕ)
    → is_wants_write r ≡ false
    → Keeps ssl i o e (
        one_turn
          (direct ssl i o e)
          (reads (record { ssl_read = r; ssl_write = w; recv = v; send = s })))
unfolding read_turn session_socket_read ssl_recv
read-Keeps false i o e r w none s h = inl refl
read-Keeps false i o e r w (some v) s h = inr (i ++ v, o, e, v, [], refl, refl, refl)
read-Keeps true i o e (moved v) w _ s h = inr (i ++ v, o, e, v, [], refl, refl, refl)
read-Keeps true i o e ssl_closed w _ s h = inl refl
read-Keeps true i o e wants_read w _ s h = inr (i ++ [], o, e, [], [], refl, refl, refl)
read-Keeps true i o e wants_write w _ s h = absurd (ground (arith, h))
read-Keeps true i o e (ssl_failed reason) w _ s h = inl refl

write-Keeps :
    (ssl : Bool) (i o : Bytes) (e : ℕ) (r : SslAnswer Bytes) (w : SslAnswer ℕ) (v : Option Bytes)
    (s : Option ℕ)
    → is_wants_read w ≡ false
    → Keeps ssl i o e (
        one_turn
          (direct ssl i o e)
          (writes (record { ssl_read = r; ssl_write = w; recv = v; send = s })))
unfolding write_turn session_socket_write ssl_send
write-Keeps false i o e r w v none h = inl refl
write-Keeps false i o e r w v (some n) h =
    inr (i, drop n o, e, [], take n o, refl, sym (append-nil i), take-drop n o)
write-Keeps true i o e r (moved n) v _ h =
    inr (i, drop n o, e, [], take n o, refl, sym (append-nil i), take-drop n o)
write-Keeps true i o e r ssl_closed v _ h = inl refl
write-Keeps true i o e r wants_read v _ h = absurd (ground (arith, h))
write-Keeps true i o e r wants_write v _ h = inr (i, o, e, [], [], refl, sym (append-nil i), refl)
write-Keeps true i o e r (ssl_failed reason) v _ h = inl refl

turn-Keeps :
    (ssl : Bool) (i o : Bytes) (e : ℕ) (x : Turn)
    → IsDirect x
    → Keeps ssl i o e (one_turn (direct ssl i o e) x)
turn-Keeps ssl i o e (reads a) h = read-Keeps ssl i o e a.ssl_read a.ssl_write a.recv a.send h
turn-Keeps ssl i o e (writes a) h = write-Keeps ssl i o e a.ssl_read a.ssl_write a.recv a.send h

-- As long as no read and no write of TLS waits for the other direction, nothing is lost and nothing
-- is sent twice: after any turns, unless the session is disconnected, the incoming buffer has grown by
-- all that the socket has given, and what the socket has taken is what has left the outgoing buffer.
pub turns-streams :
    (ssl : Bool) (i o : Bytes) (e : ℕ) (xs : List Turn)
    → All IsDirect xs
    → (turns (direct ssl i o e) xs ≡ none)
      ⊎ ((i' : Bytes) × (o' : Bytes) × (e' : ℕ) × (g : Bytes) × (k : Bytes) × (turns
              (direct ssl i o e)
              xs
            ≡ some (direct ssl i' o' e', (g, k)))
          × (i' ≡ i ++ g)
          × (k ++ o' ≡ o))
unfolding turns
turns-streams ssl i o e [] h = inr (i, o, e, [], [], refl, sym (append-nil i), refl)
turns-streams ssl i o e (x ∷ xs) (h, hs) = elim (Option-cases (turn (direct ssl i o e) x)) [
  | inl ends ↦ inl (rw (turns, ends) refl)
  | inr (t', goes) ↦ elim (rw (one_turn, goes) at (turn-Keeps ssl i o e x h)) [
    | inl contrary ↦ absurd (ground (arith, contrary))
    | inr (i', o', e', g, k, same, read, went) ↦
        let moves = some-injective _ _ same in
        let at_t' = ap (λ (y : Transport × Streams). turns y.0 xs) moves in
        elim (turns-streams ssl i' o' e' xs hs) [
          | inl ends ↦ inl (rw (turns, goes, at_t' ∙ ends) refl)
          | inr (i'', o'', e'', g', k', goes', read', went') ↦ inr (
            i'',
            o'',
            e'',
            g ++ g',
            k ++ k',
            rw (turns, goes, at_t' ∙ goes')
                (ap
                  (λ (y : Transport × Streams).
                    some (direct ssl i'' o'' e'', (y.1.0 ++ g', y.1.1 ++ k')))
                  moves),
            read' ∙ (ap (λ (r : Bytes). r ++ g') read ∙ append_assoc i g g'),
            append_assoc k k' o'' ∙ (ap (λ (r : Bytes). k ++ r) went' ∙ went),
          )
        ]
  ]
]
