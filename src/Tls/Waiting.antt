-- ===== src/Tls/Waiting.antt =====
-- What reads and writes that wait for the other direction do to the bytes of a session.
use xdccget_for_windows.Tls.Streams.{
  turns, turn, Streams, direct, writes, reads, Turn, IsDirect, given, taken, turns-streams,
}
use xdccget_for_windows.Tls.{
  wants_read, ssl_recv, moved, ssl_send, read_turn, Transport, session_socket_read, wants_write,
  write_turn, SocketAnswers, session_socket_write,
}
use xdccget_for_windows.Base.{
  inl, ◌≡◌, ◌++◌, true, Option-cases, take, refl, some, sym, Option, append-nil, ℕ, List, ap₂, none,
  [], inr, ◌∷◌, append_assoc, All, ap, ◌⊎◌, ◌∙◌,
}
use xdccget_for_windows.Bytes.{Bytes}

abbrev later_turns : Streams → Option (Transport × Streams) → Option (Transport × Streams)
later_turns s o = elim o [ none ↦ none | some (t, (g, k)) ↦ some (t, (s.0 ++ g, s.1 ++ k)) ]

later_twice :
    (s s' : Streams) (o : Option (Transport × Streams))
    → later_turns s (later_turns s' o) ≡ later_turns (s.0 ++ s'.0, s.1 ++ s'.1) o
later_twice s s' none = refl
later_twice (g, k) (g', k') (some (t, (g'', k''))) =
    ap₂ (λ (a b : Bytes). some (t, (a, b))) (sym (append_assoc g g' g''))
      (sym (append_assoc k k' k''))

later_none : (o : Option (Transport × Streams)) → o ≡ later_turns ([], []) o
later_none none = refl
later_none (some x) = refl

abbrev follow : List Turn → Option (Transport × Streams) → Option (Transport × Streams)
follow ys o = elim o [ none ↦ none | some (t, s) ↦ later_turns s (turns t ys) ]

later_turns-follow :
    (s : Streams) (ys : List Turn) (o : Option (Transport × Streams))
    → later_turns s (follow ys o) ≡ follow ys (later_turns s o)
later_turns-follow s ys none = refl
later_turns-follow s ys (some (t, s')) = later_twice s s' (turns t ys)

-- The turns that come later start from the session that the first ones leave.
turns-append : (xs ys : List Turn) (t : Transport) → turns t (xs ++ ys) ≡ follow ys (turns t xs)
unfolding turns
turns-append [] ys t = later_none (turns t ys)
turns-append (x ∷ xs) ys t = elim (Option-cases (turn t x)) [
  | inl e ↦ rw (turns, e) refl
  | inr (t', goes) ↦
      rw (turns, goes)
        (ap (later_turns (given t x, taken t x)) (turns-append xs ys t')
          ∙ later_turns-follow (given t x, taken t x) ys (turns t' xs))
]

-- A write that has to wait for a read, and a read that has to wait for a write, each with the turn in
-- which it is tried again.
abbrev pub crossing : SocketAnswers → SocketAnswers → SocketAnswers → SocketAnswers → List Turn
crossing a a' b b' = writes a ∷ writes a' ∷ reads b ∷ reads b' ∷ []

turns-crossing :
    (i o : Bytes) (e n : ℕ) (bytes : Bytes) (a a' b b' : SocketAnswers)
    → a.ssl_write ≡ wants_read
    → a'.ssl_read ≡ moved bytes
    → b.ssl_read ≡ wants_write
    → b'.ssl_write ≡ moved n
    → turns (direct true i o e) (crossing a a' b b') ≡ some (direct true i o e, (bytes, take n o))
unfolding turns read_turn write_turn session_socket_read session_socket_write ssl_send ssl_recv
turns-crossing i o e n bytes a a' b b' h k l m = rw (h, k, l, m) (simp (append-nil))

-- In a session over TLS, a write that has to wait for a read and a read that has to wait for a write
-- lose bytes and send bytes twice, whatever the turns before and behind that do not wait: unless the
-- session is disconnected, the bytes that the socket gives when the write is tried again are not in
-- the incoming buffer at the end, and those that it takes when the read is tried again are still in
-- front of the outgoing buffer, to be taken again.
pub turns-crossing_twice :
    (i o : Bytes) (e n : ℕ) (bytes : Bytes) (before behind : List Turn) (a a' b b' : SocketAnswers)
    → All IsDirect before
    → All IsDirect behind
    → a.ssl_write ≡ wants_read
    → a'.ssl_read ≡ moved bytes
    → b.ssl_read ≡ wants_write
    → b'.ssl_write ≡ moved n
    → (turns (direct true i o e) (before ++ (crossing a a' b b' ++ behind)) ≡ none)
      ⊎ ((i' : Bytes) × (o' : Bytes) × (e' : ℕ) × (g : Bytes) × (k : Bytes) × (left : Bytes)
          × (g' : Bytes) × (k' : Bytes) × (turns
                (direct true i o e)
                (before ++ (crossing a a' b b' ++ behind))
              ≡ some (direct true i' o' e', (g ++ (bytes ++ g'), k ++ (take n left ++ k'))))
          × (i' ≡ i ++ (g ++ g'))
          × (k ++ left ≡ o)
          × (k' ++ o' ≡ left))
turns-crossing_twice i o e n bytes before behind a a' b b' h h' wr gives ww takes =
    let split = turns-append before (crossing a a' b b' ++ behind) (direct true i o e) in
    elim (turns-streams true i o e before h) [
      | inl none_ ↦ inl (split ∙ ap (follow (crossing a a' b b' ++ behind)) none_)
      | inr (i₁, left, e₁, g, k, goes, read, went) ↦
          let middle =
            turns-append (crossing a a' b b') behind (direct true i₁ left e₁)
            ∙ ap (follow behind) (turns-crossing i₁ left e₁ n bytes a a' b b' wr gives ww takes) in
          let first =
            split
            ∙ (ap (follow (crossing a a' b b' ++ behind)) goes ∙ ap (later_turns (g, k)) middle) in
          elim (turns-streams true i₁ left e₁ behind h') [
            | inl none_ ↦
                inl
                  (first ∙ ap (λ r. later_turns (g, k) (later_turns (bytes, take n left) r)) none_)
            | inr (i', o', e', g', k', goes', read', went') ↦ inr (
              i',
              o',
              e',
              g,
              k,
              left,
              g',
              k',
              first ∙ ap (λ r. later_turns (g, k) (later_turns (bytes, take n left) r)) goes',
              read' ∙ (ap (λ r. r ++ g') read ∙ append_assoc i g g'),
              went,
              went',
            )
          ]
    ]
