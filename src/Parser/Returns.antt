-- ===== src/Parser/Returns.antt =====
-- How irc_parser_execute returns, and the bounds of the part that a callback gets.
use xdccget_for_windows.Base.{
  ℕ, Option, some, none, ◌-◌, ◌≤◌, ◌<◌, ◌≡◌, ◌⊎◌, inl, refl, arith, ◌^◌, ◌∷◌, Bool-cases, inr, ◌==◌,
  [], suc, length, ◌+◌, subst,
}
use xdccget_for_windows.Bytes.{Bytes}
use xdccget_for_windows.Parser.{
  IrcParser, IrcParserSettings, Round, next, again, stop, force_call, state_name, on_byte,
  error_undef_state, state_params, state_end, IrcParserState, state_host, call, trigger_error,
  state_nick, state_command, state_trailing, get_cb, IrcParserCb, state_error, state_init,
  IrcParserError, execute_byte, irc_parser_reset, append_raw, irc_parser_execute, is_end,
}
use xdccget_for_windows.Parser.Scan.{
  settle, scan_of_stop, Round-cases, scan_of_next, settle-again, scan, irc_parser_execute-scan,
}

-- The part starts in front of the end.
abbrev IsBounded : {R : Type 0} → IrcParser R → Type 0
IsBounded p = p.last ≤ p.len

abbrev AllBounded : {R : Type 0} → Round R → Type 0
AllBounded (next q) = IsBounded q
AllBounded (again q) = IsBounded q
AllBounded (stop q r) = IsBounded q

-- A stop returns the byte's index, in the error state, or -1.
abbrev Stops : {R : Type 0} → ℕ → Round R → Type 0
Stops i (next q) = Unit
Stops i (again q) = Unit
Stops i (stop q r) = ((r ≡ i) × (q.state ≡ state_error)) ⊎ (r ≡ 2 ^ 64 - 1)

module _ {R : Type 0} (settings : IrcParserSettings R) where
  force_call_bounds :
      (p : IrcParser R) (cb : Option (IrcParserCb R))
      → ((force_call p cb).last ≡ p.last) × ((force_call p cb).len ≡ p.len)
  force_call_bounds p none = (refl, refl)
  force_call_bounds p (some f) = ground arith

  call_bounds :
      (p : IrcParser R) → ((call settings p).last ≡ p.last) × ((call settings p).len ≡ p.len)
  call_bounds p = force_call_bounds p (get_cb settings p.state)

  trigger_error_bounds :
      (p : IrcParser R) (rest : Bytes) (e : IrcParserError)
      → ((trigger_error settings p rest e).last ≡ p.last)
        × ((trigger_error settings p rest e).len ≡ p.len)
        × ((trigger_error settings p rest e).state ≡ state_error)
  trigger_error_bounds p rest e = ground arith

  on_byte-AllBounded :
      (st : IrcParserState) (p : IrcParser R) (c : ℕ) (rest : Bytes) (i : ℕ)
      → p.last < p.len
      → AllBounded (on_byte settings st p c rest i)
  unfolding on_byte
  on_byte-AllBounded state_init p c rest i h = ground arith
  on_byte-AllBounded state_nick p c rest i h = ground (arith, call_bounds p)
  on_byte-AllBounded state_name p c rest i h = ground (arith, call_bounds p)
  on_byte-AllBounded state_host p c rest i h = ground (arith, call_bounds p)
  on_byte-AllBounded state_command p c rest i h = ground (arith, call_bounds p)
  on_byte-AllBounded state_params p c rest i h = ground (arith, call_bounds p)
  on_byte-AllBounded state_trailing p c rest i h = omega arith
  on_byte-AllBounded state_error p c rest i h =
      omega (arith, trigger_error_bounds p (c ∷ rest) p.error)
  on_byte-AllBounded state_end p c rest i h =
      omega (arith, trigger_error_bounds p (c ∷ rest) error_undef_state)

  on_byte-Stops :
      (st : IrcParserState) (p : IrcParser R) (c : ℕ) (rest : Bytes) (i : ℕ)
      → Stops i (on_byte settings st p c rest i)
  unfolding on_byte
  on_byte-Stops state_init p c rest i = ground arith
  on_byte-Stops state_nick p c rest i = tt
  on_byte-Stops state_name p c rest i = tt
  on_byte-Stops state_host p c rest i = tt
  on_byte-Stops state_command p c rest i = tt
  on_byte-Stops state_params p c rest i = ground arith
  on_byte-Stops state_trailing p c rest i = tt
  on_byte-Stops state_error p c rest i = inl (refl, (trigger_error_bounds p (c ∷ rest) p.error).2)
  on_byte-Stops state_end p c rest i =
      inl (refl, (trigger_error_bounds p (c ∷ rest) error_undef_state).2)

  append_raw_bounds :
      (p : IrcParser R) (c : ℕ) → IsBounded p → (append_raw p c).last < (append_raw p c).len
  append_raw_bounds p c h = ground arith

  execute_byte-AllBounded :
      (p : IrcParser R) (c : ℕ) (rest : Bytes) (i : ℕ)
      → IsBounded p
      → AllBounded (execute_byte settings p c rest i)
  unfolding execute_byte irc_parser_reset
  execute_byte-AllBounded p c rest i h = elim (Bool-cases (c == 13)) [
    | inl cr ↦ rw cr h
    | inr no_cr ↦ elim (Bool-cases (c == 10)) [
      | inl lf ↦
          rw (no_cr, lf)
            (elim (Bool-cases (is_end p.state)) [ inl e ↦ rw e (omega arith) | inr e ↦ rw e h ])
      | inr no_lf ↦
          rw (no_cr, no_lf)
            (on_byte-AllBounded (append_raw p c).state (append_raw p c) c rest i
              (append_raw_bounds p c h))
    ]
  ]

  execute_byte-Stops :
      (p : IrcParser R) (c : ℕ) (rest : Bytes) (i : ℕ) → Stops i (execute_byte settings p c rest i)
  unfolding execute_byte irc_parser_reset
  execute_byte-Stops p c rest i = elim (Bool-cases (c == 13)) [
    | inl cr ↦ rw cr tt
    | inr no_cr ↦ elim (Bool-cases (c == 10)) [
      | inl lf ↦
          rw (no_cr, lf)
            (elim (Bool-cases (is_end p.state)) [ inl e ↦ rw e tt | inr e ↦ rw e (inr refl) ])
      | inr no_lf ↦
          rw (no_cr, no_lf) (on_byte-Stops (append_raw p c).state (append_raw p c) c rest i)
    ]
  ]

  settle-Stops :
      (p : IrcParser R) (c : ℕ) (rest : Bytes) (i : ℕ) → Stops i (settle settings p c rest i)
  unfolding settle
  settle-Stops p c rest i = elim (Round-cases (execute_byte settings p c rest i)) [
    | inl (q, e) ↦ rw (settle, e) tt
    | inr (inl (q, e)) ↦ rw (settle, e) (execute_byte-Stops q c rest i)
    | inr (inr (q, r, e)) ↦ rw (settle, e) (rw e at (execute_byte-Stops p c rest i))
  ]

  settle-AllBounded :
      (p : IrcParser R) (c : ℕ) (rest : Bytes) (i : ℕ)
      → IsBounded p
      → AllBounded (settle settings p c rest i)
  unfolding settle
  settle-AllBounded p c rest i h =
      let first = execute_byte-AllBounded p c rest i h in
      elim (Round-cases (execute_byte settings p c rest i)) [
        | inl (q, e) ↦ rw (settle, e) (rw e at first)
        | inr (inl (q, e)) ↦ rw (settle, e) (execute_byte-AllBounded q c rest i (rw e at first))
        | inr (inr (q, r, e)) ↦ rw (settle, e) (rw e at first)
      ]

  -- The ways to return when the bytes end at an index.
  abbrev Returned : IrcParser R × ℕ → ℕ → Type 0
  Returned x n = (x.1 ≡ n) ⊎ ((x.1 < n) × (x.0.state ≡ state_error)) ⊎ (x.1 ≡ 2 ^ 64 - 1)

  stopped-Returned : (q : IrcParser R) (r i n : ℕ) → i < n → Stops i (stop q r) → Returned (q, r) n
  stopped-Returned q r i n h (inl (e, failed)) = inr (inl (omega (arith, e), failed))
  stopped-Returned q r i n h (inr e) = inr (inr e)

  scan-Returned :
      (p : IrcParser R) (bytes : Bytes) (i : ℕ)
      → IsBounded p
      → Returned (scan settings p bytes i) (i + length bytes)
        × IsBounded (scan settings p bytes i).0
  unfolding scan
  scan-Returned p [] i h = (inl (omega arith), h)
  scan-Returned p (c ∷ rest) i h =
      let bounded = settle-AllBounded p c rest i h in
      let stops = settle-Stops p c rest i in
      elim (Round-cases (settle settings p c rest i)) [
        | inl (q, e) ↦
            let (returned, still) = scan-Returned q rest (suc i) (rw e at bounded) in
            rw (scan_of_next settings p q c rest i e)
              (subst (Returned (scan settings q rest (suc i))) (omega arith) returned, still)
        | inr (inl (q, e)) ↦ absurd (settle-again settings p q c rest i e)
        | inr (inr (q, r, e)) ↦ rw (scan_of_stop settings p q c rest i r e) (
          stopped-Returned q r i (i + length (c ∷ rest)) (omega arith) (rw e at stops),
          rw e at bounded,
        )
      ]

  -- Whatever the callbacks do, irc_parser_execute returns: the number of the bytes, if it reads them
  -- all; the index of a byte, in the error state; or -1. If the part being read starts in front of the
  -- end of what is stored, so that its length does not wrap, then it does so again.
  pub irc_parser_execute_returns :
      (p : IrcParser R) (bytes : Bytes)
      → p.last ≤ p.len
      → (q : IrcParser R) × (r : ℕ) × (irc_parser_execute settings p bytes ≡ some (q, r))
        × ((r ≡ length bytes) ⊎ ((r < length bytes) × (q.state ≡ state_error)) ⊎ (r ≡ 2 ^ 64 - 1))
        × (q.last ≤ q.len)
  irc_parser_execute_returns p bytes h =
      let x = scan settings p bytes 0 in
      let (returned, bounded) = scan-Returned p bytes 0 h in
      (
        x.0,
        x.1,
        irc_parser_execute-scan settings p bytes,
        subst (Returned x) (omega arith) returned,
        bounded,
      )
