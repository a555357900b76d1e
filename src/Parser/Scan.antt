-- ===== src/Parser/Scan.antt =====
-- The loop of irc_parser.c ends, and reads each byte in one step or two.
use xdccget_for_windows.Base.{
  ℕ, suc, [], ◌∷◌, ◌≡◌, arith, inl, ◌*◌, zero, length, some, ◌≢◌, inr, ◌≤◌, ◌⊎◌, refl,
}
use xdccget_for_windows.Bytes.{Bytes}
use xdccget_for_windows.Parser.{
  IrcParser, IrcParserState, IrcParserSettings, Round, next, again, stop, execute_byte, on_byte,
  state_init, state_nick, state_name, state_host, state_command, state_params, state_trailing,
  state_end, state_error, append_raw, loop, irc_parser_execute,
}

pub Round-cases :
    {R : Type 0} (x : Round R)
    → ((q : IrcParser R) × (x ≡ next q))
      ⊎ ((q : IrcParser R) × (x ≡ again q))
      ⊎ ((q : IrcParser R) × (r : ℕ) × (x ≡ stop q r))
Round-cases (next q) = inl (q, refl)
Round-cases (again q) = inr (inl (q, refl))
Round-cases (stop q r) = inr (inr (q, r, refl))

module _ {R : Type 0} (settings : IrcParserSettings R) where
  -- What becomes of a byte that is read again where that is asked for.
  unfoldable pub settle : IrcParser R → ℕ → Bytes → ℕ → Round R
  settle p c rest i = elim (execute_byte settings p c rest i) [
    | again q ↦ execute_byte settings q c rest i
    | next q ↦ next q
    | stop q r ↦ stop q r
  ]

  unfoldable pub scan : IrcParser R → Bytes → ℕ → IrcParser R × ℕ
  scan p [] i = (p, i)
  scan p (c ∷ rest) i = elim (settle p c rest i) [
    | next q ↦ scan q rest (suc i)
    | again q ↦ (q, i)
    | stop q r ↦ (q, r)
  ]

  on_byte-again :
      (st : IrcParserState) (p q : IrcParser R) (c : ℕ) (rest : Bytes) (i : ℕ)
      → on_byte settings st p c rest i ≡ again q
      → (st ≡ state_init) × (q.state ≡ state_command)
  unfolding on_byte
  on_byte-again state_init p q c rest i h = ground arith
  on_byte-again state_nick p q c rest i h = absurd (cc)
  on_byte-again state_name p q c rest i h = absurd (cc)
  on_byte-again state_host p q c rest i h = absurd (cc)
  on_byte-again state_command p q c rest i h = absurd (cc)
  on_byte-again state_params p q c rest i h = ground arith
  on_byte-again state_trailing p q c rest i h = absurd (cc)
  on_byte-again state_end p q c rest i h = absurd (cc)
  on_byte-again state_error p q c rest i h = absurd (cc)

  pub execute_byte-again :
      (p q : IrcParser R) (c : ℕ) (rest : Bytes) (i : ℕ)
      → execute_byte settings p c rest i ≡ again q
      → (p.state ≡ state_init) × (q.state ≡ state_command)
  unfolding execute_byte
  execute_byte-again p q c rest i h =
      ground (arith, on_byte-again (append_raw p c).state (append_raw p c) q c rest i)

  pub settle-again :
      (p q : IrcParser R) (c : ℕ) (rest : Bytes) (i : ℕ) → settle p c rest i ≢ again q
  unfolding settle
  settle-again p q c rest i h = elim (Round-cases (execute_byte settings p c rest i)) [
    | inl (r, e) ↦ cc
    | inr (inl (r, e)) ↦
        let once = execute_byte-again p r c rest i e in
        let twice = execute_byte-again r q c rest i (rw (settle, e) at h) in cc
    | inr (inr (r, k, e)) ↦ cc
  ]

  loop-scan :
      (fuel : ℕ) (p : IrcParser R) (bytes : Bytes) (i : ℕ)
      → 2 * length bytes ≤ fuel
      → loop settings fuel p bytes i ≡ some (scan p bytes i)
  unfolding loop scan settle
  loop-scan zero p [] i h = refl
  loop-scan (suc fuel) p [] i h = refl
  loop-scan zero p (c ∷ rest) i h = absurd (omega arith)
  loop-scan (suc zero) p (c ∷ rest) i h = absurd (omega arith)
  loop-scan (suc (suc fuel)) p (c ∷ rest) i h =
      elim (Round-cases (execute_byte settings p c rest i)) [
        | inl (q, e) ↦
            rw (loop, scan, settle, e) (loop-scan (suc fuel) q rest (suc i) (omega arith))
        | inr (inl (q, e)) ↦ elim (Round-cases (execute_byte settings q c rest i)) [
          | inl (r, g) ↦ rw (loop, scan, settle, e, g) (loop-scan fuel r rest (suc i) (omega arith))
          | inr (inl (r, g)) ↦
              let once = execute_byte-again p q c rest i e in
              let twice = execute_byte-again q r c rest i g in absurd (cc)
          | inr (inr (r, k, g)) ↦ rw (loop, scan, settle, e, g) refl
        ]
        | inr (inr (q, k, e)) ↦ rw (loop, scan, settle, e) refl
      ]

  -- The fuel of irc_parser_execute is enough.
  pub irc_parser_execute-scan :
      (p : IrcParser R) (bytes : Bytes)
      → irc_parser_execute settings p bytes ≡ some (scan p bytes 0)
  unfolding irc_parser_execute
  irc_parser_execute-scan p bytes = loop-scan (2 * length bytes) p bytes 0 (omega arith)

  pub scan_of_next :
      (p q : IrcParser R) (c : ℕ) (rest : Bytes) (i : ℕ)
      → settle p c rest i ≡ next q
      → scan p (c ∷ rest) i ≡ scan q rest (suc i)
  unfolding scan
  scan_of_next p q c rest i e = rw (scan, e) refl

  pub scan_of_stop :
      (p q : IrcParser R) (c : ℕ) (rest : Bytes) (i r : ℕ)
      → settle p c rest i ≡ stop q r
      → scan p (c ∷ rest) i ≡ (q, r)
  unfolding scan
  scan_of_stop p q c rest i r e = rw (scan, e) refl
