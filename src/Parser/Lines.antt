-- ===== src/Parser/Lines.antt =====
-- The parser of irc_parser.c at the two ends of a line.
use xdccget_for_windows.Base.{
  ℕ, some, [], ◌∷◌, ◌++◌, ◌+◌, ◌-◌, ◌≤◌, ◌<◌, ◌≡◌, ◌≢◌, ◌∙◌, refl, arith, true, length, inr, inl,
  ltb, if◌then◌else◌, sym,
}
use xdccget_for_windows.Bytes.{Bytes}
use xdccget_for_windows.Parser.{
  IrcParser, IrcParserState, IrcParserSettings, IrcParserCb, next, again, raw_buffer_size, store,
  slice, execute_byte, on_byte, irc_parser_reset, state_init, state_nick, state_command,
  state_params, state_trailing, state_end,
}
use xdccget_for_windows.Parser.Scan.{settle, scan, execute_byte-again, Round-cases}
use xdccget_for_windows.Parser.Steps.{parser_at, is_line_byte}
use xdccget_for_windows.Parser.Parts.{
  Reads, Reads-byte, Reads-trans, Reads-quiet, write, all_quiet, slice-write, ==_refl, call_passes,
}

-- A parser that waits for a line.
abbrev pub ready : {R : Type 0} → R → (ℕ → ℕ) → IrcParser R
ready u raw = parser_at state_init u 0 0 raw

abbrev pub cleared : (ℕ → ℕ) → ℕ → ℕ
cleared raw j = if ltb j raw_buffer_size then 0 else raw j

module _ {R : Type 0} (settings : IrcParserSettings R) where
  pub Reads-colon :
      (u : R) (raw : ℕ → ℕ)
      → Reads settings (ready u raw) (b':' ∷ []) (parser_at state_nick u 1 1 (store raw 0 b':'))
  unfolding settle execute_byte on_byte
  Reads-colon u raw = Reads-byte settings _ _ b':' (λ rest i. refl)

  settle-execute_byte :
      (p : IrcParser R) (c : ℕ) (rest : Bytes) (i : ℕ)
      → p.state ≢ state_init
      → settle settings p c rest i ≡ execute_byte settings p c rest i
  unfolding settle
  settle-execute_byte p c rest i h = elim (Round-cases (execute_byte settings p c rest i)) [
    | inl (q, e) ↦ rw (settle, e) refl
    | inr (inl (q, e)) ↦ absurd (h (execute_byte-again settings p q c rest i e).0)
    | inr (inr (q, k, e)) ↦ rw (settle, e) refl
  ]

  settle_first :
      (u : R) (raw : ℕ → ℕ) (c : ℕ) (rest : Bytes) (i : ℕ)
      → is_line_byte c ≡ true
      → c ≢ b':'
      → settle settings (ready u raw) c rest i
        ≡ settle settings (parser_at state_command u 0 0 (store raw 0 c)) c rest i
  unfolding settle
  settle_first u raw c rest i line other =
      opened
      ∙ sym (settle-execute_byte (parser_at state_command u 0 0 (store raw 0 c)) c rest i (λ e. cc))
    where
      again_first :
          execute_byte settings (ready u raw) c rest i
          ≡ again (parser_at state_command u 0 0 (store raw 0 c))
      again_first = unfold execute_byte on_byte in ground arith

      opened :
          settle settings (ready u raw) c rest i
          ≡ execute_byte settings (parser_at state_command u 0 0 (store raw 0 c)) c rest i
      opened = rw (settle, again_first) refl

  -- Without a prefix the first byte is read again as one of the command.
  pub scan_command :
      (u : R) (raw : ℕ → ℕ) (c : ℕ) (rest : Bytes) (i : ℕ)
      → is_line_byte c ≡ true
      → c ≢ b':'
      → scan settings (ready u raw) (c ∷ rest) i
        ≡ scan settings (parser_at state_command u 0 0 (store raw 0 c)) (c ∷ rest) i
  unfolding scan
  scan_command u raw c rest i line other = rw (scan, settle_first u raw c rest i line other) refl

  -- The colon in front of the last parameter.
  pub Reads-trailing_colon :
      (u : R) (n : ℕ) (raw : ℕ → ℕ)
      → n < raw_buffer_size
      → Reads settings
          (parser_at state_params u n n raw)
          (b':' ∷ [])
          (parser_at state_trailing u (n + 1) (n + 1) (store raw n b':'))
  unfolding settle execute_byte on_byte
  Reads-trailing_colon u n raw fits = Reads-byte settings _ _ b':' (λ rest i. ground arith)

  settle_cr :
      (p : IrcParser R) (rest : Bytes) (i : ℕ)
      → settle settings p 13 rest i ≡ next (record p { state = state_end })
  unfolding settle execute_byte
  settle_cr p rest i = refl

  settle_lf :
      (f g : IrcParserCb R) (u u₁ u₂ : R) (n l : ℕ) (raw : ℕ → ℕ) (s rest : Bytes) (i : ℕ)
      → settings.on_param ≡ some f
      → settings.on_end ≡ some g
      → slice raw l (n + 1 - l - 1) ≡ s
      → f u s ≡ (u₁, 0)
      → g u₁ s ≡ (u₂, 0)
      → settle settings (parser_at state_end u n l raw) 10 rest i ≡ next (ready u₂ (cleared raw))
  unfolding settle execute_byte irc_parser_reset
  settle_lf f g u u₁ u₂ n l raw s rest i is_param ends passed param_ok end_ok =
      rw
        (
          call_passes settings state_end f u u₁ (n + 1) l raw s is_param param_ok passed,
          ends,
          passed,
          end_ok,
        )
        refl

  pub Reads-end :
      (st : IrcParserState) (f g : IrcParserCb R) (u u₁ u₂ : R) (n : ℕ) (raw : ℕ → ℕ) (s : Bytes)
      → settings.on_param ≡ some f
      → settings.on_end ≡ some g
      → f u s ≡ (u₁, 0)
      → g u₁ s ≡ (u₂, 0)
      → n + length s ≤ raw_buffer_size
      → all_quiet st true s ≡ true
      → Reads settings
          (parser_at st u n n raw)
          (s ++ 13 ∷ 10 ∷ [])
          (ready u₂ (cleared (write raw n s)))
  Reads-end st f g u u₁ u₂ n raw s is_param ends param_ok end_ok fits quiet =
      Reads-trans settings _ _ _ s (13 ∷ 10 ∷ []) read (
        Reads-trans settings _ (parser_at state_end u (n + length s) n (write raw n s)) _ (13 ∷ [])
          (10 ∷ []) cr lf)
    where
      read :
          Reads settings
            (parser_at st u n n raw)
            s
            (parser_at st u (n + length s) n (write raw n s))
      read = Reads-quiet settings st u n n raw s (omega arith) fits (rw (==_refl n) quiet)

      cr :
          Reads settings
            (parser_at st u (n + length s) n (write raw n s))
            (13 ∷ [])
            (parser_at state_end u (n + length s) n (write raw n s))
      cr = Reads-byte settings _ _ 13 (settle_cr (parser_at st u (n + length s) n (write raw n s)))

      counted : n + length s + 1 - n - 1 ≡ length s
      counted = omega arith

      lf :
          Reads settings
            (parser_at state_end u (n + length s) n (write raw n s))
            (10 ∷ [])
            (ready u₂ (cleared (write raw n s)))
      lf = Reads-byte settings _ _ 10 (λ rest i.
          settle_lf f g u u₁ u₂ (n + length s) n (write raw n s) s rest i is_param ends
            (rw counted (slice-write raw n s)) param_ok end_ok)
