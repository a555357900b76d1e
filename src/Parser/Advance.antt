-- ===== src/Parser/Advance.antt =====
-- The parser of irc_parser.c from part to part, whatever the buffer holds then.
use xdccget_for_windows.Base.{
  ℕ, ◌++◌, some, ◌+◌, true, length-append, [], subst, ◌<◌, ◌≡◌, arith, length, ◌∷◌, append_assoc,
  ◌≢◌, ◌∙◌,
}
use xdccget_for_windows.Parser.Parts.{write, all_quiet, Reads-trans, Reads, Reads-part}
use xdccget_for_windows.Parser.Steps.{is_separator, parser_at, is_line_byte}
use xdccget_for_windows.Parser.{
  store, raw_buffer_size, get_cb, IrcParserState, IrcParserCb, IrcParserSettings, state_command,
  state_init,
}
use xdccget_for_windows.Bytes.{Bytes}
use xdccget_for_windows.Parser.Lines.{scan_command}

module _ {R : Type 0} (settings : IrcParserSettings R) where
  -- From the start of a part, the bytes take the parser to the start of another.
  abbrev pub Advances : IrcParserState → R → ℕ → (ℕ → ℕ) → Bytes → IrcParserState → R → Type 0
  Advances st u n raw s st' u' =
      (raw' : ℕ → ℕ) × Reads settings (parser_at st u n n raw) s
        (parser_at st' u' (n + length s) (n + length s) raw')

  pub Advances-trans :
      (st st' st'' : IrcParserState) (u u' u'' : R) (n : ℕ) (raw : ℕ → ℕ) (s t : Bytes)
      → Advances st u n raw s st' u'
      → ((raw' : ℕ → ℕ) → Advances st' u' (n + length s) raw' t st'' u'')
      → Advances st u n raw (s ++ t) st'' u''
  Advances-trans st st' st'' u u' u'' n raw s t (raw₁, first) second =
      let (raw₂, then_) = second raw₁ in
      (
        raw₂,
        subst
            (λ (m : ℕ).
              Reads settings (parser_at st u n n raw) (s ++ t) (parser_at st'' u'' m m raw₂))
            (omega (arith, length-append s t)) (Reads-trans settings _ _ _ s t first then_),
      )

  pub Advances-part :
      (st st' : IrcParserState) (f : IrcParserCb R) (u u' : R) (n : ℕ) (raw : ℕ → ℕ) (s : Bytes)
      (c : ℕ)
      → get_cb settings st ≡ some f
      → f u s ≡ (u', 0)
      → n + length s < raw_buffer_size
      → all_quiet st true s ≡ true
      → is_separator st c st' ≡ true
      → Advances st u n raw (s ++ c ∷ []) st' u'
  Advances-part st st' f u u' n raw s c is_cb returns fits quiet sep = (
    _,
    subst
        (λ (m : ℕ).
          Reads settings (parser_at st u n n raw) (s ++ c ∷ [])
            (parser_at st' u' m m (store (write raw n s) (n + length s) c)))
        (omega (arith, length-append s (c ∷ [])))
        (Reads-part settings st st' f u u' n raw s c is_cb returns fits quiet sep),
  )

  pub Advances-join :
      (st st' st'' : IrcParserState) (u u' u'' : R) (n : ℕ) (raw : ℕ → ℕ) (s : Bytes) (c : ℕ)
      (t : Bytes)
      → Advances st u n raw (s ++ c ∷ []) st' u'
      → ((raw' : ℕ → ℕ) → Advances st' u' (n + length s + 1) raw' t st'' u'')
      → Advances st u n raw (s ++ c ∷ t) st'' u''
  Advances-join st st' st'' u u' u'' n raw s c t first second =
      subst (λ (b : Bytes). Advances st u n raw b st'' u'') (append_assoc s (c ∷ []) t)
        (Advances-trans st st' st'' u u' u'' n raw (s ++ c ∷ []) t first (λ raw'.
          subst (λ (m : ℕ). Advances st' u' m raw' t st'' u'')
            (omega (arith, length-append s (c ∷ []))) (second raw')))

  pub Advances-start :
      (u : R) (raw : ℕ → ℕ) (c : ℕ) (s : Bytes) (st' : IrcParserState) (u' : R)
      → is_line_byte c ≡ true
      → c ≢ b':'
      → Advances state_command u 0 (store raw 0 c) (c ∷ s) st' u'
      → Advances state_init u 0 raw (c ∷ s) st' u'
  Advances-start u raw c s st' u' line other (raw', reads) =
      (raw', λ rest i. scan_command settings u raw c (s ++ rest) i line other ∙ reads rest i)
