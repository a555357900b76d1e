-- ===== src/Parser/Parts.antt =====
-- The parser of irc_parser.c on the parts of a line: a part is passed to its callback as it stands.
use xdccget_for_windows.Base.{
  ℕ, suc, zero, some, [], ◌∷◌, ◌++◌, ◌+◌, ◌-◌, ◌≤◌, ◌<◌, ◌≡◌, ◌∙◌, refl, arith, Bool, true, false,
  ◌&&◌, ◌==◌, length, append_assoc, length-append, ap₂, ap, append-nil, subst,
}
use xdccget_for_windows.Bytes.{Bytes}
use xdccget_for_windows.Parser.{
  IrcParser, IrcParserState, IrcParserSettings, IrcParserCb, next, raw_buffer_size, store, slice,
  call, get_cb, irc_parser_execute,
}
use xdccget_for_windows.Parser.Scan.{settle, scan, irc_parser_execute-scan}
use xdccget_for_windows.Parser.Steps.{
  parser_at, is_quiet, is_line_byte, is_separator, settle_quiet, settle_separator,
}

abbrev pub write : (ℕ → ℕ) → ℕ → Bytes → ℕ → ℕ
write raw n [] = raw
write raw n (c ∷ s) = write (store raw n c) (n + 1) s

pub write_below : (raw : ℕ → ℕ) (n : ℕ) (s : Bytes) (j : ℕ) → j < n → write raw n s j ≡ raw j
write_below raw n [] j h = refl
write_below raw n (c ∷ s) j h = write_below (store raw n c) (n + 1) s j (omega arith) ∙ ground arith

pub slice-write : (raw : ℕ → ℕ) (n : ℕ) (s : Bytes) → slice (write raw n s) n (length s) ≡ s
slice-write raw n [] = refl
slice-write raw n (c ∷ s) =
    ap₂ (λ (x : ℕ) (r : Bytes). x ∷ r)
      (write_below (store raw n c) (n + 1) s n (omega arith) ∙ ground arith)
      (slice-write (store raw n c) (n + 1) s)

pub slice-store :
    (raw : ℕ → ℕ) (j c from n : ℕ) → from + n ≤ j → slice (store raw j c) from n ≡ slice raw from n
slice-store raw j c from zero h = refl
slice-store raw j c from (suc n) h =
    ap₂ (λ (x : ℕ) (r : Bytes). x ∷ r) (ground arith)
      (slice-store raw j c (from + 1) n (omega arith))

pub ==_refl : (n : ℕ) → (n == n) ≡ true
==_refl n = ground arith

-- None of the bytes ends the part.
abbrev pub all_quiet : IrcParserState → Bool → Bytes → Bool
all_quiet st first [] = true
all_quiet st first (c ∷ s) = is_line_byte c && (is_quiet st first c && all_quiet st false s)

module _ {R : Type 0} (settings : IrcParserSettings R) where
  pub call_passes :
      (st : IrcParserState) (f : IrcParserCb R) (u u' : R) (n l : ℕ) (raw : ℕ → ℕ) (s : Bytes)
      → get_cb settings st ≡ some f
      → f u s ≡ (u', 0)
      → slice raw l (n - l - 1) ≡ s
      → call settings (parser_at st u n l raw) ≡ parser_at st u' n l raw
  call_passes st f u u' n l raw s is_cb returns passed = rw (is_cb, passed, returns) refl

  -- Reading `bytes` takes the parser from `p` to `q`, whatever follows.
  abbrev pub Reads : IrcParser R → Bytes → IrcParser R → Type 0
  Reads p bytes q =
      (rest : Bytes) (i : ℕ)
      → scan settings p (bytes ++ rest) i ≡ scan settings q rest (i + length bytes)

  pub irc_parser_execute-Reads :
      (p q : IrcParser R) (bytes : Bytes)
      → Reads p bytes q
      → irc_parser_execute settings p bytes ≡ some (q, length bytes)
  unfolding scan
  irc_parser_execute-Reads p q bytes reads =
      irc_parser_execute-scan settings p bytes
      ∙ ap some (at_end ∙ ap (λ (k : ℕ). (q, k)) (omega arith))
    where
      at_end : scan settings p bytes 0 ≡ scan settings q [] (0 + length bytes)
      at_end =
          subst (λ (b : Bytes). scan settings p b 0 ≡ scan settings q [] (0 + length bytes))
            (append-nil bytes) (reads [] 0)

  pub Reads-trans :
      (p q r : IrcParser R) (s t : Bytes) → Reads p s q → Reads q t r → Reads p (s ++ t) r
  Reads-trans p q r s t first second rest i =
      rw (append_assoc, length-append)
        (first (t ++ rest) i ∙ second rest (i + length s) ∙ ap (scan settings r rest) (omega arith))

  pub Reads-byte :
      (p q : IrcParser R) (c : ℕ)
      → ((rest : Bytes) (i : ℕ) → settle settings p c rest i ≡ next q)
      → Reads p (c ∷ []) q
  unfolding scan
  Reads-byte p q c h rest i = rw (scan, h rest i) (ap (scan settings q rest) (omega arith))

  pub Reads-quiet :
      (st : IrcParserState) (u : R) (n l : ℕ) (raw : ℕ → ℕ) (s : Bytes)
      → l ≤ n
      → n + length s ≤ raw_buffer_size
      → all_quiet st (n == l) s ≡ true
      → Reads (parser_at st u n l raw) s (parser_at st u (n + length s) l (write raw n s))
  Reads-quiet st u n l raw [] after fits q = λ rest i.
      ap₂ (λ (m k : ℕ). scan settings (parser_at st u m l raw) rest k) (omega arith) (omega arith)
  Reads-quiet st u n l raw (c ∷ s) after fits q =
      let more =
        Reads-quiet st u (n + 1) l (store raw n c) s (omega arith) (omega arith)
          (rw started (ground arith)) in
      λ rest i.
        Reads-trans _ _ _ (c ∷ []) s one more rest i
        ∙ ap
            (λ (m : ℕ).
              scan settings (parser_at st u m l (write raw n (c ∷ s))) rest (i + length (c ∷ s)))
            (omega arith)
    where
      started : (n + 1 == l) ≡ false
      started = ground arith

      same : (n == l) ≡ (n + 1 == l + 1)
      same = ground arith

      one : Reads (parser_at st u n l raw) (c ∷ []) (parser_at st u (n + 1) l (store raw n c))
      one = Reads-byte _ _ c (λ rest i.
          settle_quiet settings st u n l raw c rest i (omega arith) (ground arith)
            (rw (← same) (ground arith)))

  pub Reads-part :
      (st st' : IrcParserState) (f : IrcParserCb R) (u u' : R) (n : ℕ) (raw : ℕ → ℕ) (s : Bytes)
      (c : ℕ)
      → get_cb settings st ≡ some f
      → f u s ≡ (u', 0)
      → n + length s < raw_buffer_size
      → all_quiet st true s ≡ true
      → is_separator st c st' ≡ true
      → Reads (parser_at st u n n raw) (s ++ c ∷ []) (
          parser_at st' u'
            (n + length s + 1)
            (n + length s + 1)
            (store (write raw n s) (n + length s) c))
  Reads-part st st' f u u' n raw s c is_cb returns fits quiet sep =
      Reads-trans _ _ _ s (c ∷ [])
        (Reads-quiet st u n n raw s (omega arith) (omega arith) (rw (==_refl n) quiet))
        (Reads-byte _ _ c (λ rest i.
          settle_separator settings st st' u u' (n + length s) n (write raw n s) c rest i fits sep
            (call_passes st f u u' (n + length s + 1) n _ s is_cb returns passed)))
    where
      counted : n + length s + 1 - n - 1 ≡ length s
      counted = omega arith

      passed : slice (store (write raw n s) (n + length s) c) n (n + length s + 1 - n - 1) ≡ s
      passed =
          ap (slice (store (write raw n s) (n + length s) c) n) counted
          ∙ slice-store (write raw n s) (n + length s) c n (length s) (omega arith)
          ∙ slice-write raw n s
