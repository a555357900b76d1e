-- ===== src/Incoming/Overlong.antt =====
-- A line that is longer than the parser's buffer, and the lines after it.
use xdccget_for_windows.Base.{
  ℕ, Bool-cases, sym, suc, Bool, ltb, [], none, inl, length, some, All, true, ◌∙◌, Option, refl,
  ltb→lt, ◌+◌, ◌<◌, ◌∷◌, arith, ◌≤◌, ◌==◌, ◌&&◌, subst, ◌≡◌, ◌++◌, List, inr, ap,
}
use xdccget_for_windows.Parser.{state_error, error_length, irc_parser_execute}
use xdccget_for_windows.Parser.Steps.{is_line_byte}
use xdccget_for_windows.LineParser.Following.{is_reading, settle_error, settle-Follows, settle_full}
use xdccget_for_windows.LineParser.{
  empty_result, IrcParserResult, free_parser_result, LineParser, create_line_parser,
}
use xdccget_for_windows.Parser.Scan.{scan_of_stop, scan, scan_of_next, irc_parser_execute-scan}
use xdccget_for_windows.Bytes.{Bytes}
use xdccget_for_windows.Incoming.{libirc_process_incoming_data}
use xdccget_for_windows.Parser.Lines.{scan_command, Reads-colon, ready}

abbrev pub all_line_bytes : Bytes → Bool
all_line_bytes [] = true
all_line_bytes (c ∷ s) = is_line_byte c && all_line_bytes s

-- The first byte of the line is neither CR nor LF.
abbrev pub BeginsLine : Bytes → Type 0
BeginsLine line = (c : ℕ) × (s : Bytes) × (line ≡ c ∷ s) × (is_line_byte c ≡ true)

module _ {S : Type 0} (handle : IrcParserResult → S → IrcParserResult × S) where
  abbrev Overflows : S → LineParser S → Type 0
  Overflows u q =
      (q.len ≡ 513) × (q.user.1 ≡ u) × (q.state ≡ state_error) × (q.error ≡ error_length)

  scan-Overflows :
      (u : S) (p : LineParser S) (s rest : Bytes) (i : ℕ)
      → p.user.1 ≡ u
      → is_reading p.state ≡ true
      → all_line_bytes s ≡ true
      → p.len ≤ 512
      → 512 < p.len + length s
      → Overflows u (scan (create_line_parser handle) p (s ++ rest) i).0
  scan-Overflows u p [] rest i same reading line room long = absurd (omega arith)
  scan-Overflows u p (c ∷ s) rest i same reading line room long =
      elim (Bool-cases (ltb p.len 512)) [
        | inl fits ↦
            let (q, e, len, user, still) =
              settle-Follows handle p c (s ++ rest) i reading (ground arith)
                (ltb→lt p.len 512 fits) in
            subst (λ (x : LineParser S × ℕ). Overflows u x.0)
              (sym (scan_of_next (create_line_parser handle) p q c (s ++ rest) i e))
              (scan-Overflows u q s rest (suc i) (user ∙ same) still (ground arith)
                (omega (arith, len, ltb→lt p.len 512 fits)) (omega (arith, len, long)))
        | inr full ↦
            let (q, e, len, user, state, error) =
              settle_full handle p c (s ++ rest) i (ground arith) (ground arith) in
            subst (λ (x : LineParser S × ℕ). Overflows u x.0)
              (sym (scan_of_stop (create_line_parser handle) p q c (s ++ rest) i i e))
              (ground arith, user ∙ same, state, error)
      ]

  ready-Overflows :
      (u : S) (raw : ℕ → ℕ) (s rest : Bytes)
      → all_line_bytes s ≡ true
      → 512 < length s
      → Overflows u (scan (create_line_parser handle) (ready (empty_result, u) raw) (s ++ rest) 0).0
  ready-Overflows u raw [] rest line long = absurd (omega arith)
  ready-Overflows u raw (c ∷ s) rest line long = elim (Bool-cases (c == b':')) [
    | inl colon ↦
        let is_colon : b':' ≡ c = ground arith in
        subst
          (λ (d : ℕ).
            Overflows u
              (scan (create_line_parser handle) (ready (empty_result, u) raw) (d ∷ (s ++ rest))
                0).0)
          is_colon
          (subst (λ (x : LineParser S × ℕ). Overflows u x.0)
            (sym (Reads-colon (create_line_parser handle) (empty_result, u) raw (s ++ rest) 0))
            (scan-Overflows u _ s rest _ refl refl (ground arith) (omega arith) (omega arith)))
    | inr other ↦
        subst (λ (x : LineParser S × ℕ). Overflows u x.0)
          (sym (
            scan_command (create_line_parser handle) (empty_result, u) raw c (s ++ rest) 0
              (ground arith) (λ e. ground arith)))
          (scan-Overflows u _ (c ∷ s) rest 0 refl refl line (omega arith) (omega arith))
  ]

  -- Lines that are processed one after the other.
  unfoldable pub process_each : LineParser S → List Bytes → Option (LineParser S)
  process_each p [] = some p
  process_each p (line ∷ lines) = elim (libirc_process_incoming_data handle p line) [
    | none ↦ none
    | some q ↦ process_each q lines
  ]

  process_each_step :
      (p q r : LineParser S) (k : ℕ) (line : Bytes) (lines : List Bytes)
      → irc_parser_execute (create_line_parser handle) p line ≡ some (q, k)
      → process_each (free_parser_result q) lines ≡ some r
      → process_each p (line ∷ lines) ≡ some r
  unfolding process_each libirc_process_incoming_data
  process_each_step p q r k line lines e others =
      rw (process_each, libirc_process_incoming_data, e) others

  process_each-error :
      (u : S) (n : ℕ) (p : LineParser S) (lines : List Bytes)
      → p.state ≡ state_error
      → p.user.1 ≡ u
      → p.len ≡ n
      → All BeginsLine lines
      → (q : LineParser S) × (process_each p lines ≡ some q)
        × (q.state ≡ state_error)
        × (q.user.1 ≡ u)
        × (q.len ≡ n + length lines)
  unfolding process_each free_parser_result
  process_each-error u n p [] failed same len all = (p, refl, failed, same, omega (arith, len))
  process_each-error u n p (line ∷ lines) failed same len ((c, s, e, begins), all) =
      let (q, stopped, len₁, same₁, failed₁) = settle_error handle p c s 0 begins failed in
      let (r, others, failed₂, same₂, len₂) =
        process_each-error u (suc n) (free_parser_result q) lines failed₁ (same₁ ∙ same)
          (omega (arith, len₁, len)) all in
      (
        r,
        process_each_step p q r 0 line lines
            (irc_parser_execute-scan (create_line_parser handle) p line
              ∙ ap (λ (l : Bytes). some (scan (create_line_parser handle) p l 0)) e
              ∙ ap some (scan_of_stop (create_line_parser handle) p q c s 0 0 stopped))
            others,
        failed₂,
        same₂,
        omega (arith, len₂),
      )

  -- A line of more than 512 bytes leaves a parser that waited for a line in the error state. No line
  -- that follows it, unless it is empty, then reaches the handler: its first byte is stored behind
  -- the 513 bytes of the buffer, and the line is given up.
  pub overlong_line_silences :
      (s rest : Bytes) (lines : List Bytes) (u : S) (raw : ℕ → ℕ)
      → all_line_bytes s ≡ true
      → 512 < length s
      → All BeginsLine lines
      → (q : LineParser S) × (process_each (ready (empty_result, u) raw) ((s ++ rest) ∷ lines)
          ≡ some q)
        × (q.state ≡ state_error)
        × (q.user.1 ≡ u)
        × (q.len ≡ 513 + length lines)
  unfolding process_each free_parser_result
  overlong_line_silences s rest lines u raw line long all =
      let (len, same, failed, error) = ready-Overflows u raw s rest line long in
      let (q, e, failed₁, same₁, len₁) =
        process_each-error u 513
          (free_parser_result
            (scan (create_line_parser handle) (ready (empty_result, u) raw) (s ++ rest) 0).0)
          lines failed same len all in
      (
        q,
        process_each_step _ _ q _ (s ++ rest) lines
            (irc_parser_execute-scan (create_line_parser handle) (ready (empty_result, u) raw)
              (s ++ rest))
            e,
        failed₁,
        same₁,
        len₁,
      )
