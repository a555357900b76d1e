-- ===== src/Incoming/Chunks.antt =====
-- Into which reads the server's bytes are cut makes no difference.
use xdccget_for_windows.Base.{
  concat, ℕ, zero, suc, [], ◌∷◌, ◌++◌, ◌+◌, ◌≤◌, ◌≡◌, ◌≢◌, length, take, drop, refl, arith, ap, ◌<◌,
  false, ◌⊎◌, inr, ◌∙◌, some, inl, ◌==◌, length-drop, length-append, List, append_assoc, sym,
  append-nil,
}
use xdccget_for_windows.Bytes.{Bytes}
use xdccget_for_windows.Incoming.{
  find_from, libirc_process_incoming_data, process_lines, libirc_findcrlf, process_incoming,
  process_reads,
}
use xdccget_for_windows.LineParser.{
  create_line_parser, free_parser_result, IrcParserResult, LineParser,
}
use xdccget_for_windows.Parser.Scan.{scan, irc_parser_execute-scan}

take-append : (n : ℕ) (s t : Bytes) → n ≤ length s → take n (s ++ t) ≡ take n s
take-append zero s t h = refl
take-append (suc n) [] t h = absurd (omega arith)
take-append (suc n) (c ∷ s) t h = ap (λ (r : Bytes). c ∷ r) (take-append n s t (omega arith))

drop-append : (n : ℕ) (s t : Bytes) → n ≤ length s → drop n (s ++ t) ≡ drop n s ++ t
drop-append zero s t h = refl
drop-append (suc n) [] t h = absurd (omega arith)
drop-append (suc n) (c ∷ s) t h = drop-append n s t (omega arith)

find_from_bounds :
    (o : ℕ) (s : Bytes)
    → find_from o s ≢ 0
    → (find_from o s ≤ o + length s) × (o + 2 ≤ find_from o s)
find_from_bounds o [] h = ground arith
find_from_bounds o (a ∷ []) h = ground arith
find_from_bounds o (a ∷ b ∷ s) h = ground (arith, find_from_bounds (o + 1) (b ∷ s))

find_from-append : (o : ℕ) (s t : Bytes) → find_from o s ≢ 0 → find_from o (s ++ t) ≡ find_from o s
find_from-append o [] t h = ground arith
find_from-append o (a ∷ []) t h = ground arith
find_from-append o (a ∷ b ∷ s) t h = ground (arith, find_from-append (o + 1) (b ∷ s) t)

zero_or : (n : ℕ) → (n ≡ 0) ⊎ (n ≢ 0)
zero_or zero = inl refl
zero_or (suc n) = inr (λ e. ground arith)

module _ {S : Type 0} (handle : IrcParserResult → S → IrcParserResult × S) where
  unfoldable process_line : LineParser S → Bytes → LineParser S
  process_line p line = free_parser_result (scan (create_line_parser handle) p line 0).0

  -- A line is always processed.
  libirc_process_incoming_data-some :
      (p : LineParser S) (line : Bytes)
      → libirc_process_incoming_data handle p line ≡ some (process_line p line)
  unfolding libirc_process_incoming_data process_line
  libirc_process_incoming_data-some p line =
      rw (irc_parser_execute-scan (create_line_parser handle) p line) refl

  process_lines-rest :
      (fuel : ℕ) (p : LineParser S) (buf : Bytes)
      → libirc_findcrlf buf ≡ 0
      → process_lines handle (suc fuel) p buf ≡ some (p, buf)
  unfolding process_lines
  process_lines-rest fuel p buf e = rw e refl

  process_lines-line :
      (fuel : ℕ) (p : LineParser S) (buf : Bytes)
      → libirc_findcrlf buf ≢ 0
      → process_lines handle (suc fuel) p buf
        ≡ process_lines handle fuel
            (process_line p (take (libirc_findcrlf buf) buf))
            (drop (libirc_findcrlf buf) buf)
  unfolding process_lines
  process_lines-line fuel p buf h =
      let tested : (libirc_findcrlf buf == 0) ≡ false = ground arith in
      rw (tested, libirc_process_incoming_data-some p (take (libirc_findcrlf buf) buf)) refl

  -- What is left after a line is shorter.
  length-drop_line :
      (buf : Bytes) → libirc_findcrlf buf ≢ 0 → length (drop (libirc_findcrlf buf) buf) < length buf
  unfolding libirc_findcrlf
  length-drop_line buf h =
      omega (arith, length-drop (libirc_findcrlf buf) buf, find_from_bounds 0 buf h)

  process_lines-line_append :
      (fuel : ℕ) (p : LineParser S) (buf chunk : Bytes)
      → libirc_findcrlf buf ≢ 0
      → process_lines handle (suc fuel) p (buf ++ chunk)
        ≡ process_lines handle fuel
            (process_line p (take (libirc_findcrlf buf) buf))
            (drop (libirc_findcrlf buf) buf ++ chunk)
  process_lines-line_append fuel p buf chunk h =
      rw (process_lines-line fuel p (buf ++ chunk) (rw found h), found)
        (rw
          (
            take-append (libirc_findcrlf buf) buf chunk within,
            drop-append (libirc_findcrlf buf) buf chunk within,
          )
          refl)
    where
      found : libirc_findcrlf (buf ++ chunk) ≡ libirc_findcrlf buf
      found = unfold libirc_findcrlf in find_from-append 0 buf chunk h

      within : libirc_findcrlf buf ≤ length buf
      within = unfold libirc_findcrlf in omega (arith, (find_from_bounds 0 buf h).0)

  -- Enough fuel is as good as any.
  process_lines_fuel :
      (f g : ℕ) (p : LineParser S) (buf : Bytes)
      → length buf < f
      → length buf < g
      → process_lines handle f p buf ≡ process_lines handle g p buf
  process_lines_fuel zero g p buf hf hg = absurd (omega arith)
  process_lines_fuel (suc f) zero p buf hf hg = absurd (omega arith)
  process_lines_fuel (suc f) (suc g) p buf hf hg = elim (zero_or (libirc_findcrlf buf)) [
    | inl e ↦ rw (process_lines-rest f p buf e, process_lines-rest g p buf e) refl
    | inr h ↦
        rw (process_lines-line f p buf h, process_lines-line g p buf h)
          (process_lines_fuel f g _ _ (omega (arith, length-drop_line buf h))
            (omega (arith, length-drop_line buf h)))
  ]

  process_lines-append :
      (f g k : ℕ) (p : LineParser S) (buf chunk : Bytes)
      → length buf < f
      → length (buf ++ chunk) < g
      → length (buf ++ chunk) < k
      → (q : LineParser S) × (rest : Bytes) × (process_lines handle f p buf ≡ some (q, rest))
        × (length rest ≤ length buf)
        × (libirc_findcrlf rest ≡ 0)
        × (process_lines handle g p (buf ++ chunk) ≡ process_lines handle k q (rest ++ chunk))
  process_lines-append zero g k p buf chunk hf hg hk = absurd (omega arith)
  process_lines-append (suc f) zero k p buf chunk hf hg hk = absurd (omega arith)
  process_lines-append (suc f) (suc g) k p buf chunk hf hg hk =
      elim (zero_or (libirc_findcrlf buf)) [
        | inl e ↦ (
          p,
          buf,
          process_lines-rest f p buf e,
          omega arith,
          e,
          process_lines_fuel (suc g) k p (buf ++ chunk) hg hk,
        )
        | inr h ↦
            let smaller : length (drop (libirc_findcrlf buf) buf ++ chunk) < length (buf ++ chunk) =
              omega (
                arith,
                length-drop_line buf h,
                length-append buf chunk,
                length-append (drop (libirc_findcrlf buf) buf) chunk,
              ) in
            let (q, rest, e, shorter, none_left, same) =
              process_lines-append f g k (process_line p (take (libirc_findcrlf buf) buf))
                (drop (libirc_findcrlf buf) buf) chunk (omega (arith, length-drop_line buf h))
                (omega (arith, smaller)) (omega (arith, smaller)) in
            (
              q,
              rest,
              process_lines-line f p buf h ∙ e,
              omega (arith, length-drop_line buf h, shorter),
              none_left,
              process_lines-line_append g p buf chunk h ∙ same,
            )
      ]

  pub process_incoming-append :
      (p : LineParser S) (buf chunk more : Bytes)
      → (q : LineParser S) × (rest : Bytes) × (process_incoming handle p buf chunk ≡ some (q, rest))
        × (libirc_findcrlf rest ≡ 0)
        × (process_incoming handle p buf (chunk ++ more) ≡ process_incoming handle q rest more)
  unfolding process_incoming
  process_incoming-append p buf chunk more =
      let k = suc (length (buf ++ (chunk ++ more))) in
      let (q, rest, e, shorter, none_left, same) =
        process_lines-append (suc (length (buf ++ chunk))) k k p (buf ++ chunk) more (omega arith)
          (rw append_assoc (omega arith)) (rw append_assoc (omega arith)) in
      (
        q,
        rest,
        e,
        none_left,
        ap (process_lines handle k p) (sym (append_assoc buf chunk more))
            ∙ same
            ∙ process_lines_fuel k (suc (length (rest ++ more))) q (rest ++ more)
                (omega (
                  arith,
                  shorter,
                  length-append rest more,
                  length-append (buf ++ chunk) more,
                  ap length (append_assoc buf chunk more),
                ))
                (omega arith),
      )

  process_incoming-nil :
      (p : LineParser S) (buf : Bytes)
      → libirc_findcrlf buf ≡ 0
      → process_incoming handle p buf [] ≡ some (p, buf)
  unfolding process_incoming
  process_incoming-nil p buf e =
      process_lines-rest (length (buf ++ [])) p (buf ++ []) (rw append-nil e)
      ∙ ap (λ (b : Bytes). some (p, b)) (append-nil buf)

  -- However the bytes that arrive are cut into reads, the reads are all processed, and the parser and
  -- the buffer end as they do when all bytes arrive in one read, for any state of the parser and a
  -- buffer that holds no whole line.
  pub process_reads-concat :
      (p : LineParser S) (buf : Bytes) (chunks : List Bytes)
      → libirc_findcrlf buf ≡ 0
      → process_reads handle p buf chunks ≡ process_incoming handle p buf (concat chunks)
  unfolding process_reads
  process_reads-concat p buf [] e = sym (process_incoming-nil p buf e)
  process_reads-concat p buf (chunk ∷ chunks) e =
      let (q, rest, first, none_left, same) = process_incoming-append p buf chunk (concat chunks) in
      rw (process_reads, first, same) (process_reads-concat q rest chunks none_left)
