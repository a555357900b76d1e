-- ===== src/Incoming/Messages.antt =====
-- The messages that the server sends reach the handler one by one, in their order.
use xdccget_for_windows.Base.{
  concat, ℕ, Option, none, some, List, [], ◌∷◌, ◌++◌, ◌+◌, ◌≡◌, length, refl, arith, length-append,
  true, false, All, Bool, append_assoc, drop-length-append, ◌∙◌, map, zero, ◌<◌, take-length-append,
  ◌==◌, suc,
}
use xdccget_for_windows.Bytes.{Bytes}
use xdccget_for_windows.LineParser.Message.{
  Message, IsMessage, lacks, separators, render, render_line, render_last, IsLast, IsMiddle,
  render_middles, Prefix, IsPrefixOption, render_prefix, render_option, lacks_option, parts,
}
use xdccget_for_windows.Incoming.{
  find_from, libirc_findcrlf, process_incoming, process_lines, process_reads,
  libirc_process_incoming_data,
}
use xdccget_for_windows.LineParser.Execute.{irc_parser_execute-render}
use xdccget_for_windows.LineParser.{LineParser, free_parser_result, empty_result, IrcParserResult}
use xdccget_for_windows.Parser.Lines.{ready}
use xdccget_for_windows.Incoming.Chunks.{process_reads-concat}

find_from-crlf :
    (o : ℕ) (s rest : Bytes)
    → lacks (13 ∷ []) s ≡ true
    → find_from o (s ++ 13 ∷ 10 ∷ rest) ≡ o + length s + 2
find_from-crlf o [] rest h = omega arith
find_from-crlf o (a ∷ []) rest h = ground arith
find_from-crlf o (a ∷ b ∷ s) rest h = ground (arith, find_from-crlf (o + 1) (b ∷ s) rest)

lacks-append :
    (stops s t : Bytes) → lacks stops s ≡ true → lacks stops t ≡ true → lacks stops (s ++ t) ≡ true
lacks-append stops [] t hs ht = ht
lacks-append stops (c ∷ s) t hs ht = ground (arith, lacks-append stops s t)

abbrev LacksCr : Bytes → Type 0
LacksCr s = lacks (13 ∷ []) s ≡ true

separators_cr : (s : Bytes) → lacks separators s ≡ true → LacksCr s
separators_cr [] h = refl
separators_cr (c ∷ s) h = ground (arith, separators_cr s)

name_cr : (s : Bytes) → lacks (b'@' ∷ separators) s ≡ true → LacksCr s
name_cr [] h = refl
name_cr (c ∷ s) h = ground (arith, name_cr s)

nick_cr : (s : Bytes) → lacks (b'!' ∷ b'@' ∷ separators) s ≡ true → LacksCr s
nick_cr [] h = refl
nick_cr (c ∷ s) h = ground (arith, nick_cr s)

trailing_cr : (s : Bytes) → lacks (0 ∷ 10 ∷ 13 ∷ []) s ≡ true → LacksCr s
trailing_cr [] h = refl
trailing_cr (c ∷ s) h = ground (arith, trailing_cr s)

last_cr : (b : Bool) (s : Bytes) → IsLast b s → LacksCr (render_last b s)
last_cr true s h = trailing_cr s h
last_cr false s h = separators_cr s h.0

middles_cr : (ss : List Bytes) → All IsMiddle ss → LacksCr (render_middles ss)
middles_cr [] h = refl
middles_cr (s ∷ ss) (h, hs) =
    lacks-append (13 ∷ []) (s ++ b' ' ∷ []) (render_middles ss)
      (lacks-append (13 ∷ []) s (b' ' ∷ []) (separators_cr s h.0) refl) (middles_cr ss hs)

host_cr :
    (host : Option Bytes) → lacks_option separators host ≡ true → LacksCr (render_option b'@' host)
host_cr none h = refl
host_cr (some s) h = separators_cr s h

user_cr :
    (user : Option Bytes)
    → lacks_option (b'@' ∷ separators) user ≡ true
    → LacksCr (render_option b'!' user)
user_cr none h = refl
user_cr (some s) h = name_cr s h

prefix_cr : (p : Option Prefix) → IsPrefixOption p → LacksCr (render_prefix p)
prefix_cr none h = refl
prefix_cr (some p) (nick, user, host) = lacks-append (13 ∷ []) p.nick _ (nick_cr p.nick nick) (
    lacks-append (13 ∷ []) (render_option b'!' p.user) _ (user_cr p.user user)
      (lacks-append (13 ∷ []) (render_option b'@' p.host) (b' ' ∷ []) (host_cr p.host host) refl))

render_line_cr : (m : Message) → IsMessage m → LacksCr (render_line m)
unfolding render_line
render_line_cr m is_m =
    lacks-append (13 ∷ []) (render_prefix m.prefix) _ (prefix_cr m.prefix is_m.prefix_ok) (
      lacks-append (13 ∷ []) (m.command ++ b' ' ∷ []) _
        (lacks-append (13 ∷ []) m.command (b' ' ∷ []) (separators_cr m.command is_m.command_ok.0)
          refl)
        (lacks-append (13 ∷ []) (render_middles m.middles) _ (middles_cr m.middles is_m.middles_ok)
          (last_cr m.is_trailing m.last is_m.last_ok)))

libirc_findcrlf-render :
    (m : Message) (rest : Bytes)
    → IsMessage m
    → libirc_findcrlf (render m ++ rest) ≡ length (render m)
unfolding libirc_findcrlf render
libirc_findcrlf-render m rest is_m = rw append_assoc (
    omega (
      arith,
      find_from-crlf 0 (render_line m) rest (render_line_cr m is_m),
      length-append (render_line m) (13 ∷ 10 ∷ []),
    ))

length-render : (m : Message) → 0 < length (render m)
unfolding render
length-render m = omega (arith, length-append (render_line m) (13 ∷ 10 ∷ []))

module _ {S : Type 0} (handle : IrcParserResult → S → IrcParserResult × S) where
  -- The handler runs on the parts of each message.
  unfoldable pub handled : S → List Message → S
  handled s [] = s
  handled s (m ∷ ms) = handled (handle (parts m) s).1 ms

  libirc_process_incoming_data-render :
      (m : Message) (s : S) (raw : ℕ → ℕ)
      → IsMessage m
      → (raw' : ℕ → ℕ) × (libirc_process_incoming_data handle
            (ready (empty_result, s) raw)
            (render m)
          ≡ some (ready (empty_result, (handle (parts m) s).1) raw'))
  unfolding libirc_process_incoming_data free_parser_result
  libirc_process_incoming_data-render m s raw is_m =
      let (raw', e) = irc_parser_execute-render handle m s raw is_m in (raw', rw e refl)

  process_lines-found :
      (fuel : ℕ) (p : LineParser S) (line rest : Bytes) (q : LineParser S)
      → libirc_findcrlf (line ++ rest) ≡ length line
      → 0 < length line
      → libirc_process_incoming_data handle p line ≡ some q
      → process_lines handle (suc fuel) p (line ++ rest) ≡ process_lines handle fuel q rest
  unfolding process_lines
  process_lines-found fuel p line rest q found some_bytes e =
      rw
        (
          process_lines,
          found,
          tested,
          take-length-append line rest,
          e,
          found,
          drop-length-append line rest,
        )
        refl
    where
      tested : (length line == 0) ≡ false
      tested = ground arith

  process_lines-render :
      (fuel : ℕ) (m : Message) (s : S) (raw : ℕ → ℕ) (rest : Bytes)
      → IsMessage m
      → (raw' : ℕ → ℕ) × (process_lines handle
            (suc fuel)
            (ready (empty_result, s) raw)
            (render m ++ rest)
          ≡ process_lines handle fuel (ready (empty_result, (handle (parts m) s).1) raw') rest)
  process_lines-render fuel m s raw rest is_m =
      let (raw', e) = libirc_process_incoming_data-render m s raw is_m in
      (
        raw',
        process_lines-found fuel (ready (empty_result, s) raw) (render m) rest
            (ready (empty_result, (handle (parts m) s).1) raw') (libirc_findcrlf-render m rest is_m)
            (omega (arith, length-render m)) e,
      )

  process_lines-messages :
      (fuel : ℕ) (ms : List Message) (s : S) (raw : ℕ → ℕ)
      → All IsMessage ms
      → length (concat (map render ms)) < fuel
      → (raw' : ℕ → ℕ) × (process_lines handle fuel
            (ready (empty_result, s) raw)
            (concat (map render ms))
          ≡ some (ready (empty_result, handled s ms) raw', []))
  unfolding handled process_lines libirc_findcrlf
  process_lines-messages zero ms s raw all fits = absurd (omega arith)
  process_lines-messages (suc fuel) [] s raw all fits = (raw, refl)
  process_lines-messages (suc fuel) (m ∷ ms) s raw (is_m, all) fits =
      let (raw₁, first) = process_lines-render fuel m s raw (concat (map render ms)) is_m in
      let (raw₂, others) =
        process_lines-messages fuel ms (handle (parts m) s).1 raw₁ all
          (omega (arith, length-render m, length-append (render m) (concat (map render ms)))) in
      (raw₂, first ∙ others)

  -- Well-formed messages that arrive one after the other, their bytes cut into reads in any way, run
  -- the handler on the parts of each of them, in order. Then the parser waits for a line, and the
  -- buffer is empty.
  pub process_reads-handled :
      (ms : List Message) (chunks : List Bytes) (s : S) (raw : ℕ → ℕ)
      → All IsMessage ms
      → concat chunks ≡ concat (map render ms)
      → (raw' : ℕ → ℕ) × (process_reads handle (ready (empty_result, s) raw) [] chunks
          ≡ some (ready (empty_result, handled s ms) raw', []))
  unfolding process_incoming libirc_findcrlf
  process_reads-handled ms chunks s raw all same =
      let (raw', e) =
        process_lines-messages (suc (length (concat (map render ms)))) ms s raw all (omega arith) in
      (raw', process_reads-concat handle (ready (empty_result, s) raw) [] chunks refl ∙ rw same e)
