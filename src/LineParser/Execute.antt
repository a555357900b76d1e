-- ===== src/LineParser/Execute.antt =====
-- irc_parser_execute on the lines of a session.
use xdccget_for_windows.LineParser.{IrcParserResult, empty_result, create_line_parser}
use xdccget_for_windows.Base.{
  ℕ, Option, none, some, List, [], ◌∷◌, ◌++◌, ◌≡◌, ◌+◌, arith, refl, length, length-append,
  append_assoc, sym, ap, ◌∙◌, subst,
}
use xdccget_for_windows.Bytes.{Bytes}
use xdccget_for_windows.LineParser.Message.{
  render_middles, Prefix, with_prefix, render_last, render_prefix, render_line, Message, render,
  IsMessage, parts,
}
use xdccget_for_windows.Parser.{state_params, state_init, irc_parser_execute}
use xdccget_for_windows.Parser.Advance.{Advances-trans, Advances}
use xdccget_for_windows.LineParser.RoundTrip.{advance_command_after, end_of_line}
use xdccget_for_windows.Parser.Parts.{Reads-trans, Reads, irc_parser_execute-Reads}
use xdccget_for_windows.Parser.Lines.{ready}
use xdccget_for_windows.LineParser.Reading.{advance_middles}

-- The prefix and the command; the line up to its last parameter.
abbrev pub front : Message → Bytes
front m = render_prefix m.prefix ++ (m.command ++ b' ' ∷ [])

abbrev before_last : Message → Bytes
before_last m = front m ++ render_middles m.middles

abbrev parts_before_last : Message → IrcParserResult
parts_before_last m = record (with_prefix empty_result m.prefix) {
  command = some m.command;
  params = m.middles;
}

with_prefix_params : (p : Option Prefix) → (with_prefix empty_result p).params ≡ []
with_prefix_params none = refl
with_prefix_params (some p) = refl

render-before_last :
    (m : Message) → render m ≡ before_last m ++ (render_last m.is_trailing m.last ++ 13 ∷ 10 ∷ [])
unfolding render render_line
render-before_last m = simp append_assoc

pub length-before_last :
    (m : Message)
    → length (render_line m)
      ≡ length (front m)
        + length (render_middles m.middles)
        + length (render_last m.is_trailing m.last)
unfolding render_line
length-before_last m =
    let front_and_rest =
      length-append (front m) (render_middles m.middles ++ render_last m.is_trailing m.last) in
    let rest = length-append (render_middles m.middles) (render_last m.is_trailing m.last) in
    ap length (
      sym (
        append_assoc (render_prefix m.prefix) (m.command ++ b' ' ∷ [])
          (render_middles m.middles ++ render_last m.is_trailing m.last)))
    ∙ omega (arith, front_and_rest, rest)

module _ {S : Type 0} (handle : IrcParserResult → S → IrcParserResult × S) where
  advance_before_last :
      (m : Message) (s : S) (raw : ℕ → ℕ)
      → IsMessage m
      → Advances
          (create_line_parser handle)
          state_init
          (empty_result, s)
          0
          raw
          (before_last m)
          state_params
          (parts_before_last m, s)
  advance_before_last m s raw is_m =
      Advances-trans (create_line_parser handle) state_init state_params state_params _
        (record (parts_before_last m) { params = [] }, s) _ 0 raw (front m)
        (render_middles m.middles)
        (subst
          (λ (ps : List Bytes).
            Advances (create_line_parser handle) state_init (empty_result, s) 0 raw (front m)
              state_params (record (parts_before_last m) { params = ps }, s))
          (with_prefix_params m.prefix)
          (advance_command_after handle m.prefix m.command s raw is_m.prefix_ok is_m.command_ok
            (omega (arith, length-before_last m, is_m.in_buffer))))
        (λ raw'.
          advance_middles handle (record (parts_before_last m) { params = [] }) s
            (0 + length (front m)) raw' m.middles is_m.middles_ok
            (omega (arith, length-before_last m, is_m.in_buffer)) (omega (arith, is_m.in_params)))

  Reads-render :
      (m : Message) (s : S) (raw : ℕ → ℕ)
      → IsMessage m
      → (raw' : ℕ → ℕ) × Reads
          (create_line_parser handle)
          (ready (empty_result, s) raw)
          (render m)
          (ready (handle (parts m) s) raw')
  unfolding parts
  Reads-render m s raw is_m =
      let (raw₂, first) = advance_before_last m s raw is_m in
      let (raw₃, second) =
        end_of_line handle (parts_before_last m) m.command s (0 + length (before_last m)) raw₂
          m.is_trailing m.last refl is_m.last_ok
          (omega (
            arith,
            length-before_last m,
            length-append (front m) (render_middles m.middles),
            is_m.in_buffer,
          ))
          (omega (arith, is_m.in_params)) in
      (
        raw₃,
        rw (render-before_last m) (
            Reads-trans (create_line_parser handle) _ _ _ (before_last m)
              (render_last m.is_trailing m.last ++ 13 ∷ 10 ∷ []) first second),
      )

  -- A well-formed message, rendered as a line and executed by a parser that waits for a line, is
  -- read to its end; the handler runs on its parts, once, and the parser waits for the next line.
  pub irc_parser_execute-render :
      (m : Message) (s : S) (raw : ℕ → ℕ)
      → IsMessage m
      → (raw' : ℕ → ℕ) × (irc_parser_execute
            (create_line_parser handle)
            (ready (empty_result, s) raw)
            (render m)
          ≡ some (ready (handle (parts m) s) raw', length (render m)))
  irc_parser_execute-render m s raw is_m =
      let (raw', reads) = Reads-render m s raw is_m in
      (raw', irc_parser_execute-Reads (create_line_parser handle) _ _ (render m) reads)
