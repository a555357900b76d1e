-- ===== src/Incoming.antt =====
-- libircclient-src/libircclient.c and utils.c: the bytes that the server sends are collected in a
-- buffer, and its lines are given to the parser one by one. The buffer is the list of the bytes
-- below incoming_offset.
pub mod Chunks
pub mod Messages
pub mod Overlong
use mathlib.Core.Option.{map as map_option}
use xdccget_for_windows.Base.{
  ℕ, zero, suc, Option, none, some, List, [], ◌∷◌, ◌++◌, ◌+◌, ◌&&◌, ◌==◌, if◌then◌else◌, length,
  take, drop,
}
use xdccget_for_windows.Bytes.{Bytes}
use xdccget_for_windows.Parser.{IrcParser, irc_parser_execute}
use xdccget_for_windows.LineParser.{
  IrcParserResult, create_line_parser, free_parser_result, LineParser,
}

-- The loop of libirc_findcrlf.
abbrev pub find_from : ℕ → Bytes → ℕ
find_from offset [] = 0
find_from offset (a ∷ []) = 0
find_from offset (a ∷ b ∷ s) =
    if a == 13 && b == 10 then offset + 2 else find_from (offset + 1) (b ∷ s)

unfoldable pub libirc_findcrlf : Bytes → ℕ
libirc_findcrlf buf = find_from 0 buf

module _ {S : Type 0} (handle : IrcParserResult → S → IrcParserResult × S) where
  unfoldable pub libirc_process_incoming_data : LineParser S → Bytes → Option (LineParser S)
  libirc_process_incoming_data p line =
      map_option (λ (x : LineParser S × ℕ). free_parser_result x.0)
        (irc_parser_execute (create_line_parser handle) p line)

  -- The loop of irc_process_select_descriptors over the lines in the buffer.
  unfoldable pub process_lines : ℕ → LineParser S → Bytes → Option (LineParser S × Bytes)
  process_lines zero p buf = none
  process_lines (suc fuel) p buf =
      let offset = libirc_findcrlf buf in
      if offset == 0
      then some (p, buf)
      else elim (libirc_process_incoming_data p (take offset buf)) [
        | none ↦ none
        | some q ↦ process_lines fuel q (drop offset buf)
      ]

  -- A read appends the bytes received, of any number: the source asks for no more than the buffer has
  -- room for. Each round of the loop takes some of them.
  unfoldable pub process_incoming : LineParser S → Bytes → Bytes → Option (LineParser S × Bytes)
  process_incoming p buf chunk = process_lines (suc (length (buf ++ chunk))) p (buf ++ chunk)

  -- The reads of irc_run, one after the other.
  unfoldable pub process_reads : LineParser S → Bytes → List Bytes → Option (LineParser S × Bytes)
  process_reads p buf [] = some (p, buf)
  process_reads p buf (chunk ∷ chunks) = elim (process_incoming p buf chunk) [
    | none ↦ none
    | some x ↦ process_reads x.0 x.1 chunks
  ]
