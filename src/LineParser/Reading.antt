-- ===== src/LineParser/Reading.antt =====
-- What the parser of a session makes of the parts of a message.
use xdccget_for_windows.Base.{
  Bool, true, false, [], ◌∷◌, ◌≡◌, arith, refl, length-append, ℕ, some, ◌<◌, subst, ◌++◌, ◌+◌,
  length, ◌≤◌, All, lt→ltb, List, ap₂, append-nil, append_assoc,
}
use xdccget_for_windows.Bytes.{Bytes}
use xdccget_for_windows.Parser.{
  state_nick, state_name, state_host, state_command, state_params, state_trailing, raw_buffer_size,
  IrcParserState,
}
use xdccget_for_windows.Parser.Parts.{all_quiet}
use xdccget_for_windows.LineParser.{
  calloc_and_copy_string, on_nick, IrcParserResult, create_line_parser, on_param, on_name,
  on_command, max_params_allowed, on_host,
}
use xdccget_for_windows.LineParser.Message.{lacks, separators, IsMiddle, render_middles}
use xdccget_for_windows.Parser.Steps.{parser_at, is_separator}
use xdccget_for_windows.Parser.Advance.{Advances, Advances-part, Advances-trans}
use xdccget_for_windows.Parser.Scan.{scan}

pub copied : (stops : Bytes) (s : Bytes) → lacks (0 ∷ stops) s ≡ true → calloc_and_copy_string s ≡ s
unfolding calloc_and_copy_string
copied stops [] h = refl
copied stops (c ∷ s) h = ground (arith, copied stops s)

pub quiet_nick :
    (first : Bool) (s : Bytes)
    → lacks (b'!' ∷ b'@' ∷ separators) s ≡ true
    → all_quiet state_nick first s ≡ true
quiet_nick first [] h = refl
quiet_nick first (c ∷ s) h = ground (arith, quiet_nick false s)

pub quiet_name :
    (first : Bool) (s : Bytes)
    → lacks (b'@' ∷ separators) s ≡ true
    → all_quiet state_name first s ≡ true
quiet_name first [] h = refl
quiet_name first (c ∷ s) h = ground (arith, quiet_name false s)

pub quiet_host :
    (first : Bool) (s : Bytes) → lacks separators s ≡ true → all_quiet state_host first s ≡ true
quiet_host first [] h = refl
quiet_host first (c ∷ s) h = ground (arith, quiet_host false s)

pub quiet_command :
    (first : Bool) (s : Bytes) → lacks separators s ≡ true → all_quiet state_command first s ≡ true
quiet_command first [] h = refl
quiet_command first (c ∷ s) h = ground (arith, quiet_command false s)

pub quiet_middle : (s : Bytes) → lacks separators s ≡ true → all_quiet state_params false s ≡ true
quiet_middle [] h = refl
quiet_middle (c ∷ s) h = ground (arith, quiet_middle s)

pub quiet_params : (s : Bytes) → IsMiddle s → all_quiet state_params true s ≡ true
quiet_params [] h = refl
quiet_params (c ∷ s) h = ground (arith, quiet_middle s)

pub quiet_trailing :
    (first : Bool) (s : Bytes)
    → lacks (0 ∷ 10 ∷ 13 ∷ []) s ≡ true
    → all_quiet state_trailing first s ≡ true
quiet_trailing first [] h = refl
quiet_trailing first (c ∷ s) h = ground (arith, quiet_trailing false s)

lacks_nick :
    (s : Bytes) → lacks (b'!' ∷ b'@' ∷ separators) s ≡ true → lacks (b'@' ∷ separators) s ≡ true
lacks_nick [] h = refl
lacks_nick (c ∷ s) h = ground (arith, lacks_nick s)

lacks_name : (s : Bytes) → lacks (b'@' ∷ separators) s ≡ true → lacks separators s ≡ true
lacks_name [] h = refl
lacks_name (c ∷ s) h = ground (arith, lacks_name s)

module _ {S : Type 0} (handle : IrcParserResult → S → IrcParserResult × S) where
  pub advance_nick :
      (r : IrcParserResult) (s : S) (n : ℕ) (raw : ℕ → ℕ) (t : Bytes) (c : ℕ) (st' : IrcParserState)
      → lacks (b'!' ∷ b'@' ∷ separators) t ≡ true
      → n + length t < raw_buffer_size
      → is_separator state_nick c st' ≡ true
      → Advances
          (create_line_parser handle)
          state_nick
          (r, s)
          n
          raw
          (t ++ c ∷ [])
          st'
          (record r { nick = some t }, s)
  unfolding create_line_parser on_nick
  advance_nick r s n raw t c st' free fits sep =
      Advances-part (create_line_parser handle) state_nick st' on_nick (r, s)
        (record r { nick = some t }, s) n raw t c refl
        (rw (copied (10 ∷ 13 ∷ b' ' ∷ []) t (lacks_name t (lacks_nick t free))) refl) fits
        (quiet_nick true t free) sep

  pub advance_name :
      (r : IrcParserResult) (s : S) (n : ℕ) (raw : ℕ → ℕ) (t : Bytes) (c : ℕ) (st' : IrcParserState)
      → lacks (b'@' ∷ separators) t ≡ true
      → n + length t < raw_buffer_size
      → is_separator state_name c st' ≡ true
      → Advances
          (create_line_parser handle)
          state_name
          (r, s)
          n
          raw
          (t ++ c ∷ [])
          st'
          (record r { name = some t }, s)
  unfolding create_line_parser on_name
  advance_name r s n raw t c st' free fits sep =
      Advances-part (create_line_parser handle) state_name st' on_name (r, s)
        (record r { name = some t }, s) n raw t c refl
        (rw (copied (10 ∷ 13 ∷ b' ' ∷ []) t (lacks_name t free)) refl) fits (quiet_name true t free)
        sep

  pub advance_host :
      (r : IrcParserResult) (s : S) (n : ℕ) (raw : ℕ → ℕ) (t : Bytes) (c : ℕ) (st' : IrcParserState)
      → lacks separators t ≡ true
      → n + length t < raw_buffer_size
      → is_separator state_host c st' ≡ true
      → Advances
          (create_line_parser handle)
          state_host
          (r, s)
          n
          raw
          (t ++ c ∷ [])
          st'
          (record r { host = some t }, s)
  unfolding create_line_parser on_host
  advance_host r s n raw t c st' free fits sep =
      Advances-part (create_line_parser handle) state_host st' on_host (r, s)
        (record r { host = some t }, s) n raw t c refl
        (rw (copied (10 ∷ 13 ∷ b' ' ∷ []) t free) refl) fits (quiet_host true t free) sep

  pub advance_command :
      (r : IrcParserResult) (s : S) (n : ℕ) (raw : ℕ → ℕ) (t : Bytes) (c : ℕ) (st' : IrcParserState)
      → lacks separators t ≡ true
      → n + length t < raw_buffer_size
      → is_separator state_command c st' ≡ true
      → Advances
          (create_line_parser handle)
          state_command
          (r, s)
          n
          raw
          (t ++ c ∷ [])
          st'
          (record r { command = some t }, s)
  unfolding create_line_parser on_command
  advance_command r s n raw t c st' free fits sep =
      Advances-part (create_line_parser handle) state_command st' on_command (r, s)
        (record r { command = some t }, s) n raw t c refl
        (rw (copied (10 ∷ 13 ∷ b' ' ∷ []) t free) refl) fits (quiet_command true t free) sep

  pub advance_middle :
      (r : IrcParserResult) (s : S) (n : ℕ) (raw : ℕ → ℕ) (t : Bytes)
      → IsMiddle t
      → n + length t < raw_buffer_size
      → length r.params < max_params_allowed
      → Advances
          (create_line_parser handle)
          state_params
          (r, s)
          n
          raw
          (t ++ b' ' ∷ [])
          state_params
          (record r { params = r.params ++ t ∷ [] }, s)
  unfolding create_line_parser on_param
  advance_middle r s n raw t middle fits few =
      Advances-part (create_line_parser handle) state_params state_params on_param (r, s)
        (record r { params = r.params ++ t ∷ [] }, s) n raw t b' ' refl
        (rw (lt→ltb _ _ few, copied (10 ∷ 13 ∷ b' ' ∷ []) t middle.0) refl) fits
        (quiet_params t middle) refl

  pub advance_middles :
      (r : IrcParserResult) (s : S) (n : ℕ) (raw : ℕ → ℕ) (ts : List Bytes)
      → All IsMiddle ts
      → n + length (render_middles ts) ≤ raw_buffer_size
      → length r.params + length ts ≤ max_params_allowed
      → Advances
          (create_line_parser handle)
          state_params
          (r, s)
          n
          raw
          (render_middles ts)
          state_params
          (record r { params = r.params ++ ts }, s)
  advance_middles r s n raw [] middles fits few = (
    raw,
    λ rest i. rw append-nil (
        ap₂
          (λ (m k : ℕ).
            scan (create_line_parser handle) (parser_at state_params (r, s) m m raw) rest k)
          (omega arith) (omega arith)),
  )
  advance_middles r s n raw (t ∷ ts) (m, ms) fits few =
      Advances-trans (create_line_parser handle) state_params state_params state_params _ _ _ n raw
        (t ++ b' ' ∷ []) (render_middles ts)
        (advance_middle r s n raw t m (omega (arith, sizes)) (omega arith))
        (λ raw'.
          subst
            (λ (ps : List Bytes).
              Advances (create_line_parser handle) state_params
                (record r { params = r.params ++ t ∷ [] }, s) (n + length (t ++ b' ' ∷ [])) raw'
                (render_middles ts) state_params (record r { params = ps }, s))
            (append_assoc r.params (t ∷ []) ts)
            (advance_middles (record r { params = r.params ++ t ∷ [] }) s
              (n + length (t ++ b' ' ∷ [])) raw' ts ms (omega (arith, sizes))
              (omega (arith, length-append r.params (t ∷ [])))))
    where
      sizes :
          (length (t ++ b' ' ∷ []) ≡ length t + 1)
          × (length (render_middles (t ∷ ts))
              ≡ length (t ++ b' ' ∷ []) + length (render_middles ts))
      sizes = (length-append t (b' ' ∷ []), length-append (t ++ b' ' ∷ []) (render_middles ts))
