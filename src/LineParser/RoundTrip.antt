-- ===== src/LineParser/RoundTrip.antt =====
-- A rendered message, read by the parser of a session, gives its parts.
use xdccget_for_windows.Base.{
  ℕ, true, Option, none, some, [], ◌∷◌, ◌++◌, ◌≡◌, ◌≤◌, ◌+◌, arith, refl, length, length-append,
  ◌<◌, Bool, false, lt→ltb, ◌≢◌,
}
use xdccget_for_windows.Bytes.{Bytes}
use xdccget_for_windows.Parser.{
  state_name, state_host, state_command, state_nick, state_init, state_params, store,
  state_trailing,
}
use xdccget_for_windows.Parser.Advance.{Advances, Advances-join, Advances-trans, Advances-start}
use xdccget_for_windows.LineParser.{
  IrcParserResult, empty_result, create_line_parser, max_params_allowed, on_param, handle_end,
}
use xdccget_for_windows.LineParser.Message.{
  render_option, lacks, separators, lacks_option, with_prefix, Prefix, IsMiddle, IsPrefixOption,
  IsLast, render_prefix, render_last,
}
use xdccget_for_windows.LineParser.Reading.{
  advance_name, advance_host, advance_nick, advance_command, quiet_trailing, copied, quiet_params,
}
use xdccget_for_windows.Parser.Parts.{Reads, Reads-trans}
use xdccget_for_windows.Parser.Steps.{parser_at, is_line_byte}
use xdccget_for_windows.Parser.Lines.{ready, Reads-end, Reads-colon, Reads-trailing_colon}

length-join : (s : Bytes) (c : ℕ) (t : Bytes) → length (s ++ c ∷ t) ≡ length s + 1 + length t
length-join s c t = omega (arith, length-append s (c ∷ t))

middle_head : (c : ℕ) (s : Bytes) → IsMiddle (c ∷ s) → (is_line_byte c ≡ true) × (c ≢ b':')
middle_head c s (free, other) = (ground arith, λ e. ground arith)

module _ {S : Type 0} (handle : IrcParserResult → S → IrcParserResult × S) where
  -- The rest of a prefix, from the user on and from the nick on.
  advance_from_name :
      (nick user : Bytes) (host : Option Bytes) (s : S) (n : ℕ) (raw : ℕ → ℕ)
      → lacks (b'@' ∷ separators) user ≡ true
      → lacks_option separators host ≡ true
      → n + length (user ++ (render_option b'@' host ++ b' ' ∷ [])) ≤ 512
      → Advances
          (create_line_parser handle)
          state_name
          (record empty_result { nick = some nick }, s)
          n
          raw
          (user ++ (render_option b'@' host ++ b' ' ∷ []))
          state_command
          (record empty_result { nick = some nick; name = some user; host = host }, s)
  advance_from_name nick user none s n raw free free_host fits =
      advance_name handle _ s n raw user b' ' state_command free
        (omega (arith, length-join user b' ' [])) refl
  advance_from_name nick user (some host) s n raw free free_host fits =
      Advances-join (create_line_parser handle) state_name state_host state_command _ _ _ n raw user
        b'@' (host ++ b' ' ∷ [])
        (advance_name handle _ s n raw user b'@' state_host free
          (omega (arith, length-join user b'@' (host ++ b' ' ∷ []))) refl)
        (λ raw'.
          advance_host handle _ s (n + length user + 1) raw' host b' ' state_command free_host
            (omega (arith, length-join user b'@' (host ++ b' ' ∷ []), length-join host b' ' []))
            refl)

  advance_from_nick :
      (nick : Bytes) (user host : Option Bytes) (s : S) (n : ℕ) (raw : ℕ → ℕ)
      → lacks (b'!' ∷ b'@' ∷ separators) nick ≡ true
      → lacks_option (b'@' ∷ separators) user ≡ true
      → lacks_option separators host ≡ true
      → n + length (nick ++ (render_option b'!' user ++ (render_option b'@' host ++ b' ' ∷ [])))
        ≤ 512
      → Advances
          (create_line_parser handle)
          state_nick
          (empty_result, s)
          n
          raw
          (nick ++ (render_option b'!' user ++ (render_option b'@' host ++ b' ' ∷ [])))
          state_command
          (record empty_result { nick = some nick; name = user; host = host }, s)
  advance_from_nick nick none none s n raw free free_user free_host fits =
      advance_nick handle _ s n raw nick b' ' state_command free
        (omega (arith, length-join nick b' ' [])) refl
  advance_from_nick nick none (some host) s n raw free free_user free_host fits =
      Advances-join (create_line_parser handle) state_nick state_host state_command _ _ _ n raw nick
        b'@' (host ++ b' ' ∷ [])
        (advance_nick handle _ s n raw nick b'@' state_host free
          (omega (arith, length-join nick b'@' (host ++ b' ' ∷ []))) refl)
        (λ raw'.
          advance_host handle _ s (n + length nick + 1) raw' host b' ' state_command free_host
            (omega (arith, length-join nick b'@' (host ++ b' ' ∷ []), length-join host b' ' []))
            refl)
  advance_from_nick nick (some user) host s n raw free free_user free_host fits =
      let size = length-join nick b'!' (user ++ (render_option b'@' host ++ b' ' ∷ [])) in
      Advances-join (create_line_parser handle) state_nick state_name state_command _ _ _ n raw nick
        b'!' (user ++ (render_option b'@' host ++ b' ' ∷ []))
        (advance_nick handle _ s n raw nick b'!' state_name free (omega (arith, size)) refl)
        (λ raw'.
          advance_from_name nick user host s (n + length nick + 1) raw' free_user free_host
            (omega (arith, size)))

  advance_empty_command :
      (s : S) (raw : ℕ → ℕ)
      → Advances
          (create_line_parser handle)
          state_init
          (empty_result, s)
          0
          raw
          (b' ' ∷ [])
          state_params
          (record empty_result { command = some [] }, s)
  advance_empty_command s raw =
      Advances-start (create_line_parser handle) (empty_result, s) raw b' ' [] state_params _ refl
        (λ e. cc)
        (advance_command handle empty_result s 0 (store raw 0 b' ') [] b' ' state_params refl
          (omega arith) refl)

  advance_some_command :
      (c : ℕ) (command : Bytes) (s : S) (raw : ℕ → ℕ)
      → IsMiddle (c ∷ command)
      → length (c ∷ command) < 512
      → Advances
          (create_line_parser handle)
          state_init
          (empty_result, s)
          0
          raw
          (c ∷ (command ++ b' ' ∷ []))
          state_params
          (record empty_result { command = some (c ∷ command) }, s)
  advance_some_command c command s raw middle fits =
      let (line, other) = middle_head c command middle in
      Advances-start (create_line_parser handle) (empty_result, s) raw c (command ++ b' ' ∷ [])
        state_params _ line other
        (advance_command handle empty_result s 0 (store raw 0 c) (c ∷ command) b' ' state_params
          middle.0 (omega arith) refl)

  advance_first_command :
      (command : Bytes) (s : S) (raw : ℕ → ℕ)
      → IsMiddle command
      → length command < 512
      → Advances
          (create_line_parser handle)
          state_init
          (empty_result, s)
          0
          raw
          (command ++ b' ' ∷ [])
          state_params
          (record empty_result { command = some command }, s)
  advance_first_command [] s raw middle fits = advance_empty_command s raw
  advance_first_command (c ∷ command) s raw middle fits =
      advance_some_command c command s raw middle fits

  -- The front of a line: the prefix and the command.
  pub advance_command_after :
      (prefix : Option Prefix) (command : Bytes) (s : S) (raw : ℕ → ℕ)
      → IsPrefixOption prefix
      → IsMiddle command
      → length (render_prefix prefix ++ (command ++ b' ' ∷ [])) ≤ 512
      → Advances
          (create_line_parser handle)
          state_init
          (empty_result, s)
          0
          raw
          (render_prefix prefix ++ (command ++ b' ' ∷ []))
          state_params
          (record (with_prefix empty_result prefix) { command = some command }, s)
  advance_command_after none command s raw is_prefix middle fits =
      advance_first_command command s raw middle (omega (arith, length-join command b' ' []))
  advance_command_after (some p) command s raw (free, free_user, free_host) middle fits =
      Advances-trans (create_line_parser handle) state_init state_command state_params
        (empty_result, s) (with_prefix empty_result (some p), s) _ 0 raw (render_prefix (some p))
        (command ++ b' ' ∷ [])
        (Advances-trans (create_line_parser handle) state_init state_nick state_command _ _ _ 0 raw
          (b':' ∷ []) _ (_, Reads-colon (create_line_parser handle) (empty_result, s) raw)
          (λ raw'.
            advance_from_nick p.nick p.user p.host s 1 raw' free free_user free_host
              (omega (arith, size))))
        (λ raw'.
          advance_command handle (with_prefix empty_result (some p)) s
            (0 + length (render_prefix (some p))) raw' command b' ' state_params middle.0
            (omega (arith, size, length-join command b' ' [])) refl)
    where
      size :
          length (render_prefix (some p) ++ (command ++ b' ' ∷ []))
          ≡ length (render_prefix (some p)) + length (command ++ b' ' ∷ [])
      size = length-append (render_prefix (some p)) (command ++ b' ' ∷ [])

  handle_end-some :
      (r : IrcParserResult) (s : S) (bytes command : Bytes)
      → r.command ≡ some command
      → handle_end handle (r, s) bytes ≡ (handle r s, 0)
  handle_end-some r s bytes command has = ground arith

  pub end_of_line :
      (r : IrcParserResult) (command : Bytes) (s : S) (n : ℕ) (raw : ℕ → ℕ) (trailing : Bool)
      (t : Bytes)
      → r.command ≡ some command
      → IsLast trailing t
      → n + length (render_last trailing t) ≤ 512
      → length r.params < max_params_allowed
      → (raw' : ℕ → ℕ) × Reads
          (create_line_parser handle)
          (parser_at state_params (r, s) n n raw)
          (render_last trailing t ++ 13 ∷ 10 ∷ [])
          (ready (handle (record r { params = r.params ++ t ∷ [] }) s) raw')
  unfolding create_line_parser on_param
  end_of_line r command s n raw true t has last_free fits few = (
    _,
    Reads-trans (create_line_parser handle) _ _ _ (b':' ∷ []) (t ++ 13 ∷ 10 ∷ [])
        (Reads-trailing_colon (create_line_parser handle) (r, s) n raw (omega arith))
        (Reads-end (create_line_parser handle) state_trailing on_param (handle_end handle) (r, s)
          (record r { params = r.params ++ t ∷ [] }, s) _ (n + 1) (store raw n b':') t refl refl
          (rw (lt→ltb _ _ few, copied (10 ∷ 13 ∷ []) t last_free) refl)
          (handle_end-some (record r { params = r.params ++ t ∷ [] }) s t command has) (omega arith)
          (quiet_trailing true t last_free)),
  )
  end_of_line r command s n raw false t has last_free fits few = (
    _,
    Reads-end (create_line_parser handle) state_params on_param (handle_end handle) (r, s)
        (record r { params = r.params ++ t ∷ [] }, s) _ n raw t refl refl
        (rw (lt→ltb _ _ few, copied (10 ∷ 13 ∷ b' ' ∷ []) t last_free.0) refl)
        (handle_end-some (record r { params = r.params ++ t ∷ [] }) s t command has) fits
        (quiet_params t last_free),
  )
