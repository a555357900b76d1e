-- ===== src/Parser/Steps.antt =====
-- What one byte does to the parser of irc_parser.c, by its state.
use xdccget_for_windows.Base.{
  ℕ, ◌≡◌, refl, arith, Bool, true, false, not, ◌&&◌, ◌==◌, ◌<◌, ◌+◌, ◌≤◌,
}
use xdccget_for_windows.Bytes.{Bytes}
use xdccget_for_windows.Parser.{
  IrcParser, IrcParserState, IrcParserSettings, next, on_byte, state_init, state_nick, state_name,
  state_host, state_command, state_params, state_trailing, state_end, state_error, error_none,
  set_state, call, execute_byte, store, raw_buffer_size, append_raw, stop, error_length,
}
use xdccget_for_windows.Parser.Scan.{settle}

-- A parser without an error.
abbrev pub parser_at : {R : Type 0} → IrcParserState → R → ℕ → ℕ → (ℕ → ℕ) → IrcParser R
parser_at st u n l raw = record {
  user = u;
  len = n;
  last = l;
  state = st;
  error = error_none;
  raw = raw;
}

-- A byte that does not end the part it stands in; `first` tells whether the part begins with it.
abbrev pub is_quiet : IrcParserState → Bool → ℕ → Bool
is_quiet state_nick first c = not (c == b'@') && (not (c == b' ') && not (c == b'!'))
is_quiet state_name first c = not (c == b'@') && not (c == b' ')
is_quiet state_host first c = not (c == b' ')
is_quiet state_command first c = not (c == b' ')
is_quiet state_params first c = not (c == b' ') && not (first && c == b':')
is_quiet state_trailing first c = true
is_quiet _ first c = false

-- A byte that ends a part, with the part that comes next.
abbrev pub is_separator : IrcParserState → ℕ → IrcParserState → Bool
is_separator state_nick c state_name = c == b'!'
is_separator state_nick c state_host = c == b'@'
is_separator state_nick c state_command = c == b' '
is_separator state_name c state_host = c == b'@'
is_separator state_name c state_command = c == b' '
is_separator state_host c state_command = c == b' '
is_separator state_command c state_params = c == b' '
is_separator state_params c state_params = c == b' '
is_separator _ c _ = false

abbrev pub is_line_byte : ℕ → Bool
is_line_byte c = not (c == 13) && not (c == 10)

module _ {R : Type 0} (settings : IrcParserSettings R) where
  pub on_byte_quiet :
      (st : IrcParserState) (p : IrcParser R) (c : ℕ) (rest : Bytes) (i : ℕ)
      → is_quiet st (p.len == p.last + 1) c ≡ true
      → on_byte settings st p c rest i ≡ next p
  unfolding on_byte
  on_byte_quiet state_init p c rest i q = absurd (cc)
  on_byte_quiet state_nick p c rest i q = ground arith
  on_byte_quiet state_name p c rest i q = ground arith
  on_byte_quiet state_host p c rest i q = ground arith
  on_byte_quiet state_command p c rest i q = ground arith
  on_byte_quiet state_params p c rest i q = ground arith
  on_byte_quiet state_trailing p c rest i q = refl
  on_byte_quiet state_end p c rest i q = absurd (cc)
  on_byte_quiet state_error p c rest i q = absurd (cc)

  pub on_byte_separator :
      (st st' : IrcParserState) (p q : IrcParser R) (c : ℕ) (rest : Bytes) (i : ℕ)
      → call settings p ≡ q
      → q.state ≡ st
      → is_separator st c st' ≡ true
      → on_byte settings st p c rest i ≡ next (set_state q st')
  unfolding on_byte
  on_byte_separator state_nick state_name p q c rest i e k h = ground arith
  on_byte_separator state_nick state_host p q c rest i e k h = ground arith
  on_byte_separator state_nick state_command p q c rest i e k h = ground arith
  on_byte_separator state_name state_host p q c rest i e k h = ground arith
  on_byte_separator state_name state_command p q c rest i e k h = ground arith
  on_byte_separator state_host state_command p q c rest i e k h = ground arith
  on_byte_separator state_command state_params p q c rest i e k h = ground arith
  on_byte_separator state_params state_params p q c rest i e k h = ground arith
  on_byte_separator _ _ p q c rest i e k h = absurd (cc)

  pub settle_quiet :
      (st : IrcParserState) (u : R) (n l : ℕ) (raw : ℕ → ℕ) (c : ℕ) (rest : Bytes) (i : ℕ)
      → n < raw_buffer_size
      → is_line_byte c ≡ true
      → is_quiet st (n + 1 == l + 1) c ≡ true
      → settle settings (parser_at st u n l raw) c rest i
        ≡ next (parser_at st u (n + 1) l (store raw n c))
  unfolding settle execute_byte
  settle_quiet st u n l raw c rest i fits line q =
      ground (arith, on_byte_quiet st (parser_at st u (n + 1) l (store raw n c)) c rest i q)

  pub settle_separator :
      (st st' : IrcParserState) (u u' : R) (n l : ℕ) (raw : ℕ → ℕ) (c : ℕ) (rest : Bytes) (i : ℕ)
      → n < raw_buffer_size
      → is_separator st c st' ≡ true
      → call settings (parser_at st u (n + 1) l (store raw n c))
        ≡ parser_at st u' (n + 1) l (store raw n c)
      → settle settings (parser_at st u n l raw) c rest i
        ≡ next (parser_at st' u' (n + 1) (n + 1) (store raw n c))
  unfolding settle execute_byte
  settle_separator st st' u u' n l raw c rest i fits sep e = ground (
    arith,
    on_byte_separator st st' (parser_at st u (n + 1) l (store raw n c))
        (parser_at st u' (n + 1) l (store raw n c)) c rest i e refl sep,
  )

  -- A byte of a line is appended, and the state decides.
  pub execute_byte_line :
      (p q : IrcParser R) (c : ℕ) (rest : Bytes) (i : ℕ)
      → is_line_byte c ≡ true
      → append_raw p c ≡ q
      → execute_byte settings p c rest i ≡ on_byte settings q.state q c rest i
  unfolding execute_byte
  execute_byte_line p q c rest i line e = ground arith

  pub settle_of_next :
      (p q : IrcParser R) (c : ℕ) (rest : Bytes) (i : ℕ)
      → execute_byte settings p c rest i ≡ next q
      → settle settings p c rest i ≡ next q
  unfolding settle
  settle_of_next p q c rest i e = rw (settle, e) refl

  pub settle_of_stop :
      (p q : IrcParser R) (c : ℕ) (rest : Bytes) (i r : ℕ)
      → execute_byte settings p c rest i ≡ stop q r
      → settle settings p c rest i ≡ stop q r
  unfolding settle
  settle_of_stop p q c rest i r e = rw (settle, e) refl

pub append_raw_fits :
    {R : Type 0} (p : IrcParser R) (c : ℕ)
    → p.len < raw_buffer_size
    → append_raw p c ≡ record p { raw = store p.raw p.len c; len = p.len + 1 }
append_raw_fits p c room = ground arith

pub append_raw_full :
    {R : Type 0} (p : IrcParser R) (c : ℕ)
    → raw_buffer_size ≤ p.len
    → append_raw p c ≡ record p {
      raw = store p.raw p.len c;
      len = p.len + 1;
      state = state_error;
      error = error_length;
    }
append_raw_full p c full = ground arith
