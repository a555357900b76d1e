-- ===== src/LineParser/Following.antt =====
-- What the parser of a session does on a byte, whatever part of a line it reads.
use xdccget_for_windows.Base.{
  ℕ, Bool-cases, Bool, ltb, inl, some, true, ◌-◌, ◌∙◌, refl, ltb→lt, ◌+◌, ◌<◌, false, arith, ◌≤◌,
  ◌==◌, ap, subst, ◌&&◌, ◌≡◌, inr,
}
use xdccget_for_windows.Parser.{
  state_name, state_trailing, state_error, next, slice, store, set_state, state_init, state_command,
  get_cb, error_length, state_end, IrcParserState, call, IrcParserCb, stop, state_host, on_byte,
  state_nick, state_params,
}
use xdccget_for_windows.Parser.Steps.{
  on_byte_separator, is_line_byte, settle_of_stop, append_raw_full, execute_byte_line, is_separator,
  append_raw_fits, settle_of_next, is_quiet, on_byte_quiet,
}
use xdccget_for_windows.LineParser.{
  on_name, IrcParserResult, on_nick, on_param, LineParser, on_host, create_line_parser, on_error,
  on_command,
}
use xdccget_for_windows.Bytes.{Bytes}
use xdccget_for_windows.Parser.Scan.{settle}

abbrev pub is_reading : IrcParserState → Bool
is_reading state_init = false
is_reading state_end = false
is_reading state_error = false
is_reading _ = true

module _ {S : Type 0} (handle : IrcParserResult → S → IrcParserResult × S) where
  abbrev pub Keeps : IrcParserCb (IrcParserResult × S) → Type 0
  Keeps f =
      (u : IrcParserResult × S) (bytes : Bytes) → ((f u bytes).0.1 ≡ u.1) × ((f u bytes).1 ≡ 0)

  on_param-Keeps : Keeps on_param
  unfolding on_param
  on_param-Keeps u bytes = ground arith

  get_cb-Keeps :
      (st : IrcParserState)
      → (f : IrcParserCb (IrcParserResult × S)) × (get_cb (create_line_parser handle) st ≡ some f)
        × Keeps f
  unfolding create_line_parser on_nick on_name on_host on_command on_error
  get_cb-Keeps state_init = (on_nick, refl, λ u bytes. (refl, refl))
  get_cb-Keeps state_nick = (on_nick, refl, λ u bytes. (refl, refl))
  get_cb-Keeps state_name = (on_name, refl, λ u bytes. (refl, refl))
  get_cb-Keeps state_host = (on_host, refl, λ u bytes. (refl, refl))
  get_cb-Keeps state_command = (on_command, refl, λ u bytes. (refl, refl))
  get_cb-Keeps state_params = (on_param, refl, on_param-Keeps)
  get_cb-Keeps state_trailing = (on_param, refl, on_param-Keeps)
  get_cb-Keeps state_end = (on_param, refl, on_param-Keeps)
  get_cb-Keeps state_error = (on_error, refl, λ u bytes. (refl, refl))

  call-Keeps :
      (p : LineParser S)
      → (r : IrcParserResult) × (call (create_line_parser handle) p
          ≡ record p { user = (r, p.user.1) })
  call-Keeps p =
      let (f, e, keeps) = get_cb-Keeps p.state in
      let (same, zero_) = keeps p.user (slice p.raw p.last (p.len - p.last - 1)) in
      (
        (f p.user (slice p.raw p.last (p.len - p.last - 1))).0.0,
        rw (e, zero_)
            (ap
              (λ (t : S). record p {
                user = ((f p.user (slice p.raw p.last (p.len - p.last - 1))).0.0, t);
              })
              same),
      )

  abbrev pub Follows : LineParser S → LineParser S → Type 0
  Follows p q = (q.len ≡ p.len) × (q.user.1 ≡ p.user.1) × (is_reading q.state ≡ true)

  abbrev pub Goes : IrcParserState → LineParser S → ℕ → Bytes → ℕ → Type 0
  Goes st p c rest i =
      (q : LineParser S) × (on_byte (create_line_parser handle) st p c rest i ≡ next q)
      × Follows p q

  separated :
      (st st' : IrcParserState) (p : LineParser S) (c : ℕ) (rest : Bytes) (i : ℕ)
      → p.state ≡ st
      → is_separator st c st' ≡ true
      → is_reading st' ≡ true
      → Goes st p c rest i
  separated st st' p c rest i e sep reading =
      let (r, called) = call-Keeps p in
      (
        set_state (record p { user = (r, p.user.1) }) st',
        on_byte_separator (create_line_parser handle) st st' p (record p { user = (r, p.user.1) }) c
            rest i called e sep,
        (refl, refl, reading),
      )

  stays :
      (st : IrcParserState) (p : LineParser S) (c : ℕ) (rest : Bytes) (i : ℕ)
      → p.state ≡ st
      → is_reading st ≡ true
      → is_quiet st (p.len == p.last + 1) c ≡ true
      → Goes st p c rest i
  stays st p c rest i e reading quiet =
      (p, on_byte_quiet (create_line_parser handle) st p c rest i quiet, (refl, refl, rw e reading))

  starts_trailing :
      (p : LineParser S) (rest : Bytes) (i : ℕ)
      → p.state ≡ state_params
      → (p.len == p.last + 1) ≡ true
      → Goes state_params p b':' rest i
  unfolding on_byte
  starts_trailing p rest i e first =
      (set_state p state_trailing, rw (e, first) refl, (refl, refl, refl))

  on_byte-Follows :
      (st : IrcParserState) (p : LineParser S) (c : ℕ) (rest : Bytes) (i : ℕ)
      → p.state ≡ st
      → is_reading st ≡ true
      → Goes st p c rest i
  on_byte-Follows state_nick p c rest i e reading = elim (Bool-cases (c == b'@')) [
    | inl at ↦ separated state_nick state_host p c rest i e at refl
    | inr no_at ↦ elim (Bool-cases (c == b' ')) [
      | inl space ↦ separated state_nick state_command p c rest i e space refl
      | inr no_space ↦ elim (Bool-cases (c == b'!')) [
        | inl bang ↦ separated state_nick state_name p c rest i e bang refl
        | inr no_bang ↦ stays state_nick p c rest i e refl (rw (no_at, no_space, no_bang) refl)
      ]
    ]
  ]
  on_byte-Follows state_name p c rest i e reading = elim (Bool-cases (c == b'@')) [
    | inl at ↦ separated state_name state_host p c rest i e at refl
    | inr no_at ↦ elim (Bool-cases (c == b' ')) [
      | inl space ↦ separated state_name state_command p c rest i e space refl
      | inr no_space ↦ stays state_name p c rest i e refl (rw (no_at, no_space) refl)
    ]
  ]
  on_byte-Follows state_host p c rest i e reading = elim (Bool-cases (c == b' ')) [
    | inl space ↦ separated state_host state_command p c rest i e space refl
    | inr no_space ↦ stays state_host p c rest i e refl (rw no_space refl)
  ]
  on_byte-Follows state_command p c rest i e reading = elim (Bool-cases (c == b' ')) [
    | inl space ↦ separated state_command state_params p c rest i e space refl
    | inr no_space ↦ stays state_command p c rest i e refl (rw no_space refl)
  ]
  on_byte-Follows state_params p c rest i e reading = elim (Bool-cases (c == b' ')) [
    | inl space ↦ separated state_params state_params p c rest i e space refl
    | inr no_space ↦ elim (Bool-cases ((p.len == p.last + 1) && c == b':')) [
      | inl colon ↦
          subst (λ (d : ℕ). Goes state_params p d rest i) (ground arith)
            (starts_trailing p rest i e (ground arith))
      | inr other ↦ stays state_params p c rest i e refl (rw (no_space, other) refl)
    ]
  ]
  on_byte-Follows state_trailing p c rest i e reading = stays state_trailing p c rest i e refl refl
  on_byte-Follows state_init p c rest i e reading = absurd (cc)
  on_byte-Follows state_end p c rest i e reading = absurd (cc)
  on_byte-Follows state_error p c rest i e reading = absurd (cc)

  -- A byte of a line in the part that is read, while the buffer has room.
  pub settle-Follows :
      (p : LineParser S) (c : ℕ) (rest : Bytes) (i : ℕ)
      → is_reading p.state ≡ true
      → is_line_byte c ≡ true
      → p.len < 512
      → (q : LineParser S) × (settle (create_line_parser handle) p c rest i ≡ next q)
        × (q.len ≡ p.len + 1)
        × (q.user.1 ≡ p.user.1)
        × (is_reading q.state ≡ true)
  settle-Follows p c rest i reading line room =
      let (q, e, follows) =
        on_byte-Follows p.state (record p { raw = store p.raw p.len c; len = p.len + 1 }) c rest i
          refl reading in
      (
        q,
        settle_of_next (create_line_parser handle) p q c rest i (
            execute_byte_line (create_line_parser handle) p _ c rest i line
              (append_raw_fits p c room)
            ∙ e),
        follows.0,
        follows.1,
        follows.2,
      )

  -- The byte that does not fit.
  pub settle_full :
      (p : LineParser S) (c : ℕ) (rest : Bytes) (i : ℕ)
      → is_line_byte c ≡ true
      → 512 ≤ p.len
      → (q : LineParser S) × (settle (create_line_parser handle) p c rest i ≡ stop q i)
        × (q.len ≡ p.len + 1)
        × (q.user.1 ≡ p.user.1)
        × (q.state ≡ state_error)
        × (q.error ≡ error_length)
  unfolding on_byte create_line_parser on_error
  settle_full p c rest i line full = (
    record p {
      len = p.len + 1;
      raw = store p.raw p.len c;
      state = state_error;
      error = error_length;
    },
    settle_of_stop (create_line_parser handle) p _ c rest i i (
        execute_byte_line (create_line_parser handle) p _ c rest i line (append_raw_full p c full)),
    refl,
    refl,
    refl,
    refl,
  )

  -- In the error state a line byte is stored, and the data is given up.
  pub settle_error :
      (p : LineParser S) (c : ℕ) (rest : Bytes) (i : ℕ)
      → is_line_byte c ≡ true
      → p.state ≡ state_error
      → (q : LineParser S) × (settle (create_line_parser handle) p c rest i ≡ stop q i)
        × (q.len ≡ p.len + 1)
        × (q.user.1 ≡ p.user.1)
        × (q.state ≡ state_error)
  unfolding on_byte create_line_parser on_error
  settle_error p c rest i line failed = elim (Bool-cases (ltb p.len 512)) [
    | inl room ↦ (
      record p { len = p.len + 1; raw = store p.raw p.len c; state = state_error },
      settle_of_stop (create_line_parser handle) p _ c rest i i (
          execute_byte_line (create_line_parser handle) p _ c rest i line
            (append_raw_fits p c (ltb→lt p.len 512 room))
          ∙ rw failed refl),
      refl,
      refl,
      refl,
    )
    | inr full ↦
        let (q, e, same_len, same_user, state, error) =
          settle_full p c rest i line (ground arith) in
        (q, e, same_len, same_user, state)
  ]
