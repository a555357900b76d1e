-- ===== src/Parser.antt =====
-- libircclient-src/irc_parser.c: the state machine that reads the server's lines byte by byte. The
-- callbacks are a record of functions on the user's data; the buffer `raw` is the memory from its
-- first byte on, so that a write behind the array's end is seen.
pub mod Scan
pub mod Steps
pub mod Parts
pub mod Lines
pub mod Advance
pub mod Returns
use xdccget_for_windows.Base.{
  ℕ, zero, suc, Bool, true, false, Option, none, some, [], ◌∷◌, ltb, ◌+◌, ◌-◌, ◌*◌, ◌^◌, ◌&&◌, ◌==◌,
  if◌then◌else◌, length,
}
use xdccget_for_windows.Bytes.{Bytes}

-- enum irc_parser_state.
pub data IrcParserState : Type 0 where
  state_init state_nick state_name state_host state_command state_params : IrcParserState
  state_trailing state_end state_error : IrcParserState

-- enum irc_parser_error.
pub data IrcParserError : Type 0 where
  error_none error_parse error_undef_state error_length error_user : IrcParserError

-- IRC_PARSER_RAW_BUFFER_SIZE; the array has one byte more.
abbrev pub raw_buffer_size : ℕ
raw_buffer_size = 512

-- irc_parser_cb: the bytes that are passed, and the result that is returned.
abbrev pub IrcParserCb : Type 0 → Type 0
IrcParserCb R = R → Bytes → R × ℕ

pub record IrcParserSettings (R : Type 0) : Type 0 where
  pub on_nick : Option (IrcParserCb R)
  pub on_name : Option (IrcParserCb R)
  pub on_host : Option (IrcParserCb R)
  pub on_command : Option (IrcParserCb R)
  pub on_param : Option (IrcParserCb R)
  pub on_end : Option (IrcParserCb R)
  pub on_error : Option (IrcParserCb R)

-- `user` is the field data.
pub record IrcParser (R : Type 0) : Type 0 where
  pub user : R
  pub len : ℕ
  pub last : ℕ
  pub state : IrcParserState
  pub error : IrcParserError
  pub raw : ℕ → ℕ

-- The store raw[at] = c, and the n bytes from raw[from] on.
abbrev pub store : (ℕ → ℕ) → ℕ → ℕ → ℕ → ℕ
store raw at c j = if j == at then c else raw j

abbrev pub slice : (ℕ → ℕ) → ℕ → ℕ → Bytes
slice raw from zero = []
slice raw from (suc n) = raw from ∷ slice raw (from + 1) n

-- What becomes of one round of the loop: the next byte, the same byte again, or a return.
pub data Round (R : Type 0) : Type 0 where
  next : IrcParser R → Round R
  again : IrcParser R → Round R
  stop : IrcParser R → ℕ → Round R

abbrev pub is_end : IrcParserState → Bool
is_end state_end = true
is_end _ = false

unfoldable pub irc_parser_reset : {R : Type 0} → IrcParser R → IrcParser R
irc_parser_reset p = record p {
  len = 0;
  last = 0;
  state = state_init;
  error = error_none;
  raw = λ j. if ltb j raw_buffer_size then 0 else p.raw j;
}

unfoldable pub irc_parser_init : {R : Type 0} → R → IrcParser R
unfolding irc_parser_reset
irc_parser_init user =
    irc_parser_reset record {
      user = user;
      len = 0;
      last = 0;
      state = state_init;
      error = error_none;
      raw = λ j. 0;
    }

abbrev pub append_raw : {R : Type 0} → IrcParser R → ℕ → IrcParser R
append_raw p c =
    let q = record p { raw = store p.raw p.len c; len = p.len + 1 } in
    if ltb raw_buffer_size (p.len + 1)
    then record q { state = state_error; error = error_length }
    else q

abbrev pub get_next_state : IrcParserState → IrcParserState
get_next_state state_init = state_nick
get_next_state state_nick = state_name
get_next_state state_name = state_host
get_next_state state_host = state_command
get_next_state state_command = state_params
get_next_state state_params = state_trailing
get_next_state state_trailing = state_end
get_next_state state_end = state_init
get_next_state state_error = state_error

abbrev pub set_state : {R : Type 0} → IrcParser R → IrcParserState → IrcParser R
set_state p s = record p { state = s; last = p.len }

abbrev pub progress_state : {R : Type 0} → IrcParser R → IrcParser R
progress_state p = set_state p (get_next_state p.state)

-- A callback that is set gets the bytes between `last` and the byte just read.
abbrev pub force_call : {R : Type 0} → IrcParser R → Option (IrcParserCb R) → IrcParser R
force_call p none = p
force_call p (some f) =
    let called = f p.user (slice p.raw p.last (p.len - p.last - 1)) in
    let q = record p { user = called.0 } in
    if called.1 == 0 then q else record q { state = state_error; error = error_user }

module _ {R : Type 0} (settings : IrcParserSettings R) where
  abbrev pub get_cb : IrcParserState → Option (IrcParserCb R)
  get_cb state_init = settings.on_nick
  get_cb state_nick = settings.on_nick
  get_cb state_name = settings.on_name
  get_cb state_host = settings.on_host
  get_cb state_command = settings.on_command
  get_cb state_params = settings.on_param
  get_cb state_trailing = settings.on_param
  get_cb state_end = settings.on_param
  get_cb state_error = settings.on_error

  abbrev pub call : IrcParser R → IrcParser R
  call p = force_call p (get_cb p.state)

  abbrev pub call_and_progress : IrcParser R → IrcParser R
  call_and_progress p = progress_state (call p)

  -- The error callback gets the data that is left; its result is not looked at.
  abbrev pub trigger_error : IrcParser R → Bytes → IrcParserError → IrcParser R
  trigger_error p rest e =
      let q = record p { error = e; state = state_error } in
      elim settings.on_error [ none ↦ q | some f ↦ record q { user = (f q.user rest).0 } ]

  abbrev pub switch_to_state_if_char_received : IrcParser R → ℕ → ℕ → IrcParserState → IrcParser R
  switch_to_state_if_char_received p current expected s =
      if current == expected then set_state (call p) s else p

  abbrev pub call_and_progress_on : IrcParser R → ℕ → ℕ → IrcParser R
  call_and_progress_on p current expected = if current == expected then call_and_progress p else p

  -- The inner switch, at the state after the byte was appended.
  unfoldable pub on_byte : IrcParserState → IrcParser R → ℕ → Bytes → ℕ → Round R
  on_byte state_init p c rest i =
      if c == b':'
      then next (record p { last = 1; state = state_nick })
      else again (record p { len = p.len - 1; state = state_command })
  on_byte state_nick p c rest i =
      let p₁ = switch_to_state_if_char_received p c b'@' state_host in
      let p₂ = switch_to_state_if_char_received p₁ c b' ' state_command in
      next (call_and_progress_on p₂ c b'!')
  on_byte state_name p c rest i =
      let p₁ = switch_to_state_if_char_received p c b' ' state_command in
      next (call_and_progress_on p₁ c b'@')
  on_byte state_host p c rest i = next (call_and_progress_on p c b' ')
  on_byte state_command p c rest i = next (call_and_progress_on p c b' ')
  on_byte state_params p c rest i =
      if c == b' '
      then next (set_state (call p) (call p).state)
      else if c == b':' && p.len == p.last + 1
      then next (progress_state p)
      else next p
  on_byte state_trailing p c rest i = next p
  on_byte state_error p c rest i = stop (trigger_error p (c ∷ rest) p.error) i
  on_byte state_end p c rest i = stop (trigger_error p (c ∷ rest) error_undef_state) i

  -- The outer switch: a return of -1 is 2 ^ 64 - 1.
  unfoldable pub execute_byte : IrcParser R → ℕ → Bytes → ℕ → Round R
  unfolding on_byte irc_parser_reset
  execute_byte p c rest i =
      if c == 13
      then next (record p { state = state_end })
      else if c == 10
      then if is_end p.state
        then next
            (irc_parser_reset (force_call (call (record p { len = p.len + 1 })) settings.on_end))
        else stop p (2 ^ 64 - 1)
      else let q = append_raw p c in on_byte q.state q c rest i

  unfoldable pub loop : ℕ → IrcParser R → Bytes → ℕ → Option (IrcParser R × ℕ)
  loop fuel p [] i = some (p, i)
  loop zero p (c ∷ rest) i = none
  loop (suc fuel) p (c ∷ rest) i = elim (execute_byte p c rest i) [
    | next q ↦ loop fuel q rest (suc i)
    | again q ↦ loop fuel q (c ∷ rest) i
    | stop q r ↦ some (q, r)
  ]

  -- A byte is read twice at most.
  unfoldable pub irc_parser_execute : IrcParser R → Bytes → Option (IrcParser R × ℕ)
  irc_parser_execute p bytes = loop (2 * length bytes) p bytes 0
