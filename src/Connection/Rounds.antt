-- ===== src/Connection/Rounds.antt =====
-- What a round of the main loop does to the connection.
use mathlib.Core.Bool.{not}
use xdccget_for_windows.Base.{
  ℕ, ◌≡◌, ◌⊎◌, true, Bool, inl, Option, refl, inr, false, some, [], Option-cases, Bool-cases, drop,
  ◌&&◌, ◌||◌, if◌then◌else◌,
}
use xdccget_for_windows.Connection.{
  with_session, set_error, set_error_if_none, disconnected, is_connecting, Connection, Answers,
  session_of, irc_process_select_descriptors, write_outgoing, with_result,
  irc_handle_connecting_state, read_incoming, is_unusable,
}
use xdccget_for_windows.Session.{session_disconnected, IrcSession, on_client, is_connected}
use xdccget_for_windows.LineParser.{IrcParserResult, LineParser}
use xdccget_for_windows.Incoming.{process_incoming}
use xdccget_for_windows.Incoming.Chunks.{process_incoming-append}
use xdccget_for_windows.Dcc.{err_state}
use xdccget_for_windows.Bytes.{Bytes}

process_incoming-some :
    (handle : IrcParserResult → IrcSession → IrcParserResult × IrcSession)
    (p : LineParser IrcSession) (buf chunk : Bytes)
    → (x : LineParser IrcSession × Bytes) × (process_incoming handle p buf chunk ≡ some x)
process_incoming-some handle p buf chunk =
    let (q, rest, e, none_left, same) = process_incoming-append handle p buf chunk [] in
    ((q, rest), e)

-- A round returns 0, or 1 and the session is disconnected.
abbrev Ends : Option (Connection × ℕ) → Type 0
Ends x =
    (c : Connection) × (r : ℕ) × (x ≡ some (c, r))
    × ((r ≡ 0) ⊎ ((r ≡ 1) × ((session_of c).state ≡ session_disconnected)))

if-Ends : (b : Bool) {x y : Option (Connection × ℕ)} → Ends x → Ends y → Ends (if b then x else y)
if-Ends true x y = x
if-Ends false x y = y

if-false-Ends :
    {b : Bool} (x : Option (Connection × ℕ)) {y : Option (Connection × ℕ)}
    → b ≡ false
    → Ends y
    → Ends (if b then x else y)
if-false-Ends x e y = rw e y

pub usable_guard :
    (open_ unusable : Bool) → open_ ≡ true → unusable ≡ false → (not open_ || unusable) ≡ false
usable_guard open_ unusable e f = rw (e, f) refl

module _ (handle : IrcParserResult → IrcSession → IrcParserResult × IrcSession) where
  write_outgoing-Ends : (c : Connection) (a : Answers) → Ends (write_outgoing handle c a)
  write_outgoing-Ends c a = elim (Bool-cases a.writable) [
    | inr no_ ↦ (c, 0, rw no_ refl, inl refl)
    | inl yes_ ↦ elim (Option-cases a.write) [
      | inl e ↦ (
        with_session c (set_error_if_none (disconnected (session_of c)) 15),
        1,
        rw (yes_, e) refl,
        inr (refl, refl),
      )
      | inr (n, e) ↦ (
        with_session c (record (session_of c) { outgoing = drop n (session_of c).outgoing }),
        0,
        rw (yes_, e) refl,
        inl refl,
      )
    ]
  ]

  read_incoming-Ends : (c : Connection) (a : Answers) → Ends (read_incoming handle c a)
  read_incoming-Ends c a = elim (Bool-cases a.readable) [
    | inr no_ ↦ rw no_ (write_outgoing-Ends c a)
    | inl yes_ ↦ elim (Option-cases a.read) [
      | inl e ↦ (
        with_session c (set_error_if_none (disconnected (session_of c)) 15),
        1,
        rw (yes_, e) refl,
        inr (refl, refl),
      )
      | inr (bytes, e) ↦
          let (x, processed) = process_incoming-some handle c.parser c.incoming bytes in
          rw (yes_, e, processed) (write_outgoing-Ends (record { parser = x.0; incoming = x.1 }) a)
    ]
  ]

  irc_handle_connecting_state-Ends :
      (c : Connection) (s : IrcSession) (has_names : Bool)
      → Ends (with_result handle c (irc_handle_connecting_state s has_names))
  unfolding irc_handle_connecting_state
  irc_handle_connecting_state-Ends c s true = (_, 0, refl, inl refl)
  irc_handle_connecting_state-Ends c s false = (_, 1, refl, inr (refl, refl))

  -- A round on a session that is connecting or connected, with its socket open, comes to an end
  -- whatever the system answers, and whatever the handlers of the lines do: it returns 0, or it
  -- returns 1 and the session is disconnected.
  pub irc_process_select_descriptors-Ends :
      (c : Connection) (a : Answers)
      → (session_of c).sock_open ≡ true
      → is_unusable (session_of c).state ≡ false
      → (c' : Connection) × (r : ℕ) × (irc_process_select_descriptors handle c a ≡ some (c', r))
        × ((r ≡ 0) ⊎ ((r ≡ 1) × ((session_of c').state ≡ session_disconnected)))
  unfolding irc_process_select_descriptors
  irc_process_select_descriptors-Ends c a open_ usable =
      let s = on_client (session_of c) (λ w. a.dcc (record w { lasterror = 0 })) in
      if-false-Ends _
        (usable_guard (session_of c).sock_open (is_unusable (session_of c).state) open_ usable)
        (if-Ends (is_connecting s.state && a.writable)
          (irc_handle_connecting_state-Ends c s a.has_names)
          (if-Ends (not (is_connected s.state))
            (with_session c (set_error (disconnected s) err_state), 1, refl, inr (refl, refl))
            (read_incoming-Ends (with_session c s) a)))
