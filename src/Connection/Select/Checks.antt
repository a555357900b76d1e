-- ===== src/Connection/Select/Checks.antt =====
-- What the checks of a round of the main loop answer.
use xdccget_for_windows.Connection.Select.{Numbers, prepare_wait, Waits}
use xdccget_for_windows.World.{World, done}
use xdccget_for_windows.Base.{Option, ◌≡◌, some, ℕ, false, ap, All, true, ◌∙◌}
use xdccget_for_windows.Watcher.{
  bit_of, Bits, fdwatch, Watcher, no_bits, poll_failed, fdwatch_check_fd, polled,
}
use xdccget_for_windows.Watcher.Answers.{
  checks_answer, round_keeps, AreAsked, IsWatching, wanted_bits,
}
use xdccget_for_windows.Dcc.{libirc_dcc_add_descriptors}
use xdccget_for_windows.Connection.Select.Watched.{
  after_dcc, follow, prepared, asked_by, prepare_wait-watch_all,
}
use xdccget_for_windows.Connection.{session_of, is_unusable, Connection}

-- While the session with the server is connecting or connected, its socket is open, and the open
-- sockets of it and of the DCC sessions that are not removed are different numbers below the limit of
-- the watch list, what irc_run does before it waits succeeds, and changes nothing but the list of the
-- DCC sessions; each check after the poll says of each of these sockets what poll said of it for
-- what the state of its session waits for, and nothing when poll reports an error of it.
pub prepare_wait-fdwatch_check_fd :
    (numbers : Numbers) (waits : Waits) (limit n : ℕ) (bits_of : Option ℕ → Bits → Bits)
    (c : Connection) (w : Watcher) (x : World)
    → IsWatching limit w
    → (session_of c).sock_open ≡ true
    → is_unusable (session_of c).state ≡ false
    → (session_of c).client ≡ done tt x
    → AreAsked limit (asked_by numbers waits c (libirc_dcc_add_descriptors x).dcc_sessions)
    → (w' : Watcher) × (prepare_wait numbers waits c w ≡ some (w', after_dcc c x, 0))
      × IsWatching limit w'
      × All
          (λ r.
            (access : ℕ)
            → fdwatch_check_fd (fdwatch w' (polled n bits_of)).0 (some r.0) access
              ≡ bit_of access (bits_of (some r.0) (wanted_bits no_bits r.1)))
          (asked_by numbers waits c (libirc_dcc_add_descriptors x).dcc_sessions)
prepare_wait-fdwatch_check_fd numbers waits limit n bits_of c w x good open_ usable client asked =
    let rs = asked_by numbers waits c (libirc_dcc_add_descriptors x).dcc_sessions in
    let (w', returns, kept, each) =
      round_keeps limit w (record { asked = rs; answer = poll_failed }) good asked in
    (
      w',
      prepare_wait-watch_all numbers waits c w x open_ usable client
          ∙ ap (λ (o : Option Watcher). follow o (prepared (after_dcc c x))) returns,
      kept,
      checks_answer limit n bits_of w' rs kept asked.1 each,
    )
