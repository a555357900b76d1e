-- ===== src/Receive/Resume.antt =====
-- What follows when a bot acknowledges a resumed transfer.
use xdccget_for_windows.World.{
  World, exit_pgm, DccDownloadContext, IrcDccSession, waiting_for_resume_ack, Net, find_session,
  recv_file, on_context, is_init, on_session, init_passive, done, ◌>>=◌, Outcome,
}
use xdccget_for_windows.World.Laws.{find_session_by_id, find_session-update_session}
use xdccget_for_windows.Dcc.Laws.{refuses_started}
use xdccget_for_windows.Base.{
  true, false, get_elem?, some, ◌≡◌, ℕ, ◌&&◌, ◌==◌, inr, Bool-cases, inl, refl, sym, subst, ◌∙◌, ap,
}
use xdccget_for_windows.Bytes.{Bytes, codes}
use xdccget_for_windows.Receive.Request.{request_accept_reverse}
use xdccget_for_windows.Dcc.{libirc_find_dcc_session_by_token, err_state, irc_dcc_accept_reverse}
use xdccget_for_windows.Transfer.{callback_dcc_resume_file_reverse, check_ret, resume_at}

abbrev acknowledged : IrcDccSession → ℕ → IrcDccSession
acknowledged s size = record s { state = init_passive; file_confirm_offset = size }

abbrev moved : DccDownloadContext → ℕ → DccDownloadContext
moved c position = record c {
  progress = record c.progress { size_rcvd = position; size_now = position; size_last = position };
}

resume_at_done :
    (net : Net) (w : World) (k position : ℕ) (c : DccDownloadContext)
    → get_elem? w.contexts k ≡ some c
    → net.seeks ≡ true
    → resume_at net w (some k) position
      ≡ done (moved c position) (on_context w k (moved c position))
unfolding resume_at
resume_at_done net w k position c in_array seek = rw (resume_at, in_array, seek) refl

resume_at_exits :
    (net : Net) (w : World) (k position : ℕ) (c : DccDownloadContext)
    → get_elem? w.contexts k ≡ some c
    → net.seeks ≡ false
    → resume_at net w (some k) position ≡ exit_pgm w
unfolding resume_at
resume_at_exits net w k position c in_array no_seek = rw (resume_at, in_array, no_seek) refl

-- The callback of a reverse transfer ends the program when the session is no longer in its first
-- state.
callback_reverse_exits :
    (net : Net) (w : World) (i k position : ℕ) (nick filename : Bytes) (token : ℕ)
    (s : IrcDccSession) (c : DccDownloadContext)
    → find_session (λ x. x.id == i) w.dcc_sessions ≡ some s
    → is_init s.state ≡ false
    → get_elem? w.contexts k ≡ some c
    → (w₁ : World) × (callback_dcc_resume_file_reverse net w i (some k) position nick filename token
        ≡ exit_pgm w₁)
unfolding callback_dcc_resume_file_reverse
callback_reverse_exits net w i k position nick filename token s c found started in_array =
    elim (Bool-cases net.seeks) [
      | inl seek ↦ (
        record (on_context w k (moved c position)) { lasterror = err_state },
        ap (λ r. r >>= go_on) (resume_at_done net w k position c in_array seek)
            ∙ ap check_ret
                (refuses_started net (on_context w k (moved c position)) i s (some k) recv_file nick
                  filename c.progress.complete_file_size token found started).3,
      )
      | inr no_seek ↦
          (w, ap (λ r. r >>= go_on) (resume_at_exits net w k position c in_array no_seek))
    ]
  where
    go_on : DccDownloadContext → World → Outcome Unit
    go_on c w₁ = check_ret (
        irc_dcc_accept_reverse net w₁ i (some k) recv_file nick filename
          c.progress.complete_file_size token)

-- The acknowledgement of a reverse transfer whose session waits for it, with its callback and its
-- download, ends the program: the session leaves its waiting state for INIT_PASSIVE before
-- `irc_dcc_accept_reverse` asks for INIT.
pub request_accept_reverse_exits :
    (net : Net) (w : World) (nick : Bytes) (size token k : ℕ) (s : IrcDccSession)
    (c : DccDownloadContext)
    → find_session (λ x. x.passive_connection && x.token == token) w.dcc_sessions ≡ some s
    → s.state ≡ waiting_for_resume_ack
    → s.has_reverse_cb ≡ true
    → s.ctx ≡ some k
    → get_elem? w.contexts k ≡ some c
    → (w₁ : World) × (request_accept_reverse net w nick size token ≡ exit_pgm w₁)
unfolding request_accept_reverse libirc_find_dcc_session_by_token
request_accept_reverse_exits net w nick size token k s c found waits has_cb ctx in_array =
    let (s₁, by_id) = find_session_by_id _ w.dcc_sessions s found in
    rw (request_accept_reverse, libirc_find_dcc_session_by_token, found, waits, has_cb)
      (subst
        (λ o.
          (w₁ : World) × ((callback_dcc_resume_file_reverse net
              (on_session w s.id (λ s. acknowledged s size)) s.id o size nick (codes "file.ext")
              token)
            ≡ exit_pgm w₁))
        (sym ctx)
        (callback_reverse_exits net _ s.id k size nick (codes "file.ext") token _ c
          (find_session-update_session s.id _ (λ x. refl) w.dcc_sessions s₁ by_id) refl in_array))
