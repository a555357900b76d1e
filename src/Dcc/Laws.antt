-- ===== src/Dcc/Laws.antt =====
-- What an operation does to a session that is not in its first state.
use xdccget_for_windows.World.{World, done, IrcDccSession, Callback, is_init, Net, find_session}
use xdccget_for_windows.Dcc.{
  libirc_find_dcc_session, err_state, irc_dcc_decline, irc_dcc_accept, irc_dcc_resume_reverse,
  irc_dcc_accept_reverse, irc_dcc_resume, when_init,
}
use xdccget_for_windows.Bytes.{Bytes}
use xdccget_for_windows.Base.{false, some, ◌≡◌, ℕ, refl, Option, ◌==◌}

-- A session that is no longer in its first state is neither connected, resumed, announced nor
-- declined: each operation returns 1 and sets LIBIRC_ERR_STATE, and changes nothing else.
pub refuses_started :
    (net : Net) (w : World) (i : ℕ) (s : IrcDccSession) (ctx : Option ℕ) (cb : Callback)
    (nick filename : Bytes) (position token : ℕ)
    → find_session (λ x. x.id == i) w.dcc_sessions ≡ some s
    → is_init s.state ≡ false
    → (irc_dcc_accept net w i ctx cb ≡ done 1 (record w { lasterror = err_state }))
      × (irc_dcc_resume net w i ctx cb nick position ≡ done 1 (record w { lasterror = err_state }))
      × (irc_dcc_resume_reverse net w i ctx nick position token
          ≡ done 1 (record w { lasterror = err_state }))
      × (irc_dcc_accept_reverse net w i ctx cb nick filename position token
          ≡ done 1 (record w { lasterror = err_state }))
      × (irc_dcc_decline w i ≡ done 1 (record w { lasterror = err_state }))
unfolding irc_dcc_accept irc_dcc_resume irc_dcc_resume_reverse irc_dcc_accept_reverse
    irc_dcc_decline libirc_find_dcc_session
refuses_started net w i s ctx cb nick filename position token found started = (
  rw (when_init, found, started) refl,
  rw (when_init, found, started) refl,
  rw (when_init, found, started) refl,
  rw (when_init, found, started) refl,
  rw (when_init, found, started) refl,
)
