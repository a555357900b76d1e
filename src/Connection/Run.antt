-- ===== src/Connection/Run.antt =====
-- libircclient-src/libircclient.c: irc_run, the main loop.
use xdccget_for_windows.Base.{
  Option, false, none, suc, some, ℕ, if◌then◌else◌, zero, [], List, ◌∷◌, true, not,
}
use xdccget_for_windows.Session.{on_client, IrcSession}
use xdccget_for_windows.Connection.{
  irc_is_connected, Answers, irc_process_select_descriptors, session_of, Connection, with_session,
  is_connecting, set_error,
}
use xdccget_for_windows.LineParser.{IrcParserResult}
use xdccget_for_windows.World.{Outcome, World}
use xdccget_for_windows.Dcc.{err_state}

-- What fdwatch gives: a signal interrupted it, it failed, or the answers of the system after it.
pub data Wait : Type 0 where
  interrupted failed : Wait
  answered : Answers → Wait

abbrev pub err_terminated : ℕ
err_terminated = 15

module _ (handle : IrcParserResult → IrcSession → IrcParserResult × IrcSession)
    (keep_alive : World → Outcome Unit) where
  abbrev pub keep_session : Connection → Connection
  keep_session c = with_session c (on_client (session_of c) keep_alive)

  -- One run of the loop's body for each wait; `none` while the loop goes on.
  unfoldable pub run_loop : Connection → List Wait → Option (Connection × Option ℕ)
  run_loop c [] = some (c, if irc_is_connected (session_of c) then none else some 0)
  run_loop c (wait ∷ waits) = elim (irc_is_connected (session_of c)) [
    | false ↦ some (c, some 0)
    | true ↦ elim wait [
      | interrupted ↦ run_loop c waits
      | failed ↦ some (with_session c (set_error (session_of c) err_terminated), some 1)
      | answered a ↦ elim (irc_process_select_descriptors handle (keep_session c) a) [
        | none ↦ none
        | some x ↦ elim x.1 [ zero ↦ run_loop x.0 waits | suc r ↦ some (x.0, some 1) ]
      ]
    ]
  ]

  unfoldable pub irc_run : Connection → List Wait → Option (Connection × Option ℕ)
  irc_run c waits =
      if not (is_connecting (session_of c).state)
      then some (with_session c (set_error (session_of c) err_state), some 1)
      else run_loop c waits
