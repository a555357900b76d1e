-- ===== src/Dcc.antt =====
-- libircclient-src/dcc.c: the list of DCC sessions and the operations that the client calls on a
-- session. Mutexes are left out; a session is looked up by its id where the source has its pointer.
pub mod Laws
use xdccget_for_windows.World.{
  World, done, waiting_for_resume_ack, removed, Outcome, no_callback, cmd_ctcp_request, connecting,
  IrcDccSession, on_session, connected, is_init, init, is_removed, act, Callback, set_state,
  find_session, init_passive, Net, exit_pgm,
}
use xdccget_for_windows.Cfg.{get_listen_ip, get_listen_port}
use xdccget_for_windows.Bytes.{codes, strchr, Bytes}
use xdccget_for_windows.Base.{
  Bool, some, ◌++◌, u32, if◌then◌else◌, not, true, ◌∷◌, ℕ, Option, [], ◌&&◌, ◌+◌, none, ◌==◌, List,
  false,
}

abbrev pub err_socket : ℕ
err_socket = 3

abbrev pub err_connect : ℕ
err_connect = 4

abbrev pub err_state : ℕ
err_state = 12

abbrev pub bind_failed : ℕ
bind_failed = 21

abbrev pub listen_failed : ℕ
listen_failed = 22

abbrev pub listen_ip_invalid : ℕ
listen_ip_invalid = 23

unfoldable pub libirc_find_dcc_session : World → ℕ → Option IrcDccSession
libirc_find_dcc_session w dccid = find_session (λ s. s.id == dccid) w.dcc_sessions

unfoldable pub libirc_find_dcc_session_by_port : World → ℕ → Option IrcDccSession
libirc_find_dcc_session_by_port w port = find_session (λ s. s.remote_port == port) w.dcc_sessions

unfoldable pub libirc_find_dcc_session_by_token : World → ℕ → Option IrcDccSession
libirc_find_dcc_session_by_token w token =
    find_session (λ s. s.passive_connection && s.token == token) w.dcc_sessions

-- The socket is closed and the session marked; it leaves the list in the next round.
unfoldable pub libirc_dcc_destroy_nolock : World → ℕ → World
libirc_dcc_destroy_nolock w dccid =
    on_session w dccid (λ s. record s { sock_open = false; state = removed })

-- Removes the session from the list.
unfoldable pub libirc_remove_dcc_session : ℕ → List IrcDccSession → List IrcDccSession
libirc_remove_dcc_session dccid [] = []
libirc_remove_dcc_session dccid (s ∷ ss) =
    if s.id == dccid then ss else s ∷ libirc_remove_dcc_session dccid ss

remove_marked : List IrcDccSession → List IrcDccSession → List IrcDccSession
unfolding libirc_remove_dcc_session
remove_marked [] all = all
remove_marked (s ∷ ss) all =
    remove_marked ss (if is_removed s.state then libirc_remove_dcc_session s.id all else all)

-- The first loop; the second one is add_dcc_descriptors of Connection/Select.
unfoldable pub libirc_dcc_add_descriptors : World → World
unfolding remove_marked
libirc_dcc_add_descriptors w = record w {
  dcc_sessions = remove_marked w.dcc_sessions w.dcc_sessions;
}

abbrev new_session : ℕ → ℕ → ℕ → Bool → IrcDccSession
new_session id ip port ssl = record {
  id = id;
  passive_connection = false;
  token = 0;
  ctx = none;
  sock_open = true;
  state = init;
  ssl = ssl;
  received_file_size = 0;
  file_confirm_offset = 0;
  remote_ip = ip;
  remote_port = port;
  cb = no_callback;
  has_reverse_cb = false;
}

-- The new session's id, with a return code that is not 0 when there is none.
unfoldable pub libirc_new_dcc_session : Net → World → ℕ → ℕ → Bool → Outcome (Option ℕ)
libirc_new_dcc_session net w ip port ssl =
    if not net.creates_socket
    then done none w
    else if ssl && not net.ssl_inits
    then exit_pgm w
    else done (some w.dcc_last_id) (record w {
      dcc_last_id = u32 (w.dcc_last_id + 1);
      dcc_sessions = new_session w.dcc_last_id ip port ssl ∷ w.dcc_sessions;
    })

unfoldable pub irc_dcc_destroy : World → ℕ → Outcome ℕ
unfolding libirc_find_dcc_session
irc_dcc_destroy w dccid = elim (libirc_find_dcc_session w dccid) [
  | none ↦ done 1 w
  | some s ↦ done 0 (on_session w dccid (λ s. record s { sock_open = false; state = removed }))
]

-- The operations on a session that has to be in its first state: 1 and no change without a session,
-- 1 and an error code in another state.
abbrev pub when_init : World → ℕ → (IrcDccSession → Outcome ℕ) → Outcome ℕ
when_init w dccid body = elim (find_session (λ s. s.id == dccid) w.dcc_sessions) [
  | none ↦ done 1 w
  | some s ↦ if not (is_init s.state) then done 1 (record w { lasterror = err_state }) else body s
]

unfoldable pub irc_dcc_accept : Net → World → ℕ → Option ℕ → Callback → Outcome ℕ
unfolding libirc_dcc_destroy_nolock
irc_dcc_accept net w dccid ctx callback = when_init w dccid (λ s.
    let w₁ = on_session w dccid (λ s. record s { cb = callback; ctx = ctx }) in
    if not (net.connects dccid)
    then done 1 (record (libirc_dcc_destroy_nolock w₁ dccid) { lasterror = err_connect })
    else if s.ssl
    then (if not (net.ssl_connects dccid)
        then done 1 (record w₁ { lasterror = err_connect })
        else done 0 (set_state w₁ dccid connected))
    else done 0 (set_state w₁ dccid connecting))

resume_text : Net → ℕ → ℕ → Bytes
resume_text net port position =
    codes "DCC RESUME file.ext " ++ (net.decimal port ++ (codes " " ++ net.decimal position))

unfoldable pub irc_dcc_resume : Net → World → ℕ → Option ℕ → Callback → Bytes → ℕ → Outcome ℕ
unfolding resume_text
irc_dcc_resume net w dccid ctx callback nick position = when_init w dccid (λ s.
    let w₁ = on_session w dccid (λ s. record s { cb = callback; ctx = ctx }) in
    let w₂ = act w₁ (cmd_ctcp_request nick (resume_text net s.remote_port position)) in
    done 0 (set_state w₂ dccid waiting_for_resume_ack))

unfoldable pub irc_dcc_resume_reverse : Net → World → ℕ → Option ℕ → Bytes → ℕ → ℕ → Outcome ℕ
irc_dcc_resume_reverse net w dccid ctx nick position token = when_init w dccid (λ s.
    let w₁ = on_session w dccid (λ s. record s { has_reverse_cb = true; ctx = ctx }) in
    let text =
      codes "DCC RESUME file.ext 0 "
      ++ (net.decimal position ++ (codes " " ++ net.decimal token)) in
    done 0 (set_state (act w₁ (cmd_ctcp_request nick text)) dccid waiting_for_resume_ack))

-- A name with a blank is quoted.
abbrev quoted : Bytes → Option Bytes → Bytes
quoted filename (some _) = codes "\"" ++ (filename ++ codes "\"")
quoted filename none = filename

send_text : Net → Bytes → ℕ → ℕ → ℕ → ℕ → Bytes
unfolding strchr
send_text net filename ip port size token =
    codes "DCC SEND "
    ++ (quoted filename (strchr filename b' ')
        ++ (codes " "
            ++ (net.decimal ip
                ++ (codes " "
                    ++ (net.decimal port
                        ++ (codes " "
                            ++ (net.decimal size ++ (codes " " ++ net.decimal token))))))))

unfoldable pub irc_dcc_accept_reverse :
    Net → World → ℕ → Option ℕ → Callback → Bytes → Bytes → ℕ → ℕ → Outcome ℕ
unfolding get_listen_ip get_listen_port send_text
irc_dcc_accept_reverse net w dccid ctx callback nick filename size token = when_init w dccid (λ s.
    elim (net.inet_pton (get_listen_ip w.cfg (codes "127.0.0.1"))) [
      | none ↦ done 1 (record w { lasterror = listen_ip_invalid })
      | some ip ↦
          let text = send_text net filename ip (get_listen_port w.cfg) size token in
          let w₁ = set_state (act w (cmd_ctcp_request nick text)) dccid init_passive in
          done 0 (on_session w₁ dccid (λ s. record s { cb = callback; ctx = ctx }))
    ])

unfoldable pub irc_dcc_decline : World → ℕ → Outcome ℕ
unfolding libirc_dcc_destroy_nolock
irc_dcc_decline w dccid = when_init w dccid (λ s. done 0 (libirc_dcc_destroy_nolock w dccid))
