-- ===== src/Receive.antt =====
-- libircclient-src/dcc.c: what a round of the main loop does with the sockets of the DCC sessions,
-- and the requests that arrive by CTCP. A session is looked up by its id again after each callback.
pub mod Request
pub mod Stream
pub mod Rounds
pub mod Complete
pub mod Resume
use xdccget_for_windows.World.{
  World, done, exit_pgm, fault, ◌>>=◌, confirm_size, init, waiting_for_resume_ack, init_passive,
  connected, Outcome, resume_file, DccState, removed, on_session, set_state, no_callback, recv_file,
  Net, connecting, IrcDccSession,
}
use xdccget_for_windows.Base.{
  length, Bool, ◌+◌, map, true, none, ℕ, some, List, ◌∷◌, ◌==◌, u64, [], false, if◌then◌else◌,
  Option,
}
use xdccget_for_windows.Dcc.{libirc_find_dcc_session, libirc_dcc_destroy_nolock}
use xdccget_for_windows.Bytes.{Bytes}
use xdccget_for_windows.Cfg.{cfg_get_bit, dont_confirm_offsets_flag, XdccGetConfig}
use xdccget_for_windows.Transfer.{callback_dcc_resume_file, callback_dcc_recv_file}

abbrev pub err_closed : ℕ
err_closed = 5

abbrev pub err_read : ℕ
err_read = 10

abbrev pub err_write : ℕ
err_write = 11

-- What one recv or SSL_read gives: bytes, the end of the stream, an error, or (TLS only) that the
-- connection has to be readable or writable first.
pub data ReadResult : Type 0 where
  received : Bytes → ReadResult
  end_of_stream read_fails want_read want_write : ReadResult

pub data SendResult : Type 0 where
  sent : ℕ → SendResult
  send_fails send_wants_read send_wants_write : SendResult

-- What the watcher and the socket answer for one session. `reads` is what the reads of this round
-- give: the first one, and the next ones as long as SSL_pending says so.
pub record Ready : Type 0 where
  pub readable : Bool
  pub writable : Bool
  pub peer_known : Bool
  pub accepts : Bool
  pub reads : List ReadResult
  pub send_result : SendResult

-- (*dcc->cb)(session, dcc->id, status, dcc->ctx, data, length)
abbrev call_cb : Net → World → IrcDccSession → ℕ → Option Bytes → ℕ → Outcome Unit
call_cb net w s status bytes length = elim s.cb [
  | no_callback ↦ fault
  | recv_file ↦ callback_dcc_recv_file net w status s.ctx bytes
  | resume_file ↦ callback_dcc_resume_file net w s.id s.ctx length
]

-- The end of the loop's body under `err`.
abbrev receive_error : Net → World → IrcDccSession → ℕ → Outcome Bool
unfolding libirc_dcc_destroy_nolock
receive_error net w s err =
    call_cb net w s err none 0 >>= (λ _ w₁. done false (libirc_dcc_destroy_nolock w₁ s.id))

-- The state after bytes were received.
unfoldable pub state_after_read : XdccGetConfig → DccState
unfolding cfg_get_bit
state_after_read cfg = if cfg_get_bit cfg dont_confirm_offsets_flag then connected else confirm_size

abbrev receive_bytes : Net → World → IrcDccSession → Bytes → Outcome Bool
receive_bytes net w s bytes =
    let w₁ =
      on_session w s.id
        (λ s. record s { file_confirm_offset = u64 (s.file_confirm_offset + length bytes) }) in
    call_cb net w₁ s 0 (some bytes) (length bytes)
    >>= (λ _ w₂. done s.ssl (set_state w₂ s.id (state_after_read w₂.cfg)))

-- One round of the loop; says whether the buffered bytes of a TLS connection are looked at.
unfoldable recv_once : Net → World → IrcDccSession → ReadResult → Outcome Bool
unfolding receive_error state_after_read
recv_once net w s (received []) = receive_error net w s err_closed
recv_once net w s (received (b ∷ bs)) = receive_bytes net w s (b ∷ bs)
recv_once net w s end_of_stream = receive_error net w s err_closed
recv_once net w s read_fails = receive_error net w s err_read
recv_once net w s want_read = if s.ssl then done false w else receive_error net w s err_read
recv_once net w s want_write =
    if s.ssl then done false (set_state w s.id confirm_size) else receive_error net w s err_read

unfoldable pub recv_dcc_file : Net → World → ℕ → List ReadResult → Outcome Unit
unfolding recv_once libirc_find_dcc_session
recv_dcc_file net w i [] = done tt w
recv_dcc_file net w i (r ∷ rs) = elim (libirc_find_dcc_session w i) [
  | none ↦ fault
  | some s ↦
      recv_once net w s r
      >>= (λ more w₁. elim more [ true ↦ recv_dcc_file net w₁ i rs | false ↦ done tt w₁ ])
]

abbrev send_error : Net → World → IrcDccSession → ℕ → Outcome Unit
send_error net w s err = call_cb net w s err none 0

-- The four bytes hold the offset modulo 2^32; what the bot reads is not modelled.
unfoldable send_once : Net → World → IrcDccSession → SendResult → Outcome Unit
unfolding libirc_dcc_destroy_nolock
send_once net w s (sent n) =
    if n == 0
    then send_error net w s err_closed
    else if s.received_file_size == s.file_confirm_offset
    then call_cb net w s 0 none 0 >>= (λ _ w₁. done tt (libirc_dcc_destroy_nolock w₁ s.id))
    else done tt (set_state w s.id connected)
send_once net w s send_fails = send_error net w s err_write
send_once net w s send_wants_read =
    if s.ssl then done tt (set_state w s.id connected) else send_error net w s err_write
send_once net w s send_wants_write = if s.ssl then done tt w else send_error net w s err_write

unfoldable pub send_current_file_offset_to_sender : Net → World → ℕ → SendResult → Outcome Unit
unfolding send_once libirc_find_dcc_session
send_current_file_offset_to_sender net w i r = elim (libirc_find_dcc_session w i) [
  | none ↦ fault
  | some s ↦ send_once net w s r
]

unfoldable handle_connecting_state : World → ℕ → Ready → World
unfolding libirc_dcc_destroy_nolock
handle_connecting_state w i ready =
    if ready.writable
    then (if ready.peer_known then set_state w i connected else libirc_dcc_destroy_nolock w i)
    else w

unfoldable handle_init_passive_state : World → ℕ → Ready → World
handle_init_passive_state w i ready =
    if ready.readable
    then on_session w i (λ s. record s { sock_open = ready.accepts; state = connected })
    else w

-- The switch of the loop for the session with the id.
unfoldable pub process_session : Net → World → ℕ → Ready → Outcome Unit
unfolding libirc_find_dcc_session handle_connecting_state handle_init_passive_state recv_dcc_file
    send_current_file_offset_to_sender
process_session net w i ready = elim (libirc_find_dcc_session w i) [
  | none ↦ fault
  | some s ↦ elim s.state [
    | connecting ↦ done tt (handle_connecting_state w i ready)
    | connected ↦ if ready.readable then recv_dcc_file net w i ready.reads else done tt w
    | confirm_size ↦
        if ready.writable
        then send_current_file_offset_to_sender net w i ready.send_result
        else done tt w
    | waiting_for_resume_ack ↦ done tt w
    | init_passive ↦ done tt (handle_init_passive_state w i ready)
    | init ↦ done tt w
    | removed ↦ done tt w
  ]
]

process_ids : Net → World → List ℕ → (ℕ → Ready) → Outcome Unit
unfolding process_session
process_ids net w [] ready = done tt w
process_ids net w (i ∷ is) ready =
    process_session net w i (ready i) >>= (λ _ w₁. process_ids net w₁ is ready)

-- No callback adds or takes away a session, so the list is that of the start.
unfoldable pub libirc_dcc_process_descriptors : Net → World → (ℕ → Ready) → Outcome Unit
unfolding process_ids
libirc_dcc_process_descriptors net w ready =
    process_ids net w (map (λ s. s.id) w.dcc_sessions) ready
