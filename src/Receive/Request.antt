-- ===== src/Receive/Request.antt =====
-- libircclient-src/dcc.c: `libirc_dcc_request`, which acts on a CTCP request of a bot.
use xdccget_for_windows.World.{
  World, done, fault, ◌>>=◌, on_session, init, init_passive, is_waiting, Outcome, no_callback,
  recv_file, Net, resume_file,
}
use xdccget_for_windows.Base.{Bool, true, not, none, ℕ, some, false, if◌then◌else◌, Option}
use xdccget_for_windows.Dcc.{
  libirc_find_dcc_session_by_port, listen_failed, libirc_new_dcc_session, err_socket,
  libirc_find_dcc_session_by_token, bind_failed,
}
use xdccget_for_windows.Transfer.{
  callback_dcc_resume_file, callback_dcc_resume_file_reverse, recv_file_request,
  recv_file_request_reverse, callback_dcc_recv_file, is_valid_request_from_nick,
}
use xdccget_for_windows.Bytes.{codes, Bytes}

-- What sscanf gives for the formats of the source, in their order; `none` where it converts too few.
pub record Sscanf : Type 0 where
  pub send_reverse : Bytes → Option (Bytes × ℕ × ℕ × ℕ)
  pub send : Bytes → Option (Bytes × ℕ × ℕ × ℕ)
  pub send_quoted : Bytes → Option (Bytes × ℕ × ℕ × ℕ)
  pub send_no_size : Bytes → Option (Bytes × ℕ × ℕ)
  pub ssend : Bytes → Option (Bytes × ℕ × ℕ × ℕ)
  pub accept_reverse : Bytes → Option (ℕ × ℕ)
  pub accept : Bytes → Option (ℕ × ℕ)

unfoldable pub accept_dcc_send : Net → World → Bytes → Bytes → ℕ → ℕ → ℕ → Bool → Outcome Unit
unfolding libirc_new_dcc_session recv_file_request
accept_dcc_send net w nick filename ip size port ssl =
    libirc_new_dcc_session net w ip port ssl >>= (λ new w₁. elim new [
      | none ↦ done tt (record w₁ { lasterror = err_socket })
      | some i ↦
          recv_file_request net w₁ nick filename size i
          >>= (λ _ w₂. done tt (on_session w₂ i (λ s. record s { received_file_size = size })))
    ])

unfoldable pub accept_reverse_dcc_send :
    Net → World → Bytes → Bytes → ℕ → ℕ → ℕ → Bool → Outcome Unit
unfolding libirc_new_dcc_session recv_file_request_reverse
accept_reverse_dcc_send net w nick filename ip size token ssl =
    libirc_new_dcc_session net w ip 0 ssl >>= (λ new w₁. elim new [
      | none ↦ done tt (record w₁ { lasterror = err_socket })
      | some i ↦
          let w₂ = on_session w₁ i (λ s. record s { passive_connection = true; token = token }) in
          if not net.binds
          then done tt (record w₂ { lasterror = bind_failed })
          else if not net.listens
          then done tt (record w₂ { lasterror = listen_failed })
          else recv_file_request_reverse net w₂ nick filename size i token
    ])

-- DCC ACCEPT for a reverse transfer.
unfoldable pub request_accept_reverse : Net → World → Bytes → ℕ → ℕ → Outcome Unit
unfolding libirc_find_dcc_session_by_token callback_dcc_resume_file_reverse
request_accept_reverse net w nick size token = elim (libirc_find_dcc_session_by_token w token) [
  | none ↦ done tt w
  | some s ↦
      if not (is_waiting s.state)
      then done tt w
      else let w₁ =
          on_session w s.id (λ s. record s { state = init_passive; file_confirm_offset = size }) in
        if s.has_reverse_cb
        then callback_dcc_resume_file_reverse net w₁ s.id s.ctx size nick (codes "file.ext") token
        else fault
]

-- DCC ACCEPT for a transfer that the client connects to.
unfoldable pub request_accept : Net → World → ℕ → ℕ → Outcome Unit
unfolding libirc_find_dcc_session_by_port callback_dcc_recv_file callback_dcc_resume_file
request_accept net w port size = elim (libirc_find_dcc_session_by_port w port) [
  | none ↦ done tt w
  | some s ↦
      if not (is_waiting s.state)
      then done tt w
      else let w₁ =
          on_session w s.id (λ s. record s { state = init; file_confirm_offset = size }) in
        elim s.cb [
          | no_callback ↦ fault
          | recv_file ↦ callback_dcc_recv_file net w₁ 1 s.ctx none
          | resume_file ↦ callback_dcc_resume_file net w₁ s.id s.ctx size
        ]
]

-- The kinds of request, in the order in which the formats are tried.
pub data DccRequest : Type 0 where
  reverse_send : Bytes → ℕ → ℕ → ℕ → DccRequest
  plain_send : Bytes → ℕ → ℕ → ℕ → Bool → DccRequest
  reverse_resume_ack : ℕ → ℕ → DccRequest
  resume_ack : ℕ → ℕ → DccRequest
  unhandled : DccRequest

abbrev or_else : {A : Type 0} → Option A → (A → DccRequest) → DccRequest → DccRequest
or_else (some a) f other = f a
or_else none f other = other

unfoldable pub scan_request : Sscanf → Bytes → DccRequest
scan_request scan req =
    or_else (scan.send_reverse req) (λ (name, ip, size, token). reverse_send name ip size token)
      (or_else (scan.send req) (λ (name, ip, port, size). plain_send name ip port size false)
        (or_else (scan.send_quoted req)
          (λ (name, ip, port, size). plain_send name ip port size false)
          (or_else (scan.send_no_size req) (λ (name, ip, port). plain_send name ip port 0 false)
            (or_else (scan.ssend req) (λ (name, ip, port, size). plain_send name ip port size true)
              (or_else (scan.accept_reverse req) (λ (size, token). reverse_resume_ack size token)
                (or_else (scan.accept req) (λ (port, size). resume_ack port size) unhandled))))))

act_on_request : Net → World → Bytes → DccRequest → Outcome Unit
unfolding accept_dcc_send accept_reverse_dcc_send request_accept request_accept_reverse
act_on_request net w nick (reverse_send name ip size token) =
    accept_reverse_dcc_send net w nick name ip size token false
act_on_request net w nick (plain_send name ip port size ssl) =
    accept_dcc_send net w nick name ip size port ssl
act_on_request net w nick (reverse_resume_ack size token) =
    request_accept_reverse net w nick size token
act_on_request net w nick (resume_ack port size) = request_accept net w port size
act_on_request net w nick unhandled = done tt w

unfoldable pub libirc_dcc_request : Net → Sscanf → World → Bytes → Bytes → Outcome Unit
unfolding act_on_request scan_request is_valid_request_from_nick
libirc_dcc_request net scan w nick req =
    if not (is_valid_request_from_nick w.cfg nick)
    then done tt w
    else act_on_request net w nick (scan_request scan req)
