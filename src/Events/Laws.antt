-- ===== src/Events/Laws.antt =====
-- Requests and logins are sent once.
use xdccget_for_windows.World.{World}
use xdccget_for_windows.Cfg.Laws.{cfg_get_bit-cfg_set_bit}
use xdccget_for_windows.Base.{
  refl, inl, true, sym, ℕ, Option, inr, Bool, none, ◌≡◌, ◌∙◌, Option-cases, ap, some, Bool-cases,
  ==_iff,
}
use xdccget_for_windows.Events.{on_connect_event, send_xdcc_requests, authenticate}
use xdccget_for_windows.Cfg.{
  sended_flag, on_connect_event_done, XdccGetConfig, cfg_set_bit, cfg_get_bit,
}
use xdccget_for_windows.Bytes.Sds.{Sds}

set_flag_reads : (cfg : XdccGetConfig) (n : ℕ) → cfg_get_bit (cfg_set_bit cfg n) n ≡ true
set_flag_reads cfg n = rw (cfg_get_bit-cfg_set_bit cfg n n, (==_iff n n).1 refl) refl

is_sent : Option World → Bool
is_sent none = true
is_sent (some w) = cfg_get_bit w.cfg sended_flag

send_sets : (w : World) → is_sent (send_xdcc_requests w) ≡ true
unfolding send_xdcc_requests is_sent
send_sets w = elim (Bool-cases (cfg_get_bit w.cfg sended_flag)) [
  | inl e ↦ rw (send_xdcc_requests, e) e
  | inr e ↦ elim (Option-cases w.cfg.dcc_download_array) [
    | inl n ↦ rw (send_xdcc_requests, e, n) refl
    | inr (ds, a) ↦ rw (send_xdcc_requests, e, a) (set_flag_reads w.cfg sended_flag)
  ]
]

send_skips : (w : World) → cfg_get_bit w.cfg sended_flag ≡ true → send_xdcc_requests w ≡ some w
unfolding send_xdcc_requests
send_skips w e = rw (e) refl

-- Once the requests are sent, sending them again changes nothing, whichever event asks for it.
send_xdcc_requests_once :
    (w w₁ : World) → send_xdcc_requests w ≡ some w₁ → send_xdcc_requests w₁ ≡ some w₁
unfolding is_sent
send_xdcc_requests_once w w₁ h = send_skips w₁ (sym (ap is_sent h) ∙ send_sets w)

on_connect_skips :
    (sds : Sds) (w : World)
    → cfg_get_bit w.cfg on_connect_event_done ≡ true
    → on_connect_event sds w ≡ w
unfolding on_connect_event
on_connect_skips sds w e = rw (e) refl

on_connect_sets :
    (sds : Sds) (w : World) → cfg_get_bit (on_connect_event sds w).cfg on_connect_event_done ≡ true
unfolding on_connect_event
on_connect_sets sds w = elim (Bool-cases (cfg_get_bit w.cfg on_connect_event_done)) [
  | inl e ↦ rw (on_connect_event, e) e
  | inr e ↦
      rw (on_connect_event, e)
        (set_flag_reads (authenticate sds w w.cfg.login_command).cfg on_connect_event_done)
]

-- A second sign of the connection changes nothing: after the first one the login command or the
-- channels are not sent again.
pub on_connect_event_once :
    (sds : Sds) (w : World) → on_connect_event sds (on_connect_event sds w) ≡ on_connect_event sds w
on_connect_event_once sds w = on_connect_skips sds (on_connect_event sds w) (on_connect_sets sds w)
