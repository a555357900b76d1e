-- ===== src/Transfer/Laws.antt =====
-- Who may send a file, and under which names.
use xdccget_for_windows.World.{World, exit_pgm, Net}
use xdccget_for_windows.Base.{
  refl, false, ◌↔◌, All, List, ◌∷◌, ℕ, map, ◌≡◌, [], arith, true, ◌++◌, ◌⊎◌, inl, inr, some,
  Bool-cases,
}
use xdccget_for_windows.Transfer.{
  prepare_recv_file_request, sdscontains, recv_file_request, recv_file_request_reverse,
  contains_illegal_chars, any_nick, is_valid_request_from_nick,
}
use xdccget_for_windows.Bytes.{Bytes, tolower, str_case_equals}
use xdccget_for_windows.Cfg.{DccDownload, cfg_get_bit, accept_all_nicks_flag, XdccGetConfig}
use xdccget_for_windows.Bytes.Sds.{has_byte}
use xdccget_for_windows.Bytes.Laws.{str_equals_iff}

-- Some byte of the text is in the set.
pub sdscontains_iff :
    (s chars : Bytes) → (sdscontains s chars ≡ false) ↔ All (λ c. has_byte c chars ≡ false) s
unfolding sdscontains
sdscontains_iff [] chars = (λ _. tt, λ _. refl)
sdscontains_iff (c ∷ s) chars = ground (arith, sdscontains_iff s chars)

contains_bad :
    (chars s rest : Bytes) (c : ℕ)
    → has_byte c chars ≡ true
    → sdscontains (s ++ (c ∷ rest)) chars ≡ true
unfolding sdscontains
contains_bad chars [] rest c h = ground (arith, h)
contains_bad chars (a ∷ s) rest c h = ground (arith, contains_bad chars s rest c h)

-- A request for a file whose name has a slash or a backslash ends the program, and no file, no
-- context and no session is touched; for the transfers that the client connects to, and the reverse
-- ones.
pub recv_file_request_illegal :
    (net : Net) (w : World) (nick front rest : Bytes) (c : ℕ) (size dccid token : ℕ)
    → (c ≡ b'/') ⊎ (c ≡ b'\\')
    → (recv_file_request net w nick (front ++ (c ∷ rest)) size dccid ≡ exit_pgm w)
      × (recv_file_request_reverse net w nick (front ++ (c ∷ rest)) size dccid token ≡ exit_pgm w)
unfolding recv_file_request recv_file_request_reverse prepare_recv_file_request
recv_file_request_illegal net w nick front rest c size dccid token bad =
    (rw (illegal) refl, rw (illegal) refl)
  where
    illegal : contains_illegal_chars (front ++ (c ∷ rest)) ≡ true
    illegal = contains_bad _ front rest c (elim bad [ inl e ↦ rw (e) refl | inr e ↦ rw (e) refl ])

-- Some download is asked of the nick, in whatever case it is written.
unfoldable pub AsksNick : Bytes → List DccDownload → Type 0
AsksNick nick [] = ⊥
AsksNick nick (d ∷ ds) = (map tolower d.bot_nick ≡ map tolower nick) ⊎ AsksNick nick ds

any_nick_iff : (ds : List DccDownload) (nick : Bytes) → (any_nick ds nick ≡ true) ↔ AsksNick nick ds
unfolding any_nick AsksNick str_case_equals
any_nick_iff [] nick = (λ h. absurd cc, λ e. absurd e)
any_nick_iff (d ∷ ds) nick =
    ground (arith, str_equals_iff (map tolower d.bot_nick) (map tolower nick), any_nick_iff ds nick)

-- Where there are downloads, a request is taken exactly when every nick is accepted or one of the
-- downloads is asked of this nick; the case of ASCII letters does not count.
is_valid_request_from_nick_iff :
    (cfg : XdccGetConfig) (nick : Bytes) (ds : List DccDownload)
    → cfg.dcc_download_array ≡ some ds
    → (is_valid_request_from_nick cfg nick ≡ true)
      ↔ ((cfg_get_bit cfg accept_all_nicks_flag ≡ true) ⊎ AsksNick nick ds)
unfolding is_valid_request_from_nick
is_valid_request_from_nick_iff cfg nick ds a =
    elim (Bool-cases (cfg_get_bit cfg accept_all_nicks_flag)) [
      | inl e ↦ rw (is_valid_request_from_nick, a, e) (λ _. inl refl, λ _. refl)
      | inr e ↦ rw (is_valid_request_from_nick, a, e) (ground (arith, any_nick_iff ds nick))
    ]
