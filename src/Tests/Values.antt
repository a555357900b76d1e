-- ===== src/Tests/Values.antt =====
-- Limits, speeds, hashes and certificates.
use xdccget_for_windows.Cfg.{default_config, XdccGetConfig}
use xdccget_for_windows.Progress.Ring.{Holds, empty_speeds-Holds, save_current_speed-Holds}
use xdccget_for_windows.Progress.{
  get_average_speed, save_current_speed, empty_speeds, output_progress, DccDownloadProgress,
}
use xdccget_for_windows.Limit.Throttle.{sleep_after_within, sleep_after}
use xdccget_for_windows.Base.{
  [], refl, ◌⊎◌, ◌≡◌, ◌≢◌, ◌^◌, ◌∷◌, arith, false, ◌↔◌, some, ◌*◌, true, ℕ,
}
use xdccget_for_windows.Limit.{set_max_transfer_speed, scan_speed}
use xdccget_for_windows.Progress.Speeds.{output_progress-IsTracked, IsTracked, history_after}
use xdccget_for_windows.Certificate.{
  depth_zero_self_signed_cert, other_error, openssl_check_certificate_callback, ask_for_yes,
  is_self_signed,
}
use xdccget_for_windows.Limit.Laws.{set_max_transfer_speed-unit_name, unit_name}
use xdccget_for_windows.Bytes.{codes}
use xdccget_for_windows.Certificate.Laws.{
  openssl_check_certificate_callback_adds, openssl_check_certificate_callback_accepts, EndsIn,
}
use xdccget_for_windows.Progress.Average.{get_average_speed-Within, Within}

abbrev some_config : XdccGetConfig
some_config = default_config (codes "/tmp")

scanned : scan_speed (codes "3KByte") ≡ some (3, unit_name 1)
unfolding scan_speed
scanned = refl

scanned_unknown : scan_speed (codes "3Tb") ≡ some (3, codes "Tb")
unfolding scan_speed
scanned_unknown = refl

set_max_transfer_speed-unit_name_example :
    set_max_transfer_speed some_config (codes "3KByte")
    ≡ record some_config { max_transfer_speed = 3 * 1024 ^ 1 }
set_max_transfer_speed-unit_name_example =
    set_max_transfer_speed-unit_name some_config (codes "3KByte") 3 1 scanned (omega arith)
      (omega arith)

sleep_after_within_example : sleep_after 100 (90 ∷ 40 ∷ []) 10 ≡ 0
sleep_after_within_example =
    sleep_after_within 100 (90 ∷ 40 ∷ []) 10 (λ e. cc) (omega arith)
      (omega arith, (omega arith, tt)) (omega arith)

get_average_speed-Within_example : Within 0 9 (
    get_average_speed
      (record { cur_speed = 4 ∷ 6 ∷ []; speed_index = 0; is_speed_array_filled = true })
      5)
get_average_speed-Within_example =
    get_average_speed-Within
      (record { cur_speed = 4 ∷ 6 ∷ []; speed_index = 0; is_speed_array_filled = true }) 5 0 9
      (omega arith) (λ e. cc) ((omega arith, omega arith), ((omega arith, omega arith), tt))
      (omega arith, omega arith)

save_current_speed-Holds_example : Holds (save_current_speed empty_speeds 44) (44 ∷ [])
save_current_speed-Holds_example = save_current_speed-Holds empty_speeds [] 44 empty_speeds-Holds

abbrev fresh : DccDownloadProgress
fresh = record {
  complete_file_size = 100;
  size_rcvd = 30;
  size_now = 0;
  size_last = 0;
  average_speed = 0;
  complete_path = codes "/tmp/a";
  cur_speed = empty_speeds;
}

fresh-IsTracked : IsTracked 0 [] fresh
fresh-IsTracked = record {
  holds = empty_speeds-Holds;
  accounted = refl;
  ordered = omega arith;
  fits = omega arith;
}

output_progress-IsTracked_example : IsTracked 0 (history_after fresh []) (output_progress fresh)
output_progress-IsTracked_example = output_progress-IsTracked 0 [] fresh fresh-IsTracked

openssl_check_certificate_callback_accepts_example :
    ((openssl_check_certificate_callback {Cert = ℕ}
        (λ _. true)
        false
        0
        (some 1)
        (1 ∷ 2 ∷ [])
        depth_zero_self_signed_cert
        (some (codes "y"))).0
      ≢ 0)
    ↔ (((false ≡ true) ⊎ ◌≢◌ {A = ℕ} 0 0) ⊎ (ask_for_yes (some (codes "y")) ≡ true))
openssl_check_certificate_callback_accepts_example =
    openssl_check_certificate_callback_accepts {Cert = ℕ} (λ _. true) false 0 1 (1 ∷ 2 ∷ [])
      depth_zero_self_signed_cert (some (codes "y"))

trusted :
    (openssl_check_certificate_callback {Cert = ℕ}
      (λ _. true)
      false
      0
      (some 1)
      (1 ∷ 2 ∷ [])
      (other_error 20)
      (some (codes "y"))).1
    ≡ some 2
unfolding openssl_check_certificate_callback ask_for_yes
trusted = refl

openssl_check_certificate_callback_adds_example :
    ((openssl_check_certificate_callback {Cert = ℕ}
        (λ _. true)
        false
        0
        (some 1)
        (1 ∷ 2 ∷ [])
        (other_error 20)
        (some (codes "y"))).1
      ≡ some 2)
    ↔ ((false ≡ false)
        × ◌≡◌ {A = ℕ} 0 0
        × (ask_for_yes (some (codes "y")) ≡ true)
        × (((is_self_signed (other_error 20) ≡ true) × ◌≡◌ {A = ℕ} 2 1)
            ⊎ ((is_self_signed (other_error 20) ≡ false)
                × (true ≡ true)
                × EndsIn {Cert = ℕ} (λ _. true) (1 ∷ 2 ∷ []) 2)))
openssl_check_certificate_callback_adds_example =
    openssl_check_certificate_callback_adds {Cert = ℕ} (λ _. true) false 0 1 2 (1 ∷ 2 ∷ [])
      (other_error 20) (some (codes "y"))
