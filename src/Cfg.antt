-- ===== src/Cfg.antt =====
-- helper.h and argument_parser.h: struct xdccGetConfig and the parts of it, the flag numbers, and
-- the level test of `logprintf` (helper.c). Pointers to text are `Option`, NULL being `none`.
pub mod Laws
use xdccget_for_windows.Base.{
  ℕ, Bool, not, Option, none, some, List, [], leb, ◌∷◌, ◌==◌, if◌then◌else◌,
}
use xdccget_for_windows.Bytes.{Bytes}
use xdccget_for_windows.Flags.{set_bit as set_flag_bit, clear_bit, get_bit}

pub record SendDelay : Type 0 where
  pub send_delay_in_secs : ℕ
  pub time_to_send_command : ℕ

pub record DccDownload : Type 0 where
  pub bot_nick : Bytes
  pub xdcc_cmd : Bytes
  pub md5 : Option Bytes

-- The session is a state of its own, and no field here. `dcc_download_array` stops at its first
-- NULL entry; `num_downloads` is counted apart, as in the source.
pub record XdccGetConfig : Type 0 where
  pub log_level : ℕ
  pub dcc_download_array : Option (List DccDownload)
  pub num_downloads : ℕ
  pub max_transfer_speed : ℕ
  pub send_delay : Option SendDelay
  pub flags : ℕ
  pub channels_to_join : List Bytes
  pub target_dir : Bytes
  pub nick : Option Bytes
  pub login_command : Option Bytes
  pub listen_ip : Option Bytes
  pub listen_port : ℕ
  pub args : List (Option Bytes)
  pub port : ℕ

abbrev pub log_err : ℕ
log_err = 0

abbrev pub log_quiet : ℕ
log_quiet = 1

abbrev pub log_warn : ℕ
log_warn = 2

abbrev pub log_info : ℕ
log_info = 3

abbrev pub no_speed_limit : ℕ
no_speed_limit = 0

abbrev pub output_flag : ℕ
output_flag = 1

abbrev pub allow_all_certs_flag : ℕ
allow_all_certs_flag = 2

abbrev pub use_ipv4_flag : ℕ
use_ipv4_flag = 3

abbrev pub use_ipv6_flag : ℕ
use_ipv6_flag = 4

abbrev pub verify_checksum_flag : ℕ
verify_checksum_flag = 5

abbrev pub sended_flag : ℕ
sended_flag = 6

abbrev pub accept_all_nicks_flag : ℕ
accept_all_nicks_flag = 7

abbrev pub dont_confirm_offsets_flag : ℕ
dont_confirm_offsets_flag = 8

abbrev pub on_connect_event_done : ℕ
on_connect_event_done = 9

unfoldable pub cfg_clear_bit : XdccGetConfig → ℕ → XdccGetConfig
cfg_clear_bit config bit_num = record config { flags = clear_bit config.flags bit_num }

unfoldable pub cfg_set_bit : XdccGetConfig → ℕ → XdccGetConfig
cfg_set_bit config bit_num = record config { flags = set_flag_bit config.flags bit_num }

-- The bit as the truth value that the callers test.
unfoldable pub cfg_get_bit : XdccGetConfig → ℕ → Bool
cfg_get_bit config bit_num = not (get_bit config.flags bit_num == 0)

unfoldable pub get_listen_ip : XdccGetConfig → Bytes → Bytes
get_listen_ip config default_ip = elim config.listen_ip [ some ip ↦ ip | none ↦ default_ip ]

unfoldable pub get_listen_port : XdccGetConfig → ℕ
get_listen_port config = if not (config.listen_port == 0) then config.listen_port else 0

-- What `logprintf` prints in front of a message: a coloured prefix, or the bare text.
pub data LogLine : Type 0 where
  info_line warning_line error_line plain_line : LogLine

unfoldable pub logprintf : XdccGetConfig → ℕ → Option LogLine
logprintf cfg level =
    if cfg.log_level == log_quiet
    then none
    else if level == log_info
    then (if leb log_info cfg.log_level then some info_line else none)
    else if level == log_warn
    then (if leb log_warn cfg.log_level then some warning_line else none)
    else if level == log_err
    then (if leb log_err cfg.log_level then some error_line else none)
    else some plain_line

-- A run that may end the process by `exitPgm`, with its exit status (-1 is the status 255).
pub data Run {ℓ} (A : Type ℓ) : Type ℓ where
  ok : A → Run A
  exited : ℕ → Run A

infixl 5 ◌>>=◌
abbrev pub ◌>>=◌ {ℓ κ} : {A : Type ℓ} {B : Type κ} → Run A → (A → Run B) → Run B
ok a >>= f = f a
exited n >>= f = exited n

-- The configuration of `main` before the file and the options are read.
abbrev pub default_config : Bytes → XdccGetConfig
default_config target_dir = record {
  log_level = log_warn;
  dcc_download_array = none;
  num_downloads = 0;
  max_transfer_speed = no_speed_limit;
  send_delay = none;
  flags = 0;
  channels_to_join = [];
  target_dir = target_dir;
  nick = none;
  login_command = none;
  listen_ip = none;
  listen_port = 0;
  args = none ∷ none ∷ none ∷ [];
  port = 6667;
}
