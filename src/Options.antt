-- ===== src/Options.antt =====
-- argument_parser.c: what each command-line option does to the configuration. GNU argp and getopt
-- find the options; their calls into the program, `parse_opt`, `eval_long_option` and the switch of
-- `parseArguments` (the build for Windows), are modelled here.
pub mod Laws
pub mod Windows
use xdccget_for_windows.Bytes.{Bytes, codes, str_equals}
use xdccget_for_windows.Cfg.{
  ok, use_ipv6_flag, cfg_set_bit, verify_checksum_flag, log_warn, exited, use_ipv4_flag, log_info,
  dont_confirm_offsets_flag, allow_all_certs_flag, XdccGetConfig, log_quiet, Run,
  accept_all_nicks_flag,
}
use xdccget_for_windows.Limit.{set_delay, set_max_transfer_speed}
use xdccget_for_windows.Base.{
  ◌&&◌, List, ltb, leb, ◌==◌, Bool, ℕ, u16, if◌then◌else◌, ◌∷◌, some, [], set, not,
}
use xdccget_for_windows.Bytes.Sds.{Sds}
use xdccget_for_windows.Bytes.Number.{strtoul}

-- What the options ask of the world: sds, inet_pton(AF_INET, text, …) != 0, and time(NULL).
pub record Env : Type 0 where
  pub sds : Sds
  pub inet_pton : Bytes → Bool
  pub now : ℕ

abbrev pub blanks : Bytes
blanks = codes " \t"

abbrev set_loglevel : XdccGetConfig → ℕ → XdccGetConfig
set_loglevel cfg level = record cfg { log_level = level }

unfoldable pub set_quiet_loglevel : XdccGetConfig → XdccGetConfig
set_quiet_loglevel cfg = set_loglevel cfg log_quiet

unfoldable pub set_warn_loglevel : XdccGetConfig → XdccGetConfig
set_warn_loglevel cfg = set_loglevel cfg log_warn

unfoldable pub set_info_loglevel : XdccGetConfig → XdccGetConfig
set_info_loglevel cfg = set_loglevel cfg log_info

unfoldable pub set_verify_checksum : XdccGetConfig → XdccGetConfig
set_verify_checksum cfg = cfg_set_bit cfg verify_checksum_flag

unfoldable pub set_target_dir : XdccGetConfig → Bytes → XdccGetConfig
set_target_dir cfg arg = record cfg { target_dir = arg }

unfoldable pub set_nickname : XdccGetConfig → Bytes → XdccGetConfig
set_nickname cfg arg = record cfg { nick = some arg }

unfoldable pub set_login_command : XdccGetConfig → Bytes → XdccGetConfig
set_login_command cfg arg = record cfg { login_command = some arg }

-- (unsigned short) strtoul(arg, NULL, 0)
unfoldable pub set_port : XdccGetConfig → Bytes → XdccGetConfig
set_port cfg arg = record cfg { port = u16 (strtoul arg) }

unfoldable pub set_accept_all_nicks : XdccGetConfig → XdccGetConfig
set_accept_all_nicks cfg = cfg_set_bit cfg accept_all_nicks_flag

unfoldable pub set_dont_confirm_offsets : XdccGetConfig → XdccGetConfig
set_dont_confirm_offsets cfg = cfg_set_bit cfg dont_confirm_offsets_flag

unfoldable pub set_accept_all_certs : XdccGetConfig → XdccGetConfig
set_accept_all_certs cfg = cfg_set_bit cfg allow_all_certs_flag

unfoldable pub set_listen_port : XdccGetConfig → Bytes → XdccGetConfig
set_listen_port cfg arg = record cfg { listen_port = u16 (strtoul arg) }

unfoldable pub set_use_ipv4 : XdccGetConfig → XdccGetConfig
set_use_ipv4 cfg = cfg_set_bit cfg use_ipv4_flag

unfoldable pub set_use_ipv6 : XdccGetConfig → XdccGetConfig
set_use_ipv6 cfg = cfg_set_bit cfg use_ipv6_flag

unfoldable pub set_throttle_download : Env → XdccGetConfig → Bytes → XdccGetConfig
set_throttle_download env cfg arg = set_max_transfer_speed cfg (env.sds.trim arg blanks)

unfoldable pub set_delay_command : Env → XdccGetConfig → Bytes → XdccGetConfig
set_delay_command env cfg arg = set_delay env.now cfg (env.sds.trim arg blanks)

-- The text as it came is tested; what is stored is trimmed.
unfoldable pub set_listen_ip : Env → XdccGetConfig → Bytes → Run XdccGetConfig
set_listen_ip env cfg arg =
    if not (env.inet_pton arg)
    then exited 255
    else ok (record cfg { listen_ip = some (env.sds.trim arg blanks) })

-- The keys of options with no short name.
abbrev pub opt_accept_all_nicks : ℕ
opt_accept_all_nicks = 1

abbrev pub opt_dont_confirm_offsets : ℕ
opt_dont_confirm_offsets = 2

abbrev pub opt_throttle_download : ℕ
opt_throttle_download = 3

abbrev pub opt_delay_command : ℕ
opt_delay_command = 4

abbrev pub opt_listen_ip_command : ℕ
opt_listen_ip_command = 5

abbrev pub opt_listen_port_command : ℕ
opt_listen_port_command = 6

abbrev pub opt_accept_all_certs : ℕ
opt_accept_all_certs = 7

-- argp's calls: an option with its argument ("" where it has none), a positional argument with
-- `state->arg_num`, and the end of the command line.
pub data Key : Type 0 where
  option : ℕ → Bytes → Key
  argp_key_arg : ℕ → Bytes → Key
  argp_key_end : ℕ → Key

-- `argp_usage` ends the process, with argp's own status.
pub data Parsed : Type 0 where
  parsed : XdccGetConfig → Parsed
  argp_err_unknown : Parsed
  argp_usage : Parsed
  quit : ℕ → Parsed

abbrev parsed_run : Run XdccGetConfig → Parsed
parsed_run (ok cfg) = parsed cfg
parsed_run (exited n) = quit n

-- `ipv6` is ENABLE_IPV6.
parse_option : Bool → Env → XdccGetConfig → ℕ → Bytes → Parsed
unfolding set_quiet_loglevel set_info_loglevel set_warn_loglevel set_verify_checksum set_target_dir
    set_nickname set_login_command set_port set_accept_all_nicks set_accept_all_certs
    set_dont_confirm_offsets set_throttle_download set_delay_command set_listen_ip set_listen_port
    set_use_ipv4 set_use_ipv6
parse_option ipv6 env cfg key arg =
    if key == b'q'
    then parsed (set_quiet_loglevel cfg)
    else if key == b'v'
    then parsed (set_info_loglevel cfg)
    else if key == b'w'
    then parsed (set_warn_loglevel cfg)
    else if key == b'i'
    then parsed (set_info_loglevel cfg)
    else if key == b'c'
    then parsed (set_verify_checksum cfg)
    else if key == b'd'
    then parsed (set_target_dir cfg arg)
    else if key == b'n'
    then parsed (set_nickname cfg arg)
    else if key == b'l'
    then parsed (set_login_command cfg arg)
    else if key == b'p'
    then parsed (set_port cfg arg)
    else if key == opt_accept_all_nicks
    then parsed (set_accept_all_nicks cfg)
    else if key == opt_accept_all_certs
    then parsed (set_accept_all_certs cfg)
    else if key == opt_dont_confirm_offsets
    then parsed (set_dont_confirm_offsets cfg)
    else if key == opt_throttle_download
    then parsed (set_throttle_download env cfg arg)
    else if key == opt_delay_command
    then parsed (set_delay_command env cfg arg)
    else if key == opt_listen_ip_command
    then parsed_run (set_listen_ip env cfg arg)
    else if key == opt_listen_port_command
    then parsed (set_listen_port cfg arg)
    else if key == b'4'
    then parsed (set_use_ipv4 cfg)
    else if ipv6 && key == b'6'
    then parsed (set_use_ipv6 cfg)
    else argp_err_unknown

unfoldable pub parse_opt : Bool → Env → XdccGetConfig → Key → Parsed
unfolding parse_option
parse_opt ipv6 env cfg (option key arg) = parse_option ipv6 env cfg key arg
parse_opt ipv6 env cfg (argp_key_arg arg_num arg) =
    if leb 3 arg_num
    then argp_usage
    else parsed (record cfg { args = set cfg.args arg_num (some arg) })
parse_opt ipv6 env cfg (argp_key_end arg_num) = if ltb arg_num 3 then argp_usage else parsed cfg

-- The calls that argp makes, up to the first that is refused.
unfoldable pub parse_all : Bool → Env → XdccGetConfig → List Key → Parsed
unfolding parse_opt
parse_all ipv6 env cfg [] = parsed cfg
parse_all ipv6 env cfg (k ∷ ks) = elim (parse_opt ipv6 env cfg k) [
  | parsed cfg' ↦ parse_all ipv6 env cfg' ks
  | argp_err_unknown ↦ argp_err_unknown
  | argp_usage ↦ argp_usage
  | quit n ↦ quit n
]
