-- ===== src/Options/Windows.antt =====
-- argument_parser.c as built for Windows: `long_options`, `eval_long_option`, and the loop and the
-- checks of `parseArguments`. getopt.c is a copy of another project: what it returns is a list.
use xdccget_for_windows.Bytes.{Bytes, codes, str_equals}
use xdccget_for_windows.Cfg.{ok, ◌>>=◌, Run, exited, XdccGetConfig}
use xdccget_for_windows.Options.{
  opt_accept_all_nicks, opt_accept_all_certs, set_nickname, opt_delay_command, Env, set_use_ipv6,
  set_target_dir, set_accept_all_nicks, set_throttle_download, set_login_command,
  opt_throttle_download, set_info_loglevel, set_accept_all_certs, opt_listen_port_command,
  set_verify_checksum, opt_listen_ip_command, opt_dont_confirm_offsets, set_delay_command,
  set_listen_port, set_warn_loglevel, set_use_ipv4, set_listen_ip, set_quiet_loglevel, set_port,
  set_dont_confirm_offsets,
}
use xdccget_for_windows.Base.{
  not, ℕ, ◌∷◌, false, map, if◌then◌else◌, some, List, true, Bool, ◌==◌, [], length,
}

-- Name and `val` of each entry, with ENABLE_IPV6.
abbrev pub long_options : List (Bytes × ℕ)
long_options =
    (codes "verbose", b'v')
    ∷ (codes "warn", b'w')
    ∷ (codes "quiet", b'q')
    ∷ (codes "information", b'i')
    ∷ (codes "checksum-verify", 0)
    ∷ (codes "ipv4", b'4')
    ∷ (codes "ipv6", b'6')
    ∷ (codes "port", b'p')
    ∷ (codes "directory", b'd')
    ∷ (codes "nick", b'n')
    ∷ (codes "login", b'l')
    ∷ (codes "accept-all-nicks", 0)
    ∷ (codes "accept-all-certs", 0)
    ∷ (codes "dont-confirm-offsets", 0)
    ∷ (codes "throttle", 0)
    ∷ (codes "delay", 0)
    ∷ (codes "listen-ip", 0)
    ∷ (codes "listen-port", 0)
    ∷ (codes "version", 0)
    ∷ []

-- The entries of argp's `options`: name and key.
abbrev pub options : List (Bytes × ℕ)
options =
    (codes "warn", b'w')
    ∷ (codes "verbose", b'v')
    ∷ (codes "quiet", b'q')
    ∷ (codes "information", b'i')
    ∷ (codes "checksum-verify", b'c')
    ∷ (codes "ipv4", b'4')
    ∷ (codes "ipv6", b'6')
    ∷ (codes "port", b'p')
    ∷ (codes "directory", b'd')
    ∷ (codes "nick", b'n')
    ∷ (codes "login", b'l')
    ∷ (codes "accept-all-nicks", opt_accept_all_nicks)
    ∷ (codes "accept-all-certs", opt_accept_all_certs)
    ∷ (codes "dont-confirm-offsets", opt_dont_confirm_offsets)
    ∷ (codes "throttle", opt_throttle_download)
    ∷ (codes "delay", opt_delay_command)
    ∷ (codes "listen-ip", opt_listen_ip_command)
    ∷ (codes "listen-port", opt_listen_port_command)
    ∷ []

-- The configuration with the static `show_version_info_called`.
pub record Parse : Type 0 where
  pub cfg : XdccGetConfig
  pub show_version_info_called : Bool

abbrev changed : Parse → XdccGetConfig → Run Parse
changed p cfg' = ok (record p { cfg = cfg' })

-- An unknown name changes nothing.
eval_long_option : Env → Parse → Bytes → Bytes → Run Parse
unfolding set_verify_checksum set_accept_all_nicks set_accept_all_certs set_dont_confirm_offsets
    set_throttle_download set_delay_command set_listen_ip set_listen_port str_equals
eval_long_option env p option_name optarg =
    if str_equals option_name (codes "checksum-verify")
    then changed p (set_verify_checksum p.cfg)
    else if str_equals option_name (codes "accept-all-nicks")
    then changed p (set_accept_all_nicks p.cfg)
    else if str_equals option_name (codes "accept-all-certs")
    then changed p (set_accept_all_certs p.cfg)
    else if str_equals option_name (codes "dont-confirm-offsets")
    then changed p (set_dont_confirm_offsets p.cfg)
    else if str_equals option_name (codes "throttle")
    then changed p (set_throttle_download env p.cfg optarg)
    else if str_equals option_name (codes "delay")
    then changed p (set_delay_command env p.cfg optarg)
    else if str_equals option_name (codes "listen-ip")
    then (set_listen_ip env p.cfg optarg >>= λ cfg'. changed p cfg')
    else if str_equals option_name (codes "listen-port")
    then changed p (set_listen_port p.cfg optarg)
    else if str_equals option_name (codes "version")
    then ok (record p { show_version_info_called = true })
    else ok p

-- One round of the loop: getopt's result `c`, the name at `option_index`, and `optarg`.
unfoldable pub getopt_case : Env → Parse → ℕ → Bytes → Bytes → Run Parse
unfolding eval_long_option set_quiet_loglevel set_info_loglevel set_warn_loglevel
    set_verify_checksum set_target_dir set_nickname set_login_command set_port set_use_ipv4
    set_use_ipv6
getopt_case env p c name optarg =
    if c == 0
    then eval_long_option env p name optarg
    else if c == b'q'
    then changed p (set_quiet_loglevel p.cfg)
    else if c == b'v'
    then changed p (set_info_loglevel p.cfg)
    else if c == b'w'
    then changed p (set_warn_loglevel p.cfg)
    else if c == b'i'
    then changed p (set_info_loglevel p.cfg)
    else if c == b'c'
    then changed p (set_verify_checksum p.cfg)
    else if c == b'd'
    then changed p (set_target_dir p.cfg optarg)
    else if c == b'n'
    then changed p (set_nickname p.cfg optarg)
    else if c == b'l'
    then changed p (set_login_command p.cfg optarg)
    else if c == b'p'
    then changed p (set_port p.cfg optarg)
    else if c == b'4'
    then changed p (set_use_ipv4 p.cfg)
    else if c == b'6'
    then changed p (set_use_ipv6 p.cfg)
    else ok p

pub record Getopt : Type 0 where
  pub c : ℕ
  pub name : Bytes
  pub optarg : Bytes

unfoldable pub getopt_loop : Env → Parse → List Getopt → Run Parse
unfolding getopt_case
getopt_loop env p [] = ok p
getopt_loop env p (g ∷ gs) = getopt_case env p g.c g.name g.optarg >>= λ q. getopt_loop env q gs

-- The arguments behind the options: exactly three, and a version request ends the program.
check_arguments : Parse → List Bytes → Run XdccGetConfig
check_arguments p rest =
    if not p.show_version_info_called
    then (if not (length rest == 3) then exited 0 else ok (record p.cfg { args = map some rest }))
    else exited 0

unfoldable pub parse_arguments : Env → XdccGetConfig → List Getopt → List Bytes → Run XdccGetConfig
unfolding getopt_loop check_arguments
parse_arguments env cfg gs rest =
    getopt_loop env (record { cfg = cfg; show_version_info_called = false }) gs >>= λ p.
    check_arguments p rest
