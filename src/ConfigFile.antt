-- ===== src/ConfigFile.antt =====
-- config.c: the configuration file. Its content is a text. sds and inet_pton are parameters, as for the options.
pub mod Default
pub mod Laws
use xdccget_for_windows.Bytes.{Bytes, codes, str_equals}
use xdccget_for_windows.Cfg.{
  ok, exited, ◌>>=◌, log_err, allow_all_certs_flag, Run, dont_confirm_offsets_flag, log_warn,
  XdccGetConfig, cfg_clear_bit, log_info, verify_checksum_flag, log_quiet, cfg_set_bit,
}
use xdccget_for_windows.Base.{
  true, not, if◌then◌else◌, Bool, u16, some, List, [], ◌==◌, ◌∷◌, Option, none, ◌++◌,
}
use xdccget_for_windows.Options.{blanks, Env}
use xdccget_for_windows.Bytes.Number.{strtoul}
use xdccget_for_windows.Limit.{set_max_transfer_speed}

abbrev true_text : Bytes
true_text = codes "true"

verify_checksums_callback : XdccGetConfig → Bytes → XdccGetConfig
unfolding str_equals
verify_checksums_callback config value =
    if str_equals value true_text
    then cfg_set_bit config verify_checksum_flag
    else cfg_clear_bit config verify_checksum_flag

allow_all_certs_callback : XdccGetConfig → Bytes → XdccGetConfig
unfolding str_equals
allow_all_certs_callback config value =
    if str_equals value true_text
    then cfg_set_bit config allow_all_certs_flag
    else cfg_clear_bit config allow_all_certs_flag

download_dir_callback : XdccGetConfig → Bytes → XdccGetConfig
download_dir_callback config value = record config { target_dir = value }

confirm_file_offsets_callback : XdccGetConfig → Bytes → XdccGetConfig
unfolding str_equals
confirm_file_offsets_callback config value =
    if str_equals value true_text
    then cfg_clear_bit config dont_confirm_offsets_flag
    else cfg_set_bit config dont_confirm_offsets_flag

max_transfer_speed_callback : XdccGetConfig → Bytes → XdccGetConfig
max_transfer_speed_callback config value = set_max_transfer_speed config value

listen_ip_callback : Env → XdccGetConfig → Bytes → Run XdccGetConfig
listen_ip_callback env config value =
    if not (env.inet_pton value) then exited 255 else ok (record config { listen_ip = some value })

listen_port_callback : XdccGetConfig → Bytes → XdccGetConfig
listen_port_callback config value = record config { listen_port = u16 (strtoul value) }

parse_log_level : XdccGetConfig → Bytes → XdccGetConfig
unfolding str_equals
parse_log_level config log_level =
    if str_equals log_level (codes "information")
    then record config { log_level = log_info }
    else if str_equals log_level (codes "warn")
    then record config { log_level = log_warn }
    else if str_equals log_level (codes "error")
    then record config { log_level = log_err }
    else if str_equals log_level (codes "quiet")
    then record config { log_level = log_quiet }
    else config

abbrev pub Callback : Type 0
Callback = XdccGetConfig → Bytes → Run XdccGetConfig

-- configLineCallbacks
unfoldable pub config_line_callbacks : Env → List (Bytes × Callback)
unfolding download_dir_callback parse_log_level allow_all_certs_callback verify_checksums_callback
    confirm_file_offsets_callback max_transfer_speed_callback listen_ip_callback
    listen_port_callback
config_line_callbacks env =
    (codes "downloadDir", λ config value. ok (download_dir_callback config value))
    ∷ (codes "logLevel", λ config value. ok (parse_log_level config value))
    ∷ (codes "allowAllCerts", λ config value. ok (allow_all_certs_callback config value))
    ∷ (codes "verifyChecksums", λ config value. ok (verify_checksums_callback config value))
    ∷ (codes "confirmFileOffsets", λ config value. ok (confirm_file_offsets_callback config value))
    ∷ (codes "maxTransferSpeed", λ config value. ok (max_transfer_speed_callback config value))
    ∷ (codes "listenIp", listen_ip_callback env)
    ∷ (codes "listenPort", λ config value. ok (listen_port_callback config value))
    ∷ []

-- The loop over the callbacks: each whose type fits is called.
unfoldable pub call_matching :
    List (Bytes × Callback) → XdccGetConfig → Bytes → Bytes → Run XdccGetConfig
unfolding str_equals
call_matching [] config type value = ok config
call_matching ((name, parse_line) ∷ rest) config type value =
    (if str_equals type name then parse_line config value else ok config) >>= λ config'.
    call_matching rest config' type value

call_parts : Env → XdccGetConfig → List Bytes → Run XdccGetConfig
call_parts env config (type ∷ value ∷ []) =
    call_matching (config_line_callbacks env) config (env.sds.trim type blanks)
      (env.sds.trim value blanks)
call_parts env config _ = ok config

unfoldable pub parse_config_line : Env → XdccGetConfig → Bytes → Run XdccGetConfig
unfolding call_parts
parse_config_line env config line = call_parts env config (env.sds.split line b'=')

unfoldable pub ignore_line : Bytes → Bool
ignore_line [] = true
ignore_line (c ∷ line) = c == b'#'

abbrev pub line_blanks : Bytes
line_blanks = codes " \r\t"

unfoldable pub parse_lines : Env → XdccGetConfig → List Bytes → Run XdccGetConfig
parse_lines env config [] = ok config
parse_lines env config (l ∷ ls) =
    let line = env.sds.trim l line_blanks in
    (if ignore_line line then ok config else parse_config_line env config line) >>= λ config'.
    parse_lines env config' ls

unfoldable pub parse_config_string : Env → XdccGetConfig → Bytes → Run XdccGetConfig
parse_config_string env config content = parse_lines env config (env.sds.split content b'\n')

abbrev pub line_of : Bytes → Bytes
line_of text = text ++ (b'\n' ∷ [])

-- The path of the downloads, in the user's home directory.
unfoldable pub default_download_dir : Bytes → Bytes → Bytes
default_download_dir home_dir path_seperator = home_dir ++ (path_seperator ++ codes "Downloads")

unfoldable pub get_default_config_content : Bytes → Bytes → Bytes
unfolding default_download_dir
get_default_config_content home_dir path_seperator =
    line_of (codes "# default directory where to store the downloads")
    ++ (line_of (codes "downloadDir=" ++ default_download_dir home_dir path_seperator)
        ++ (line_of
              (codes "# default logging level, valid options: information, warn, error, quiet")
            ++ (line_of (codes "logLevel=information")
                ++ (line_of (codes "# allow all certificates and dont validate them")
                    ++ (line_of (codes "#allowAllCerts=true")
                        ++ (line_of (
                              codes
                                "# stay connected after downloads finished to automatically verify checksums")
                            ++ (line_of (codes "verifyChecksums=false")
                                ++ (line_of (
                                      codes
                                        "# Do not send file offsets to the bots if set to false. Can be used on bots where the transfer gets stucked after a short while.")
                                    ++ (line_of (codes "confirmFileOffsets=false")
                                        ++ (line_of (
                                              codes
                                                "# Limit the maximum transfer speed for the downloads in each xdccget instance to the specified value per seconds. valid suffixes are KByte, MByte and TByte")
                                            ++ (line_of (codes "#maxTransferSpeed=1MByte")
                                                ++ (line_of (
                                                      codes
                                                        "# Sets the listen ip for passive dcc transfers. Should normally your external ip address.")
                                                    ++ (line_of (codes "#listenIp=85.48.89.195")
                                                        ++ (line_of (
                                                            codes
                                                            "# Sets the listen port for passive dcc transfers. This port needs to be forwared in your router, such that external TCP acknowledgements are not blocked.")
                                                            ++ line_of (
                                                            codes "#listenPort=55554")))))))))))))))

abbrev pub with_file : (Bytes → Option Bytes) → Bytes → Bytes → Bytes → Option Bytes
with_file files path content p = if str_equals p path then some content else files p

-- parseConfigFile: the files before, and those behind it with the configuration. A file that is
-- there is read up to its first NUL in each piece; this model is of files without a NUL.
unfoldable pub parse_config_file :
    Env
    → Bytes
    → Bytes
    → Bytes
    → (Bytes → Option Bytes)
    → XdccGetConfig
    → (Bytes → Option Bytes) × Run XdccGetConfig
parse_config_file env home_dir path_seperator config_path files config = elim (files config_path) [
  | some content ↦ (files, parse_config_string env config content)
  | none ↦
      let content = get_default_config_content home_dir path_seperator in
      (with_file files config_path content, parse_config_string env config content)
]
