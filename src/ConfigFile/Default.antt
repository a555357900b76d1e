-- ===== src/ConfigFile/Default.antt =====
-- The configuration that the default file gives.
use xdccget_for_windows.Cfg.{
  log_info, ok, dont_confirm_offsets_flag, cfg_set_bit, verify_checksum_flag, XdccGetConfig,
  cfg_clear_bit, Run,
}
use xdccget_for_windows.Options.{Env}
use xdccget_for_windows.Base.{
  List, append_assoc, map, ◌≡◌, [], append-nil, ◌∷◌, ◌∙◌, All, false, none, ap, refl, Option,
}
use xdccget_for_windows.ConfigFile.Laws.{
  Line, remark, setting, empty, run_lines, render_line, parse_config_string-run_lines, IsWord,
  IsLine,
}
use xdccget_for_windows.Bytes.{Bytes, codes, str_equals}
use xdccget_for_windows.ConfigFile.{
  default_download_dir, get_default_config_content, config_line_callbacks, call_matching,
  parse_config_string, parse_config_file, with_file,
}
use xdccget_for_windows.Bytes.Sds.{join, SdsLaws, has_byte}
use xdccget_for_windows.Bytes.Laws.{str_equals_refl}

abbrev note : Bytes → Line
note text = remark [] text []

abbrev set_to : Bytes → Bytes → Line
set_to name value = setting [] name [] [] value []

abbrev default_lines : Bytes → List Line
default_lines download_dir =
    note (codes " default directory where to store the downloads")
    ∷ set_to (codes "downloadDir") download_dir
    ∷ note (codes " default logging level, valid options: information, warn, error, quiet")
    ∷ set_to (codes "logLevel") (codes "information")
    ∷ note (codes " allow all certificates and dont validate them")
    ∷ note (codes "allowAllCerts=true")
    ∷ note (codes " stay connected after downloads finished to automatically verify checksums")
    ∷ set_to (codes "verifyChecksums") (codes "false")
    ∷ note (
        codes
          " Do not send file offsets to the bots if set to false. Can be used on bots where the transfer gets stucked after a short while.")
    ∷ set_to (codes "confirmFileOffsets") (codes "false")
    ∷ note (
        codes
          " Limit the maximum transfer speed for the downloads in each xdccget instance to the specified value per seconds. valid suffixes are KByte, MByte and TByte")
    ∷ note (codes "maxTransferSpeed=1MByte")
    ∷ note (
        codes
          " Sets the listen ip for passive dcc transfers. Should normally your external ip address.")
    ∷ note (codes "listenIp=85.48.89.195")
    ∷ note (
        codes
          " Sets the listen port for passive dcc transfers. This port needs to be forwared in your router, such that external TCP acknowledgements are not blocked.")
    ∷ note (codes "listenPort=55554")
    ∷ empty []
    ∷ []

content-default_lines :
    (home_dir path_seperator : Bytes)
    → get_default_config_content home_dir path_seperator
      ≡ join b'\n' (map render_line (default_lines (default_download_dir home_dir path_seperator)))
unfolding get_default_config_content default_download_dir
content-default_lines home_dir path_seperator = simp (append_assoc, append-nil)

-- What the default file sets.
abbrev pub with_defaults : XdccGetConfig → Bytes → XdccGetConfig
with_defaults config download_dir =
    cfg_set_bit
      (cfg_clear_bit (record config { target_dir = download_dir; log_level = log_info })
        verify_checksum_flag)
      dont_confirm_offsets_flag

run_default_lines :
    (env : Env) (config : XdccGetConfig) (download_dir : Bytes)
    → run_lines env config (default_lines download_dir) ≡ ok (with_defaults config download_dir)
unfolding call_matching config_line_callbacks str_equals
run_default_lines env config download_dir = refl

default_lines_good :
    (download_dir : Bytes)
    → IsWord download_dir
    → has_byte b'\n' download_dir ≡ false
    → All IsLine (default_lines download_dir)
default_lines_good download_dir word one_line_ = (
  (tt, tt, (refl, refl), refl),
  (
    (
      tt,
      tt,
      tt,
      tt,
      ((refl, refl), refl),
      refl,
      word,
      ap (has_byte b'\n') (append-nil download_dir) ∙ one_line_,
    ),
    (
      (tt, tt, (refl, refl), refl),
      (
        (tt, tt, tt, tt, ((refl, refl), refl), refl, ((refl, refl), refl), refl),
        (
          (tt, tt, (refl, refl), refl),
          (
            (tt, tt, (refl, refl), refl),
            (
              (tt, tt, (refl, refl), refl),
              (
                (tt, tt, tt, tt, ((refl, refl), refl), refl, ((refl, refl), refl), refl),
                (
                  (tt, tt, (refl, refl), refl),
                  (
                    (tt, tt, tt, tt, ((refl, refl), refl), refl, ((refl, refl), refl), refl),
                    (
                      (tt, tt, (refl, refl), refl),
                      (
                        (tt, tt, (refl, refl), refl),
                        (
                          (tt, tt, (refl, refl), refl),
                          (
                            (tt, tt, (refl, refl), refl),
                            (
                              (tt, tt, (refl, refl), refl),
                              ((tt, tt, (refl, refl), refl), ((tt, refl), tt)),
                            ),
                          ),
                        ),
                      ),
                    ),
                  ),
                ),
              ),
            ),
          ),
        ),
      ),
    ),
  ),
)

-- The first start writes the default file, and each later start reads it back: both give the directory
-- Downloads in the user's home, all levels of messages, no check of sums, and file offsets that are
-- not confirmed, and leave the other settings. The condition is that the path of the directory begins
-- and ends with no blank, and has no line break and no '='.
pub parse_config_file-default :
    (env : Env) (laws : SdsLaws env.sds) (home_dir path_seperator config_path : Bytes)
    (files : Bytes → Option Bytes) (config later : XdccGetConfig)
    → files config_path ≡ none
    → IsWord (default_download_dir home_dir path_seperator)
    → has_byte b'\n' (default_download_dir home_dir path_seperator) ≡ false
    → (files' : Bytes → Option Bytes) × (parse_config_file env home_dir path_seperator config_path
          files config
        ≡ (files', ok (with_defaults config (default_download_dir home_dir path_seperator))))
      × (parse_config_file env home_dir path_seperator config_path files' later
          ≡ (files', ok (with_defaults later (default_download_dir home_dir path_seperator))))
unfolding parse_config_file
parse_config_file-default env laws home_dir path_seperator config_path files config later missing
      word free =
    (
      with_file files config_path content,
      rw (parse_config_file, missing)
          (ap (λ (r : Run XdccGetConfig). (with_file files config_path content, r))
            (read_back config)),
      rw (parse_config_file, str_equals_refl config_path)
          (ap (λ (r : Run XdccGetConfig). (with_file files config_path content, r))
            (read_back later)),
    )
  where
    content : Bytes
    content = get_default_config_content home_dir path_seperator

    read_back :
        (config : XdccGetConfig)
        → parse_config_string env config content
          ≡ ok (with_defaults config (default_download_dir home_dir path_seperator))
    read_back config =
        ap (parse_config_string env config) (content-default_lines home_dir path_seperator)
        ∙ parse_config_string-run_lines env laws config
            (default_lines (default_download_dir home_dir path_seperator))
            (default_lines_good (default_download_dir home_dir path_seperator) word free) (λ e. cc)
        ∙ run_default_lines env config (default_download_dir home_dir path_seperator)
