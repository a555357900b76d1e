-- ===== src/Tests/Settings.antt =====
-- Options, lists of requests and a configuration file.
use xdccget_for_windows.Cfg.{default_config, XdccGetConfig, cfg_set_bit}
use xdccget_for_windows.Base.{All, [], refl, map, ◌≡◌, ◌∷◌, false, some, length, true, List}
use xdccget_for_windows.Options.{
  Env, option, argp_key_end, argp_key_arg, parse_opt, parse_all, parsed, Key,
}
use xdccget_for_windows.Requests.{parse_dcc_downloads}
use xdccget_for_windows.Requests.Laws.{
  parse_dcc_downloads_lem, Request, IsRequest, IsChannel, wanted, render_request, Channel,
}
use xdccget_for_windows.Tests.Library.{test_sds, test_sds_laws}
use xdccget_for_windows.Flags.{set_bit}
use xdccget_for_windows.ConfigFile.{parse_config_string}
use xdccget_for_windows.Options.Laws.{positional, getopt_case-parse_opt, parse_all-args, SameEffect}
use xdccget_for_windows.ConfigFile.Laws.{
  parse_config_string-run_lines, setting, remark, Line, render_line, IsLine, run_lines,
}
use xdccget_for_windows.Bytes.{codes}
use xdccget_for_windows.Options.Windows.{options, Parse}
use xdccget_for_windows.Bytes.Sds.{join}

abbrev pub test_env : Env
test_env = record { sds = test_sds; inet_pton = λ _. true; now = 1000 }

abbrev pub start_config : XdccGetConfig
start_config = default_config (codes "/tmp")

abbrev test_parse : Parse
test_parse = record { cfg = start_config; show_version_info_called = false }

getopt_case-parse_opt_example : All (SameEffect test_env test_parse (codes "2Kb")) options
getopt_case-parse_opt_example = getopt_case-parse_opt test_env test_parse (codes "2Kb")

abbrev test_keys : List Key
test_keys =
    argp_key_arg 0 (codes "host")
    ∷ option b'4' []
    ∷ argp_key_arg 1 (codes "#c")
    ∷ argp_key_arg 2 (codes "bot xdcc send #1")
    ∷ argp_key_end 3
    ∷ []

abbrev parsed_config : XdccGetConfig
parsed_config = record start_config {
  args = some (codes "host") ∷ some (codes "#c") ∷ some (codes "bot xdcc send #1") ∷ [];
  flags = 8;
}

parses : parse_all true test_env start_config test_keys ≡ parsed parsed_config
unfolding parse_all parse_opt cfg_set_bit set_bit
parses = refl

parse_all-args_example :
    (parsed_config.args ≡ map some (positional test_keys)) × (length (positional test_keys) ≡ 3)
parse_all-args_example =
    parse_all-args true test_env test_keys start_config parsed_config refl
      (refl, (refl, (refl, (refl, refl)))) parses

abbrev test_request : Request
test_request = record {
  lead = codes " ";
  nick = codes "bot";
  cmd = codes "xdcc send #1";
  trail = [];
}

test_request-IsRequest : IsRequest test_request
test_request-IsRequest = record {
  lead_blank = (refl, tt);
  trail_blank = tt;
  nick_whole = refl;
  bare = (refl, refl);
  no_comma = refl;
}

parse_dcc_downloads_lem_example :
    parse_dcc_downloads test_sds (join b',' (map render_request (test_request ∷ test_request ∷ [])))
    ≡ (map wanted (test_request ∷ test_request ∷ []), 2)
parse_dcc_downloads_lem_example =
    parse_dcc_downloads_lem test_sds test_sds_laws (test_request ∷ test_request ∷ [])
      (test_request-IsRequest, (test_request-IsRequest, tt)) (λ e. cc)

abbrev test_channel : Channel
test_channel = record { lead = []; name = codes "#c"; trail = codes " " }

test_channel-IsChannel : IsChannel test_channel
test_channel-IsChannel = record {
  lead_blank = tt;
  trail_blank = (refl, tt);
  bare = (refl, refl);
  no_comma = refl;
}

abbrev test_lines : List Line
test_lines =
    remark [] (codes " a remark") []
    ∷ setting (codes " ") (codes "port") (codes " ") (codes " ") (codes "6697") []
    ∷ []

test_lines_good : All IsLine test_lines
test_lines_good = (
  (tt, tt, (refl, refl), refl),
  (
    (
      (refl, tt),
      tt,
      (refl, tt),
      (refl, tt),
      ((refl, refl), refl),
      refl,
      ((refl, refl), refl),
      refl,
    ),
    tt,
  ),
)

parse_config_string-run_lines_example :
    parse_config_string test_env start_config (join b'\n' (map render_line test_lines))
    ≡ run_lines test_env start_config test_lines
parse_config_string-run_lines_example =
    parse_config_string-run_lines test_env test_sds_laws start_config test_lines test_lines_good
      (λ e. cc)
