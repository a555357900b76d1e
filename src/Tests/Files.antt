-- ===== src/Tests/Files.antt =====
-- The hash of a file, and the default configuration file.
use xdccget_for_windows.Base.{refl, replicate, [], none, take, ◌≡◌, ◌++◌, some, Option, ◌∷◌}
use xdccget_for_windows.Tests.Library.{test_sds_laws}
use xdccget_for_windows.Bytes.{Bytes, str_equals, codes}
use xdccget_for_windows.Checksum.FileHash.{HashAlgorithm}
use xdccget_for_windows.Checksum.Laws.{to_hex}
use xdccget_for_windows.ConfigFile.{parse_config_file, default_download_dir}
use xdccget_for_windows.ConfigFile.Default.{with_defaults, parse_config_file-default}
use xdccget_for_windows.Tests.Settings.{start_config, test_env}
use xdccget_for_windows.Cfg.{ok}
use xdccget_for_windows.World.{World, connected}
use xdccget_for_windows.LineParser.{empty_result, IrcParserResult}
use xdccget_for_windows.Tests.Download.{test_world}

-- A hash of a text: its first 16 bytes, filled up with zeros.
abbrev toy_algorithm : HashAlgorithm
toy_algorithm = record {
  Context = Bytes;
  hash_size = 16;
  init = [];
  update = λ ctx bytes. ctx ++ bytes;
  final = λ ctx. take 16 (ctx ++ replicate 16 0);
  equals = str_equals;
}

abbrev zeros : Bytes
zeros = replicate 16 0

abbrev test_files : Bytes → Option Bytes
test_files path = some (codes "data")

abbrev test_notice : Bytes
test_notice = codes "md5sum: " ++ to_hex zeros

abbrev notice_result : IrcParserResult
notice_result = record empty_result { params = codes "me" ∷ test_notice ∷ [] }

abbrev downloaded : World
downloaded = record (test_world connected) { last_download = some 0 }

abbrev test_home : Bytes
test_home = codes "/home/me"

abbrev no_files : Bytes → Option Bytes
no_files path = none

parse_config_file-default_example :
    (files : Bytes → Option Bytes) × (parse_config_file test_env test_home
        (codes "/")
        (codes "config")
        no_files
        start_config
      ≡ (files, ok (with_defaults start_config (default_download_dir test_home (codes "/")))))
    × (parse_config_file test_env test_home (codes "/") (codes "config") files start_config
        ≡ (files, ok (with_defaults start_config (default_download_dir test_home (codes "/")))))
parse_config_file-default_example =
    parse_config_file-default test_env test_sds_laws test_home (codes "/") (codes "config") no_files
      start_config start_config refl (unfold default_download_dir in ((refl, refl), refl))
      (unfold default_download_dir in refl)
