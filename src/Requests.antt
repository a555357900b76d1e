-- ===== src/Requests.antt =====
-- argument_parser.c: the channels and the bot commands of the command line, `parseChannels`,
-- `parseDccDownload` and `parseDccDownloads`. A download's texts are C strings: what stands behind
-- a NUL in their buffers is not seen.
pub mod Laws
use xdccget_for_windows.Bytes.{Bytes}
use xdccget_for_windows.Cfg.{DccDownload}
use xdccget_for_windows.Base.{
  none, length, ◌==◌, [], ◌+◌, ℕ, List, take, ◌∷◌, drop, if◌then◌else◌, map,
}
use xdccget_for_windows.Options.{blanks}
use xdccget_for_windows.Bytes.Sds.{Sds}

-- The loop for the first blank; `spaceFound` stays 0 where there is none.
space_from : ℕ → Bytes → ℕ
space_from i [] = 0
space_from i (c ∷ s) = let rest = space_from (i + 1) s in if c == b' ' then i else rest

-- The nick is `spaceFound` bytes; the command is what follows the byte at `spaceFound`, up to the
-- NUL, which the copied length takes in.
unfoldable pub parse_dcc_download : Bytes → Bytes × Bytes
unfolding space_from
parse_dcc_download text =
    let space_found = space_from 0 text in (take space_found text, drop (space_found + 1) text)

unfoldable pub new_dcc_download : Bytes → Bytes → DccDownload
new_dcc_download bot_nick xdcc_cmd = record { bot_nick = bot_nick; xdcc_cmd = xdcc_cmd; md5 = none }

unfoldable pub parse_channels : Sds → Bytes → List Bytes
parse_channels sds channel_string = map (λ s. sds.trim s blanks) (sds.split channel_string b',')

-- nick and xdccCmd are never NULL, so every part makes a download.
unfoldable pub parse_dcc_downloads : Sds → Bytes → List DccDownload × ℕ
parse_dcc_downloads sds text =
    let splitted = sds.split text b',' in
    (
      map
          (λ s.
            let parts = parse_dcc_download (sds.trim s blanks) in new_dcc_download parts.0 parts.1)
          splitted,
      length splitted,
    )
