-- ===== src/Transfer.antt =====
-- xdccget.c: what the client does with a file that a bot sends. The paths, the request for a
-- transfer, and the callbacks of the DCC sessions. Files are opened with `Open`, `Seek`, `Write` and
-- `Close` (file.c); messages to the user are left out.
pub mod Laws
pub mod Files
use xdccget_for_windows.World.{
  World, done, exit_pgm, fault, ◌>>=◌, Net, DccDownloadContext, checksum_thread, mkdir, act,
  resume_file, Outcome, recv_file, on_context, on_file, cmd_quit,
}
use xdccget_for_windows.Progress.{new_dcc_progress, output_progress}
use xdccget_for_windows.Dcc.{
  irc_dcc_resume, irc_dcc_resume_reverse, irc_dcc_accept_reverse, irc_dcc_accept,
}
use xdccget_for_windows.Base.{
  ◌+◌, Bool, ltb, some, [], Option, ◌==◌, ◌++◌, true, List, ℕ, length, not, false, u32, u64, ◌∷◌,
  none, if◌then◌else◌, get_elem?,
}
use xdccget_for_windows.Bytes.Sds.{has_byte}
use xdccget_for_windows.Bytes.{str_equals, codes, str_case_equals, Bytes}
use xdccget_for_windows.Cfg.{
  cfg_get_bit, verify_checksum_flag, DccDownload, XdccGetConfig, accept_all_nicks_flag,
}
use xdccget_for_windows.Progress.Speeds.{sum}

-- The application's own addition to sds.c.
unfoldable pub sdscontains : Bytes → Bytes → Bool
sdscontains [] chars = false
sdscontains (c ∷ s) chars = if has_byte c chars then true else sdscontains s chars

unfoldable pub contains_illegal_chars : Bytes → Bool
unfolding sdscontains
contains_illegal_chars filename = sdscontains filename (codes "/\\")

-- os_unix.c
abbrev pub get_path_seperator : Bytes
get_path_seperator = codes "/"

unfoldable pub get_absolute_path : Net → World → Bytes
unfolding str_equals
get_absolute_path net w =
    let dir = w.cfg.target_dir in
    if not (str_equals (net.last_char dir) get_path_seperator)
    then dir ++ get_path_seperator
    else dir

unfoldable pub get_complete_path : Net → World → Bytes → Bytes
unfolding get_absolute_path
get_complete_path net w filename = get_absolute_path net w ++ filename

-- strcasecmp with each nick, up to the first entry that matches.
any_nick : List DccDownload → Bytes → Bool
unfolding str_case_equals
any_nick [] bot_nick = false
any_nick (d ∷ ds) bot_nick =
    if str_case_equals d.bot_nick bot_nick then true else any_nick ds bot_nick

unfoldable pub is_valid_request_from_nick : XdccGetConfig → Bytes → Bool
unfolding any_nick cfg_get_bit
is_valid_request_from_nick cfg bot_nick = elim cfg.dcc_download_array [
  | none ↦ false
  | some downloads ↦
      if cfg_get_bit cfg accept_all_nicks_flag then true else any_nick downloads bot_nick
]

-- Adds a context to downloadContext, whose room is cfg.numDownloads, and returns its index. The file
-- is not opened yet.
unfoldable pub prepare_recv_file_request : Net → World → Bytes → ℕ → Outcome ℕ
unfolding contains_illegal_chars get_absolute_path get_complete_path new_dcc_progress
prepare_recv_file_request net w filename size =
    if contains_illegal_chars filename
    then exit_pgm w
    else let dir = get_absolute_path net w in
      let w₁ = if not (net.dir_exists dir) then act w (mkdir dir) else w in
      let progress = new_dcc_progress net.garbage (get_complete_path net w filename) size in
      let k = length w.contexts in
      if ltb k w.cfg.num_downloads
      then done k (record w₁ {
        cur_download = some k;
        contexts = w.contexts ++ (record { progress = progress; fd = none } ∷ []);
      })
      else fault

-- Open: the file's content becomes `content`, and the context holds it.
abbrev open_file : Net → World → ℕ → Bytes → Bytes → Outcome Unit
open_file net w k path content =
    if not (net.opens path) then exit_pgm w else elim (get_elem? w.contexts k) [
      | none ↦ fault
      | some c ↦ done tt (on_file (on_context w k (record c { fd = some path })) path content)
    ]

-- A return code that is not 0 ends the program.
abbrev pub check_ret : Outcome ℕ → Outcome Unit
check_ret r = r >>= (λ ret w. if ret == 0 then done tt w else exit_pgm w)

unfoldable pub recv_file_request : Net → World → Bytes → Bytes → ℕ → ℕ → Outcome Unit
unfolding prepare_recv_file_request get_complete_path irc_dcc_accept irc_dcc_resume
recv_file_request net w nick filename size dccid =
    prepare_recv_file_request net w filename size >>= (λ k w₁.
      let path = get_complete_path net w₁ filename in
      elim (w₁.files path) [
        | some content ↦ open_file net w₁ k path content >>= (λ _ w₂.
            if size == length content
            then exit_pgm w₂
            else if length content == 0
            then check_ret (irc_dcc_accept net w₂ dccid (some k) recv_file)
            else check_ret (irc_dcc_resume net w₂ dccid (some k) resume_file nick (length content)))
        | none ↦
            open_file net w₁ k path []
            >>= (λ _ w₂. check_ret (irc_dcc_accept net w₂ dccid (some k) recv_file))
      ])

unfoldable pub recv_file_request_reverse : Net → World → Bytes → Bytes → ℕ → ℕ → ℕ → Outcome Unit
unfolding prepare_recv_file_request get_complete_path irc_dcc_accept_reverse irc_dcc_resume_reverse
recv_file_request_reverse net w nick filename size dccid token =
    prepare_recv_file_request net w filename size >>= (λ k w₁.
      let path = get_complete_path net w₁ filename in
      let accept = λ (w : World).
        check_ret
          (irc_dcc_accept_reverse net w dccid (some k) recv_file nick filename size token) in
      elim (w₁.files path) [
        | some content ↦ open_file net w₁ k path content >>= (λ _ w₂.
            if size == length content
            then exit_pgm w₂
            else if length content == 0
            then accept w₂
            else check_ret
                (irc_dcc_resume_reverse net w₂ dccid (some k) nick (length content) token))
        | none ↦ open_file net w₁ k path [] >>= (λ _ w₂. accept w₂)
      ])

-- startChecksumThread with the first download's checksum, if it has one, on the file of
-- `lastDownload`.
abbrev check_only_download : World → Outcome Unit
check_only_download w =
    if not (w.cfg.num_downloads == 1) then done tt w else elim w.cfg.dcc_download_array [
      | some (d ∷ _) ↦ elim d.md5 [
        | some sum ↦ elim w.last_download [
          | some i ↦ elim (get_elem? w.contexts i) [
            | some c ↦ done tt (act w (checksum_thread sum c.progress.complete_path))
            | none ↦ fault
          ]
          | none ↦ fault
        ]
        | none ↦ done tt w
      ]
      | _ ↦ fault
    ]

-- The part under `sizeRcvd == completeFileSize`.
unfoldable pub download_completed : Net → World → ℕ → DccDownloadContext → Outcome Unit
unfolding cfg_get_bit output_progress
download_completed net w k c =
    let closed = record c { progress = output_progress c.progress; fd = none } in
    let w₁ = record (on_context w k closed) {
      last_download = w.cur_download;
      finished_downloads = u32 (w.finished_downloads + 1);
    } in
    if not net.closes
    then exit_pgm w
    else if not (cfg_get_bit w.cfg verify_checksum_flag)
    then (if w₁.finished_downloads == length w.contexts
        then done tt (act w₁ (cmd_quit (codes "Goodbye!")))
        else done tt w₁)
    else check_only_download w₁

-- `data` is NULL where it is `none`.
unfoldable pub callback_dcc_recv_file : Net → World → ℕ → Option ℕ → Option Bytes → Outcome Unit
unfolding download_completed
callback_dcc_recv_file net w status ctx none = done tt w
callback_dcc_recv_file net w status none (some bytes) = done tt w
callback_dcc_recv_file net w status (some k) (some bytes) =
    if length bytes == 0
    then done tt w
    else if not (status == 0)
    then done tt w
    else elim (get_elem? w.contexts k) [
      | none ↦ fault
      | some c ↦ elim c.fd [
        | none ↦ fault
        | some path ↦ elim (w.files path) [
          | none ↦ fault
          | some content ↦
              if not net.writes
              then exit_pgm w
              else let progress = record c.progress {
                size_rcvd = u64 (c.progress.size_rcvd + length bytes);
              } in
                let c₁ = record c { progress = progress } in
                let w₁ = on_file (on_context w k c₁) path (content ++ bytes) in
                if progress.size_rcvd == progress.complete_file_size
                then download_completed net w₁ k c₁
                else done tt w₁
        ]
      ]
    ]

-- Seek, and the three sizes; the context that is sought.
unfoldable pub resume_at : Net → World → Option ℕ → ℕ → Outcome DccDownloadContext
resume_at net w none position = fault
resume_at net w (some k) position = elim (get_elem? w.contexts k) [
  | none ↦ fault
  | some c ↦
      if not net.seeks
      then exit_pgm w
      else let progress = record c.progress {
        size_rcvd = position;
        size_now = position;
        size_last = position;
      } in
        let c₁ = record c { progress = progress } in done c₁ (on_context w k c₁)
]

unfoldable pub callback_dcc_resume_file : Net → World → ℕ → Option ℕ → ℕ → Outcome Unit
unfolding irc_dcc_accept resume_at
callback_dcc_resume_file net w dccid ctx position =
    resume_at net w ctx position >>= (λ c w₁. check_ret (irc_dcc_accept net w₁ dccid ctx recv_file))

unfoldable pub callback_dcc_resume_file_reverse :
    Net → World → ℕ → Option ℕ → ℕ → Bytes → Bytes → ℕ → Outcome Unit
unfolding irc_dcc_accept_reverse resume_at
callback_dcc_resume_file_reverse net w dccid ctx position nick filename token =
    resume_at net w ctx position >>= (λ c w₁. check_ret (
      irc_dcc_accept_reverse net w₁ dccid ctx recv_file nick filename c.progress.complete_file_size
        token))
