-- ===== src/Events.antt =====
-- xdccget.c: the handlers of the server's events, and the callback of the main loop. Messages to the
-- user are left out; a command is an action whether or not it is delivered.
pub mod Laws
pub mod Checks
use mathlib.Core.Option.{map as map_option}
use xdccget_for_windows.LineParser.{IrcParserResult}
use xdccget_for_windows.World.{
  World, act, cmd_msg, cmd_join, cmd_user_mode, DccDownloadContext, checksum_thread,
}
use xdccget_for_windows.Cfg.{
  sended_flag, output_flag, cfg_set_bit, cfg_get_bit, cfg_clear_bit, on_connect_event_done,
  XdccGetConfig,
}
use xdccget_for_windows.Base.{
  List, map, not, [], false, ◌∷◌, take, ◌++◌, none, leb, length, Bool, some, ℕ, Option, ◌&&◌, true,
  if◌then◌else◌, ltb, drop, get_elem?, ◌==◌,
}
use xdccget_for_windows.Bytes.{Bytes, str_equals, strstr, codes}
use xdccget_for_windows.Bytes.Sds.{Sds}
use xdccget_for_windows.Progress.{output_progress}
use xdccget_for_windows.Options.{blanks}
use xdccget_for_windows.Checksum.{extract_md5, hash_text, past_end, no_hash}
use xdccget_for_windows.Progress.Speeds.{sum}

unfoldable pub join_channels : World → World
join_channels w = record w { actions = w.actions ++ map cmd_join w.cfg.channels_to_join }

-- None of the downloads is a NULL entry: the list ends there.
unfoldable pub send_xdcc_requests : World → Option World
unfolding cfg_get_bit cfg_set_bit
send_xdcc_requests w =
    if cfg_get_bit w.cfg sended_flag then some w else elim w.cfg.dcc_download_array [
      | none ↦ none
      | some ds ↦ some (record w {
        cfg = cfg_set_bit w.cfg sended_flag;
        actions = w.actions ++ map (λ d. cmd_msg d.bot_nick d.xdcc_cmd) ds;
      })
    ]

any_sequence : Bytes → List Bytes → Bool
unfolding strstr
any_sequence message [] = false
any_sequence message (s ∷ ss) = elim (strstr message s) [
  | some _ ↦ true
  | none ↦ any_sequence message ss
]

unfoldable pub is_password_accepted : Bytes → Bool
unfolding any_sequence
is_password_accepted message =
    any_sequence message
      (codes "Password accepted" ∷ codes "You are now identified" ∷ codes "I recognize you" ∷ [])

-- sdsrange(user, 0, 8) and sdsrange(auth_command, 9, …); without a login command it is not called.
unfoldable pub send_login_command : Sds → World → Bytes → World
send_login_command sds w text =
    let command = sds.trim text blanks in
    let w₁ = record w { cfg = record w.cfg { login_command = some command } } in
    if leb 9 (length command) then act w₁ (cmd_msg (take 9 command) (drop 9 command)) else w₁

abbrev authenticate : Sds → World → Option Bytes → World
unfolding send_login_command join_channels
authenticate sds w (some text) = send_login_command sds w text
authenticate sds w none = join_channels w

unfoldable pub on_connect_event : Sds → World → World
unfolding cfg_get_bit cfg_set_bit send_login_command join_channels
on_connect_event sds w =
    if cfg_get_bit w.cfg on_connect_event_done
    then w
    else let w₁ = authenticate sds w w.cfg.login_command in
      record w₁ { cfg = cfg_set_bit w₁.cfg on_connect_event_done }

unfoldable pub check_connected_event : Sds → World → Bytes → IrcParserResult → World
unfolding str_equals strstr on_connect_event
check_connected_event sds w event result =
    if not (str_equals event (codes "NOTICE")) then w else elim result.params [
      | _ ∷ text ∷ [] ↦ elim (strstr text (codes "You are connected")) [
        | some _ ↦ on_connect_event sds w
        | none ↦ w
      ]
      | _ ↦ w
    ]

-- The checksum of the first download; without one, NULL is written to.
abbrev with_md5 : XdccGetConfig → Bytes → Option XdccGetConfig
with_md5 cfg sum = elim cfg.dcc_download_array [
  | some (d ∷ ds) ↦
      some (record cfg { dcc_download_array = some (record d { md5 = some sum } ∷ ds) })
  | _ ↦ none
]

use_md5 : World → Bytes → Option World
use_md5 w sum = elim w.last_download [
  | none ↦
      if w.cfg.num_downloads == 1
      then map_option (λ (c : XdccGetConfig). record w { cfg = c }) (with_md5 w.cfg sum)
      else some w
  | some i ↦
      map_option (λ (c : DccDownloadContext). act w (checksum_thread sum c.progress.complete_path))
        (get_elem? w.contexts i)
]

unfoldable pub check_md5_checksum_notice : World → Bytes → IrcParserResult → Option World
unfolding str_equals extract_md5 use_md5
check_md5_checksum_notice w event result =
    if not (str_equals event (codes "NOTICE")) then some w else elim result.params [
      | _ ∷ text ∷ [] ↦ elim (extract_md5 text) [
        | hash_text sum ↦ use_md5 w sum
        | no_hash ↦ some w
        | past_end ↦ none
      ]
      | _ ↦ some w
    ]

unfoldable pub event_notice : Sds → World → Bytes → IrcParserResult → Option World
unfolding check_md5_checksum_notice check_connected_event
event_notice sds w event result =
    map_option (λ w₁. check_connected_event sds w₁ event result)
      (check_md5_checksum_notice w event result)

unfoldable pub event_mode : World → IrcParserResult → Option World
unfolding str_equals send_xdcc_requests
event_mode w result = elim w.cfg.login_command [
  | none ↦ some w
  | some _ ↦ elim result.params [
    | _ ∷ text ∷ _ ↦ if str_equals text (codes "+v") then send_xdcc_requests w else some w
    | _ ↦ some w
  ]
]

-- params[0] of a message without parameters is NULL, which strcmp may not be given.
unfoldable pub event_umode : World → IrcParserResult → Option World
unfolding str_equals join_channels
event_umode w result = elim w.cfg.login_command [
  | none ↦ some w
  | some _ ↦ elim result.params [
    | text ∷ _ ↦ if str_equals text (codes "+r") then some (join_channels w) else some w
    | [] ↦ none
  ]
]

unfoldable pub event_join : World → Option World
unfolding send_xdcc_requests
event_join w =
    let w₁ = act w (cmd_user_mode (codes "+i")) in
    elim w.cfg.send_delay [
      | none ↦ elim w.cfg.login_command [ none ↦ send_xdcc_requests w₁ | some _ ↦ some w₁ ]
      | some _ ↦ some w₁
    ]

unfoldable pub should_send_xdcc_requests : ℕ → World → Bool
unfolding cfg_get_bit
should_send_xdcc_requests now w = elim w.cfg.send_delay [
  | none ↦ false
  | some delay ↦ not (cfg_get_bit w.cfg sended_flag) && ltb delay.time_to_send_command now
]

-- Each progress is brought up to date by `outputProgress`.
unfoldable pub output_all_progesses : World → World
unfolding output_progress
output_all_progesses w = record w {
  contexts =
      map (λ (c : DccDownloadContext). record c { progress = output_progress c.progress })
        w.contexts;
}

unfoldable pub output_handler : World → World
unfolding cfg_set_bit
output_handler w = record w { cfg = cfg_set_bit w.cfg output_flag }

-- Without the pause at its end, `sleeping`.
unfoldable pub print_output_callback : ℕ → World → Option World
unfolding should_send_xdcc_requests send_xdcc_requests cfg_get_bit cfg_clear_bit
    output_all_progesses
print_output_callback now w =
    let print = λ (w : World).
      if cfg_get_bit w.cfg output_flag
      then (let w₁ = output_all_progesses w in record w₁ { cfg = cfg_clear_bit w₁.cfg output_flag })
      else w in
    if should_send_xdcc_requests now w
    then map_option print (send_xdcc_requests w)
    else some (print w)
