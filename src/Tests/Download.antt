-- ===== src/Tests/Download.antt =====
-- A download of seven bytes, a reverse transfer that is resumed, and requests of other nicks.
use xdccget_for_windows.World.{
  World, done, exit_pgm, connected, recv_file, DccState, IrcDccSession, waiting_for_resume_ack, Net,
  Outcome, init,
}
use xdccget_for_windows.Cfg.{
  default_config, dont_confirm_offsets_flag, cfg_get_bit, XdccGetConfig, sended_flag, DccDownload,
  cfg_set_bit, verify_checksum_flag,
}
use xdccget_for_windows.Events.Laws.{on_connect_event_once}
use xdccget_for_windows.Bytes.{codes, Bytes, str_equals}
use xdccget_for_windows.Base.{◌∷◌, some, ℕ, true, false, none, arith, [], ◌≡◌, inl, refl}
use xdccget_for_windows.Receive.Complete.{IsFinished, rounds-IsFinished}
use xdccget_for_windows.Transfer.{recv_file_request, recv_file_request_reverse, get_complete_path}
use xdccget_for_windows.Progress.{empty_speeds, DccDownloadProgress}
use xdccget_for_windows.Receive.Resume.{request_accept_reverse_exits}
use xdccget_for_windows.Receive.Stream.{IsReceiving, kept}
use xdccget_for_windows.Events.{send_xdcc_requests, on_connect_event}
use xdccget_for_windows.Receive.Rounds.{rounds-IsReceiving, rounds}
use xdccget_for_windows.Transfer.Laws.{recv_file_request_illegal}
use xdccget_for_windows.Tests.Library.{test_sds}
use xdccget_for_windows.Receive.Request.{request_accept_reverse}
use xdccget_for_windows.Flags.{set_bit, get_bit}
use xdccget_for_windows.Transfer.Files.{recv_file_request_other_files}

abbrev pub test_net : Net
test_net = record {
  dir_exists = λ _. true;
  opens = λ _. true;
  seeks = true;
  writes = true;
  closes = true;
  creates_socket = true;
  ssl_inits = true;
  connects = λ _. true;
  ssl_connects = λ _. true;
  binds = true;
  listens = true;
  inet_pton = λ _. some 2130706433;
  decimal = λ n. n ∷ [];
  last_char = λ s. s;
  garbage = 12345;
}

abbrev pub bot_download : DccDownload
bot_download = record { bot_nick = codes "Bot"; xdcc_cmd = codes "xdcc send #1"; md5 = none }

abbrev pub test_config : XdccGetConfig
test_config = record (default_config (codes "/tmp")) {
  dcc_download_array = some (bot_download ∷ []);
  num_downloads = 1;
}

abbrev pub test_path : Bytes
test_path = codes "/tmp/a.bin"

abbrev pub test_progress : ℕ → ℕ → DccDownloadProgress
test_progress total size = record {
  complete_file_size = total;
  size_rcvd = size;
  size_now = 0;
  size_last = 0;
  average_speed = 0;
  complete_path = test_path;
  cur_speed = empty_speeds;
}

abbrev pub test_session : DccState → IrcDccSession
test_session state = record {
  id = 3;
  passive_connection = true;
  token = 99;
  ctx = some 0;
  sock_open = true;
  state = state;
  ssl = false;
  received_file_size = 7;
  file_confirm_offset = 2;
  remote_ip = 2130706433;
  remote_port = 4000;
  cb = recv_file;
  has_reverse_cb = true;
}

-- Two of the seven bytes are in the file.
abbrev pub test_world : DccState → World
test_world state = record {
  cfg = test_config;
  contexts = record { progress = test_progress 7 2; fd = some test_path } ∷ [];
  finished_downloads = 0;
  last_download = none;
  cur_download = some 0;
  dcc_sessions = test_session state ∷ [];
  dcc_last_id = 4;
  lasterror = 0;
  files = λ _. some (10 ∷ 11 ∷ []);
  actions = [];
}

receiving : IsReceiving (test_world connected) 3 0 test_path (10 ∷ 11 ∷ []) 7 connected
receiving = record {
  session = test_session connected;
  progress = test_progress 7 2;
  found = refl;
  is_plain = refl;
  calls = refl;
  has_ctx = refl;
  in_state = refl;
  sized = refl;
  offset = refl;
  in_array = refl;
  received_size = refl;
  complete_size = refl;
  stored = refl;
}

no_flag_confirm : cfg_get_bit test_config dont_confirm_offsets_flag ≡ false
unfolding cfg_get_bit get_bit
no_flag_confirm = refl

no_flag_verify : cfg_get_bit test_config verify_checksum_flag ≡ false
unfolding cfg_get_bit get_bit
no_flag_verify = refl

rounds-IsReceiving_example :
    (w₁ : World) × (rounds test_net (test_world connected) 3 ((12 ∷ 13 ∷ []) ∷ (14 ∷ []) ∷ [])
      ≡ done tt w₁)
    × (kept w₁ ≡ kept (test_world connected))
    × IsReceiving w₁ 3 0 test_path (10 ∷ 11 ∷ 12 ∷ 13 ∷ 14 ∷ []) 7 connected
rounds-IsReceiving_example =
    rounds-IsReceiving test_net ((12 ∷ 13 ∷ []) ∷ (14 ∷ []) ∷ []) (test_world connected) 3 0
      test_path (10 ∷ 11 ∷ []) 7 refl no_flag_confirm receiving (λ e. cc, (λ e. cc, tt))
      (omega arith) (omega arith)

rounds-IsFinished_example :
    (w₁ : World) × (rounds test_net
        (test_world connected)
        3
        ((1 ∷ 2 ∷ []) ∷ (3 ∷ []) ∷ (4 ∷ 5 ∷ []) ∷ [])
      ≡ done tt w₁)
    × IsFinished (test_world connected) w₁ 3 test_path (10 ∷ 11 ∷ 1 ∷ 2 ∷ 3 ∷ 4 ∷ 5 ∷ [])
rounds-IsFinished_example =
    rounds-IsFinished test_net (test_world connected) 3 0 test_path (10 ∷ 11 ∷ []) 7
      ((1 ∷ 2 ∷ []) ∷ (3 ∷ []) ∷ []) (4 ∷ 5 ∷ []) refl refl no_flag_confirm no_flag_verify receiving
      (λ e. cc, (λ e. cc, tt)) (λ e. cc) (omega arith) (omega arith)

request_accept_reverse_exits_example :
    (w₁ : World) × (request_accept_reverse test_net
        (test_world waiting_for_resume_ack)
        (codes "Bot")
        2
        99
      ≡ exit_pgm w₁)
request_accept_reverse_exits_example =
    request_accept_reverse_exits test_net (test_world waiting_for_resume_ack) (codes "Bot") 2 99 0
      (test_session waiting_for_resume_ack)
      (record { progress = test_progress 7 2; fd = some test_path }) refl refl refl refl refl

recv_file_request_illegal_example :
    (recv_file_request test_net (test_world connected) (codes "Bot") (codes "../x") 7 3
      ≡ exit_pgm (test_world connected))
    × (recv_file_request_reverse test_net (test_world connected) (codes "Bot") (codes "../x") 7 3 99
        ≡ exit_pgm (test_world connected))
recv_file_request_illegal_example =
    recv_file_request_illegal test_net (test_world connected) (codes "Bot") (codes "..") (codes "x")
      b'/' 7 3 99 (inl refl)

sent_world : World
sent_world = record (test_world connected) { cfg = cfg_set_bit test_config sended_flag }

already_sent : send_xdcc_requests sent_world ≡ some sent_world
unfolding send_xdcc_requests sent_world cfg_get_bit cfg_set_bit get_bit set_bit
already_sent = refl

on_connect_event_once_example :
    on_connect_event test_sds (on_connect_event test_sds (test_world connected))
    ≡ on_connect_event test_sds (test_world connected)
on_connect_event_once_example = on_connect_event_once test_sds (test_world connected)

-- Before the request: a new session, no file.
abbrev asked_world : World
asked_world = record (test_world init) { contexts = []; files = λ _. none }

returned : Outcome Unit → World
returned (done _ w) = w
returned _ = asked_world

request_returns :
    recv_file_request test_net asked_world (codes "Bot") (codes "a.bin") 7 3
    ≡ done tt (returned (recv_file_request test_net asked_world (codes "Bot") (codes "a.bin") 7 3))
unfolding recv_file_request returned
request_returns = refl

other_path :
    str_equals (codes "/tmp/b") (get_complete_path test_net asked_world (codes "a.bin")) ≡ false
unfolding str_equals get_complete_path
other_path = refl

recv_file_request_other_files_example :
    ((returned (recv_file_request test_net asked_world (codes "Bot") (codes "a.bin") 7 3)).cfg
      ≡ test_config)
    × ((returned (recv_file_request test_net asked_world (codes "Bot") (codes "a.bin") 7 3)).files
          (codes "/tmp/b")
        ≡ none)
recv_file_request_other_files_example =
    recv_file_request_other_files test_net asked_world _ (codes "Bot") (codes "a.bin") 7 3
      (codes "/tmp/b") request_returns other_path
