-- ===== src/World.antt =====
-- The state that xdccget.c and dcc.c share: the globals of xdccget.c, struct dccDownloadContext,
-- struct irc_dcc_session_s (dcc.h), the DCC part of struct irc_session_s, and the files.
-- A pointer to a download's context, or to its progress, is the context's index in `contexts`, the
-- part of the array downloadContext that is filled: numActiveDownloads is its length, and the array
-- has room for numDownloads. A pointer to a DCC session is the session's id.
pub mod Laws
use xdccget_for_windows.Bytes.{Bytes, str_equals}
use xdccget_for_windows.Cfg.{XdccGetConfig}
use xdccget_for_windows.Progress.{DccDownloadProgress}
use xdccget_for_windows.Base.{
  Bool, some, ◌++◌, set, if◌then◌else◌, false, true, ◌∷◌, ℕ, Option, [], none, ◌==◌, List,
}

pub data DccState : Type 0 where
  init init_passive connecting connected confirm_size removed waiting_for_resume_ack : DccState

-- The member `cb`: NULL, `callback_dcc_recv_file` or `callback_dcc_resume_file`. The member
-- `reverse_cb` is NULL or `callback_dcc_resume_file_reverse`.
pub data Callback : Type 0 where
  no_callback recv_file resume_file : Callback

pub record IrcDccSession : Type 0 where
  pub id : ℕ
  pub passive_connection : Bool
  pub token : ℕ
  pub ctx : Option ℕ
  -- sock >= 0
  pub sock_open : Bool
  pub state : DccState
  pub ssl : Bool
  pub received_file_size : ℕ
  pub file_confirm_offset : ℕ
  pub remote_ip : ℕ
  pub remote_port : ℕ
  pub cb : Callback
  pub has_reverse_cb : Bool

-- `fd` is the path of the open file.
pub record DccDownloadContext : Type 0 where
  pub progress : DccDownloadProgress
  pub fd : Option Bytes

-- What the program asks of others: a command to the server, a folder, a thread.
pub data Action : Type 0 where
  cmd_quit : Bytes → Action
  cmd_join : Bytes → Action
  cmd_msg : Bytes → Bytes → Action
  cmd_user_mode : Bytes → Action
  cmd_ctcp_request : Bytes → Bytes → Action
  mkdir : Bytes → Action
  checksum_thread : Bytes → Bytes → Action

pub record World : Type 0 where
  pub cfg : XdccGetConfig
  pub contexts : List DccDownloadContext
  pub finished_downloads : ℕ
  pub last_download : Option ℕ
  pub cur_download : Option ℕ
  pub dcc_sessions : List IrcDccSession
  pub dcc_last_id : ℕ
  pub lasterror : ℕ
  pub files : Bytes → Option Bytes
  pub actions : List Action

-- An operation returns with a new state, ends the process, or does what C leaves undefined.
pub data Outcome (A : Type 0) : Type 0 where
  done : A → World → Outcome A
  exit_pgm : World → Outcome A
  fault : Outcome A

infixl 5 ◌>>=◌
abbrev pub ◌>>=◌ : {A B : Type 0} → Outcome A → (A → World → Outcome B) → Outcome B
done a w >>= f = f a w
exit_pgm w >>= f = exit_pgm w
fault >>= f = fault

-- What the operating system and OpenSSL answer, and what libc prints and reads.
pub record Net : Type 0 where
  pub dir_exists : Bytes → Bool
  -- fopen of a path, fseek, fwrite and fclose succeed
  pub opens : Bytes → Bool
  pub seeks : Bool
  pub writes : Bool
  pub closes : Bool
  -- socket and fcntl, the TLS context, connect, the TLS handshake, bind, listen succeed
  pub creates_socket : Bool
  pub ssl_inits : Bool
  pub connects : ℕ → Bool
  pub ssl_connects : ℕ → Bool
  pub binds : Bool
  pub listens : Bool
  -- inet_pton(AF_INET, text), the address in the host's order
  pub inet_pton : Bytes → Option ℕ
  -- printf's %lu
  pub decimal : ℕ → Bytes
  -- sdsrange(s, -1, -1)
  pub last_char : Bytes → Bytes
  -- what malloc'ed memory holds
  pub garbage : ℕ

abbrev pub act : World → Action → World
act w a = record w { actions = w.actions ++ (a ∷ []) }

-- The first session that passes the test, and an update of the session with an id.
abbrev pub find_session : (IrcDccSession → Bool) → List IrcDccSession → Option IrcDccSession
find_session test [] = none
find_session test (s ∷ ss) = if test s then some s else find_session test ss

abbrev pub update_session :
    ℕ → (IrcDccSession → IrcDccSession) → List IrcDccSession → List IrcDccSession
update_session i f [] = []
update_session i f (s ∷ ss) = if s.id == i then f s ∷ ss else s ∷ update_session i f ss

abbrev pub on_session : World → ℕ → (IrcDccSession → IrcDccSession) → World
on_session w i f = record w { dcc_sessions = update_session i f w.dcc_sessions }

abbrev pub set_state : World → ℕ → DccState → World
set_state w i state = on_session w i (λ s. record s { state = state })

abbrev pub is_init : DccState → Bool
is_init init = true
is_init _ = false

abbrev pub is_waiting : DccState → Bool
is_waiting waiting_for_resume_ack = true
is_waiting _ = false

abbrev pub is_removed : DccState → Bool
is_removed removed = true
is_removed _ = false

-- Writing a context, and writing a file.
abbrev pub on_context : World → ℕ → DccDownloadContext → World
on_context w k c = record w { contexts = set w.contexts k c }

abbrev pub on_file : World → Bytes → Bytes → World
on_file w path content = record w {
  files = λ p. if str_equals p path then some content else w.files p;
}
