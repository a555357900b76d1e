-- ===== src/Session.antt =====
-- libircclient-src/session.h and libircclient.c: a session with a server, and the commands that are
-- sent to it. The buffer outgoing_buf is the list of the bytes below outgoing_offset; the client's
-- state, and the member lasterror, are in `client`.
pub mod Laws
use xdccget_for_windows.Dcc.{err_state}
use xdccget_for_windows.World.{World, Outcome, done, ◌>>=◌}
use xdccget_for_windows.Base.{
  ℕ, Bool, Option, none, some, [], ◌∷◌, ◌++◌, leb, ◌+◌, ◌-◌, ◌==◌, if◌then◌else◌, length, take, not,
  false, true,
}
use xdccget_for_windows.Bytes.{Bytes, codes}

abbrev pub buffer_size : ℕ
buffer_size = 2048

-- LIBIRC_STATE_INIT, _CONNECTING, _CONNECTED and _DISCONNECTED.
pub data SessionState : Type 0 where
  session_init session_connecting session_connected session_disconnected : SessionState

abbrev pub is_connected : SessionState → Bool
is_connected session_connected = true
is_connected _ = false

-- `motd_received`, `ssl_connection` and `uses_ipv6` are the flags SESSIONFL_MOTD_RECEIVED,
-- SESSIONFL_SSL_CONNECTION and SESSIONFL_USES_IPV6; `sock_open` tells whether sock >= 0.
pub record IrcSession : Type 0 where
  pub state : SessionState
  pub sock_open : Bool
  pub motd_received : Bool
  pub ssl_connection : Bool
  pub uses_ipv6 : Bool
  pub server : Option Bytes
  pub nick : Bytes
  pub server_password : Option Bytes
  pub username : Option Bytes
  pub realname : Option Bytes
  pub outgoing : Bytes
  pub client : Outcome Unit

-- Once the client has ended the process, or done what C leaves undefined, nothing more happens to it.
abbrev pub on_client : IrcSession → (World → Outcome Unit) → IrcSession
on_client s f = record s { client = s.client >>= λ _ w. f w }

abbrev pub fail : IrcSession → ℕ → IrcSession × ℕ
fail s error = (on_client s (λ w. done tt (record w { lasterror = error })), 1)

abbrev pub err_inval : ℕ
err_inval = 1

abbrev pub err_nomem : ℕ
err_nomem = 6

-- The text is cut to the size of `buf`; the size of what is left of the buffer does not wrap, since
-- outgoing_offset never exceeds it.
unfoldable pub irc_send_raw : IrcSession → Bytes → IrcSession × ℕ
irc_send_raw s text =
    if not (is_connected s.state)
    then fail s err_state
    else let buf = take 1023 text in
      if leb (buffer_size - length s.outgoing) (length buf + 2)
      then fail s err_nomem
      else (record s { outgoing = s.outgoing ++ (buf ++ 13 ∷ 10 ∷ []) }, 0)

-- A NULL argument is `none`.
abbrev required : IrcSession → ℕ → Option Bytes → (Bytes → IrcSession × ℕ) → IrcSession × ℕ
required s error none f = fail s error
required s error (some text) f = f text

unfoldable pub irc_cmd_quit : IrcSession → Option Bytes → IrcSession × ℕ
unfolding irc_send_raw
irc_cmd_quit s none = irc_send_raw s (codes "QUIT :quit")
irc_cmd_quit s (some reason) = irc_send_raw s (codes "QUIT :" ++ reason)

unfoldable pub irc_cmd_join : IrcSession → Option Bytes → Option Bytes → IrcSession × ℕ
unfolding irc_send_raw
irc_cmd_join s channel none =
    required s err_state channel (λ c. irc_send_raw s (codes "JOIN " ++ c))
irc_cmd_join s channel (some key) =
    required s err_state channel (λ c. irc_send_raw s (codes "JOIN " ++ (c ++ (codes " :" ++ key))))

unfoldable pub irc_cmd_part : IrcSession → Option Bytes → IrcSession × ℕ
unfolding irc_send_raw
irc_cmd_part s channel = required s err_state channel (λ c. irc_send_raw s (codes "PART " ++ c))

unfoldable pub irc_cmd_topic : IrcSession → Option Bytes → Option Bytes → IrcSession × ℕ
unfolding irc_send_raw
irc_cmd_topic s channel none =
    required s err_state channel (λ c. irc_send_raw s (codes "TOPIC " ++ c))
irc_cmd_topic s channel (some topic) =
    required s err_state channel
      (λ c. irc_send_raw s (codes "TOPIC " ++ (c ++ (codes " :" ++ topic))))

unfoldable pub irc_cmd_names : IrcSession → Option Bytes → IrcSession × ℕ
unfolding irc_send_raw
irc_cmd_names s channel = required s err_state channel (λ c. irc_send_raw s (codes "NAMES " ++ c))

unfoldable pub irc_cmd_list : IrcSession → Option Bytes → IrcSession × ℕ
unfolding irc_send_raw
irc_cmd_list s none = irc_send_raw s (codes "LIST")
irc_cmd_list s (some channel) = irc_send_raw s (codes "LIST " ++ channel)

unfoldable pub irc_cmd_invite : IrcSession → Option Bytes → Option Bytes → IrcSession × ℕ
unfolding irc_send_raw
irc_cmd_invite s nick channel = required s err_state channel (λ c.
    required s err_state nick (λ n. irc_send_raw s (codes "INVITE " ++ (n ++ (codes " " ++ c)))))

unfoldable pub irc_cmd_kick :
    IrcSession → Option Bytes → Option Bytes → Option Bytes → IrcSession × ℕ
unfolding irc_send_raw
irc_cmd_kick s nick channel none = required s err_state channel (λ c.
    required s err_state nick (λ n. irc_send_raw s (codes "KICK " ++ (c ++ (codes " " ++ n)))))
irc_cmd_kick s nick channel (some comment) = required s err_state channel (λ c.
    required s err_state nick
      (λ n. irc_send_raw s (codes "KICK " ++ (c ++ (codes " " ++ (n ++ (codes " :" ++ comment)))))))

-- The text "<command> <target> :<text>".
abbrev pub to_target : Bytes → Bytes → Bytes → Bytes
to_target command target text = command ++ (b' ' ∷ (target ++ (codes " :" ++ text)))

abbrev send_to : IrcSession → Bytes → Option Bytes → Option Bytes → (Bytes → Bytes) → IrcSession × ℕ
send_to s command target text f =
    required s err_state target
      (λ n. required s err_state text (λ t. irc_send_raw s (to_target command n (f t))))

unfoldable pub irc_cmd_msg : IrcSession → Option Bytes → Option Bytes → IrcSession × ℕ
unfolding irc_send_raw
irc_cmd_msg s nch text = send_to s (codes "PRIVMSG") nch text (λ t. t)

unfoldable pub irc_cmd_notice : IrcSession → Option Bytes → Option Bytes → IrcSession × ℕ
unfolding irc_send_raw
irc_cmd_notice s nch text = send_to s (codes "NOTICE") nch text (λ t. t)

unfoldable pub irc_cmd_ctcp_request : IrcSession → Option Bytes → Option Bytes → IrcSession × ℕ
unfolding irc_send_raw
irc_cmd_ctcp_request s nick reply = send_to s (codes "PRIVMSG") nick reply (λ t. 1 ∷ (t ++ 1 ∷ []))

unfoldable pub irc_cmd_ctcp_reply : IrcSession → Option Bytes → Option Bytes → IrcSession × ℕ
unfolding irc_send_raw
irc_cmd_ctcp_reply s nick reply = send_to s (codes "NOTICE") nick reply (λ t. 1 ∷ (t ++ 1 ∷ []))

unfoldable pub irc_cmd_me : IrcSession → Option Bytes → Option Bytes → IrcSession × ℕ
unfolding irc_send_raw
irc_cmd_me s nch text =
    send_to s (codes "PRIVMSG") nch text (λ t. 1 ∷ (codes "ACTION " ++ (t ++ 1 ∷ [])))

unfoldable pub irc_cmd_channel_mode : IrcSession → Option Bytes → Option Bytes → IrcSession × ℕ
unfolding irc_send_raw
irc_cmd_channel_mode s channel none =
    required s err_inval channel (λ c. irc_send_raw s (codes "MODE " ++ c))
irc_cmd_channel_mode s channel (some mode) =
    required s err_inval channel (λ c. irc_send_raw s (codes "MODE " ++ (c ++ (codes " " ++ mode))))

unfoldable pub irc_cmd_user_mode : IrcSession → Option Bytes → IrcSession × ℕ
unfolding irc_send_raw
irc_cmd_user_mode s none = irc_send_raw s (codes "MODE " ++ s.nick)
irc_cmd_user_mode s (some mode) = irc_send_raw s (codes "MODE " ++ (s.nick ++ (codes " " ++ mode)))

unfoldable pub irc_cmd_nick : IrcSession → Option Bytes → IrcSession × ℕ
unfolding irc_send_raw
irc_cmd_nick s newnick = required s err_inval newnick (λ n. irc_send_raw s (codes "NICK " ++ n))

unfoldable pub irc_cmd_whois : IrcSession → Option Bytes → IrcSession × ℕ
unfolding irc_send_raw
irc_cmd_whois s nick =
    required s err_inval nick (λ n. irc_send_raw s (codes "WHOIS " ++ (n ++ (codes " " ++ n))))

-- The part of a target in front of its '!', cut to the size of the buffer.
unfoldable pub irc_target_get_nick : Bytes → ℕ → Bytes
irc_target_get_nick target size = take (size - 1) (before_bang target)
  where
    before_bang : Bytes → Bytes
    before_bang [] = []
    before_bang (c ∷ s) = if c == b'!' then [] else c ∷ before_bang s
