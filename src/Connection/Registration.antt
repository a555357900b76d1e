-- ===== src/Connection/Registration.antt =====
-- What a session sends to the server once it is connected.
use xdccget_for_windows.Base.{
  concat, Bool-cases, ap₂, sym, inl, inr, true, ◌≡◌, length, ◌++◌, arith, append-nil, length-append,
  List, map, ℕ, ◌<◌, [], ◌∷◌, ◌+◌, Option, some, false, All, none, refl, ap, ◌==◌, ◌∙◌,
  append_assoc, ◌&&◌, Bool, if◌then◌else◌,
}
use xdccget_for_windows.Session.{
  session_connected, IrcSession, buffer_size, session_connecting, on_client, SessionState,
}
use xdccget_for_windows.Connection.Rounds.{usable_guard}
use xdccget_for_windows.Connection.{
  is_unusable, is_connecting, with_result, irc_handle_connecting_state, as_format, send_format,
  realname_text, cut, send_password, user_text, with_session, session_of, Connection, Answers,
  irc_process_select_descriptors,
}
use xdccget_for_windows.LineParser.Message.{lacks, render, Message, render_line}
use xdccget_for_windows.Session.Laws.{irc_send_raw_fits, take-all}
use xdccget_for_windows.Bytes.{Bytes, codes}
use xdccget_for_windows.LineParser.{IrcParserResult}

-- The lines of the registration: "PASS <password>" where there is a password, "NICK <nick>", and
-- "USER <nick> <nick> unknown :<realname>".
abbrev word_message : Bytes → Bytes → Message
word_message command word = record {
  prefix = none;
  command = command;
  middles = [];
  last = word;
  is_trailing = false;
}

abbrev user_message : Bytes → Bytes → Message
user_message nick realname = record {
  prefix = none;
  command = codes "USER";
  middles = nick ∷ nick ∷ codes "unknown" ∷ [];
  last = realname;
  is_trailing = true;
}

abbrev password_messages : Option Bytes → List Message
password_messages none = []
password_messages (some password) = word_message (codes "PASS") password ∷ []

abbrev pub registration : IrcSession → List Message
registration s =
    password_messages s.server_password
    ++ (word_message (codes "NICK") s.nick ∷ user_message s.nick (realname_text s.realname) ∷ [])

-- A line that its buffer holds, and that has no conversion.
abbrev pub IsSendable : Message → Type 0
IsSendable m = (length (render_line m) < 256) × (lacks (b'%' ∷ []) (render_line m) ≡ true)

lacks_cons :
    (c : ℕ) (s : Bytes)
    → lacks (b'%' ∷ []) (c ∷ s) ≡ true
    → ((c == b'%') ≡ false) × (lacks (b'%' ∷ []) s ≡ true)
lacks_cons c s h = elim (Bool-cases (c == b'%')) [
  | inl yes_ ↦ absurd (ground (arith, rw yes_ at h))
  | inr no_ ↦ (no_, rw no_ at h)
]

as_format-lacks : (s : Bytes) → lacks (b'%' ∷ []) s ≡ true → as_format s ≡ some s
unfolding as_format
as_format-lacks [] h = refl
as_format-lacks (c ∷ []) h = ground arith
as_format-lacks (c ∷ d ∷ s) h =
    let (other, rest) = lacks_cons c (d ∷ s) h in
    rw (as_format, other, as_format-lacks (d ∷ s) rest) refl

abbrev send_all : IrcSession → List Message → IrcSession
send_all s [] = s
send_all s (m ∷ ms) = send_all (send_format s (cut (render_line m))) ms

send_format-render :
    (s : IrcSession) (m : Message)
    → s.state ≡ session_connected
    → IsSendable m
    → length s.outgoing + length (render m) < buffer_size
    → send_format s (cut (render_line m)) ≡ record s { outgoing = s.outgoing ++ render m }
unfolding send_format render
send_format-render s m up (short, plain) room =
    rw
      (
        send_format,
        take-all 255 (render_line m) (omega arith),
        as_format-lacks (render_line m) plain,
      )
      (ap (λ (x : IrcSession × ℕ). x.0)
        (irc_send_raw_fits s (render_line m) up (omega arith)
          (omega (arith, room, length-append (render_line m) (13 ∷ 10 ∷ [])))))

send_all-render :
    (s : IrcSession) (ms : List Message)
    → s.state ≡ session_connected
    → All IsSendable ms
    → length s.outgoing + length (concat (map render ms)) < buffer_size
    → send_all s ms ≡ record s { outgoing = s.outgoing ++ concat (map render ms) }
send_all-render s [] up h room = rw (append-nil s.outgoing) refl
send_all-render s (m ∷ ms) up (h, hs) room =
    let total = length-append (render m) (concat (map render ms)) in
    let queued = record s { outgoing = s.outgoing ++ render m } in
    ap (λ x. send_all x ms) (send_format-render s m up h (omega (arith, room, total)))
    ∙ send_all-render queued ms up hs
        (omega (arith, room, total, length-append s.outgoing (render m)))
    ∙ ap (λ (o : Bytes). record s { outgoing = o })
        (append_assoc s.outgoing (render m) (concat (map render ms)))

send_all-append :
    (s : IrcSession) (xs ys : List Message) → send_all s (xs ++ ys) ≡ send_all (send_all s xs) ys
send_all-append s [] ys = refl
send_all-append s (m ∷ xs) ys = send_all-append (send_format s (cut (render_line m))) xs ys

word_line :
    (command word : Bytes) → command ++ (b' ' ∷ word) ≡ render_line (word_message command word)
unfolding render_line
word_line command word = simp (append_assoc)

user_line :
    (nick : Bytes) (realname : Option Bytes)
    → user_text nick realname ≡ render_line (user_message nick (realname_text realname))
unfolding render_line
user_line nick realname = simp (append_assoc, append-nil)

password_sent :
    (s : IrcSession) (password : Option Bytes)
    → send_password s password ≡ send_all s (password_messages password)
password_sent s none = refl
password_sent s (some password) =
    ap (λ (t : Bytes). send_format s (cut t)) (word_line (codes "PASS") password)

registration_sent :
    (s : IrcSession)
    → irc_handle_connecting_state s true
      ≡ (send_all (record s { state = session_connected }) (registration s), 0)
unfolding irc_handle_connecting_state
registration_sent s =
    let up = record s { state = session_connected } in
    ap₂
      (λ (x y : Bytes).
        (send_format (send_format (send_password up s.server_password) (cut x)) (cut y), 0))
      (word_line (codes "NICK") s.nick) (user_line s.nick s.realname)
    ∙ ap
        (λ (x : IrcSession). (
          send_all x (
              word_message (codes "NICK") s.nick
              ∷ user_message s.nick (realname_text s.realname)
              ∷ []),
          0,
        ))
        (password_sent up s.server_password)
    ∙ sym (
        ap (λ (x : IrcSession). (x, 0))
          (send_all-append up (password_messages s.server_password) (
            word_message (codes "NICK") s.nick
            ∷ user_message s.nick (realname_text s.realname)
            ∷ [])))

module _ {A : Type 0} {b : Bool} (x y : A) where
  pub if_true : b ≡ true → (if b then x else y) ≡ x
  if_true e = rw e refl

  pub if_false : b ≡ false → (if b then x else y) ≡ y
  if_false e = rw e refl

ready_guard :
    (state : SessionState) (writable : Bool)
    → state ≡ session_connecting
    → writable ≡ true
    → (is_connecting state && writable) ≡ true
ready_guard state writable e f = rw (e, f) refl

-- A session that is connecting, and whose socket has got writable, becomes connected, and its
-- registration is put behind what waits to be sent: PASS with the password where there is one,
-- NICK, and USER, with "realname" where there is no realname. The condition is that the addresses of
-- the socket are known, that each line is shorter than 256 bytes and has no '%', and that the
-- registration fits in the buffer; the DCC sessions are served before.
pub irc_process_select_descriptors-registration :
    (handle : IrcParserResult → IrcSession → IrcParserResult × IrcSession) (c : Connection)
    (a : Answers)
    → (session_of c).sock_open ≡ true
    → (session_of c).state ≡ session_connecting
    → a.writable ≡ true
    → a.has_names ≡ true
    → All IsSendable (registration (session_of c))
    → length (session_of c).outgoing + length (concat (map render (registration (session_of c))))
      < buffer_size
    → irc_process_select_descriptors handle c a
      ≡ some (
        with_session c
            (record (on_client (session_of c) (λ w. a.dcc (record w { lasterror = 0 }))) {
              state = session_connected;
              outgoing =
                  (session_of c).outgoing ++ concat (map render (registration (session_of c)));
            }),
        0,
      )
unfolding irc_process_select_descriptors
irc_process_select_descriptors-registration handle c a open_ state_ writable_ names sendable room =
    let s = on_client (session_of c) (λ w. a.dcc (record w { lasterror = 0 })) in
    let opened =
      usable_guard (session_of c).sock_open (is_unusable (session_of c).state) open_
        (ap is_unusable state_) in
    if_false _ _ opened
    ∙ if_true _ _ (ready_guard (session_of c).state a.writable state_ writable_)
    ∙ ap (λ (b : Bool). with_result handle c (irc_handle_connecting_state s b)) names
    ∙ ap (with_result handle c) (registration_sent s)
    ∙ ap (λ (x : IrcSession). with_result handle c (x, 0))
        (send_all-render (record s { state = session_connected }) (registration (session_of c)) refl
          sendable room)
