-- ===== src/Session/Laws.antt =====
-- What a command puts into the outgoing buffer.
use xdccget_for_windows.Base.{
  ℕ, ◌≡◌, [], length, ◌+◌, ◌∷◌, ◌++◌, true, some, none, ◌<◌, length-append, ◌-◌, ◌≤◌, zero, leb,
  take, arith, refl, suc, false, ap, append_assoc, append-nil, ◌∙◌,
}
use xdccget_for_windows.Session.{
  IrcSession, irc_cmd_msg, irc_send_raw, buffer_size, to_target, session_connected,
}
use xdccget_for_windows.LineParser.Message.{Message, render, render_line}
use xdccget_for_windows.Bytes.{codes, Bytes}

-- PRIVMSG <nch> :<text>
abbrev pub msg : Bytes → Bytes → Message
msg nch text = record {
  prefix = none;
  command = codes "PRIVMSG";
  middles = nch ∷ [];
  last = text;
  is_trailing = true;
}

pub take-all : (n : ℕ) (s : Bytes) → length s ≤ n → take n s ≡ s
take-all zero [] h = refl
take-all zero (c ∷ s) h = absurd (omega arith)
take-all (suc n) [] h = refl
take-all (suc n) (c ∷ s) h = ap (λ (r : Bytes). c ∷ r) (take-all n s (omega arith))

pub irc_send_raw_fits :
    (s : IrcSession) (text : Bytes)
    → s.state ≡ session_connected
    → length text < 1024
    → length s.outgoing + length text + 2 < buffer_size
    → irc_send_raw s text ≡ (record s { outgoing = s.outgoing ++ (text ++ 13 ∷ 10 ∷ []) }, 0)
unfolding irc_send_raw
irc_send_raw_fits s text up short room =
    rw (irc_send_raw, up, take-all 1023 text (omega arith), tested) refl
  where
    tested : leb (buffer_size - length s.outgoing) (length text + 2) ≡ false
    tested = ground arith

to_target-msg :
    (nch text : Bytes) → to_target (codes "PRIVMSG") nch text ≡ render_line (msg nch text)
unfolding render_line
to_target-msg nch text = simp (append_assoc, append-nil)

-- A message that fits is put behind what waits to be sent, as the line of the message
-- PRIVMSG with its target and its text.
irc_cmd_msg-render :
    (s : IrcSession) (nch text : Bytes)
    → s.state ≡ session_connected
    → length (render_line (msg nch text)) < 1024
    → length s.outgoing + length (render (msg nch text)) < buffer_size
    → irc_cmd_msg s (some nch) (some text)
      ≡ (record s { outgoing = s.outgoing ++ render (msg nch text) }, 0)
unfolding irc_cmd_msg render
irc_cmd_msg-render s nch text up short room =
    ap (irc_send_raw s) (to_target-msg nch text)
    ∙ irc_send_raw_fits s (render_line (msg nch text)) up short
        (omega (arith, room, length-append (render_line (msg nch text)) (13 ∷ 10 ∷ [])))
