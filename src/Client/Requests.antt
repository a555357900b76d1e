-- ===== src/Client/Requests.antt =====
-- From the bytes of the server to the request of a bot.
use xdccget_for_windows.Base.{
  ℕ, ◌≡◌, concat, refl, ◌∷◌, length, ◌≤◌, ◌++◌, List, some, false, [], ◌≢◌, true, min, sym, suc,
  arith, ◌∙◌, append-nil, length-append, take-length-append,
}
use xdccget_for_windows.Session.{IrcSession, on_client}
use xdccget_for_windows.LineParser.Message.{Message, Prefix, render, parts, IsMessage}
use xdccget_for_windows.Incoming.{process_reads}
use xdccget_for_windows.Bytes.{Bytes, str_equals, codes, strn_equals, str_case_equals}
use xdccget_for_windows.Commands.{
  ctcp_text, irc_privmsg_command, execute, is_dcc_request, last_is_one, handle_ctcp_request,
  get_command, is_ctcp_request, find_command, strn_case_equals,
}
use xdccget_for_windows.Receive.Request.{libirc_dcc_request}
use xdccget_for_windows.Commands.Dispatch.{handle_parser_result, handle_command}
use xdccget_for_windows.Parser.Lines.{ready}
use xdccget_for_windows.Client.{init_callbacks, dcc_request, client_handle, Host}
use xdccget_for_windows.LineParser.{empty_result, is_numeric_command}
use xdccget_for_windows.LineParser.Execute.{length-before_last}
use xdccget_for_windows.Incoming.Messages.{process_reads-handled, handled}

-- :<prefix> PRIVMSG <target> :\x01<text>\x01
abbrev pub ctcp : Prefix → Bytes → Bytes → Message
ctcp p target text = record {
  prefix = some p;
  command = codes "PRIVMSG";
  middles = target ∷ [];
  last = 1 ∷ (text ++ 1 ∷ []);
  is_trailing = true;
}

last_is_one-append : (s : Bytes) → last_is_one (s ++ 1 ∷ []) ≡ true
last_is_one-append [] = refl
last_is_one-append (c ∷ []) = refl
last_is_one-append (c ∷ d ∷ s) = last_is_one-append (d ∷ s)

is_ctcp_request-ctcp : (text : Bytes) → is_ctcp_request (1 ∷ (text ++ 1 ∷ [])) ≡ true
unfolding is_ctcp_request
is_ctcp_request-ctcp text = rw (last_is_one-append (1 ∷ text)) refl

ctcp_text-ctcp :
    (text : Bytes)
    → text ≢ []
    → length text ≤ 2047
    → ctcp_text 2047 (1 ∷ (text ++ 1 ∷ [])) ≡ some text
ctcp_text-ctcp [] some_text short = absurd (some_text refl)
ctcp_text-ctcp (c ∷ text) some_text short = rw (counted, take-length-append text (1 ∷ [])) refl
  where
    counted : min 2047 (length (text ++ 1 ∷ [])) ≡ suc (length text)
    counted = omega (arith, length-append text (1 ∷ []), short)

is_dcc_request-nil : is_dcc_request [] ≡ false
unfolding is_dcc_request strn_case_equals str_case_equals
is_dcc_request-nil = refl

module _ (host : Host) where
  handle-ctcp :
      (p : Prefix) (target text : Bytes) (s : IrcSession)
      → is_dcc_request text ≡ true
      → length text ≤ 2047
      → (client_handle host (parts (ctcp p target text)) s).1
        ≡ on_client s (λ w. libirc_dcc_request host.net host.scan w p.nick text)
  unfolding handle_parser_result handle_command execute irc_privmsg_command handle_ctcp_request
      init_callbacks dcc_request parts is_numeric_command get_command find_command strn_equals
      str_equals
  handle-ctcp p target text s is_dcc short =
      rw
        (
          is_ctcp_request-ctcp text,
          handle_ctcp_request,
          ctcp_text-ctcp text some_text short,
          is_dcc,
        )
        refl
    where
      some_text : text ≢ []
      some_text e = cc (is_dcc_request-nil)

  -- A DCC request that a bot sends as a CTCP message, its line cut into reads in any way, reaches
  -- libirc_dcc_request with the bot's nick and the text between the bytes 1, if the session's client
  -- runs and the line fits the parser. Nothing else happens to the session.
  pub process_reads-dcc_request :
      (p : Prefix) (target text : Bytes) (chunks : List Bytes) (s : IrcSession) (raw : ℕ → ℕ)
      → IsMessage (ctcp p target text)
      → is_dcc_request text ≡ true
      → concat chunks ≡ render (ctcp p target text)
      → (raw' : ℕ → ℕ) × (process_reads (client_handle host) (ready (empty_result, s) raw) [] chunks
          ≡ some (
            ready
                (
                  empty_result,
                  on_client s (λ w. libirc_dcc_request host.net host.scan w p.nick text),
                )
                raw',
            [],
          ))
  process_reads-dcc_request p target text chunks s raw is_m is_dcc same =
      let (raw', e) =
        process_reads-handled (client_handle host) (ctcp p target text ∷ []) chunks s raw (is_m, tt)
          (same ∙ sym (append-nil (render (ctcp p target text)))) in
      (raw', rw (← handled_ctcp) e)
    where
      short : length text ≤ 2047
      short = omega (
        arith,
        length-before_last (ctcp p target text),
        length-append text (1 ∷ []),
        is_m.in_buffer,
      )

      handled_ctcp :
          handled (client_handle host) s (ctcp p target text ∷ [])
          ≡ on_client s (λ w. libirc_dcc_request host.net host.scan w p.nick text)
      handled_ctcp = unfold handled in handle-ctcp p target text s is_dcc short
