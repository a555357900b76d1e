-- ===== src/Connection/Open/Start.antt =====
-- From irc_connect to the first round of the main loop.
use xdccget_for_windows.Connection.Open.Laws.{opened, TimesOut, GetsWritable}
use xdccget_for_windows.Connection.Open.{ConnectTo, Address, without_prefix, Family}
use xdccget_for_windows.Connection.{Connection, Answers, session_of}
use xdccget_for_windows.Base.{◌≡◌, List, ◌∷◌, length, Option, true, ℕ, ◌++◌, some, All}
use xdccget_for_windows.Bytes.{Bytes}
use xdccget_for_windows.Session.{session_init, IrcSession}
use xdccget_for_windows.LineParser.{IrcParserResult}

module _ (resolve : Bytes → Family → Option (List Address)) (selected : ℕ → ℕ)
    (handle : IrcParserResult → IrcSession → IrcParserResult × IrcSession) (c : Connection)
    (to : ConnectTo) (family : Family) (server nick : Bytes) (before tried : List Address)
    (a : Address) (later : List Address) (answers : Answers) (has_server : to.server ≡ some server)
    (has_nick : to.nick ≡ some nick) (fresh : (session_of c).state ≡ session_init)
    (resolves : resolve (without_prefix server) family ≡ some (before ++ (tried ++ (a ∷ later))))
    (selects : selected (length (before ++ (tried ++ (a ∷ later)))) ≡ length before)
    (slow : All TimesOut tried) (quick : GetsWritable a) (writable_ : answers.writable ≡ true) where
  abbrev pub started : IrcSession
  started = opened (session_of c) server nick to family
