-- ===== src/Tests/Network.antt =====
-- The way to the server, and the bytes on the socket.
use xdccget_for_windows.Connection.Open.Laws.{opened}
use xdccget_for_windows.Tls.Streams.{Turn, turns, writes, turns-streams, direct, reads}
use xdccget_for_windows.Tls.{wants_read, wants_write, SocketAnswers, moved}
use xdccget_for_windows.Base.{
  ◌∷◌, Option, ◌≡◌, none, [], arith, refl, ◌⊎◌, List, true, ℕ, ◌++◌, false, some, replicate, set,
  zero, ◌≤◌, suc, get_or, All, ◌+◌, take,
}
use xdccget_for_windows.Connection.Open.{ConnectTo, Address, family_unspec, Family, family_inet}
use xdccget_for_windows.Tests.Server.{test_connection, server_session}
use xdccget_for_windows.Session.{IrcSession, session_connected, session_init}
use xdccget_for_windows.Connection.{session_of, with_session, Connection}
use xdccget_for_windows.World.{connected}
use xdccget_for_windows.Dcc.{libirc_dcc_add_descriptors}
use xdccget_for_windows.Bytes.{Bytes, codes}
use xdccget_for_windows.Watcher.Answers.{
  WatchRound, run_rounds, run_round, run_rounds-fdwatch_check_fd, wanted_bits, IsWatching,
}
use xdccget_for_windows.Watcher.Slots.{get_or-replicate}
use xdccget_for_windows.Watcher.{
  fdwatch_init, Watcher, PollFd, fdw_write, Bits, empty_slot, polled, bit_of, fdw_read, poll_failed,
  fdwatch_check_fd, no_bits, fdwatch,
}
use xdccget_for_windows.Watcher.Rounds.{IsWatcher}
use xdccget_for_windows.Connection.Select.Checks.{prepare_wait-fdwatch_check_fd}
use xdccget_for_windows.Connection.Select.{Numbers, prepare_wait, Waits}
use xdccget_for_windows.Connection.Select.Watched.{after_dcc}
use xdccget_for_windows.Tests.Download.{test_world}
use xdccget_for_windows.Incoming.{libirc_findcrlf}
use xdccget_for_windows.Watcher.Stale.{fdwatch_check_fd_stale}
use xdccget_for_windows.Tls.Waiting.{turns-crossing_twice, crossing}

abbrev no_answer : Address
no_answer = record {
  family = family_inet;
  creates = true;
  nonblocking = true;
  ssl_init = 0;
  connects = true;
  gets_writable = false;
  has_sockname = true;
  has_peername = false;
}

abbrev good_address : Address
good_address = record no_answer { gets_writable = true; has_peername = true }

abbrev refusing : Address
refusing = record no_answer { gets_writable = true }

abbrev connect_to : ConnectTo
connect_to = record {
  server = some (codes "irc.host");
  server_password = none;
  nick = some (codes "me");
  username = none;
  realname = none;
}

abbrev resolver : Address → Bytes → Family → Option (List Address)
resolver a name family = some (no_answer ∷ no_answer ∷ a ∷ [])

-- The second address is selected.
abbrev second : ℕ → ℕ
second n = 1

abbrev fresh_connection : Connection
fresh_connection =
    with_session (test_connection session_init none)
      (record server_session { state = session_init; sock_open = false })

abbrev opened_session : IrcSession
opened_session =
    opened (session_of fresh_connection) (codes "irc.host") (codes "me") connect_to family_unspec

abbrev quiet_socket : SocketAnswers
quiet_socket = record { ssl_read = wants_read; ssl_write = wants_write; recv = none; send = none }

abbrev test_turns : List Turn
test_turns =
    reads (record quiet_socket { ssl_read = moved (codes "PING") })
    ∷ writes (record quiet_socket { ssl_write = moved 2 })
    ∷ []

turns-streams_example :
    (turns (direct true [] (codes "PONG") 0) test_turns ≡ none)
    ⊎ ((i' : Bytes) × (o' : Bytes) × (e' : ℕ) × (g : Bytes) × (k : Bytes) × (turns
            (direct true [] (codes "PONG") 0)
            test_turns
          ≡ some (direct true i' o' e', (g, k)))
        × (i' ≡ [] ++ g)
        × (k ++ o' ≡ codes "PONG"))
turns-streams_example = turns-streams true [] (codes "PONG") 0 test_turns (refl, (refl, tt))

abbrev test_crossing : List Turn
test_crossing =
    crossing (record quiet_socket { ssl_write = wants_read })
      (record quiet_socket { ssl_read = moved (codes "PING") })
      (record quiet_socket { ssl_read = wants_write }) (record quiet_socket { ssl_write = moved 4 })

abbrev last_write : List Turn
last_write = writes (record quiet_socket { ssl_write = moved 4 }) ∷ []

turns-crossing_twice_example :
    (turns (direct true [] (codes "PONG") 0) (test_crossing ++ last_write) ≡ none)
    ⊎ ((i' : Bytes) × (o' : Bytes) × (e' : ℕ) × (g : Bytes) × (k : Bytes) × (left : Bytes)
        × (g' : Bytes) × (k' : Bytes) × (turns
              (direct true [] (codes "PONG") 0)
              (test_crossing ++ last_write)
            ≡ some (direct true i' o' e', (g ++ (codes "PING" ++ g'), k ++ (take 4 left ++ k'))))
        × (i' ≡ [] ++ (g ++ g'))
        × (k ++ left ≡ codes "PONG")
        × (k' ++ o' ≡ left))
turns-crossing_twice_example =
    turns-crossing_twice [] (codes "PONG") 0 4 (codes "PING") [] last_write
      (record quiet_socket { ssl_write = wants_read })
      (record quiet_socket { ssl_read = moved (codes "PING") })
      (record quiet_socket { ssl_read = wants_write }) (record quiet_socket { ssl_write = moved 4 })
      tt (refl, tt) refl refl refl refl

abbrev asked_bits : Option ℕ → Bits → Bits
asked_bits fd asked_for = asked_for

abbrev watch_rounds : List WatchRound
watch_rounds =
    record { asked = (5, fdw_read ∷ []) ∷ (7, fdw_write ∷ []) ∷ []; answer = polled 2 asked_bits }
    ∷ record { asked = (7, fdw_read ∷ []) ∷ []; answer = poll_failed }
    ∷ []

run_rounds-fdwatch_check_fd_example :
    (w₀ : Watcher) × (fdwatch_init 9 true ≡ some w₀)
    × (w₁ : Watcher) × (run_rounds w₀ watch_rounds ≡ some w₁)
    × (w₂ : Watcher) × (run_round w₁ (record {
      asked = (7, fdw_read ∷ []) ∷ (5, fdw_write ∷ []) ∷ [];
      answer = polled 2 asked_bits;
    })
        ≡ some w₂)
    × All {A = ℕ × List ℕ}
        (λ r.
          (access : ℕ)
          → fdwatch_check_fd w₂ (some r.0) access
            ≡ bit_of access (asked_bits (some r.0) (wanted_bits no_bits r.1)))
        ((7, fdw_read ∷ []) ∷ (5, fdw_write ∷ []) ∷ [])
run_rounds-fdwatch_check_fd_example =
    run_rounds-fdwatch_check_fd 9 watch_rounds ((7, fdw_read ∷ []) ∷ (5, fdw_write ∷ []) ∷ []) 2
      asked_bits
      (
        (((λ e. omega arith, tt), (tt, tt)), (omega arith, (omega arith, tt)), omega arith),
        (((tt, tt), (omega arith, tt), omega arith), tt),
      )
      (((λ e. omega arith, tt), (tt, tt)), (omega arith, (omega arith, tt)), omega arith)

abbrev slot_of_seven : PollFd
slot_of_seven = record { fd = some 7; events = no_bits; revents = no_bits }

abbrev watching_seven : Watcher
watching_seven = record {
  nfiles = 9;
  nwatches = 1;
  fd_rw = replicate 9 0;
  nreturned = some 1;
  next_ridx = 0;
  pollfds = slot_of_seven ∷ replicate 8 empty_slot;
  npoll_fds = 1;
  poll_fdidx = set (replicate 9 none) 7 (some 0);
}

watching_seven-IsWatcher : IsWatcher watching_seven
watching_seven-IsWatcher = (
  refl,
  refl,
  omega arith,
  λ i h.
      elim i as (λ j. 1 ≤ j → get_or watching_seven.pollfds j empty_slot ≡ empty_slot) [
        | zero ↦ λ below. absurd (omega arith)
        | suc j ↦ λ below. get_or-replicate 8 empty_slot j
      ]
        h,
)

fdwatch_check_fd_stale_example :
    (w' : Watcher) × (run_round watching_seven
        (record { asked = (5, fdw_read ∷ []) ∷ []; answer = polled 1 asked_bits })
      ≡ some w')
    × (fdwatch_check_fd w' (some 7) 1 ≡ fdwatch_check_fd w' (some 5) 1)
    × (fdwatch_check_fd w' (some 7) 1 ≡ true)
fdwatch_check_fd_stale_example =
    fdwatch_check_fd_stale watching_seven 7 5 1 1 asked_bits watching_seven-IsWatcher refl
      (omega arith) (omega arith) (omega arith) (λ e. omega arith)

abbrev test_numbers : Numbers
test_numbers = record { server = 4; dcc = λ id. id + 2 }

abbrev no_waits : Waits
no_waits = record { write_wants_read = false; read_wants_write = false }

abbrev talking : Connection
talking =
    with_session (test_connection session_connected none)
      (record server_session { outgoing = codes "PONG" ++ 13 ∷ 10 ∷ [] })

prepare_wait-fdwatch_check_fd_example :
    (w' : Watcher) × (prepare_wait test_numbers no_waits talking watching_seven
      ≡ some (w', after_dcc talking (test_world connected), 0))
    × IsWatching 9 w'
    × All {A = ℕ × List ℕ}
        (λ r.
          (access : ℕ)
          → fdwatch_check_fd (fdwatch w' (polled 2 asked_bits)).0 (some r.0) access
            ≡ bit_of access (asked_bits (some r.0) (wanted_bits no_bits r.1)))
        ((4, fdw_read ∷ fdw_write ∷ []) ∷ (5, fdw_read ∷ []) ∷ [])
unfolding libirc_dcc_add_descriptors libirc_findcrlf
prepare_wait-fdwatch_check_fd_example =
    prepare_wait-fdwatch_check_fd test_numbers no_waits 9 2 asked_bits talking watching_seven
      (test_world connected) (watching_seven-IsWatcher, refl) refl refl refl
      (((λ e. omega arith, tt), (tt, tt)), (omega arith, (omega arith, tt)), omega arith)
