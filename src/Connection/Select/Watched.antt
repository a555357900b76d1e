-- ===== src/Connection/Select/Watched.antt =====
-- What the watch list holds when the main loop waits.
use xdccget_for_windows.Connection.Select.{
  Numbers, add_dcc_descriptor, room_to_read, add_dcc_descriptors, Waits, line_to_write, set_if,
  irc_add_select_descriptors, set_server, prepare_wait, number_if, sessions_of,
}
use xdccget_for_windows.World.{
  waiting_for_resume_ack, init_passive, IrcDccSession, DccState, confirm_size, connected, removed,
  connecting, init, World, done, Outcome,
}
use xdccget_for_windows.Base.{
  refl, false, inl, inr, Option, some, [], true, ◌∷◌, List, Bool-cases, ℕ, none, Bool,
  if◌then◌else◌, ◌≡◌, ap, arith, ◌||◌, ◌∙◌, not,
}
use xdccget_for_windows.Watcher.{
  fdwatch_set_fd, Watcher, fdw_write, fdwatch_add_fd, fdw_read, fdwatch_zero,
}
use xdccget_for_windows.Session.{
  session_connected, session_connecting, session_init, SessionState, session_disconnected,
  on_client,
}
use xdccget_for_windows.Connection.{Connection, session_of, is_unusable, with_session}
use xdccget_for_windows.Watcher.Answers.{watch_all, set_all}
use xdccget_for_windows.Dcc.{libirc_dcc_add_descriptors}
use xdccget_for_windows.Connection.Registration.{if_false}

abbrev dcc_accesses : DccState → List ℕ
dcc_accesses connecting = fdw_write ∷ []
dcc_accesses connected = fdw_read ∷ []
dcc_accesses confirm_size = fdw_write ∷ []
dcc_accesses init_passive = fdw_read ∷ []
dcc_accesses _ = []

abbrev pub asked_by_dcc : Numbers → List IrcDccSession → List (ℕ × List ℕ)
asked_by_dcc numbers [] = []
asked_by_dcc numbers (s ∷ ss) =
    let rest = asked_by_dcc numbers ss in
    if s.sock_open then (numbers.dcc s.id, dcc_accesses s.state) ∷ rest else rest

abbrev when : Bool → ℕ → List ℕ → List ℕ
when test access more = if test then access ∷ more else more

abbrev server_accesses : Connection → Waits → List ℕ
server_accesses c waits = elim (session_of c).state [
  | session_connecting ↦ fdw_write ∷ []
  | session_connected ↦
      when (room_to_read c waits) fdw_read (when (line_to_write c waits) fdw_write [])
  | _ ↦ []
]

-- An open socket of the server or of a DCC session, and what its state makes the client wait for.
abbrev pub asked_by : Numbers → Waits → Connection → List IrcDccSession → List (ℕ × List ℕ)
asked_by numbers waits c ss = (numbers.server, server_accesses c waits) ∷ asked_by_dcc numbers ss

some_again : {A : Type 0} (o : Option A) → o ≡ elim o [ none ↦ none | some a ↦ some a ]
some_again none = refl
some_again (some a) = refl

set_all-one :
    (w : Watcher) (fd access : ℕ) → fdwatch_set_fd w (some fd) access ≡ set_all w fd (access ∷ [])
unfolding set_all
set_all-one w fd access = some_again (fdwatch_set_fd w (some fd) access)

closed_adds_nothing :
    (numbers : Numbers) (w : Watcher) (s : IrcDccSession) (state : DccState)
    → s.state ≡ state
    → s.sock_open ≡ false
    → add_dcc_descriptor numbers w s ≡ some w
unfolding add_dcc_descriptor fdwatch_add_fd fdwatch_set_fd
closed_adds_nothing numbers w s connecting e closed = rw (add_dcc_descriptor, e, closed) refl
closed_adds_nothing numbers w s connected e closed = rw (add_dcc_descriptor, e, closed) refl
closed_adds_nothing numbers w s confirm_size e closed = rw (add_dcc_descriptor, e, closed) refl
closed_adds_nothing numbers w s init_passive e closed = rw (add_dcc_descriptor, e, closed) refl
closed_adds_nothing numbers w s init e closed = rw (add_dcc_descriptor, e, closed) refl
closed_adds_nothing numbers w s removed e closed = rw (add_dcc_descriptor, e, closed) refl
closed_adds_nothing numbers w s waiting_for_resume_ack e closed =
    rw (add_dcc_descriptor, e, closed) refl

open_adds :
    (numbers : Numbers) (w : Watcher) (s : IrcDccSession) (state : DccState)
    → s.state ≡ state
    → s.sock_open ≡ true
    → add_dcc_descriptor numbers w s
      ≡ set_all (fdwatch_add_fd w (some (numbers.dcc s.id))) (numbers.dcc s.id) (dcc_accesses state)
unfolding add_dcc_descriptor set_all
open_adds numbers w s connecting e open_ = rw (add_dcc_descriptor, e, open_) (set_all-one _ _ _)
open_adds numbers w s connected e open_ = rw (add_dcc_descriptor, e, open_) (set_all-one _ _ _)
open_adds numbers w s confirm_size e open_ = rw (add_dcc_descriptor, e, open_) (set_all-one _ _ _)
open_adds numbers w s init_passive e open_ = rw (add_dcc_descriptor, e, open_) (set_all-one _ _ _)
open_adds numbers w s init e open_ = rw (add_dcc_descriptor, e, open_) refl
open_adds numbers w s removed e open_ = rw (add_dcc_descriptor, e, open_) refl
open_adds numbers w s waiting_for_resume_ack e open_ = rw (add_dcc_descriptor, e, open_) refl

rest_equal :
    {A B : Type 0} (o : Option A) (f g : A → Option B)
    → ((a : A) → f a ≡ g a)
    → elim o [ none ↦ none | some a ↦ f a ] ≡ elim o [ none ↦ none | some a ↦ g a ]
rest_equal none f g h = refl
rest_equal (some a) f g h = h a

add_dcc_descriptors-watch_all :
    (numbers : Numbers) (ss : List IrcDccSession) (w : Watcher)
    → add_dcc_descriptors numbers w ss ≡ watch_all w (asked_by_dcc numbers ss)
unfolding add_dcc_descriptors watch_all
add_dcc_descriptors-watch_all numbers [] w = refl
add_dcc_descriptors-watch_all numbers (s ∷ ss) w = elim (Bool-cases s.sock_open) [
  | inl open_ ↦
      rw (add_dcc_descriptors, open_adds numbers w s s.state refl open_, open_, watch_all)
        (rest_equal
          (set_all (fdwatch_add_fd w (some (numbers.dcc s.id))) (numbers.dcc s.id)
            (dcc_accesses s.state))
          _ _ (add_dcc_descriptors-watch_all numbers ss))
  | inr closed ↦
      rw (add_dcc_descriptors, closed_adds_nothing numbers w s s.state refl closed, closed)
        (add_dcc_descriptors-watch_all numbers ss w)
]

abbrev pub follow : {A B : Type 0} → Option A → (A → Option B) → Option B
follow o f = elim o [ none ↦ none | some a ↦ f a ]

set_if-set_all :
    (test : Bool) (w : Watcher) (fd access : ℕ)
    → set_if test w (some fd) access ≡ set_all w fd (when test access [])
unfolding set_all
set_if-set_all true w fd access = set_all-one w fd access
set_if-set_all false w fd access = refl

set_two :
    (first second : Bool) (w : Watcher) (fd : ℕ)
    → elim (set_if first w (some fd) fdw_read) [
      | none ↦ none
      | some w' ↦ set_if second w' (some fd) fdw_write
    ]
      ≡ set_all w fd (when first fdw_read (when second fdw_write []))
unfolding set_all
set_two false second w fd = set_if-set_all second w fd fdw_write
set_two true second w fd =
    rest_equal (fdwatch_set_fd w (some fd) fdw_read) _ _
      (λ w'. set_if-set_all second w' fd fdw_write)

set_two_at :
    (first second : Bool) (w : Watcher) (fd : Option ℕ) (n : ℕ)
    → fd ≡ some n
    → elim (set_if first w fd fdw_read) [ none ↦ none | some w' ↦ set_if second w' fd fdw_write ]
      ≡ set_all w n (when first fdw_read (when second fdw_write []))
set_two_at first second w fd n e =
    ap (λ (o : Option ℕ). follow (set_if first w o fdw_read) (λ w'. set_if second w' o fdw_write)) e
    ∙ set_two first second w n

set_server-set_all :
    (numbers : Numbers) (waits : Waits) (c : Connection) (w : Watcher) (state : SessionState)
    → (session_of c).state ≡ state
    → (session_of c).sock_open ≡ true
    → set_server numbers waits c w ≡ set_all w numbers.server (server_accesses c waits)
unfolding set_server set_all
set_server-set_all numbers waits c w session_connecting e open_ =
    rw (set_server, e, open_) (set_all-one w numbers.server fdw_write)
set_server-set_all numbers waits c w session_connected e open_ =
    rw (set_server, e)
      (set_two_at (room_to_read c waits) (line_to_write c waits) w
        (number_if (session_of c).sock_open numbers.server) numbers.server
        (ap (λ b. number_if b numbers.server) open_))
set_server-set_all numbers waits c w session_init e open_ = rw (set_server, e) refl
set_server-set_all numbers waits c w session_disconnected e open_ = rw (set_server, e) refl

abbrev pub after_dcc : Connection → World → Connection
after_dcc c x =
    with_session c (record (session_of c) { client = done tt (libirc_dcc_add_descriptors x) })

abbrev pub prepared : Connection → Watcher → Option (Watcher × Connection × ℕ)
prepared c w = some (w, c, 0)

both_steps :
    (numbers : Numbers) (ss : List IrcDccSession) (o : Option Watcher) (c : Connection)
    → follow o (λ w₁. follow (add_dcc_descriptors numbers w₁ ss) (prepared c))
      ≡ follow (follow o (λ w₁. watch_all w₁ (asked_by_dcc numbers ss))) (prepared c)
both_steps numbers ss none c = refl
both_steps numbers ss (some w₁) c =
    ap (λ o. follow o (prepared c)) (add_dcc_descriptors-watch_all numbers ss w₁)

is_usable :
    (open_ unusable : Bool) → open_ ≡ true → unusable ≡ false → (not open_ || unusable) ≡ false
is_usable open_ unusable h h' = ground arith

-- The part of the DCC sessions, for what the client has come to.
abbrev with_client :
    Connection → Numbers → Outcome Unit → Watcher → Option (Watcher × Connection × ℕ)
with_client c numbers o w₁ =
    let s =
      on_client (record (session_of c) { client = o })
        (λ x. done tt (libirc_dcc_add_descriptors x)) in
    follow (add_dcc_descriptors numbers w₁ (sessions_of s.client)) (prepared (with_session c s))

irc_add_select_descriptors-follow :
    (numbers : Numbers) (waits : Waits) (c : Connection) (w : Watcher) (x : World)
    → (session_of c).sock_open ≡ true
    → is_unusable (session_of c).state ≡ false
    → (session_of c).client ≡ done tt x
    → irc_add_select_descriptors numbers waits c w
      ≡ follow
          (follow
            (set_all w numbers.server (server_accesses c waits))
            (λ w₁. watch_all w₁ (asked_by_dcc numbers (libirc_dcc_add_descriptors x).dcc_sessions)))
          (prepared (after_dcc c x))
unfolding irc_add_select_descriptors
irc_add_select_descriptors-follow numbers waits c w x open_ usable client =
    if_false _ _
      (is_usable (session_of c).sock_open (is_unusable (session_of c).state) open_ usable)
    ∙ (ap (λ (o : Outcome Unit). follow (set_server numbers waits c w) (with_client c numbers o))
          client
        ∙ (ap (λ (o : Option Watcher). follow o (with_client c numbers (done tt x)))
              (set_server-set_all numbers waits c w (session_of c).state refl open_)
            ∙ both_steps numbers (libirc_dcc_add_descriptors x).dcc_sessions
                (set_all w numbers.server (server_accesses c waits)) (after_dcc c x)))

pub prepare_wait-watch_all :
    (numbers : Numbers) (waits : Waits) (c : Connection) (w : Watcher) (x : World)
    → (session_of c).sock_open ≡ true
    → is_unusable (session_of c).state ≡ false
    → (session_of c).client ≡ done tt x
    → prepare_wait numbers waits c w
      ≡ follow
          (watch_all
            (fdwatch_zero w)
            (asked_by numbers waits c (libirc_dcc_add_descriptors x).dcc_sessions))
          (prepared (after_dcc c x))
unfolding prepare_wait watch_all
prepare_wait-watch_all numbers waits c w x open_ usable client =
    ap
      (λ b.
        irc_add_select_descriptors numbers waits c
          (fdwatch_add_fd (fdwatch_zero w) (number_if b numbers.server)))
      open_
    ∙ irc_add_select_descriptors-follow numbers waits c
        (fdwatch_add_fd (fdwatch_zero w) (some numbers.server)) x open_ usable client
