-- ===== src/Watcher.antt =====
-- libircclient-src/fd_watcher.c: the watch list, with poll. A file descriptor or an index that is
-- negative is `none`; of the bits of poll, the three that the code uses are kept.
pub mod Slots
pub mod Rounds
pub mod Answers
pub mod Stale
use xdccget_for_windows.Base.{
  [], false, suc, none, zero, ℕ, ◌==◌, not, get_or, ◌∷◌, ◌+◌, replicate, set, if◌then◌else◌, List,
  Option, true, some, leb, Bool,
}

pub record Bits : Type 0 where
  pub pollin : Bool
  pub pollout : Bool
  pub pollerr : Bool

abbrev pub no_bits : Bits
no_bits = record { pollin = false; pollout = false; pollerr = false }

pub record PollFd : Type 0 where
  pub fd : Option ℕ
  pub events : Bits
  pub revents : Bits

abbrev pub empty_slot : PollFd
empty_slot = record { fd = none; events = no_bits; revents = no_bits }

-- The static variables of the file.
pub record Watcher : Type 0 where
  pub nfiles : ℕ
  pub nwatches : ℕ
  pub fd_rw : List ℕ
  pub nreturned : Option ℕ
  pub next_ridx : ℕ
  pub pollfds : List PollFd
  pub npoll_fds : ℕ
  pub poll_fdidx : List (Option ℕ)

-- What poll gives: an error, or the number of descriptors that are bits_of, and the bits of each
-- descriptor, which depend on those that are asked for.
pub data Polled : Type 0 where
  poll_failed : Polled
  polled : ℕ → (Option ℕ → Bits → Bits) → Polled

abbrev pub fdw_read : ℕ
fdw_read = 1

abbrev pub fdw_write : ℕ
fdw_write = 2

unfoldable pub clear_first : {A : Type 0} → A → ℕ → List A → List A
clear_first a zero xs = xs
clear_first a (suc n) [] = []
clear_first a (suc n) (x ∷ xs) = a ∷ clear_first a n xs

unfoldable pub poll_zero_out : ℕ → Watcher → Watcher
poll_zero_out nf w = record w {
  pollfds = clear_first empty_slot nf w.pollfds;
  poll_fdidx = clear_first none nf w.poll_fdidx;
}

-- What the memory holds before poll_zero_out does not matter: it is all overwritten.
unfoldable pub poll_init : (allocated : Bool) → ℕ → Watcher → Option Watcher
poll_init allocated nf w =
    if not allocated
    then none
    else some (
        poll_zero_out nf
          (record w { pollfds = replicate nf empty_slot; poll_fdidx = replicate nf none }))

-- The limit of the system is an input.
unfoldable pub fdwatch_init : (limit : ℕ) (allocated : Bool) → Option Watcher
fdwatch_init limit allocated = poll_init allocated limit (record {
  nfiles = limit;
  nwatches = 0;
  fd_rw = replicate limit 0;
  nreturned = some 0;
  next_ridx = 0;
  pollfds = [];
  npoll_fds = 0;
  poll_fdidx = [];
})

unfoldable pub poll_add_fd : Watcher → ℕ → Watcher
poll_add_fd w fd = if leb w.nfiles w.npoll_fds then w else record w {
  pollfds =
      set w.pollfds w.npoll_fds (record (get_or w.pollfds w.npoll_fds empty_slot) { fd = some fd });
  poll_fdidx = set w.poll_fdidx fd (some w.npoll_fds);
  npoll_fds = w.npoll_fds + 1;
}

-- `none` is an access in front of an array.
unfoldable pub poll_del_fd : Watcher → ℕ → Option Watcher
poll_del_fd w fd = elim (get_or w.poll_fdidx fd none) [
  | none ↦ some w
  | some idx ↦ if leb w.nfiles idx then some w else elim w.npoll_fds [
    | zero ↦ none
    | suc n ↦
        let last =
          get_or
            (set w.pollfds idx
              (record (get_or w.pollfds idx empty_slot) { events = no_bits; revents = no_bits }))
            n empty_slot in
        elim last.fd [
          | none ↦ none
          | some last_fd ↦ some (record w {
            npoll_fds = n;
            pollfds = set (set w.pollfds idx last) n (record last { fd = none });
            poll_fdidx = set (set w.poll_fdidx last_fd (some idx)) fd none;
          })
        ]
  ]
]

abbrev pub ask : ℕ → Bits → Bits
ask access b =
    if access == fdw_read
    then record b { pollin = true }
    else if access == fdw_write
    then record b { pollout = true }
    else b

unfoldable pub poll_set_fd : Watcher → ℕ → ℕ → Option Watcher
poll_set_fd w fd access = elim (get_or w.poll_fdidx fd none) [
  | none ↦ none
  | some idx ↦
      let p = get_or w.pollfds idx empty_slot in
      some (record w { pollfds = set w.pollfds idx (record p { events = ask access p.events }) })
]

unfoldable pub poll_zero : Watcher → Watcher
poll_zero w = record (poll_zero_out w.npoll_fds w) { npoll_fds = 0 }

unfoldable pub write_revents : (Option ℕ → Bits → Bits) → ℕ → List PollFd → List PollFd
write_revents bits_of zero ps = ps
write_revents bits_of (suc n) [] = []
write_revents bits_of (suc n) (p ∷ ps) =
    record p { revents = bits_of p.fd p.events } ∷ write_revents bits_of n ps

unfoldable pub poll_watch : Watcher → Polled → Watcher × Option ℕ
poll_watch w poll_failed = (w, none)
poll_watch w (polled r bits_of) =
    (record w { pollfds = write_revents bits_of w.npoll_fds w.pollfds }, some r)

abbrev pub bit_of : ℕ → Bits → Bool
bit_of access b =
    if b.pollerr
    then false
    else if access == fdw_read
    then b.pollin
    else if access == fdw_write
    then b.pollout
    else false

unfoldable pub poll_check_fd : Watcher → ℕ → ℕ → Bool
poll_check_fd w fd access = elim (get_or w.poll_fdidx fd none) [
  | none ↦ false
  | some idx ↦
      if leb w.nfiles idx then false else bit_of access (get_or w.pollfds idx empty_slot).revents
]

abbrev pub when_valid : {A : Type 0} → Watcher → Option ℕ → A → (ℕ → A) → A
when_valid w none bad f = bad
when_valid w (some fd) bad f = if leb w.nfiles fd then bad else f fd

unfoldable pub fdwatch_add_fd : Watcher → Option ℕ → Watcher
fdwatch_add_fd w fd = when_valid w fd w (poll_add_fd w)

unfoldable pub fdwatch_del_fd : Watcher → Option ℕ → Option Watcher
fdwatch_del_fd w fd = when_valid w fd (some w) (λ n. elim (poll_del_fd w n) [
  | none ↦ none
  | some w' ↦ some (record w' { fd_rw = set w'.fd_rw n 0 })
])

unfoldable pub fdwatch_set_fd : Watcher → Option ℕ → ℕ → Option Watcher
fdwatch_set_fd w fd access = when_valid w fd (some w) (λ n. poll_set_fd w n access)

unfoldable pub fdwatch_zero : Watcher → Watcher
fdwatch_zero w = poll_zero w

unfoldable pub fdwatch : Watcher → Polled → Watcher × Option ℕ
fdwatch w answer =
    let (w', r) = poll_watch (record w { nwatches = w.nwatches + 1 }) answer in
    (record w' { nreturned = r; next_ridx = 0 }, r)

unfoldable pub fdwatch_check_fd : Watcher → Option ℕ → ℕ → Bool
fdwatch_check_fd w fd access = when_valid w fd false (λ n. poll_check_fd w n access)

-- What it logs is left out.
unfoldable pub fdwatch_logstats : Watcher → Watcher
fdwatch_logstats w = record w { nwatches = 0 }
