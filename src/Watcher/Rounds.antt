-- ===== src/Watcher/Rounds.antt =====
-- A round of the client on the watch list: it clears the list, adds and asks, polls, and checks.
use xdccget_for_windows.Watcher.{
  Watcher, poll_init, poll_zero, fdwatch_init, no_bits, poll_zero_out, fdwatch_zero, empty_slot,
  Bits, fdwatch_add_fd, fdwatch_set_fd, ask, poll_set_fd, poll_add_fd, bit_of, poll_check_fd,
  PollFd, polled, fdwatch, poll_watch, fdwatch_check_fd,
}
use xdccget_for_windows.Base.{
  none, true, ◌+◌, get_or, ◌<◌, false, ◌∙◌, inr, some, set, arith, ◌≡◌, ◌≤◌, length, ℕ, refl, inl,
  get_or-set_self, leb, replicate, Option, length-set, get_or-set_ne, ◌≢◌, ap, sym,
}
use xdccget_for_windows.Watcher.Slots.{
  get_or-clear_first_in, get_or-clear_first, length-clear_first, length-replicate, below_or_not,
  get_or-replicate, get_or-write_revents,
}

-- The arrays have their full lengths, and what is not in use is empty.
abbrev pub IsWatcher : Watcher → Type 0
IsWatcher w =
    (length w.pollfds ≡ w.nfiles)
    × (length w.poll_fdidx ≡ w.nfiles)
    × (w.npoll_fds ≤ w.nfiles)
    × ((i : ℕ) → w.npoll_fds ≤ i → get_or w.pollfds i empty_slot ≡ empty_slot)

abbrev pub slot_of : ℕ → Bits → PollFd
slot_of fd events = record { fd = some fd; events = events; revents = no_bits }

-- The slot at an index is a descriptor's own, with the bits that it asked for.
abbrev pub Watches : Watcher → ℕ → Bits → Type 0
Watches w fd events =
    (k : ℕ) × (k < w.npoll_fds)
    × (get_or w.poll_fdidx fd none ≡ some k)
    × (get_or w.pollfds k empty_slot ≡ slot_of fd events)

pub fdwatch_init-IsWatcher :
    (limit : ℕ)
    → (w : Watcher) × (fdwatch_init limit true ≡ some w) × IsWatcher w × (w.nfiles ≡ limit)
unfolding fdwatch_init poll_init poll_zero_out
fdwatch_init-IsWatcher limit = (
  _,
  refl,
  (
    length-clear_first empty_slot limit (replicate limit empty_slot)
        ∙ length-replicate limit empty_slot,
    length-clear_first none limit (replicate limit none) ∙ length-replicate limit none,
    omega arith,
    λ i h. elim (below_or_not i limit) [
      | inl below ↦ get_or-clear_first_in empty_slot limit (replicate limit empty_slot) i below
      | inr above ↦
          get_or-clear_first empty_slot limit (replicate limit empty_slot) i above empty_slot
          ∙ get_or-replicate limit empty_slot i
    ],
  ),
  refl,
)

pub fdwatch_zero-IsWatcher :
    (w : Watcher)
    → IsWatcher w
    → IsWatcher (fdwatch_zero w)
      × ((fdwatch_zero w).npoll_fds ≡ 0)
      × ((fdwatch_zero w).nfiles ≡ w.nfiles)
unfolding fdwatch_zero poll_zero poll_zero_out
fdwatch_zero-IsWatcher w (slots, indices, few, free) = (
  (
    length-clear_first empty_slot w.npoll_fds w.pollfds ∙ slots,
    length-clear_first none w.npoll_fds w.poll_fdidx ∙ indices,
    omega arith,
    λ i h. elim (below_or_not i w.npoll_fds) [
      | inl below ↦ get_or-clear_first_in empty_slot w.npoll_fds w.pollfds i below
      | inr above ↦
          get_or-clear_first empty_slot w.npoll_fds w.pollfds i above empty_slot ∙ free i above
    ],
  ),
  refl,
  refl,
)

abbrev pub placed : Watcher → ℕ → Watcher
placed w fd = record w {
  pollfds = set w.pollfds w.npoll_fds (slot_of fd no_bits);
  poll_fdidx = set w.poll_fdidx fd (some w.npoll_fds);
  npoll_fds = w.npoll_fds + 1;
}

pub fdwatch_add_fd-placed :
    (w : Watcher) (fd : ℕ)
    → IsWatcher w
    → w.npoll_fds < w.nfiles
    → fd < w.nfiles
    → fdwatch_add_fd w (some fd) ≡ placed w fd
unfolding fdwatch_add_fd poll_add_fd
fdwatch_add_fd-placed w fd (_, _, _, free) room low =
    let known : leb w.nfiles fd ≡ false = ground arith in
    let fits : leb w.nfiles w.npoll_fds ≡ false = ground arith in
    let empty = free w.npoll_fds (omega arith) in
    rw (fdwatch_add_fd, known, poll_add_fd, fits, empty) refl

pub placed-IsWatcher :
    (w : Watcher) (fd : ℕ) → IsWatcher w → w.npoll_fds < w.nfiles → IsWatcher (placed w fd)
placed-IsWatcher w fd (slots, indices, few, free) room = (
  length-set w.pollfds w.npoll_fds (slot_of fd no_bits) ∙ slots,
  length-set w.poll_fdidx fd (some w.npoll_fds) ∙ indices,
  omega arith,
  λ i h.
      get_or-set_ne w.pollfds w.npoll_fds i (slot_of fd no_bits) empty_slot (λ e. omega arith)
      ∙ free i (omega arith),
)

pub placed-Watches :
    (w : Watcher) (fd : ℕ)
    → IsWatcher w
    → w.npoll_fds < w.nfiles
    → fd < w.nfiles
    → Watches (placed w fd) fd no_bits
placed-Watches w fd (slots, indices, _, _) room low = (
  w.npoll_fds,
  omega arith,
  get_or-set_self w.poll_fdidx fd (some w.npoll_fds) none (omega (arith, indices)),
  get_or-set_self w.pollfds w.npoll_fds (slot_of fd no_bits) empty_slot (omega (arith, slots)),
)

pub placed-Watches_other :
    (w : Watcher) (fd other : ℕ) (events : Bits)
    → fd ≢ other
    → Watches w other events
    → Watches (placed w fd) other events
placed-Watches_other w fd other events ne (k, below, index, slot) = (
  k,
  omega arith,
  get_or-set_ne w.poll_fdidx fd other (some w.npoll_fds) none ne ∙ index,
  get_or-set_ne w.pollfds w.npoll_fds k (slot_of fd no_bits) empty_slot (λ e. omega arith) ∙ slot,
)

abbrev pub with_slot : Watcher → ℕ → PollFd → Watcher
with_slot w k p = record w { pollfds = set w.pollfds k p }

pub fdwatch_set_fd_at :
    (w : Watcher) (fd access k : ℕ) (events : Bits)
    → get_or w.poll_fdidx fd none ≡ some k
    → get_or w.pollfds k empty_slot ≡ slot_of fd events
    → fd < w.nfiles
    → fdwatch_set_fd w (some fd) access ≡ some (with_slot w k (slot_of fd (ask access events)))
unfolding fdwatch_set_fd poll_set_fd
fdwatch_set_fd_at w fd access k events index slot low =
    let known : leb w.nfiles fd ≡ false = ground arith in
    rw (fdwatch_set_fd, known, poll_set_fd, index, slot) refl

different_slots :
    (w : Watcher) (fd other k j : ℕ) (events events' : Bits)
    → fd ≢ other
    → get_or w.pollfds k empty_slot ≡ slot_of fd events
    → get_or w.pollfds j empty_slot ≡ slot_of other events'
    → k ≢ j
different_slots w fd other k j events events' ne slot slot' same = ne (
    ap (λ (p : PollFd). elim p.fd [ none ↦ fd | some n ↦ n ])
      (sym slot ∙ (ap (λ i. get_or w.pollfds i empty_slot) same ∙ slot')))

pub with_slot-IsWatcher :
    (w : Watcher) (k : ℕ) (p : PollFd) → IsWatcher w → k < w.npoll_fds → IsWatcher (with_slot w k p)
with_slot-IsWatcher w k p (slots, indices, few, free) below = (
  length-set w.pollfds k p ∙ slots,
  indices,
  few,
  λ i h. get_or-set_ne w.pollfds k i p empty_slot (λ e. omega arith) ∙ free i h,
)

-- What a descriptor asks for is added to what it asked for, and nothing else changes.
pub fdwatch_set_fd-Watches :
    (w : Watcher) (fd access : ℕ) (events : Bits)
    → IsWatcher w
    → fd < w.nfiles
    → Watches w fd events
    → (w' : Watcher) × (fdwatch_set_fd w (some fd) access ≡ some w')
      × IsWatcher w'
      × (w'.nfiles ≡ w.nfiles)
      × (w'.npoll_fds ≡ w.npoll_fds)
      × Watches w' fd (ask access events)
      × ((other : ℕ) (events' : Bits)
          → fd ≢ other
          → Watches w other events'
          → Watches w' other events')
fdwatch_set_fd-Watches w fd access events good low (k, below, index, slot) =
    let p = slot_of fd (ask access events) in
    (
      with_slot w k p,
      fdwatch_set_fd_at w fd access k events index slot low,
      with_slot-IsWatcher w k p good below,
      refl,
      refl,
      (k, below, index, get_or-set_self w.pollfds k p empty_slot (omega (arith, good.0))),
      λ other events' ne (j, below', index', slot'). (
        j,
        below',
        index',
        get_or-set_ne w.pollfds k j p empty_slot
              (different_slots w fd other k j events events' ne slot slot')
            ∙ slot',
      ),
    )

-- A check after the poll reads the slot that the index of the descriptor names.
pub fdwatch_check_fd_at :
    (w : Watcher) (fd access n k : ℕ) (p : PollFd) (bits_of : Option ℕ → Bits → Bits)
    → IsWatcher w
    → fd < w.nfiles
    → get_or w.poll_fdidx fd none ≡ some k
    → k < w.npoll_fds
    → get_or w.pollfds k empty_slot ≡ p
    → fdwatch_check_fd (fdwatch w (polled n bits_of)).0 (some fd) access
      ≡ bit_of access (bits_of p.fd p.events)
unfolding fdwatch_check_fd fdwatch poll_watch poll_check_fd
fdwatch_check_fd_at w fd access n k p bits_of (slots, indices, few, free) low index below slot =
    let known : leb w.nfiles fd ≡ false = ground arith in
    let inside : leb w.nfiles k ≡ false = ground arith in
    rw
      (
        fdwatch_check_fd,
        known,
        poll_check_fd,
        index,
        inside,
        get_or-write_revents bits_of w.npoll_fds w.pollfds k below (omega (arith, slots)),
        slot,
      )
      refl
