-- ===== src/Watcher/Stale.antt =====
-- The indices that clearing the watch list leaves behind.
use xdccget_for_windows.Watcher.{
  Watcher, poll_zero, poll_zero_out, Bits, no_bits, ask, polled, empty_slot, fdwatch_zero, fdw_read,
  fdwatch_check_fd, bit_of, fdwatch,
}
use xdccget_for_windows.Base.{
  sym, ◌≡◌, get_or-set_self, refl, ◌∙◌, Option, ◌≤◌, ◌<◌, ◌∷◌, ℕ, get_or, [], some, ◌≢◌, none,
  arith, get_or-set_ne,
}
use xdccget_for_windows.Watcher.Rounds.{
  placed-IsWatcher, fdwatch_set_fd_at, fdwatch_zero-IsWatcher, IsWatcher, with_slot,
  with_slot-IsWatcher, fdwatch_add_fd-placed, slot_of, placed, fdwatch_check_fd_at,
}
use xdccget_for_windows.Watcher.Answers.{run_round, watch_all, wanted_bits, set_all}
use xdccget_for_windows.Watcher.Slots.{get_or-clear_first}

-- The indices of the descriptors are not forgotten when the list is cleared: one that the list has as
-- its first keeps the index 0 when it is not below the number of descriptors that are watched, and a
-- check of it in a next round that only asks to read another descriptor gives what poll said of that
-- one.
pub fdwatch_check_fd_stale :
    (w : Watcher) (fd other n access : ℕ) (bits_of : Option ℕ → Bits → Bits)
    → IsWatcher w
    → get_or w.poll_fdidx fd none ≡ some 0
    → w.npoll_fds ≤ fd
    → fd < w.nfiles
    → other < w.nfiles
    → other ≢ fd
    → (w' : Watcher) × (run_round w
          (record { asked = (other, fdw_read ∷ []) ∷ []; answer = polled n bits_of })
        ≡ some w')
      × (fdwatch_check_fd w' (some fd) access ≡ fdwatch_check_fd w' (some other) access)
      × (fdwatch_check_fd w' (some fd) access
          ≡ bit_of access (bits_of (some other) (wanted_bits no_bits (fdw_read ∷ []))))
unfolding run_round watch_all set_all fdwatch_zero poll_zero poll_zero_out
fdwatch_check_fd_stale w fd other n access bits_of good index high low low' ne =
    let (good', _, _) = fdwatch_zero-IsWatcher w good in
    let z = fdwatch_zero w in
    let p = slot_of other (ask fdw_read no_bits) in
    let placed_ = placed-IsWatcher z other good' (omega arith) in
    let index' = get_or-set_self z.poll_fdidx other (some 0) none (omega (arith, good'.1)) in
    let empty =
      get_or-set_self z.pollfds 0 (slot_of other no_bits) empty_slot (omega (arith, good'.0)) in
    let slot = get_or-set_self (placed z other).pollfds 0 p empty_slot (omega (arith, placed_.0)) in
    let same =
      get_or-set_ne z.poll_fdidx other fd (some 0) none ne
      ∙ (get_or-clear_first none w.npoll_fds w.poll_fdidx fd high none ∙ index) in
    let w' = with_slot (placed z other) 0 p in
    let kept = with_slot-IsWatcher (placed z other) 0 p placed_ (omega arith) in
    let read =
      fdwatch_check_fd_at w' other access n 0 p bits_of kept low' index' (omega arith) slot in
    let stale = fdwatch_check_fd_at w' fd access n 0 p bits_of kept low same (omega arith) slot in
    (
      (fdwatch w' (polled n bits_of)).0,
      rw
          (
            run_round,
            fdwatch_add_fd-placed z other good' (omega arith) low',
            fdwatch_set_fd_at (placed z other) other fdw_read 0 no_bits index' empty low',
          )
          refl,
      stale ∙ sym read,
      stale,
    )
