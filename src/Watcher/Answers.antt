-- ===== src/Watcher/Answers.antt =====
-- Any number of rounds on the watch list: what the checks of the last one say.
use xdccget_for_windows.Watcher.{
  Watcher, poll_watch, poll_failed, Polled, fdwatch, fdwatch_zero, fdwatch_add_fd, fdwatch_set_fd,
  polled, bit_of, fdwatch_init, fdwatch_check_fd, Bits, no_bits, ask,
}
use xdccget_for_windows.Base.{
  ◌∷◌, [], ◌≤◌, some, ◌<◌, ℕ, ◌≢◌, length, refl, ◌+◌, List, arith, Option, All, ◌≡◌, ◌∙◌, true,
  none, sym,
}
use xdccget_for_windows.Watcher.Slots.{get_or-write_revents_behind, length-write_revents}
use xdccget_for_windows.Watcher.Rounds.{
  placed-IsWatcher, placed-Watches, Watches, fdwatch_add_fd-placed, fdwatch_set_fd-Watches,
  fdwatch_init-IsWatcher, placed, IsWatcher, fdwatch_zero-IsWatcher, fdwatch_check_fd_at,
  placed-Watches_other,
}

-- What a round asks for, as descriptors with what is asked of each, and what poll says.
pub record WatchRound : Type 0 where
  pub asked : List (ℕ × List ℕ)
  pub answer : Polled

unfoldable pub set_all : Watcher → ℕ → List ℕ → Option Watcher
set_all w fd [] = some w
set_all w fd (access ∷ more) = elim (fdwatch_set_fd w (some fd) access) [
  | none ↦ none
  | some w' ↦ set_all w' fd more
]

unfoldable pub watch_all : Watcher → List (ℕ × List ℕ) → Option Watcher
watch_all w [] = some w
watch_all w ((fd, accesses) ∷ rs) = elim (set_all (fdwatch_add_fd w (some fd)) fd accesses) [
  | none ↦ none
  | some w' ↦ watch_all w' rs
]

unfoldable pub run_round : Watcher → WatchRound → Option Watcher
run_round w r = elim (watch_all (fdwatch_zero w) r.asked) [
  | none ↦ none
  | some w' ↦ some (fdwatch w' r.answer).0
]

unfoldable pub run_rounds : Watcher → List WatchRound → Option Watcher
run_rounds w [] = some w
run_rounds w (r ∷ rs) = elim (run_round w r) [ none ↦ none | some w' ↦ run_rounds w' rs ]

-- The bits that the accesses stand for.
abbrev pub wanted_bits : Bits → List ℕ → Bits
wanted_bits events [] = events
wanted_bits events (access ∷ more) = wanted_bits (ask access events) more

-- Different descriptors below the limit, and no more than fit.
abbrev pub AreDifferent : List (ℕ × List ℕ) → Type 0
AreDifferent [] = Unit
AreDifferent ((fd, _) ∷ rs) = All (λ r. fd ≢ r.0) rs × AreDifferent rs

abbrev pub AreAsked : ℕ → List (ℕ × List ℕ) → Type 0
AreAsked limit rs = AreDifferent rs × All (λ r. r.0 < limit) rs × (length rs ≤ limit)

abbrev pub IsWatching : ℕ → Watcher → Type 0
IsWatching limit w = IsWatcher w × (w.nfiles ≡ limit)

abbrev pub AreWatched : Watcher → List (ℕ × List ℕ) → Type 0
AreWatched w rs = All (λ r. Watches w r.0 (wanted_bits no_bits r.1)) rs

set_all-Watches :
    (accesses : List ℕ) (limit : ℕ) (w : Watcher) (fd : ℕ) (events : Bits)
    → IsWatching limit w
    → fd < limit
    → Watches w fd events
    → (w' : Watcher) × (set_all w fd accesses ≡ some w')
      × IsWatching limit w'
      × (w'.npoll_fds ≡ w.npoll_fds)
      × Watches w' fd (wanted_bits events accesses)
      × ((other : ℕ) (events' : Bits)
          → fd ≢ other
          → Watches w other events'
          → Watches w' other events')
unfolding set_all
set_all-Watches [] limit w fd events good low seen =
    (w, refl, good, refl, seen, λ other events' ne old. old)
set_all-Watches (access ∷ more) limit w fd events (good, files) low seen =
    let (w₁, sets, good₁, files₁, count₁, seen₁, others₁) =
      fdwatch_set_fd-Watches w fd access events good (omega (arith, files)) seen in
    let (w₂, returns, good₂, count₂, seen₂, others₂) =
      set_all-Watches more limit w₁ fd (ask access events) (good₁, files₁ ∙ files) low seen₁ in
    (
      w₂,
      rw (set_all, sets) returns,
      good₂,
      count₂ ∙ count₁,
      seen₂,
      λ other events' ne old. others₂ other events' ne (others₁ other events' ne old),
    )

pub watch_all_keeps :
    (limit : ℕ) (rs : List (ℕ × List ℕ)) (w : Watcher)
    → IsWatching limit w
    → w.npoll_fds + length rs ≤ limit
    → AreDifferent rs
    → All (λ r. r.0 < limit) rs
    → (w' : Watcher) × (watch_all w rs ≡ some w')
      × IsWatching limit w'
      × AreWatched w' rs
      × ((other : ℕ) (events : Bits)
          → All (λ r. other ≢ r.0) rs
          → Watches w other events
          → Watches w' other events)
unfolding watch_all
watch_all_keeps limit [] w good room different low = (w, refl, good, tt, λ other events h old. old)
watch_all_keeps limit ((fd, accesses) ∷ rs) w (good, files) room (new, different) (first, low) =
    let few : w.npoll_fds < w.nfiles = omega (arith, files) in
    let inside : fd < w.nfiles = omega (arith, files) in
    let (w₁, sets, good₁, count, seen, others) =
      set_all-Watches accesses limit (placed w fd) fd no_bits
        (placed-IsWatcher w fd good few, files) first (placed-Watches w fd good few inside) in
    let (w₂, returns, good₂, each, old) =
      watch_all_keeps limit rs w₁ good₁ (omega (arith, count)) different low in
    (
      w₂,
      rw (watch_all, fdwatch_add_fd-placed w fd good few inside, sets) returns,
      good₂,
      (old fd (wanted_bits no_bits accesses) new seen, each),
      λ other events h before.
          let ne : fd ≢ other = λ e. h.0 (sym e) in
          old other events h.1
            (others other events ne (placed-Watches_other w fd other events ne before)),
    )

fdwatch-IsWatching :
    (limit : ℕ) (w : Watcher) (answer : Polled)
    → IsWatching limit w
    → IsWatching limit (fdwatch w answer).0
unfolding fdwatch poll_watch
fdwatch-IsWatching limit w poll_failed good = good
fdwatch-IsWatching limit w (polled n bits_of) ((slots, indices, few, free), files) = (
  (
    length-write_revents bits_of w.npoll_fds w.pollfds ∙ slots,
    indices,
    few,
    λ i h. get_or-write_revents_behind bits_of w.npoll_fds w.pollfds i h ∙ free i h,
  ),
  files,
)

pub round_keeps :
    (limit : ℕ) (w : Watcher) (r : WatchRound)
    → IsWatching limit w
    → AreAsked limit r.asked
    → (w' : Watcher) × (watch_all (fdwatch_zero w) r.asked ≡ some w')
      × IsWatching limit w'
      × AreWatched w' r.asked
round_keeps limit w r (good, files) (different, low, few) =
    let (good', none_left, same) = fdwatch_zero-IsWatcher w good in
    let (w', returns, kept, each, _) =
      watch_all_keeps limit r.asked (fdwatch_zero w) (good', same ∙ files)
        (omega (arith, few, none_left)) different low in
    (w', returns, kept, each)

run_rounds_keeps :
    (limit : ℕ) (rs : List WatchRound) (w : Watcher)
    → IsWatching limit w
    → All (λ r. AreAsked limit r.asked) rs
    → (w' : Watcher) × (run_rounds w rs ≡ some w') × IsWatching limit w'
unfolding run_rounds run_round
run_rounds_keeps limit [] w good h = (w, refl, good)
run_rounds_keeps limit (r ∷ rs) w good (h, hs) =
    let (w₁, returns, kept, _) = round_keeps limit w r good h in
    let (w₂, returns', kept') =
      run_rounds_keeps limit rs (fdwatch w₁ r.answer).0 (fdwatch-IsWatching limit w₁ r.answer kept)
        hs in
    (w₂, rw (run_rounds, run_round, returns) returns', kept')

pub checks_answer :
    (limit n : ℕ) (bits_of : Option ℕ → Bits → Bits) (w : Watcher) (rs : List (ℕ × List ℕ))
    → IsWatching limit w
    → All (λ r. r.0 < limit) rs
    → AreWatched w rs
    → All
        (λ r.
          (access : ℕ)
          → fdwatch_check_fd (fdwatch w (polled n bits_of)).0 (some r.0) access
            ≡ bit_of access (bits_of (some r.0) (wanted_bits no_bits r.1)))
        rs
checks_answer limit n bits_of w [] good low each = tt
checks_answer limit n bits_of w ((fd, asked) ∷ rs) good (l, low) (e, each) = (
  λ access.
      let (k, below, index, slot) = e in
      fdwatch_check_fd_at w fd access n k _ bits_of good.0 (omega (arith, good.1)) index below slot,
  checks_answer limit n bits_of w rs good low each,
)

-- After any rounds, in each of which different descriptors below the limit are added and asked for,
-- such a round succeeds, and its checks say of each descriptor that it asked for what poll said of it
-- for what was asked, and nothing when poll reports an error of it.
pub run_rounds-fdwatch_check_fd :
    (limit : ℕ) (rs : List WatchRound) (asked : List (ℕ × List ℕ)) (n : ℕ)
    (bits_of : Option ℕ → Bits → Bits)
    → All (λ r. AreAsked limit r.asked) rs
    → AreAsked limit asked
    → (w₀ : Watcher) × (fdwatch_init limit true ≡ some w₀)
      × (w₁ : Watcher) × (run_rounds w₀ rs ≡ some w₁)
      × (w₂ : Watcher) × (run_round w₁ (record { asked = asked; answer = polled n bits_of })
          ≡ some w₂)
      × All
          (λ r.
            (access : ℕ)
            → fdwatch_check_fd w₂ (some r.0) access
              ≡ bit_of access (bits_of (some r.0) (wanted_bits no_bits r.1)))
          asked
unfolding run_round
run_rounds-fdwatch_check_fd limit rs asked n bits_of h h' =
    let (w₀, inits, good, files) = fdwatch_init-IsWatcher limit in
    let (w₁, returns, kept) = run_rounds_keeps limit rs w₀ (good, files) h in
    let (w, returns', kept', each) =
      round_keeps limit w₁ (record { asked = asked; answer = polled n bits_of }) kept h' in
    (
      w₀,
      inits,
      w₁,
      returns,
      (fdwatch w (polled n bits_of)).0,
      rw (run_round, returns') refl,
      checks_answer limit n bits_of w asked kept' h'.1 each,
    )
