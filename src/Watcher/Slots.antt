-- ===== src/Watcher/Slots.antt =====
-- The slots of the watch list: what clearing, adding, asking and polling leave in them.
use xdccget_for_windows.Watcher.{PollFd, empty_slot, write_revents, clear_first, Bits}
use xdccget_for_windows.Base.{
  [], suc, length, arith, ap, ℕ, List, zero, ◌≤◌, Option, ◌∷◌, get_or, ◌≡◌, refl, ◌<◌, inl, ltb,
  set, ◌⊎◌, inr, Bool-cases, replicate,
}

pub get_or-clear_first :
    {A : Type 0} (a : A) (n : ℕ) (xs : List A) (i : ℕ)
    → n ≤ i
    → (d : A) → get_or (clear_first a n xs) i d ≡ get_or xs i d
unfolding clear_first
get_or-clear_first a zero xs i h d = refl
get_or-clear_first a (suc n) [] i h d = refl
get_or-clear_first a (suc n) (x ∷ xs) zero h d = absurd (omega arith)
get_or-clear_first a (suc n) (x ∷ xs) (suc i) h d = get_or-clear_first a n xs i (omega arith) d

pub get_or-clear_first_in :
    {A : Type 0} (a : A) (n : ℕ) (xs : List A) (i : ℕ) → i < n → get_or (clear_first a n xs) i a ≡ a
unfolding clear_first
get_or-clear_first_in a zero xs i h = absurd (omega arith)
get_or-clear_first_in a (suc n) [] i h = refl
get_or-clear_first_in a (suc n) (x ∷ xs) zero h = refl
get_or-clear_first_in a (suc n) (x ∷ xs) (suc i) h = get_or-clear_first_in a n xs i (omega arith)

pub length-clear_first :
    {A : Type 0} (a : A) (n : ℕ) (xs : List A) → length (clear_first a n xs) ≡ length xs
unfolding clear_first
length-clear_first a zero xs = refl
length-clear_first a (suc n) [] = refl
length-clear_first a (suc n) (x ∷ xs) = ap suc (length-clear_first a n xs)

pub get_or-write_revents :
    (bits_of : Option ℕ → Bits → Bits) (n : ℕ) (ps : List PollFd) (i : ℕ)
    → i < n
    → i < length ps
    → get_or (write_revents bits_of n ps) i empty_slot ≡ record (get_or ps i empty_slot) {
      revents = bits_of (get_or ps i empty_slot).fd (get_or ps i empty_slot).events;
    }
unfolding write_revents
get_or-write_revents bits_of zero ps i h h' = absurd (omega arith)
get_or-write_revents bits_of (suc n) [] i h h' = absurd (omega arith)
get_or-write_revents bits_of (suc n) (p ∷ ps) zero h h' = refl
get_or-write_revents bits_of (suc n) (p ∷ ps) (suc i) h h' =
    get_or-write_revents bits_of n ps i (omega arith) (omega arith)

pub below_or_not : (i n : ℕ) → (i < n) ⊎ (n ≤ i)
below_or_not i n = elim (Bool-cases (ltb i n)) [
  | inl e ↦ inl (ground arith)
  | inr e ↦ inr (ground arith)
]

pub length-replicate : {A : Type 0} (n : ℕ) (a : A) → length (replicate n a) ≡ n
length-replicate zero a = refl
length-replicate (suc n) a = ap suc (length-replicate n a)

pub get_or-replicate : {A : Type 0} (n : ℕ) (a : A) (i : ℕ) → get_or (replicate n a) i a ≡ a
get_or-replicate zero a i = refl
get_or-replicate (suc n) a zero = refl
get_or-replicate (suc n) a (suc i) = get_or-replicate n a i

pub set-set : {A : Type 0} (xs : List A) (i : ℕ) (a b : A) → set (set xs i a) i b ≡ set xs i b
set-set [] i a b = refl
set-set (x ∷ xs) zero a b = refl
set-set (x ∷ xs) (suc i) a b = ap (◌∷◌ x) (set-set xs i a b)

pub get_or-write_revents_behind :
    (bits_of : Option ℕ → Bits → Bits) (n : ℕ) (ps : List PollFd) (i : ℕ)
    → n ≤ i
    → get_or (write_revents bits_of n ps) i empty_slot ≡ get_or ps i empty_slot
unfolding write_revents
get_or-write_revents_behind bits_of zero ps i h = refl
get_or-write_revents_behind bits_of (suc n) [] i h = refl
get_or-write_revents_behind bits_of (suc n) (p ∷ ps) zero h = absurd (omega arith)
get_or-write_revents_behind bits_of (suc n) (p ∷ ps) (suc i) h =
    get_or-write_revents_behind bits_of n ps i (omega arith)

pub length-write_revents :
    (bits_of : Option ℕ → Bits → Bits) (n : ℕ) (ps : List PollFd)
    → length (write_revents bits_of n ps) ≡ length ps
unfolding write_revents
length-write_revents bits_of zero ps = refl
length-write_revents bits_of (suc n) [] = refl
length-write_revents bits_of (suc n) (p ∷ ps) = ap suc (length-write_revents bits_of n ps)
