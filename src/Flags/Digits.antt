-- ===== src/Flags/Digits.antt =====
-- The native `|` and `&`, which helper.h applies to the flag word: one binary digit at a time, and
-- with a mask of low bits, at every width.
use Prim.Native.Nat.{bit_and, bit_or, digits, bit_and-bitwise, bit_or-bitwise}
use native.Mathlib.Nat.{pow-suc, one-le-pow}
use xdccget_for_windows.Base.{
  ℕ, zero, suc, ◌+◌, ◌-◌, ◌*◌, ◌/◌, ◌%◌, ◌^◌, ◌≤◌, ◌<◌, min, max, ◌≡◌, refl, ap, ◌∙◌, inl, inr, ◌⊎◌,
  arith,
}

-- Induction by halves: what holds of 0, and of each number if of its half, holds of all.
halves_below {ℓ} :
    (P : ℕ → Type ℓ) → P 0 → ((k : ℕ) → P (suc k / 2) → P (suc k)) → (bound x : ℕ) → x ≤ bound → P x
halves_below P base half bound zero h = base
halves_below P base half zero (suc k) h = absurd (omega arith)
halves_below P base half (suc bound) (suc k) h =
    half k (halves_below P base half bound (suc k / 2) (omega arith))

by_halves {ℓ} : (P : ℕ → Type ℓ) → P 0 → ((k : ℕ) → P (suc k / 2) → P (suc k)) → (x : ℕ) → P x
by_halves P base half x = halves_below P base half x x (omega arith)

-- The library's digit recursion runs on fuel; one round more changes nothing once it is enough.
module _ (z : ℕ → ℕ) (op : ℕ → ℕ → ℕ) where
  one_round_more : (fuel x y : ℕ) → x ≤ fuel → digits z op (suc fuel) x y ≡ digits z op fuel x y
  one_round_more zero zero y h = refl
  one_round_more zero (suc x) y h = absurd (omega arith)
  one_round_more (suc fuel) zero y h = refl
  one_round_more (suc fuel) (suc x) y h =
      ap (λ (t : ℕ). t * 2 + op (suc x % 2) (y % 2))
        (one_round_more fuel (suc x / 2) (y / 2) (omega arith))

  least_fuel : (fuel x y : ℕ) → x ≤ fuel → digits z op fuel x y ≡ digits z op x x y
  least_fuel zero zero y h = refl
  least_fuel zero (suc x) y h = absurd (omega arith)
  least_fuel (suc fuel) x y h = elim (full_or_less h) [
    | inl e ↦ rw e
    | inr less ↦ one_round_more fuel x y less ∙ least_fuel fuel x y less
  ]
    where
      full_or_less : {a b : ℕ} → a ≤ suc b → (a ≡ suc b) ⊎ (a ≤ b)
      full_or_less p = grind arith

  split_digit :
      (x y : ℕ)
      → digits z op (suc x) (suc x) y
        ≡ digits z op (suc x / 2) (suc x / 2) (y / 2) * 2 + op (suc x % 2) (y % 2)
  split_digit x y =
      ap (λ (t : ℕ). t * 2 + op (suc x % 2) (y % 2))
        (least_fuel x (suc x / 2) (y / 2) (omega arith))

pub bit_or_digit : (x y : ℕ) → bit_or x y ≡ bit_or (x / 2) (y / 2) * 2 + max (x % 2) (y % 2)
bit_or_digit zero y = simp bit_or-bitwise (omega arith)
bit_or_digit (suc x) y = simp bit_or-bitwise (split_digit (λ rest. rest) max x y)

pub bit_and_digit : (x y : ℕ) → bit_and x y ≡ bit_and (x / 2) (y / 2) * 2 + min (x % 2) (y % 2)
bit_and_digit zero y = simp bit_and-bitwise (omega arith)
bit_and_digit (suc x) y = simp bit_and-bitwise (split_digit (λ rest. 0) min x y)

pub bit_and-zero : (x : ℕ) → bit_and x 0 ≡ 0
bit_and-zero =
    by_halves (λ x. bit_and x 0 ≡ 0) refl (λ k half. omega (arith, bit_and_digit (suc k) 0, half))

pub bit_or-zero : (x : ℕ) → bit_or x 0 ≡ x
bit_or-zero =
    by_halves (λ x. bit_or x 0 ≡ x) refl (λ k half. omega (arith, bit_or_digit (suc k) 0, half))

pub bit_and-one : (x : ℕ) → bit_and x 1 ≡ x % 2
bit_and-one x = omega (arith, bit_and_digit x 1, bit_and-zero (x / 2))

-- `x & (2^w - 1)` leaves a value of w bits as it is.
pub bit_and-ones : (w x : ℕ) → x < 2 ^ w → bit_and x (2 ^ w - 1) ≡ x
bit_and-ones zero x h = omega (arith, bit_and-zero x)
bit_and-ones (suc w) x h = omega (
  arith,
  bit_and_digit x (2 ^ suc w - 1),
  pow-suc 2 w,
  one-le-pow w 2,
  bit_and-ones w (x / 2) (omega (arith, pow-suc 2 w)),
  ap (bit_and (x / 2)) halved,
)
  where
    halved : (2 ^ suc w - 1) / 2 ≡ 2 ^ w - 1
    halved = omega (arith, pow-suc 2 w, one-le-pow w 2)
