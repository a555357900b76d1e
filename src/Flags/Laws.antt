-- ===== src/Flags/Laws.antt =====
-- The laws of the flag word: each bit is read, set and cleared on its own.
use xdccget_for_windows.Base.{
  ℕ, zero, suc, refl, sym, ap, arith, ◌-◌, ◌/◌, ◌%◌, ◌^◌, ◌≤◌, ◌<◌, ◌≡◌, ◌∙◌, ◌==◌, if◌then◌else◌,
}
use Prim.Native.Nat.{bit_and, bit_or}
use native.Mathlib.Nat.{pow-suc, one-le-pow, div-div-eq-div-mul, mul_comm}
use xdccget_for_windows.Flags.{set_bit, clear_bit, get_bit}
use xdccget_for_windows.Flags.Digits.{
  bit_or_digit, bit_and_digit, bit_and-one, bit_or-zero, bit_and-ones,
}

-- Digit `n` of `x`, by recursion on `n`.
digit : ℕ → ℕ → ℕ
digit x zero = x % 2
digit x (suc n) = digit (x / 2) n

get_bit-digit : (n x : ℕ) → get_bit x n ≡ digit x n
unfolding get_bit digit
get_bit-digit zero x = bit_and-one (x / 1) ∙ omega arith
get_bit-digit (suc n) x = ap (λ (t : ℕ). bit_and t 1) shifted ∙ get_bit-digit n (x / 2)
  where
    shifted : x / 2 ^ suc n ≡ x / 2 / 2 ^ n
    shifted =
        ap (λ (t : ℕ). x / t) (pow-suc 2 n ∙ mul_comm _ _) ∙ sym (div-div-eq-div-mul x 2 (2 ^ n))

halved_power : (n : ℕ) → 2 ^ suc n / 2 ≡ 2 ^ n
halved_power n = omega (arith, pow-suc 2 n)

digit-zero : (m : ℕ) → digit 0 m ≡ 0
unfolding digit
digit-zero zero = refl
digit-zero (suc m) = digit-zero m

digit-bit_or : (n m x : ℕ) → digit (bit_or x (2 ^ n)) m ≡ (if n == m then 1 else digit x m)
unfolding digit
digit-bit_or zero zero x = omega (arith, bit_or_digit x 1)
digit-bit_or zero (suc m) x = ap (λ (t : ℕ). digit t m) half ∙ ground arith
  where
    half : bit_or x (2 ^ 0) / 2 ≡ x / 2
    half = omega (arith, bit_or_digit x 1, bit_or-zero (x / 2))
digit-bit_or (suc n) zero x = ground (arith, bit_or_digit x (2 ^ suc n), pow-suc 2 n)
digit-bit_or (suc n) (suc m) x =
    ap (λ (t : ℕ). digit t m) half ∙ digit-bit_or n m (x / 2) ∙ ground arith
  where
    half : bit_or x (2 ^ suc n) / 2 ≡ bit_or (x / 2) (2 ^ n)
    half = omega (arith, bit_or_digit x (2 ^ suc n), ap (bit_or (x / 2)) (halved_power n))

-- The mask of `clear_bit` at width `w`: all ones but the digit `n`.
all_but : ℕ → ℕ → ℕ
all_but w n = 2 ^ w - 1 - 2 ^ n

power_below : (n w : ℕ) → n < w → 2 ^ n ≤ 2 ^ w - 1
power_below n zero h = absurd (omega arith)
power_below zero (suc w) h = omega (arith, pow-suc 2 w, one-le-pow w 2)
power_below (suc n) (suc w) h =
    omega (arith, pow-suc 2 w, pow-suc 2 n, one-le-pow w 2, power_below n w (omega arith))

all_but-suc :
    (w n : ℕ)
    → n < w
    → (all_but (suc w) (suc n) / 2 ≡ all_but w n) × (all_but (suc w) (suc n) % 2 ≡ 1)
unfolding all_but
all_but-suc w n h = omega (arith, pow-suc 2 w, pow-suc 2 n, one-le-pow w 2, power_below n w h)

all_but-zero : (w : ℕ) → (all_but (suc w) 0 / 2 ≡ 2 ^ w - 1) × (all_but (suc w) 0 % 2 ≡ 0)
unfolding all_but
all_but-zero w = omega (arith, pow-suc 2 w, one-le-pow w 2)

digit-bit_and :
    (w n m x : ℕ)
    → n < w
    → x < 2 ^ w
    → digit (bit_and x (all_but w n)) m ≡ (if n == m then 0 else digit x m)
unfolding digit
digit-bit_and zero n m x h hx = absurd (omega arith)
digit-bit_and (suc w) zero zero x h hx =
    omega (arith, bit_and_digit x (all_but (suc w) 0), all_but-zero w)
digit-bit_and (suc w) zero (suc m) x h hx = ap (λ (t : ℕ). digit t m) half ∙ ground arith
  where
    kept : bit_and (x / 2) (2 ^ w - 1) ≡ x / 2
    kept = bit_and-ones w (x / 2) (omega (arith, pow-suc 2 w))

    half : bit_and x (all_but (suc w) 0) / 2 ≡ x / 2
    half = omega (
      arith,
      bit_and_digit x (all_but (suc w) 0),
      all_but-zero w,
      ap (bit_and (x / 2)) (all_but-zero w).0,
      kept,
    )
digit-bit_and (suc w) (suc n) zero x h hx =
    ground (arith, bit_and_digit x (all_but (suc w) (suc n)), all_but-suc w n (omega arith))
digit-bit_and (suc w) (suc n) (suc m) x h hx =
    ap (λ (t : ℕ). digit t m) half
    ∙ digit-bit_and w n m (x / 2) (omega arith) (omega (arith, pow-suc 2 w))
    ∙ ground arith
  where
    half : bit_and x (all_but (suc w) (suc n)) / 2 ≡ bit_and (x / 2) (all_but w n)
    half = omega (
      arith,
      bit_and_digit x (all_but (suc w) (suc n)),
      all_but-suc w n (omega arith),
      ap (bit_and (x / 2)) (all_but-suc w n (omega arith)).0,
    )

-- Setting bit `n` sets it, and changes no other bit.
pub get_bit-set_bit : (x n m : ℕ) → get_bit (set_bit x n) m ≡ (if n == m then 1 else get_bit x m)
unfolding set_bit
get_bit-set_bit x n m =
    rw (get_bit-digit m (bit_or x (2 ^ n)), get_bit-digit m x) (digit-bit_or n m x)

-- Clearing bit `n` of a 64-bit word clears it, and changes no other bit.
pub get_bit-clear_bit :
    (x n m : ℕ)
    → n < 64
    → x < 2 ^ 64
    → get_bit (clear_bit x n) m ≡ (if n == m then 0 else get_bit x m)
unfolding clear_bit all_but
get_bit-clear_bit x n m hn hx =
    rw (get_bit-digit m (bit_and x (2 ^ 64 - 1 - 2 ^ n)), get_bit-digit m x)
      (digit-bit_and 64 n m x hn hx)
