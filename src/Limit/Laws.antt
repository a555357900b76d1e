-- ===== src/Limit/Laws.antt =====
-- The units of a speed limit: what a text such as "5MByte" sets.
use xdccget_for_windows.Base.{
  ℕ, zero, suc, refl, sym, ap, none, some, List, [], arith, u64, get_or, All, ◌+◌, ◌-◌, ◌*◌, ◌/◌,
  ◌%◌, ◌^◌, ◌<◌, ◌≡◌, ◌∙◌, ◌≢◌, ◌∷◌, inl, inr, Option-cases,
}
use native.Mathlib.Nat.{
  pow-zero, pow-suc, mod-eq_of_lt, mul_assoc, mul_comm, one-mul, mod-add-div',
  add-mul-mod_self_right,
}
use xdccget_for_windows.Limit.{
  pow_loop, pow_uint64, size_names, set_max_transfer_speed, scan_speed, found_size, get_size_of,
}
use xdccget_for_windows.Bytes.Laws.{str_equals_iff}
use xdccget_for_windows.Cfg.{XdccGetConfig}
use xdccget_for_windows.Bytes.{Bytes}

mod-mul : (a b m : ℕ) → a % m * b % m ≡ a * b % m
mod-mul a b m = sym (add-mul-mod_self_right (a % m * b) (a / m * b) m) ∙ ap (λ (t : ℕ). t % m) whole
  where
    whole : a % m * b + a / m * b * m ≡ a * b
    whole = omega (arith, ap (λ (t : ℕ). t * b) (mod-add-div' a m))

-- The loop multiplies modulo 2^64.
pow_loop-mod :
    (ret number exp : ℕ) → ret < 2 ^ 64 → pow_loop ret number exp ≡ ret * number ^ exp % 2 ^ 64
unfolding pow_loop
pow_loop-mod ret number zero h = sym (
    ap (λ (t : ℕ). t % 2 ^ 64) (omega (arith, ap (λ (t : ℕ). ret * t) (pow-zero number)))
    ∙ mod-eq_of_lt h)
pow_loop-mod ret number (suc exp) h =
    pow_loop-mod (u64 (ret * number)) number exp (omega arith)
    ∙ mod-mul (ret * number) (number ^ exp) (2 ^ 64)
    ∙ ap (λ (t : ℕ). t % 2 ^ 64)
        (omega (
          arith,
          ap (λ (t : ℕ). ret * t) (pow-suc number exp ∙ mul_comm _ _),
          mul_assoc ret number (number ^ exp),
        ))

-- `pow_uint64` is exponentiation modulo 2^64.
pub pow_uint64-mod : (number exp : ℕ) → pow_uint64 number exp ≡ number ^ exp % 2 ^ 64
unfolding pow_uint64
pow_uint64-mod number exp =
    pow_loop-mod 1 number exp (omega arith) ∙ ap (λ (t : ℕ). t % 2 ^ 64) (one-mul (number ^ exp))

-- The unit `k`: "Byte", "KByte" and so on.
abbrev pub unit_name : ℕ → Bytes
unit_name k = get_or size_names k []

found_size-unit_name : (k : ℕ) → k < 6 → found_size (unit_name k) size_names 0 ≡ some k
unfolding found_size
found_size-unit_name zero h = refl
found_size-unit_name (suc zero) h = refl
found_size-unit_name (suc (suc zero)) h = refl
found_size-unit_name (suc (suc (suc zero))) h = refl
found_size-unit_name (suc (suc (suc (suc zero)))) h = refl
found_size-unit_name (suc (suc (suc (suc (suc zero))))) h = refl
found_size-unit_name (suc (suc (suc (suc (suc (suc k)))))) h = absurd (omega arith)

found_size-none :
    (size : Bytes) (names : List Bytes) (i : ℕ)
    → All (λ name. size ≢ name) names
    → found_size size names i ≡ none
unfolding found_size
found_size-none size [] i h = refl
found_size-none size (name ∷ names) i h =
    ground (arith, str_equals_iff size name, found_size-none size names (i + 1) h.1)

get_size_of-unit_name :
    (value k : ℕ) → k < 6 → get_size_of value (unit_name k) ≡ value * 1024 ^ k % 2 ^ 64
unfolding get_size_of
get_size_of-unit_name value k h =
    rw (found_size-unit_name k h, get_size_of)
      (ap (λ (t : ℕ). u64 (value * t)) (pow_uint64-mod 1024 k)
        ∙ ap (λ (t : ℕ). t % 2 ^ 64) (mul_comm value _)
        ∙ mod-mul (1024 ^ k) value (2 ^ 64)
        ∙ ap (λ (t : ℕ). t % 2 ^ 64) (mul_comm _ value))

get_size_of_unknown :
    (value : ℕ) (size : Bytes)
    → All (λ name. size ≢ name) size_names
    → get_size_of value size ≡ 2 ^ 64 - 1
unfolding get_size_of
get_size_of_unknown value size h = rw (found_size-none size size_names 0 h, get_size_of)

-- A text that reads as a number `val` and the unit number `k` sets the limit to `val * 1024 ^ k`
-- bytes per second, if that fits 64 bits, and changes nothing else.
pub set_max_transfer_speed-unit_name :
    (config : XdccGetConfig) (value : Bytes) (val k : ℕ)
    → scan_speed value ≡ some (val, unit_name k)
    → k < 6
    → val * 1024 ^ k < 2 ^ 64
    → set_max_transfer_speed config value ≡ record config { max_transfer_speed = val * 1024 ^ k }
unfolding set_max_transfer_speed
set_max_transfer_speed-unit_name config value val k e h fits =
    rw (e, set_max_transfer_speed) (ground (arith, exact))
  where
    exact : get_size_of val (unit_name k) ≡ val * 1024 ^ k
    exact = get_size_of-unit_name val k h ∙ mod-eq_of_lt fits

-- A number with any other unit sets the limit 2^64 - 1, and not NO_SPEED_LIMIT.
set_max_transfer_speed_unknown :
    (config : XdccGetConfig) (value : Bytes) (val : ℕ) (size : Bytes)
    → scan_speed value ≡ some (val, size)
    → All (λ name. size ≢ name) size_names
    → (set_max_transfer_speed config value).max_transfer_speed ≡ 2 ^ 64 - 1
unfolding set_max_transfer_speed
set_max_transfer_speed_unknown config value val size e h =
    rw (e, set_max_transfer_speed) (ground (arith, get_size_of_unknown val size h))

-- Whatever the text, only the limit changes.
pub set_max_transfer_speed_rest :
    (config : XdccGetConfig) (value : Bytes)
    → set_max_transfer_speed config value ≡ record config {
      max_transfer_speed = (set_max_transfer_speed config value).max_transfer_speed;
    }
unfolding set_max_transfer_speed
set_max_transfer_speed_rest config value = elim (Option-cases (scan_speed value)) [
  | inl e ↦ rw (e, set_max_transfer_speed)
  | inr ((val, size), e) ↦ rw (e, set_max_transfer_speed) (unfold get_size_of in ground arith)
]
