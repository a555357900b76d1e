-- ===== src/Flags.antt =====
-- The flag word of struct xdccGetConfig: helper.h, `set_bit`, `clear_bit`, `get_bit` on bitset_t.
pub mod Laws
mod Digits
use Prim.Native.Nat.{bit_and, bit_or}
use xdccget_for_windows.Base.{ℕ, ◌-◌, ◌/◌, ◌^◌}

-- `bitset_t` is uint64_t; a bit number is below 64.
unfoldable pub clear_bit : ℕ → ℕ → ℕ
clear_bit x bit_num = bit_and x (2 ^ 64 - 1 - 2 ^ bit_num)

unfoldable pub set_bit : ℕ → ℕ → ℕ
set_bit x bit_num = bit_or x (2 ^ bit_num)

unfoldable pub get_bit : ℕ → ℕ → ℕ
get_bit x bit_num = bit_and (x / 2 ^ bit_num) 1
