-- ===== src/Limit.antt =====
-- helper.c: `pow_uint64`, `getSizeOf`, `setMaxTransferSpeed`, `setDelay`; xdccget.c: the throttle
-- `getCurrentTransferSpeed`, `getAdjustmentValue`, `getSleepTime`.
pub mod Laws
pub mod Throttle
use xdccget_for_windows.Base.{
  ℕ, zero, suc, not, Option, none, some, List, [], ltb, leb, u32, u64, ◌+◌, ◌-◌, ◌*◌, ◌/◌, ◌^◌, ◌∷◌,
  ◌==◌, if◌then◌else◌,
}
use xdccget_for_windows.Bytes.{Bytes, codes, str_equals}
use xdccget_for_windows.Bytes.Number.{scan_ulong, scan_word}
use xdccget_for_windows.Cfg.{XdccGetConfig, SendDelay, no_speed_limit}

-- `exp` rounds of `ret *= number` in uint64_t.
pow_loop : ℕ → ℕ → ℕ → ℕ
pow_loop ret number zero = ret
pow_loop ret number (suc exp) = pow_loop (u64 (ret * number)) number exp

unfoldable pub pow_uint64 : ℕ → ℕ → ℕ
unfolding pow_loop
pow_uint64 number exp = pow_loop 1 number exp

abbrev pub size_names : List Bytes
size_names =
    codes "Byte"
    ∷ codes "KByte"
    ∷ codes "MByte"
    ∷ codes "GByte"
    ∷ codes "TByte"
    ∷ codes "PByte"
    ∷ []

-- The loop over `sizeNames`: the first name that equals `size`, counted from `i`.
unfoldable pub found_size : Bytes → List Bytes → ℕ → Option ℕ
unfolding str_equals
found_size size [] i = none
found_size size (name ∷ names) i =
    let rest = found_size size names (i + 1) in if str_equals size name then some i else rest

-- An unknown name gives (uint64_t) -1.
unfoldable pub get_size_of : ℕ → Bytes → ℕ
unfolding found_size pow_uint64
get_size_of value size = elim (found_size size size_names 0) [
  | none ↦ 2 ^ 64 - 1
  | some i ↦ u64 (value * pow_uint64 1024 i)
]

-- sscanf(value, "%d%100s", &val, size): the number and the unit, if both are there.
-- What %d does with a number that it cannot represent is undefined; here it keeps the low 32 bits.
unfoldable pub scan_speed : Bytes → Option (ℕ × Bytes)
unfolding scan_ulong scan_word
scan_speed value = elim (scan_ulong value) [
  | none ↦ none
  | some (val, rest) ↦ elim (scan_word rest) [ none ↦ none | some size ↦ some (u32 val, size) ]
]

unfoldable pub set_max_transfer_speed : XdccGetConfig → Bytes → XdccGetConfig
unfolding scan_speed get_size_of
set_max_transfer_speed config value = elim (scan_speed value) [
  | none ↦ record config { max_transfer_speed = no_speed_limit }
  | some (val, size) ↦
      let max_speed = get_size_of val size in
      if ltb 0 max_speed
      then record config { max_transfer_speed = max_speed }
      else record config { max_transfer_speed = no_speed_limit }
]

-- `now` is time(NULL); `val` stays 0 where sscanf reads no number.
unfoldable pub set_delay : ℕ → XdccGetConfig → Bytes → XdccGetConfig
unfolding scan_ulong
set_delay now config value =
    let val : ℕ = elim (scan_ulong value) [ none ↦ 0 | some (n, rest) ↦ n ] in
    record config {
      send_delay = some (record { send_delay_in_secs = val; time_to_send_command = now + val });
    }

-- The sum of the average speeds of the running downloads.
unfoldable pub get_current_transfer_speed : List ℕ → ℕ → ℕ
get_current_transfer_speed [] speed = speed
get_current_transfer_speed (average ∷ averages) speed =
    get_current_transfer_speed averages (u64 (speed + average))

unfoldable pub get_adjustment_value : ℕ → ℕ → ℕ
get_adjustment_value a b = if not (b == 0) then a / b else 1

-- `factor`
abbrev pub factor : ℕ
factor = 5

-- One call, from the static `sleepTime` before it: the result and the static after it.
unfoldable pub get_sleep_time : ℕ → ℕ → ℕ → ℕ × ℕ
unfolding get_adjustment_value
get_sleep_time max_speed current_speed sleep_time =
    if max_speed == no_speed_limit
    then (0, sleep_time)
    else if ltb max_speed current_speed
    then (let next = u32 (sleep_time + get_adjustment_value current_speed max_speed * factor) in
        (next, next))
    else (let adjustment = u64 (get_adjustment_value max_speed current_speed * factor) in
        if leb adjustment sleep_time
        then (sleep_time - adjustment, sleep_time - adjustment)
        else (0, 0))
