-- ===== src/Limit/Throttle.antt =====
-- The throttle's sleep time over the calls of `getSleepTime`.
use xdccget_for_windows.Base.{
  ℕ, arith, ◌+◌, ◌-◌, ◌*◌, ◌/◌, ◌^◌, ◌≤◌, ◌<◌, ◌≡◌, ◌≢◌, List, [], ◌∷◌, All, length,
}
use xdccget_for_windows.Limit.{factor, get_sleep_time}

-- The static after a call at each of the speeds.
abbrev pub sleep_after : ℕ → List ℕ → ℕ → ℕ
sleep_after max_speed [] sleep_time = sleep_time
sleep_after max_speed (speed ∷ speeds) sleep_time =
    sleep_after max_speed speeds (get_sleep_time max_speed speed sleep_time).1

one_le_div : (a b : ℕ) → b ≤ a → b ≢ 0 → 1 ≤ a / b
one_le_div a b h ne = grind arith

-- Above a limit that is set, a call adds to the sleep time, and returns, five microseconds for each
-- whole multiple of the limit that the speed reaches, as long as the sum fits 32 bits; that is at
-- least five.
get_sleep_time_above :
    (max_speed current_speed sleep_time : ℕ)
    → max_speed ≢ 0
    → max_speed < current_speed
    → sleep_time + current_speed / max_speed * factor < 2 ^ 32
    → (get_sleep_time max_speed current_speed sleep_time ≡ (
      sleep_time + current_speed / max_speed * factor,
      sleep_time + current_speed / max_speed * factor,
    ))
      × (sleep_time + factor ≤ (get_sleep_time max_speed current_speed sleep_time).1)
unfolding get_sleep_time
get_sleep_time_above max_speed current_speed sleep_time ne h fits =
    ground (arith, one_le_div current_speed max_speed)

-- At or below the limit a call takes at least five off the sleep time, or leaves none.
get_sleep_time_below :
    (max_speed current_speed sleep_time : ℕ)
    → max_speed ≢ 0
    → max_speed * factor < 2 ^ 64
    → current_speed ≤ max_speed
    → (get_sleep_time max_speed current_speed sleep_time).1 ≤ sleep_time - factor
unfolding get_sleep_time
get_sleep_time_below max_speed current_speed sleep_time ne fits h =
    ground (arith, one_le_div max_speed current_speed)

-- While the speeds, which may change from call to call, stay within a limit that is set, and five
-- times which fits 64 bits, the sleep time is back at 0 after these calls, if they are enough to count
-- it down by fives.
pub sleep_after_within :
    (max_speed : ℕ) (speeds : List ℕ) (sleep_time : ℕ)
    → max_speed ≢ 0
    → max_speed * factor < 2 ^ 64
    → All (λ speed. speed ≤ max_speed) speeds
    → sleep_time ≤ length speeds * factor
    → sleep_after max_speed speeds sleep_time ≡ 0
sleep_after_within max_speed [] sleep_time ne fits h enough = omega arith
sleep_after_within max_speed (speed ∷ speeds) sleep_time ne fits (h, hs) enough =
    sleep_after_within max_speed speeds _ ne fits hs
      (omega (arith, get_sleep_time_below max_speed speed sleep_time ne fits h))
