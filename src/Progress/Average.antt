-- ===== src/Progress/Average.antt =====
-- The average speed lies between the smallest and the largest speed of the array.
use xdccget_for_windows.Progress.{average_of, average_from, DccCurrentSpeed, get_average_speed}
use xdccget_for_windows.Base.{
  ◌<◌, ℕ, refl, ◌^◌, arith, u64, ◌/◌, inl, ◌≢◌, [], List, Bool-cases, ◌≤◌, All, ◌+◌, ◌∷◌, inr,
}

abbrev pub Within : ℕ → ℕ → ℕ → Type 0
Within lo hi x = (lo ≤ x) × (x ≤ hi)

average_from-Within :
    (lo hi average : ℕ) (speeds : List ℕ)
    → hi < 2 ^ 63
    → Within lo hi average
    → All (Within lo hi) speeds
    → Within lo hi (average_from average speeds)
unfolding average_from
average_from-Within lo hi average [] fits h hs = h
average_from-Within lo hi average (speed ∷ speeds) fits h hs =
    average_from-Within lo hi (u64 (average + speed) / 2) speeds fits (omega arith) hs.1

average_of-Within :
    (lo hi : ℕ) (speeds : List ℕ)
    → hi < 2 ^ 63
    → All (Within lo hi) speeds
    → speeds ≢ []
    → Within lo hi (average_of speeds)
unfolding average_of
average_of-Within lo hi [] fits hs ne = absurd (ne refl)
average_of-Within lo hi (speed ∷ speeds) fits hs ne =
    average_from-Within lo hi speed speeds fits hs.0 hs.1

-- If every speed of the array, and the current one, lies between two bounds below 2^63, then so
-- does the average, whether the array is filled or not.
pub get_average_speed-Within :
    (s : DccCurrentSpeed) (cur lo hi : ℕ)
    → hi < 2 ^ 63
    → s.cur_speed ≢ []
    → All (Within lo hi) s.cur_speed
    → Within lo hi cur
    → Within lo hi (get_average_speed s cur)
unfolding get_average_speed
get_average_speed-Within s cur lo hi fits ne hs hc = elim (Bool-cases s.is_speed_array_filled) [
  | inl e ↦ rw (e, get_average_speed) (average_of-Within lo hi s.cur_speed fits hs ne)
  | inr e ↦ rw (e, get_average_speed) hc
]
