-- ===== src/Progress/Speeds.antt =====
-- The speeds that `outputProgress` saves, over the whole download.
use xdccget_for_windows.Base.{
  inr, List, ◌^◌, ◌+◌, ◌∷◌, ◌≤◌, Bool-cases, ltb, [], ◌-◌, inl, ◌≡◌, if◌then◌else◌, ◌<◌, ℕ, subst,
  arith,
}
use xdccget_for_windows.Progress.Ring.{Holds, save_current_speed-Holds}
use xdccget_for_windows.Progress.{DccDownloadProgress, output_progress, save_current_speed, sub64}

abbrev pub sum : List ℕ → ℕ
sum [] = 0
sum (x ∷ xs) = x + sum xs

-- What the callbacks do to a progress between two outputs: bytes arrive, never beyond 2^64 - 1.
pub record IsTracked (start : ℕ) (history : List ℕ) (p : DccDownloadProgress) : Type 0 where
  pub holds : Holds p.cur_speed history
  pub accounted : start + sum history ≡ p.size_now
  pub ordered : p.size_now ≤ p.size_rcvd
  pub fits : p.size_rcvd < 2 ^ 64

-- The speed that a call of `output_progress` saves, if the download has begun.
abbrev pub history_after : DccDownloadProgress → List ℕ → List ℕ
history_after p history =
    if ltb 0 p.size_rcvd then (p.size_rcvd - p.size_now) ∷ history else history

-- Each output saves the bytes that arrived since the one before: the saved speeds add up to what
-- was received since the start, and the array holds the newest of them.
pub output_progress-IsTracked :
    (start : ℕ) (history : List ℕ) (p : DccDownloadProgress)
    → IsTracked start history p
    → IsTracked start (history_after p history) (output_progress p)
unfolding output_progress
output_progress-IsTracked start history p v = elim (Bool-cases (ltb 0 p.size_rcvd)) [
  | inl e ↦
      rw (e, output_progress)
        (record {
          holds =
              subst
                (λ d.
                  Holds (save_current_speed p.cur_speed (sub64 p.size_rcvd p.size_now))
                    (d ∷ history))
                exact (save_current_speed-Holds p.cur_speed history _ v.holds);
          accounted = omega (arith, v.accounted, v.ordered);
          ordered = omega arith;
          fits = v.fits;
        })
  | inr e ↦
      rw (e, output_progress)
        (record {
          holds = v.holds;
          accounted = ground (arith, v.accounted, v.ordered);
          ordered = omega arith;
          fits = v.fits;
        })
]
  where
    exact : sub64 p.size_rcvd p.size_now ≡ p.size_rcvd - p.size_now
    exact = omega (arith, v.ordered, v.fits)
