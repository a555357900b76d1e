-- ===== src/Progress/Ring.antt =====
-- The array of speeds refines the list of all speeds saved so far, newest first.
use xdccget_for_windows.Base.{
  ◌<◌, ℕ, ◌%◌, refl, arith, ◌-◌, ◌∙◌, get_or, length, leb, [], length-set, List, ◌≡◌, ◌∷◌, ap,
  get_or-set_self, get_or-set_ne, set, suc, zero,
}
use xdccget_for_windows.Progress.{
  num_average_speed_values, save_current_speed, empty_speeds, DccCurrentSpeed,
}

-- `s` holds the newest speeds of `history`: the entry of age `j` stands `j + 1` slots behind the
-- write index, and the array counts as filled once it holds as many entries as it has slots.
pub record Holds (s : DccCurrentSpeed) (history : List ℕ) : Type 0 where
  pub slots : length s.cur_speed ≡ num_average_speed_values
  pub index : s.speed_index ≡ length history % num_average_speed_values
  pub filled : s.is_speed_array_filled ≡ leb num_average_speed_values (length history)
  pub entries :
      (j : ℕ)
      → j < num_average_speed_values
      → j < length history
      → get_or s.cur_speed ((length history - 1 - j) % num_average_speed_values) 0
        ≡ get_or history j 0

pub empty_speeds-Holds : Holds empty_speeds []
empty_speeds-Holds = record {
  slots = refl;
  index = refl;
  filled = refl;
  entries = λ j h h'. absurd (omega arith);
}

entries_after :
    (s : DccCurrentSpeed) (history : List ℕ) (cur : ℕ)
    → Holds s history
    → (j : ℕ) → j < num_average_speed_values
    → j < suc (length history)
    → get_or
        (set s.cur_speed s.speed_index cur)
        ((suc (length history) - 1 - j) % num_average_speed_values)
        0
      ≡ get_or (cur ∷ history) j 0
entries_after s history cur v zero h h' =
    ap (λ k. get_or (set s.cur_speed s.speed_index cur) k 0) here
    ∙ get_or-set_self s.cur_speed s.speed_index cur 0 (omega (arith, v.slots, v.index))
  where
    here : (suc (length history) - 1 - 0) % num_average_speed_values ≡ s.speed_index
    here = omega (arith, v.index)
entries_after s history cur v (suc j) h h' =
    ap (λ k. get_or (set s.cur_speed s.speed_index cur) (k % num_average_speed_values) 0) older
    ∙ get_or-set_ne s.cur_speed s.speed_index _ cur 0 (omega (arith, v.index))
    ∙ v.entries j (omega arith) (omega arith)
  where
    older : suc (length history) - 1 - suc j ≡ length history - 1 - j
    older = omega arith

-- Where the array holds the newest speeds of a history, it holds those of the history with the new
-- speed in front after that is saved: the index, the mark that it is filled, and every entry by its
-- age.
pub save_current_speed-Holds :
    (s : DccCurrentSpeed) (history : List ℕ) (cur : ℕ)
    → Holds s history
    → Holds (save_current_speed s cur) (cur ∷ history)
unfolding save_current_speed
save_current_speed-Holds s history cur v = record {
  slots = length-set s.cur_speed s.speed_index cur ∙ v.slots;
  index = omega (arith, v.index);
  filled = ground (arith, v.index, v.filled);
  entries = entries_after s history cur v;
}
