-- ===== src/Progress.antt =====
-- The progress of a download: struct dccCurrentSpeed and struct dccDownloadProgress of
-- argument_parser.h, `newDccProgress` (argument_parser.c), and `saveCurrentSpeed`,
-- `getAverageSpeed` and the state that `outputProgress` updates (helper.c). What it prints is left
-- out; sizes are uint64_t.
pub mod Ring
pub mod Average
pub mod Speeds
use xdccget_for_windows.Bytes.{Bytes}
use xdccget_for_windows.Base.{
  not, Bool, false, ◌/◌, if◌then◌else◌, [], List, ◌+◌, true, ℕ, replicate, ◌%◌, ◌^◌, ◌==◌, u64, ◌-◌,
  set, ◌∷◌, ltb,
}

abbrev pub num_average_speed_values : ℕ
num_average_speed_values = 8

pub record DccCurrentSpeed : Type 0 where
  pub cur_speed : List ℕ
  pub speed_index : ℕ
  pub is_speed_array_filled : Bool

pub record DccDownloadProgress : Type 0 where
  pub complete_file_size : ℕ
  pub size_rcvd : ℕ
  pub size_now : ℕ
  pub size_last : ℕ
  pub average_speed : ℕ
  pub complete_path : Bytes
  pub cur_speed : DccCurrentSpeed

abbrev pub empty_speeds : DccCurrentSpeed
empty_speeds = record {
  cur_speed = replicate num_average_speed_values 0;
  speed_index = 0;
  is_speed_array_filled = false;
}

-- `average_speed` is not initialised: it holds what malloc'ed memory held, `garbage`.
unfoldable pub new_dcc_progress : ℕ → Bytes → ℕ → DccDownloadProgress
new_dcc_progress garbage complete_path compl_file_size = record {
  complete_file_size = compl_file_size;
  size_rcvd = 0;
  size_now = 0;
  size_last = 0;
  average_speed = garbage;
  complete_path = complete_path;
  cur_speed = empty_speeds;
}

unfoldable pub save_current_speed : DccCurrentSpeed → ℕ → DccCurrentSpeed
save_current_speed s cur =
    let speeds = set s.cur_speed s.speed_index cur in
    let index = (s.speed_index + 1) % num_average_speed_values in
    record {
      cur_speed = speeds;
      speed_index = index;
      is_speed_array_filled =
          if not s.is_speed_array_filled
          then (if index == 0 then true else s.is_speed_array_filled)
          else s.is_speed_array_filled;
    }

-- The rounds with i > 0.
unfoldable pub average_from : ℕ → List ℕ → ℕ
average_from average [] = average
average_from average (speed ∷ speeds) = average_from (u64 (average + speed) / 2) speeds

average_of : List ℕ → ℕ
unfolding average_from
average_of [] = 0
average_of (speed ∷ speeds) = average_from speed speeds

unfoldable pub get_average_speed : DccCurrentSpeed → ℕ → ℕ
unfolding average_of
get_average_speed s cur = if s.is_speed_array_filled then average_of s.cur_speed else cur

-- uint64_t a - b
abbrev pub sub64 : ℕ → ℕ → ℕ
sub64 a b = (a + 2 ^ 64 - b) % 2 ^ 64

unfoldable pub output_progress : DccDownloadProgress → DccDownloadProgress
output_progress p =
    let cur = sub64 p.size_rcvd p.size_now in
    let moved = record p { size_last = p.size_now; size_now = p.size_rcvd } in
    if ltb 0 p.size_rcvd
    then (let speeds = save_current_speed p.cur_speed cur in
        record moved { cur_speed = speeds; average_speed = get_average_speed speeds cur })
    else moved
