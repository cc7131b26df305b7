-- ===== src/Dates/Laws.antt =====
-- Days and instants: the start of a day is the last midnight, and whole days commute with it.
use isp_sam_backend.Prelude.{ℕ, ◌+◌, ◌*◌, ◌/◌, ◌≤◌, ◌<◌, ◌≡◌, arith}
use isp_sam_backend.Dates.{day_ms, start_of_day_utc, add_days, start_of_day_utc_plus_days}

-- The last midnight, and an instant some days later, in milliseconds: what the theorems say of a date
-- they say with these.
abbrev pub midnight : ℕ → ℕ
midnight t = t / 86_400_000 * 86_400_000

abbrev pub days_later : ℕ → ℕ → ℕ
days_later n t = t + n * 86_400_000

-- The start of a day is at most the instant, less than a day before it, and its own start of day.
pub start_of_day_utc_lem :
    (d : ℕ)
    → (start_of_day_utc d ≤ d)
      × (d < start_of_day_utc d + day_ms)
      × (start_of_day_utc (start_of_day_utc d) ≡ start_of_day_utc d)
unfolding start_of_day_utc
start_of_day_utc_lem d = omega arith

-- The two ways in which the code schedules a termination agree.
pub start_of_day_utc-add_days :
    (d n : ℕ) → start_of_day_utc (add_days d n) ≡ start_of_day_utc_plus_days d n
unfolding start_of_day_utc add_days start_of_day_utc_plus_days
start_of_day_utc-add_days d n = omega arith
