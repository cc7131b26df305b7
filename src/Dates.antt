-- ===== src/Dates.antt =====
-- `startOfDayUTC` and `addDays` (src/modules/commercial-changes/commercial-changes.service.ts) and
-- `startOfDayUtcPlusDays` (src/modules/integrations/integrations.service.ts), on instants since 1970.
pub mod Laws
use isp_sam_backend.Prelude.{ℕ, ◌+◌, ◌*◌, ◌/◌}

-- The milliseconds of a UTC day.
abbrev pub day_ms : ℕ
day_ms = 86_400_000

unfoldable pub start_of_day_utc : ℕ → ℕ
start_of_day_utc d = d / day_ms * day_ms

unfoldable pub add_days : ℕ → ℕ → ℕ
add_days d days = d + days * day_ms

unfoldable pub start_of_day_utc_plus_days : ℕ → ℕ → ℕ
unfolding start_of_day_utc add_days
start_of_day_utc_plus_days now days = add_days (start_of_day_utc now) days

abbrev pub probable_churn_window_days : ℕ
probable_churn_window_days = 21

abbrev pub disconnection_notice_days : ℕ
disconnection_notice_days = 10

abbrev pub quick_disconnect_max_days : ℕ
quick_disconnect_max_days = 15
