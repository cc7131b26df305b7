-- ===== src/Dashboard/Calendar.antt =====
-- `Date.UTC` and the parts of a date that src/modules/dashboard/dashboard.service.ts reads, in the
-- Gregorian calendar since 1970. A month is counted from 0, as `getUTCMonth` does.
use isp_sam_backend.Prelude.{
  ℕ, zero, suc, ◌+◌, ◌-◌, ◌*◌, ◌%◌, Bool, not, ◌&&◌, ◌||◌, ◌==◌, leb, if◌then◌else◌,
}
use isp_sam_backend.Dates.{day_ms}

-- The parts of an instant that the code reads.
pub record UtcDate : Type 0 where
  pub year : ℕ
  pub month : ℕ

abbrev is_leap : ℕ → Bool
is_leap y = y % 4 == 0 && (not (y % 100 == 0) || y % 400 == 0)

unfoldable pub leap_day : ℕ → ℕ
leap_day y = if is_leap y then 1 else 0

-- The days from 1970 to the start of a year, which is counted from 1970.
unfoldable pub days_before_year : ℕ → ℕ
days_before_year zero = 0
days_before_year (suc n) = days_before_year n + (365 + leap_day (1970 + n))

-- The days of an ordinary year before a month.
abbrev pub days_before_month : ℕ → ℕ
days_before_month m =
    if m == 0
    then 0
    else if m == 1
    then 31
    else if m == 2
    then 59
    else if m == 3
    then 90
    else if m == 4
    then 120
    else if m == 5
    then 151
    else if m == 6
    then 181
    else if m == 7
    then 212
    else if m == 8
    then 243
    else if m == 9
    then 273
    else if m == 10
    then 304
    else 334

unfoldable pub days_in_year : ℕ → ℕ → ℕ → ℕ
days_in_year year month day =
    days_before_month month + (if leb 2 month then leap_day year else 0) + (day - 1)

-- `Date.UTC` of a date from 1970 on.
unfoldable pub date_utc : ℕ → ℕ → ℕ → ℕ
date_utc year month day = (days_before_year (year - 1970) + days_in_year year month day) * day_ms

-- The last millisecond of a date, `Date.UTC(.., 23, 59, 59, 999)`.
unfoldable pub end_of_day_utc : ℕ → ℕ → ℕ → ℕ
end_of_day_utc year month day = date_utc year month day + 86399999
