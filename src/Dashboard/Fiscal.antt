-- ===== src/Dashboard/Fiscal.antt =====
-- `fyQuarterRange`, `startOfFyUTC`, `startOfFyQuarterUTC` and `startOfMonthUTC` of
-- src/modules/dashboard/dashboard.service.ts.
pub mod Laws
use isp_sam_backend.Prelude.{ℕ, ◌+◌, ◌-◌, ltb, leb, ◌&&◌, if◌then◌else◌}
use isp_sam_backend.Dashboard.Calendar.{UtcDate, date_utc, end_of_day_utc}

pub data FyQuarter : Type 0 where
  q1 : FyQuarter
  q2 : FyQuarter
  q3 : FyQuarter
  q4 : FyQuarter

pub record Range : Type 0 where
  pub start : ℕ
  pub end : ℕ

-- The year in which the financial year of a date starts.
unfoldable pub fy_year : UtcDate → ℕ
fy_year now = if ltb now.month 3 then now.year - 1 else now.year

unfoldable pub fy_quarter_range : FyQuarter → UtcDate → Range
fy_quarter_range q1 now = record {
  start = date_utc (fy_year now) 3 1;
  end = end_of_day_utc (fy_year now) 5 30;
}
fy_quarter_range q2 now = record {
  start = date_utc (fy_year now) 6 1;
  end = end_of_day_utc (fy_year now) 8 30;
}
fy_quarter_range q3 now = record {
  start = date_utc (fy_year now) 9 1;
  end = end_of_day_utc (fy_year now) 11 31;
}
fy_quarter_range q4 now = record {
  start = date_utc (fy_year now + 1) 0 1;
  end = end_of_day_utc (fy_year now + 1) 2 31;
}

unfoldable pub start_of_month_utc : UtcDate → ℕ
start_of_month_utc now = date_utc now.year now.month 1

unfoldable pub start_of_fy_utc : UtcDate → ℕ
start_of_fy_utc now = if ltb now.month 3 then date_utc (now.year - 1) 3 1 else date_utc now.year 3 1

unfoldable pub start_of_fy_quarter_utc : UtcDate → ℕ
start_of_fy_quarter_utc now =
    if leb 3 now.month && leb now.month 5
    then date_utc now.year 3 1
    else if leb 6 now.month && leb now.month 8
    then date_utc now.year 6 1
    else if leb 9 now.month && leb now.month 11
    then date_utc now.year 9 1
    else date_utc (now.year - 1) 0 1
