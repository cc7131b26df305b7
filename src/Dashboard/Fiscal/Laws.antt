-- ===== src/Dashboard/Fiscal/Laws.antt =====
-- What the windows of the financial year are (src/modules/dashboard/dashboard.service.ts).
use isp_sam_backend.Prelude.{
  ℕ, Bool-cases, inl, inr, ltb, ap, ◌∙◌, zero, suc, ◌+◌, ◌-◌, ◌*◌, ◌≡◌, ◌≤◌, ◌<◌, leb,
  if◌then◌else◌, arith,
}
use isp_sam_backend.Dates.{day_ms}
use isp_sam_backend.Dashboard.Calendar.{
  UtcDate, leap_day, days_before_year, days_in_year, date_utc, end_of_day_utc,
}
use isp_sam_backend.Dashboard.Fiscal.{
  FyQuarter, q1, q2, q3, q4, fy_year, fy_quarter_range, start_of_month_utc, start_of_fy_utc,
  start_of_fy_quarter_utc,
}

-- The days before the next year.
next_year :
    (y : ℕ)
    → 1969 < y
    → days_before_year (y + 1 - 1970) ≡ days_before_year (y - 1970) + (365 + leap_day y)
unfolding days_before_year
next_year y h =
    let e : y + 1 - 1970 ≡ suc (y - 1970) = omega arith in
    let f : 1970 + (y - 1970) ≡ y = omega arith in
    ap days_before_year e ∙ ap (λ x. days_before_year (y - 1970) + (365 + leap_day x)) f

year_end : (y : ℕ) → 1969 < y → end_of_day_utc y 11 31 + 1 ≡ date_utc (y + 1) 0 1
unfolding date_utc end_of_day_utc days_in_year
year_end y h = let e = next_year y h in omega arith

module _ (y : ℕ) where
  july : end_of_day_utc y 5 30 + 1 ≡ date_utc y 6 1
  unfolding date_utc end_of_day_utc days_in_year
  july = omega arith

  october : end_of_day_utc y 8 30 + 1 ≡ date_utc y 9 1
  unfolding date_utc end_of_day_utc days_in_year
  october = omega arith

  april : end_of_day_utc y 2 31 + 1 ≡ date_utc y 3 1
  unfolding date_utc end_of_day_utc days_in_year
  april = omega arith

  january : date_utc y 0 1 < date_utc y 3 1
  unfolding date_utc days_in_year
  january = omega arith

  april_within : date_utc y 3 1 ≤ date_utc y 0 1 + (365 + leap_day y) * day_ms
  unfolding date_utc days_in_year
  april_within = omega arith

fy_year-next :
    (now : UtcDate)
    → 1970 < now.year
    → fy_year now + 1 ≡ fy_year (record now { year = now.year + 1 })
unfolding fy_year
fy_year-next now h = ground arith

-- For a date from 1971 on, the four quarters of its financial year follow each other without a gap or an overlap,
-- from its start to the start of the next one, which is the first quarter of the date a year later.
pub fy_quarter_range_tiles :
    (now : UtcDate)
    → 1970 < now.year
    → (start_of_fy_utc now ≡ (fy_quarter_range q1 now).start)
      × ((fy_quarter_range q1 now).end + 1 ≡ (fy_quarter_range q2 now).start)
      × ((fy_quarter_range q2 now).end + 1 ≡ (fy_quarter_range q3 now).start)
      × ((fy_quarter_range q3 now).end + 1 ≡ (fy_quarter_range q4 now).start)
      × ((fy_quarter_range q4 now).end + 1
          ≡ (fy_quarter_range q1 (record now { year = now.year + 1 })).start)
unfolding start_of_fy_utc fy_quarter_range fy_year
fy_quarter_range_tiles now h = (
  ground arith,
  july (fy_year now),
  october (fy_year now),
  year_end (fy_year now) (ground arith),
  april (fy_year now + 1) ∙ ap (λ y. date_utc y 3 1) (fy_year-next now h),
)

-- The quarter of a month from April on.
abbrev pub quarter_of : ℕ → FyQuarter
quarter_of month = if leb month 5 then q1 else if leb month 8 then q2 else q3

year_start :
    (y : ℕ) → 1969 < y → date_utc y 0 1 + (365 + leap_day y) * day_ms ≡ date_utc (y + 1) 0 1
unfolding date_utc days_in_year
year_start y h = let e = next_year y h in omega arith

early_quarter :
    (now : UtcDate) → now.month < 3 → start_of_fy_quarter_utc now ≡ date_utc (now.year - 1) 0 1
unfolding start_of_fy_quarter_utc
early_quarter now early = ground arith

month_next : (y m : ℕ) → days_in_year y m 1 ≤ days_in_year y (m + 1) 1
unfolding days_in_year
month_next y m = ground arith

months_later : (y i k : ℕ) → days_in_year y i 1 ≤ days_in_year y (i + k) 1
months_later y i zero = ground arith
months_later y i (suc k) =
    let r = months_later y i k in
    let n = month_next y (i + k) in let e : i + suc k ≡ i + k + 1 = omega arith in ground arith

-- Months of a year start in their order.
months_start : (y i j : ℕ) → i ≤ j → date_utc y i 1 ≤ date_utc y j 1
unfolding date_utc
months_start y i j h =
    let r = months_later y i (j - i) in let e : i + (j - i) ≡ j = omega arith in ground arith

quarter_early :
    (now : UtcDate)
    → 1970 < now.year
    → now.month < 3
    → start_of_fy_quarter_utc now + (365 + leap_day (now.year - 1)) * day_ms
      ≡ (fy_quarter_range q4 now).start
unfolding fy_quarter_range fy_year
quarter_early now h early =
    let e = year_start (now.year - 1) (omega arith) in ground (arith, early_quarter now early)

quarter_starts :
    (now : UtcDate)
    → 2 < now.month
    → now.month < 12
    → start_of_fy_quarter_utc now ≡ (fy_quarter_range (quarter_of now.month) now).start
unfolding start_of_fy_quarter_utc fy_quarter_range fy_year
quarter_starts now h b = ground arith

quarter_before : (now : UtcDate) → now.month < 3 → start_of_fy_quarter_utc now < start_of_fy_utc now
unfolding start_of_fy_utc
quarter_before now early =
    let l : date_utc (now.year - 1) 0 1 < date_utc (now.year - 1) 3 1 = january (now.year - 1) in
    ground (arith, early_quarter now early)

quarter_after :
    (now : UtcDate)
    → 2 < now.month
    → now.month < 12
    → start_of_fy_utc now ≤ start_of_fy_quarter_utc now
unfolding start_of_fy_utc start_of_fy_quarter_utc
quarter_after now late b =
    let x = months_start now.year 3 6 (omega arith) in
    let y = months_start now.year 3 9 (omega arith) in ground arith

-- The month of a date does not start before its financial year.
pub month_after :
    (now : UtcDate)
    → 1970 < now.year
    → now.month < 12
    → start_of_fy_utc now ≤ start_of_month_utc now
unfolding start_of_fy_utc start_of_month_utc
month_after now h b = elim (Bool-cases (ltb now.month 3)) [
  | inl early ↦
      (let e = year_start (now.year - 1) (omega arith) in
        let y = months_start now.year 0 now.month (omega arith) in
        let z = april_within (now.year - 1) in ground arith)
  | inr late ↦ let x = months_start now.year 3 now.month (ground arith) in ground arith
]

-- For a date from 1971 on: from January to March the quarter that the additions are counted from starts a year before the
-- fourth quarter of the financial year, and so before the financial year; from April on it starts
-- with the quarter that the month is in.
pub start_of_fy_quarter_utc_lem :
    (now : UtcDate)
    → 1970 < now.year
    → now.month < 12
    → (now.month < 3
        → (start_of_fy_quarter_utc now + (365 + leap_day (now.year - 1)) * day_ms
            ≡ (fy_quarter_range q4 now).start)
          × (start_of_fy_quarter_utc now < start_of_fy_utc now))
      × (2 < now.month
          → (start_of_fy_quarter_utc now ≡ (fy_quarter_range (quarter_of now.month) now).start)
            × (start_of_fy_utc now ≤ start_of_fy_quarter_utc now))
start_of_fy_quarter_utc_lem now h b = (
  λ early. (quarter_early now h early, quarter_before now early),
  λ late. (quarter_starts now late b, quarter_after now late b),
)
