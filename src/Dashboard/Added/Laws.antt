-- ===== src/Dashboard/Added/Laws.antt =====
-- How the windows of the additions compare (src/modules/dashboard/dashboard.service.ts).
use isp_sam_backend.Prelude.{ℕ, ◌≤◌, ◌<◌, List, [], ◌∷◌, length, select, arith}
use isp_sam_backend.Db.{Account}
use isp_sam_backend.Dashboard.Calendar.{UtcDate}
use isp_sam_backend.Dashboard.Fiscal.{start_of_month_utc, start_of_fy_quarter_utc, start_of_fy_utc}
use isp_sam_backend.Dashboard.Fiscal.Laws.{start_of_fy_quarter_utc_lem, month_after}
use isp_sam_backend.Dashboard.Added.{
  Added, sum_arc, billed, onboarded_since, sum_in, added_this_month, added_this_quarter,
  added_this_fy,
}

-- No more, and of no higher ARC.
abbrev pub IsWithin : Added → Added → Type 0
IsWithin x y = (x.count ≤ y.count) × (x.arc ≤ y.arc)

module _ (since later : ℕ) (h : since ≤ later) where
  select-count :
      (xs : List Account)
      → length (select (onboarded_since later) xs) ≤ length (select (onboarded_since since) xs)
  select-count [] = omega arith
  select-count (a ∷ more) = let r = select-count more in ground arith

  select-arc :
      (xs : List Account)
      → sum_arc (select (onboarded_since later) xs) ≤ sum_arc (select (onboarded_since since) xs)
  select-arc [] = omega arith
  select-arc (a ∷ more) = let r = select-arc more in ground arith

  -- A window that starts later holds no more.
  sum_in-IsWithin : (xs : List Account) → IsWithin (sum_in xs later) (sum_in xs since)
  unfolding sum_in
  sum_in-IsWithin xs = (select-count (billed xs), select-arc (billed xs))

-- For a date from 1971 on: what was added this month is within what was added this financial year. What was added this
-- quarter is within it from April on; from January to March it is the other way round.
pub added_lem :
    (accounts : List Account) (now : UtcDate)
    → 1970 < now.year
    → now.month < 12
    → IsWithin (added_this_month accounts now) (added_this_fy accounts now)
      × (2 < now.month → IsWithin (added_this_quarter accounts now) (added_this_fy accounts now))
      × (now.month < 3 → IsWithin (added_this_fy accounts now) (added_this_quarter accounts now))
unfolding added_this_month added_this_quarter added_this_fy
added_lem accounts now h b =
    let (early, late) = start_of_fy_quarter_utc_lem now h b in
    (
      sum_in-IsWithin (start_of_fy_utc now) (start_of_month_utc now) (month_after now h b) accounts,
      λ l. sum_in-IsWithin (start_of_fy_utc now) (start_of_fy_quarter_utc now) (late l).1 accounts,
      λ e.
          sum_in-IsWithin (start_of_fy_quarter_utc now) (start_of_fy_utc now)
            (let q = (early e).1 in omega arith) accounts,
    )
