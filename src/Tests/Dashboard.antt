-- ===== src/Tests/Dashboard.antt =====
-- The windows of the dashboard at work (src/modules/dashboard/dashboard.service.ts).
use isp_sam_backend.Prelude.{◌+◌, ◌*◌, ◌≡◌, ◌≤◌, ◌<◌, List, [], ◌∷◌, refl, arith, length, select}
use isp_sam_backend.Db.{new, active, pending_approval, Account}
use isp_sam_backend.Dates.{day_ms, start_of_day_utc}
use isp_sam_backend.Dashboard.Calendar.{UtcDate, leap_day, days_before_year, days_in_year, date_utc}
use isp_sam_backend.Dashboard.Fiscal.{
  q4, fy_quarter_range, start_of_fy_utc, start_of_fy_quarter_utc,
}
use isp_sam_backend.Dashboard.Fiscal.Laws.{start_of_fy_quarter_utc_lem, quarter_of}
use isp_sam_backend.Dashboard.Added.{sum_in, added_this_quarter, added_this_fy}
use isp_sam_backend.Dashboard.Base.{base_customers, new_customers, sum_of, is_terminated}
use isp_sam_backend.Dashboard.Base.Laws.{customers_lem, is_ungrouped}
use isp_sam_backend.Tests.Data.{account_of}

abbrev february_2026 : UtcDate
february_2026 = record { year = 2026; month = 1 }

-- 1 January 2026 and 1 March 2024, as a clock of a computer has them.
new_year_2026 : date_utc 2026 0 1 ≡ 1_767_225_600_000
unfolding date_utc days_before_year days_in_year leap_day
new_year_2026 = refl

march_2024 : date_utc 2024 2 1 ≡ 1_709_251_200_000
unfolding date_utc days_before_year days_in_year leap_day
march_2024 = refl

-- In February 2026 the quarter counts from 1 January 2025.
february_quarter : start_of_fy_quarter_utc february_2026 ≡ 1_735_689_600_000
unfolding start_of_fy_quarter_utc date_utc days_before_year days_in_year leap_day
february_quarter = refl

start_of_fy_quarter_utc_lem_example :
    (1 < 3
      → (start_of_fy_quarter_utc february_2026 + (365 + leap_day 2025) * day_ms
          ≡ (fy_quarter_range q4 february_2026).start)
        × (start_of_fy_quarter_utc february_2026 < start_of_fy_utc february_2026))
    × (2 < 1
        → (start_of_fy_quarter_utc february_2026
            ≡ (fy_quarter_range (quarter_of 1) february_2026).start)
          × (start_of_fy_utc february_2026 ≤ start_of_fy_quarter_utc february_2026))
start_of_fy_quarter_utc_lem_example =
    start_of_fy_quarter_utc_lem february_2026 (omega arith) (omega arith)

-- A customer of 1 February 2025, who joined in the financial year before.
abbrev joined_2025 : Account
joined_2025 = record (account_of new active) { onboarding_date = 1_738_368_000_000 }

-- Is counted in the quarter, and not in the financial year.
february_additions :
    ((added_this_quarter (joined_2025 ∷ []) february_2026).count ≡ 1)
    × ((added_this_fy (joined_2025 ∷ []) february_2026).count ≡ 0)
unfolding added_this_quarter added_this_fy sum_in start_of_day_utc start_of_fy_quarter_utc
    start_of_fy_utc date_utc days_before_year days_in_year leap_day
february_additions = (refl, refl)

-- A customer of the new base that waits for an approval.
abbrev waiting_2025 : Account
waiting_2025 = record (account_of new pending_approval) { id = 2; current_arc = 700 }

-- Is counted in the total only.
waiting_customers :
    let n = new_customers (joined_2025 ∷ waiting_2025 ∷ []) in
    (n.total_customers ≡ 2)
    × (n.current_customers ≡ 1)
    × (n.terminated_count ≡ 0)
    × (n.churn_count ≡ 0)
unfolding new_customers
waiting_customers = (refl, refl, refl, refl)

customers_lem_example :
    let accounts : List Account = joined_2025 ∷ waiting_2025 ∷ [] in
    let b = base_customers accounts in
    let n = new_customers accounts in
    (b.total_customers ≡ b.current_customers + b.terminated_count + b.churn_count)
    × (sum_of (λ a. a.current_arc) accounts
        ≡ b.current_arc + b.churn_arc + sum_of (λ a. a.current_arc) (select is_terminated accounts))
    × (b.current_customers ≡ n.current_customers + length (select is_ungrouped accounts))
    × (b.current_arc ≡ n.current_arc + sum_of (λ a. a.current_arc) (select is_ungrouped accounts))
customers_lem_example = customers_lem (joined_2025 ∷ waiting_2025 ∷ [])
