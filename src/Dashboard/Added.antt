-- ===== src/Dashboard/Added.antt =====
-- `sumIn` of `computeNewBase` in src/modules/dashboard/dashboard.service.ts, on the accounts of the
-- new base and with the ARC before it is shown in lakhs.
pub mod Laws
use isp_sam_backend.Prelude.{ℕ, ◌+◌, Bool, List, [], ◌∷◌, ◌&&◌, length, leb, select}
use isp_sam_backend.Db.{Account, active, same_status}
use isp_sam_backend.Dates.{start_of_day_utc}
use isp_sam_backend.Dashboard.Calendar.{UtcDate}
use isp_sam_backend.Dashboard.Fiscal.{start_of_month_utc, start_of_fy_quarter_utc, start_of_fy_utc}

pub record Added : Type 0 where
  pub count : ℕ
  pub arc : ℕ

abbrev pub sum_arc : List Account → ℕ
sum_arc [] = 0
sum_arc (a ∷ more) = a.current_arc + sum_arc more

-- `active` of the accounts of the new base.
abbrev pub billed : List Account → List Account
billed = select (λ a. same_status a.contract_status active)

abbrev pub onboarded_since : ℕ → Account → Bool
onboarded_since since a = leb since (start_of_day_utc a.onboarding_date)

unfoldable pub sum_in : List Account → ℕ → Added
sum_in accounts since =
    let within = select (onboarded_since since) (billed accounts) in
    record { count = length within; arc = sum_arc within }

unfoldable pub added_this_month : List Account → UtcDate → Added
added_this_month accounts now = sum_in accounts (start_of_month_utc now)

unfoldable pub added_this_quarter : List Account → UtcDate → Added
added_this_quarter accounts now = sum_in accounts (start_of_fy_quarter_utc now)

unfoldable pub added_this_fy : List Account → UtcDate → Added
added_this_fy accounts now = sum_in accounts (start_of_fy_utc now)
