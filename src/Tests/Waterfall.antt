-- ===== src/Tests/Waterfall.antt =====
-- The ARC waterfall at work (src/modules/dashboard/dashboard.service.ts).
use isp_sam_backend.Prelude.{pos, negsuc, ◌+ℤ◌, ◌-ℤ◌, ◌≡◌, true, false, none, some, All, refl}
use isp_sam_backend.Db.{base, active, upgrade, not_required, admin, Store, find_many}
use isp_sam_backend.Scope.{Requester}
use isp_sam_backend.Dashboard.Calendar.{UtcDate}
use isp_sam_backend.Dashboard.Fiscal.{q2}
use isp_sam_backend.Dashboard.Base.{is_active, is_live, kitty_accounts, account_scope, role_owners}
use isp_sam_backend.Dashboard.Waterfall.{is_of, base_changes, existing_base, new_base, tally}
use isp_sam_backend.Dashboard.Waterfall.Sums.{sum_ℤ, IsDistinct}
use isp_sam_backend.Dashboard.Waterfall.Laws.{gap, pending_net-gap}
use isp_sam_backend.Tests.Data.{account_of, change_of, store_of}

abbrev administrator : Requester
administrator = record { id = 1; role = admin }

abbrev august_2026 : UtcDate
august_2026 = record { year = 2026; month = 7 }

-- The account still has what it started with, and the upgrade is not applied yet.
abbrev upgrading : Store
upgrading = store_of (account_of base active) (change_of upgrade none not_required)

-- What the upgrade adds is pending.
upgrading_pending :
    ((existing_base none august_2026 administrator none upgrading).pending_net_arc ≡ negsuc 499999)
    × ((existing_base none august_2026 administrator none upgrading).pending_count ≡ 1)
unfolding existing_base tally account_scope role_owners ◌+ℤ◌ ◌-ℤ◌
upgrading_pending = (refl, refl)

-- Once it is applied, nothing is.
upgraded : Store
upgraded =
    store_of (record (account_of base active) { current_arc = 1500000 })
      (change_of upgrade none not_required)

upgraded_pending :
    (existing_base none august_2026 administrator none upgraded).pending_net_arc ≡ pos 0
unfolding upgraded existing_base tally account_scope role_owners ◌+ℤ◌ ◌-ℤ◌
upgraded_pending = refl

old-IsDistinct : IsDistinct (kitty_accounts true administrator none upgrading)
unfolding kitty_accounts account_scope role_owners
old-IsDistinct = (refl, tt)

new-IsDistinct : IsDistinct (kitty_accounts false administrator none upgrading)
unfolding kitty_accounts account_scope role_owners
new-IsDistinct = tt

pending_net-gap_example :
    let old = kitty_accounts true administrator none upgrading in
    let young = kitty_accounts false administrator none upgrading in
    let old_changes = base_changes old none upgrading in
    let young_changes = find_many (is_of young) upgrading.changes in
    ((existing_base none august_2026 administrator none upgrading).pending_net_arc
      ≡ sum_ℤ (gap is_live old_changes) old)
    × ((new_base administrator none upgrading).pending_net_arc
        ≡ sum_ℤ (gap is_active young_changes) young)
    × (All (λ a. gap is_live old_changes a ≡ pos 0) old
        → (existing_base none august_2026 administrator none upgrading).pending_net_arc ≡ pos 0)
    × (All (λ a. gap is_active young_changes a ≡ pos 0) young
        → (new_base administrator none upgrading).pending_net_arc ≡ pos 0)
    × ((existing_base (some q2) august_2026 administrator none upgrading).pending_net_arc ≡ pos 0)
pending_net-gap_example =
    pending_net-gap administrator none upgrading august_2026 q2 old-IsDistinct new-IsDistinct
