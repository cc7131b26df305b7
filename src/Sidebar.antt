-- ===== src/Sidebar.antt =====
-- src/modules/sidebar/sidebar.service.ts: the numbers on the badges.
pub mod Laws
pub mod Page
use isp_sam_backend.Prelude.{
  ℕ, Bool, true, false, not, ◌&&◌, ◌||◌, ◌==◌, leb, Option, none, some, length, is_some,
  if◌then◌else◌,
}
use isp_sam_backend.Db.{
  admin, sam, sam_head, same_role, terminated, probable_churn, same_status, is_disconnection,
  Account, Change, Store, find_many,
}
use isp_sam_backend.Dates.{start_of_day_utc}
use isp_sam_backend.Scope.{Requester}
use isp_sam_backend.World.{World}
use isp_sam_backend.Approvals.Queue.{count_pending}

pub record SidebarCounts : Type 0 where
  pub approvals : ℕ
  pub probable_churn : ℕ
  pub unassigned_customers : ℕ

abbrev pub is_due_by : ℕ → Option ℕ → Bool
is_due_by today none = false
is_due_by today (some d) = leb d today

abbrev owned_by_user : ℕ → Option ℕ → Bool
owned_by_user user none = false
owned_by_user user (some o) = o == user

abbrev pub in_window : Requester → Account → Bool
in_window r a =
    same_status a.contract_status probable_churn
    && (not (same_role r.role sam) || owned_by_user r.id a.sam_owner_id)

-- The condition on the account of a change.
abbrev pub account_in_window : Requester → Option Account → Bool
account_in_window r none = false
account_in_window r (some a) = in_window r a

abbrev pub awaits_prompt : Requester → ℕ → Store → Change → Bool
awaits_prompt r today s c =
    is_disconnection c.change_type
    && (not (is_some c.retention_decision)
        && (is_due_by today c.retention_prompt_due_at
            && account_in_window r (s.accounts.row c.account_id)))

unfoldable pub count_probable_churn_due : World → Requester → Store → ℕ
count_probable_churn_due w r s =
    length (find_many (awaits_prompt r (start_of_day_utc w.now) s) s.changes)

abbrev pub may_assign : Requester → Bool
may_assign r = same_role r.role sam_head || same_role r.role admin

abbrev pub is_unassigned : Account → Bool
is_unassigned a = not (is_some a.sam_owner_id) && not (same_status a.contract_status terminated)

unfoldable pub count_unassigned_customers : Requester → Store → ℕ
count_unassigned_customers r s =
    if may_assign r then length (find_many is_unassigned s.accounts) else 0

unfoldable pub get_counts : World → Requester → Store → SidebarCounts
unfolding count_pending count_probable_churn_due count_unassigned_customers
get_counts w r s = record {
  approvals = count_pending r s;
  probable_churn = count_probable_churn_due w r s;
  unassigned_customers = count_unassigned_customers r s;
}
