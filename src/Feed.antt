-- ===== src/Feed.antt =====
-- The notifications of src/modules/notifications/notifications.service.ts: the audit rows in a
-- user's scope, which the user can read and dismiss. The titles and texts that are made of a row are
-- not modelled. Rows are taken in the order in which they were written, newest first.
pub mod State
pub mod Paging
use text.Mathlib.Text.{◌==◌ as str_eq}
use isp_sam_backend.Prelude.{
  ℕ, ℤ, pos, negsuc, zero, suc, ◌+◌, ◌-◌, ◌*◌, String, Bool, true, false, not, ◌&&◌, ◌||◌, Option,
  none, some, List, [], ◌∷◌, ◌++◌, map, select, includes, length, if◌then◌else◌, is_some, ltb, ◌==◌,
}
use isp_sam_backend.Db.{
  UserRole, admin, sam, sam_head, same_role, AuditEntry, NotificationState, Store, find_many,
  Account,
}
use isp_sam_backend.Scope.{Requester, team_of, owned_within}

abbrev one_of : String → List String → Bool
one_of x [] = false
one_of x (y ∷ ys) = if str_eq x y then true else one_of x ys

-- `RELEVANT_ACTIONS`
unfoldable pub is_relevant : AuditEntry → Bool
is_relevant e = one_of e.action (
    "COMMIT" ∷ "APPROVAL_APPROVED" ∷ "APPROVAL_REJECTED" ∷ "ASSIGN" ∷ "UNASSIGN"
    ∷ "NOTIFY_CUSTOMER_ASSIGNED" ∷ "NOTIFY_CUSTOMER_ACTIVATED" ∷ "NOTIFY_ACCOUNTS_TEAM"
    ∷ "NOTIFY_CRM_PENDING_SAM_ACTIVATION" ∷ "NOTIFY_CRM_COMPLETED" ∷ [])

-- A SAM owns accounts; any other role stands for itself and its reports.
abbrev pub owner_ids : Requester → Store → List ℕ
owner_ids r s = if same_role r.role sam then r.id ∷ [] else team_of r.id s

-- `scopedEntityIds`
abbrev pub account_ids : Requester → Store → List ℕ
account_ids r s =
    map (λ a. a.id) (find_many (λ a. owned_within (owner_ids r s) a.sam_owner_id) s.accounts)

abbrev pub change_ids : Requester → Store → List ℕ
change_ids r s =
    let accounts = account_ids r s in
    map (λ c. c.id) (find_many (λ c. includes c.account_id accounts) s.changes)

-- The clauses of the `OR`. The empty lists that the source leaves out hold of nothing.
unfoldable pub entity_in_scope : Requester → Store → AuditEntry → Bool
entity_in_scope r s e =
    str_eq e.entity_type "Account" && includes e.entity_id (account_ids r s)
    || str_eq e.entity_type "CommercialChange" && includes e.entity_id (change_ids r s)
    || (same_role r.role sam_head || same_role r.role admin)
      && str_eq e.action "NOTIFY_CUSTOMER_ACTIVATED"

-- `where`
unfoldable pub is_meant_for : Requester → Store → AuditEntry → Bool
is_meant_for r s e = is_relevant e && (same_role r.role admin || entity_in_scope r s e)

abbrev dismissed_state : Option NotificationState → Bool
dismissed_state none = false
dismissed_state (some x) = is_some x.dismissed_at

abbrev read_state : Option NotificationState → Bool
read_state none = false
read_state (some x) = is_some x.read_at

abbrev pub is_dismissed : ℕ → Store → ℕ → Bool
is_dismissed user s k = dismissed_state (s.notification_states user k)

abbrev pub is_read : ℕ → Store → ℕ → Bool
is_read user s k = read_state (s.notification_states user k)

-- The audit rows from the place `k` on that pass the test, newest first, by their places.
abbrev pub places : (AuditEntry → Bool) → ℕ → List AuditEntry → List ℕ
places p k [] = []
places p k (e ∷ es) = let rest = places p (suc k) es in if p e then rest ++ k ∷ [] else rest

-- The rows that are meant for the user.
unfoldable pub targets : Requester → Store → List ℕ
targets r s = places (is_meant_for r s) 0 s.audit

-- `filteredWhere`: without those that the user has dismissed.
unfoldable pub feed_rows : Requester → Store → List ℕ
feed_rows r s = select (λ k. not (is_dismissed r.id s k)) (targets r s)

abbrev pub take {ℓ} : {A : Type ℓ} → ℕ → List A → List A
take zero xs = []
take (suc n) [] = []
take (suc n) (x ∷ xs) = x ∷ take n xs

abbrev pub drop {ℓ} : {A : Type ℓ} → ℕ → List A → List A
drop zero xs = xs
drop (suc n) [] = []
drop (suc n) (x ∷ xs) = drop n xs

-- `Math.max(1, n)`
abbrev pub at_least_one : ℤ → ℕ
at_least_one (pos n) = if ltb n 1 then 1 else n
at_least_one (negsuc n) = 1

-- `Math.min(100, Math.max(1, n))`
abbrev pub safe_page_size : ℤ → ℕ
safe_page_size n = if ltb 100 (at_least_one n) then 100 else at_least_one n

pub record NotificationFeed : Type 0 where
  pub notifications : List ℕ
  pub total : ℕ
  pub unread : ℕ
  pub page : ℕ
  pub page_size : ℕ

-- `countUnread`. On ℕ the difference is no less than 0.
unfoldable pub count_unread : ℕ → Store → List ℕ → ℕ
count_unread user s rows = length rows - length (select (is_read user s) rows)

unfoldable pub get_notifications : Requester → ℤ → ℤ → Store → NotificationFeed
get_notifications r page size s =
    let rows = feed_rows r s in
    let n = safe_page_size size in
    record {
      notifications = take n (drop ((at_least_one page - 1) * n) rows);
      total = length rows;
      unread = count_unread r.id s rows;
      page = at_least_one page;
      page_size = n;
    }
