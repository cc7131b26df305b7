-- ===== src/Approvals/Queue.antt =====
-- The queues and counts of src/modules/commercial-changes/approvals.service.ts. A `where` clause is
-- the statuses and, if there is a scope, the owners that it lets through.
pub mod Laws
use isp_sam_backend.Prelude.{
  ℕ, Bool, true, false, ◌&&◌, Option, none, some, List, [], length, get_or, is_some,
}
use isp_sam_backend.Db.{
  UserRole, admin, sam_head, sam, accounts_team, super_admin_2, ApprovalStatus, pending_sam_head,
  pending_accounts, pending_super_admin_2, approved, rejected, same_approval, is_base, Change,
  Account, Store, find_many,
}
use isp_sam_backend.Scope.{Requester, quick_approval_account_scope, in_scope}
use isp_sam_backend.Approvals.Chain.{pending_stage}

pub record WhereInput : Type 0 where
  pub admits : ApprovalStatus → Bool
  pub owners : Option (List ℕ)

abbrev where_of : UserRole → Option (List ℕ) → Option WhereInput
where_of admin scope = some (record { admits = λ st. is_some (pending_stage st); owners = none })
where_of accounts_team scope =
    some (record { admits = same_approval pending_accounts; owners = none })
where_of super_admin_2 scope =
    some (record { admits = same_approval pending_super_admin_2; owners = none })
where_of sam_head scope = some (record { admits = same_approval pending_sam_head; owners = scope })
where_of sam scope = none

unfoldable pub pending_approvals_where : Requester → Store → Option WhereInput
pending_approvals_where r s = where_of r.role (quick_approval_account_scope r s)

-- The account of a change satisfies a test.
abbrev account_is : (Account → Bool) → Store → Change → Bool
account_is p s c = elim (s.accounts.row c.account_id) [ none ↦ false | some a ↦ p a ]

abbrev pub row_matches : WhereInput → Store → Change → Bool
row_matches w s c =
    w.admits c.approval_status && account_is (λ a. in_scope w.owners a.sam_owner_id) s c

unfoldable pub in_queue : Requester → Store → Change → Bool
unfolding pending_approvals_where
in_queue r s c = elim (pending_approvals_where r s) [ none ↦ false | some w ↦ row_matches w s c ]

unfoldable pub list_pending : Requester → Store → List Change
unfolding pending_approvals_where
list_pending r s = elim (pending_approvals_where r s) [
  | none ↦ []
  | some w ↦ find_many (row_matches w s) s.changes
]

unfoldable pub count_pending : Requester → Store → ℕ
unfolding pending_approvals_where
count_pending r s = elim (pending_approvals_where r s) [
  | none ↦ 0
  | some w ↦ length (find_many (row_matches w s) s.changes)
]

-- `null` is no history view, `undefined` no filter.
abbrev history_scope_of : UserRole → Option (List ℕ) → Option (Option (List ℕ))
history_scope_of sam_head scope = some scope
history_scope_of sam scope = none
history_scope_of _ scope = some none

unfoldable pub history_account_scope : Requester → Store → Option (Option (List ℕ))
history_account_scope r s = history_scope_of r.role (quick_approval_account_scope r s)

abbrev history_matches : ApprovalStatus → Option (List ℕ) → Store → Change → Bool
history_matches st scope s c =
    same_approval st c.approval_status
    && account_is (λ a. is_base a.kitty_type && in_scope scope a.sam_owner_id) s c

unfoldable pub history_count : Requester → Store → ApprovalStatus → ℕ
unfolding history_account_scope
history_count r s st = elim (history_account_scope r s) [
  | none ↦ 0
  | some scope ↦ length (find_many (history_matches st scope s) s.changes)
]

pub record TabCounts : Type 0 where
  pub pending : ℕ
  pub approved : ℕ
  pub rejected : ℕ

unfoldable pub get_tab_counts : Requester → Store → TabCounts
unfolding count_pending history_count
get_tab_counts r s = record {
  pending = count_pending r s;
  approved = history_count r s approved;
  rejected = history_count r s rejected;
}
