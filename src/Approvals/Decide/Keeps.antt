-- ===== src/Approvals/Decide/Keeps.antt =====
-- `decide` keeps the store consistent (src/modules/commercial-changes/approvals.service.ts).
use isp_sam_backend.Prelude.{ℕ, String, Option, refl, arith}
use isp_sam_backend.Db.{
  Change, UserRole, is_disconnection, same_status, active, pending_approval, record_not_found,
  is_consistent,
}
use isp_sam_backend.Db.Keeps.{
  IsFaithful, Keeps, Keeps-bind, Keeps-option, Keeps-guarded, keeps_rules,
}
use isp_sam_backend.Approvals.Chain.{
  PendingStage, next_stage, status_of, at_sam_head, at_accounts, at_super_admin_2,
}
use isp_sam_backend.Approvals.Decide.{
  DecideInput, Decision, approve, reject, decide, settle, approve_change, reject_change, reload,
  advance, apply_terminal_approval, approve_new_terms, approve_quick_disconnection,
  approve_normal_disconnection, approved_change, approved_quick, approved_normal, rejected_change,
  assert_can_act, restore_account, set_status,
}

module _ (now : ℕ) (o : DecideInput) where
  approved_change-IsFaithful : IsFaithful (approved_change now o)
  unfolding is_consistent
  approved_change-IsFaithful = record {
    same_id = λ c. refl;
    same_account = λ c. refl;
    consistent = λ c h. ground arith;
  }

  approved_quick-IsFaithful : IsFaithful (approved_quick now o)
  unfolding is_consistent
  approved_quick-IsFaithful = record {
    same_id = λ c. refl;
    same_account = λ c. refl;
    consistent = λ c h. ground arith;
  }

  approved_normal-IsFaithful : IsFaithful (approved_normal now o)
  unfolding is_consistent
  approved_normal-IsFaithful = record {
    same_id = λ c. refl;
    same_account = λ c. refl;
    consistent = λ c h. ground arith;
  }

  rejected_change-IsFaithful : (reason : String) → IsFaithful (rejected_change now o reason)
  unfolding is_consistent
  rejected_change-IsFaithful reason = record {
    same_id = λ c. refl;
    same_account = λ c. refl;
    consistent = λ c h. ground arith;
  }

  advanced-IsFaithful :
      (next : PendingStage) → IsFaithful (λ r. record r { approval_status = status_of next })
  unfolding is_consistent
  advanced-IsFaithful next = record {
    same_id = λ c. refl;
    same_account = λ c. refl;
    consistent = λ c h. elim next [
      | at_sam_head ↦ ground arith
      | at_accounts ↦ ground arith
      | at_super_admin_2 ↦ ground arith
    ];
  }

  Keeps-reload : (k : ℕ) → Keeps (reload k)
  unfolding reload
  Keeps-reload k = search keeps_rules depth 9

  Keeps-restore_account : (k : ℕ) → Keeps (restore_account k)
  Keeps-restore_account k =
      Keeps-guarded k (λ a. same_status a.contract_status pending_approval) (set_status active)
        record_not_found

  Keeps-reject : (st : PendingStage) (r : String) (c : Change) → Keeps (reject_change now st o r c)
  unfolding reject_change
  Keeps-reject st r c =
      search (keeps_rules, rejected_change-IsFaithful, Keeps-reload, Keeps-restore_account) depth 9

  Keeps-terminal : (st : PendingStage) (c : Change) → Keeps (apply_terminal_approval now st o c)
  unfolding apply_terminal_approval approve_new_terms approve_quick_disconnection
      approve_normal_disconnection
  Keeps-terminal st c =
      search
        (
          keeps_rules, approved_change-IsFaithful, approved_quick-IsFaithful,
          approved_normal-IsFaithful,
        )
        depth 9

  Keeps-advance : (st next : PendingStage) (c : Change) → Keeps (advance st next o c)
  unfolding advance
  Keeps-advance st next c = search (keeps_rules, advanced-IsFaithful) depth 9

  Keeps-approve : (st : PendingStage) (c : Change) → Keeps (approve_change now st o c)
  unfolding approve_change
  Keeps-approve st c =
      Keeps-bind _ _
        (Keeps-option (next_stage st (is_disconnection c.change_type)) _ _ (Keeps-terminal st c)
          (λ n. Keeps-advance st n c))
        (λ u. Keeps-reload c.id)

  Keeps-settle : (st : PendingStage) (c : Change) (d : Decision) → Keeps (settle now st o c d)
  unfolding settle
  Keeps-settle st c approve = Keeps-approve st c
  Keeps-settle st c reject = search (keeps_rules, Keeps-reject) depth 9

  Keeps-assert :
      (st : PendingStage) (w : Option ℕ) (r : UserRole) (u : ℕ) → Keeps (assert_can_act st w r u)
  unfolding assert_can_act
  Keeps-assert st w r u = search keeps_rules depth 9

  pub Keeps-decide : Keeps (decide now o)
  unfolding decide
  Keeps-decide = search (keeps_rules, Keeps-assert, Keeps-settle) depth 9
