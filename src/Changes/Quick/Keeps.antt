-- ===== src/Changes/Quick/Keeps.antt =====
-- The quick disconnections keep the store consistent
-- (src/modules/commercial-changes/commercial-changes.service.ts).
use isp_sam_backend.Prelude.{ℕ, refl, arith}
use isp_sam_backend.Text.{bind_truthy}
use isp_sam_backend.Db.{
  Change, Account, User, active, pending_quick_approval, same_status, record_not_found,
  is_consistent,
}
use isp_sam_backend.Db.Keeps.{
  IsFaithful, Keeps, Keeps-guarded, Keeps-option, Keeps-create_audit, keeps_rules,
}
use isp_sam_backend.World.{World}
use isp_sam_backend.Changes.Retention.{put_status}
use isp_sam_backend.Changes.Quick.{
  QuickInput, QuickAction, approve, reject, quick_approved_change, quick_rejected_change,
  approve_quick, reject_quick, reactivate, settle_quick, sam_quick_decision,
  enter_pending_quick_approval, notify_crm_quick_disconnect_requested,
}

pub Keeps-enter_pending_quick_approval : (k : ℕ) → Keeps (enter_pending_quick_approval k)
unfolding enter_pending_quick_approval
Keeps-enter_pending_quick_approval k = search keeps_rules depth 9

pub Keeps-notify :
    (w : World) (c : Change) (a : Account) (u : User)
    → Keeps (notify_crm_quick_disconnect_requested w c a u)
unfolding notify_crm_quick_disconnect_requested
Keeps-notify w c a u =
    Keeps-option (bind_truthy a.external_crm_id) _ _ (Keeps-create_audit _)
      (λ x. Keeps-create_audit _)

module _ (now : ℕ) (o : QuickInput) where
  quick_approved-IsFaithful : IsFaithful (quick_approved_change now o)
  unfolding is_consistent
  quick_approved-IsFaithful = record {
    same_id = λ c. refl;
    same_account = λ c. refl;
    consistent = λ c h. ground arith;
  }

  quick_rejected-IsFaithful : IsFaithful (quick_rejected_change now o)
  unfolding is_consistent
  quick_rejected-IsFaithful = record {
    same_id = λ c. refl;
    same_account = λ c. refl;
    consistent = λ c h. ground arith;
  }

  Keeps-reactivate : (k : ℕ) → Keeps (reactivate k)
  Keeps-reactivate k =
      Keeps-guarded k (λ a. same_status a.contract_status pending_quick_approval)
        (put_status active) record_not_found

  Keeps-settle_quick : (c : Change) (d : QuickAction) → Keeps (settle_quick now o c d)
  unfolding settle_quick approve_quick reject_quick
  Keeps-settle_quick c approve = search (keeps_rules, quick_approved-IsFaithful) depth 9
  Keeps-settle_quick c reject =
      search (keeps_rules, quick_rejected-IsFaithful, Keeps-reactivate) depth 9

  pub Keeps-sam_quick_decision : Keeps (sam_quick_decision now o)
  unfolding sam_quick_decision
  Keeps-sam_quick_decision = search (keeps_rules, Keeps-settle_quick) depth 12
