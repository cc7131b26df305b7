-- ===== src/Approvals/Queue/Laws.antt =====
-- The approvals queue and the authority check agree
-- (src/modules/commercial-changes/approvals.service.ts).
use isp_sam_backend.Prelude.{◌≡◌, ◌↔◌, inl, inr, true, none, some, arith, Option-cases}
use isp_sam_backend.Db.{Account, Change, Store, ok}
use isp_sam_backend.Scope.{Requester, quick_approval_account_scope}
use isp_sam_backend.Approvals.Chain.{PendingStage, pending_stage}
use isp_sam_backend.Approvals.Decide.{assert_can_act}
use isp_sam_backend.Approvals.Queue.{in_queue}

module _ (r : Requester) (s : Store) (c : Change) where
  at_stage :
      (a : Account) (stage : PendingStage)
      → s.accounts.row c.account_id ≡ some a
      → pending_stage c.approval_status ≡ some stage
      → (in_queue r s c ≡ true) ↔ ((assert_can_act stage a.sam_owner_id r.role r.id s).0 ≡ ok tt)
  unfolding in_queue assert_can_act quick_approval_account_scope
  at_stage a stage f p = (λ h. ground arith, λ h. ground arith)

  at_no_stage : pending_stage c.approval_status ≡ none → in_queue r s c ≡ true → ⊥
  unfolding in_queue quick_approval_account_scope
  at_no_stage p h = ground arith

  -- A change stands in a user's queue exactly when it waits at a stage whose authority check the
  -- user passes for the owner of its account.
  pub in_queue_iff :
      (a : Account)
      → s.accounts.row c.account_id ≡ some a
      → (in_queue r s c ≡ true) ↔ (
          (stage : PendingStage) × (pending_stage c.approval_status ≡ some stage)
          × ((assert_can_act stage a.sam_owner_id r.role r.id s).0 ≡ ok tt))
  in_queue_iff a f = (
    λ h. elim (Option-cases (pending_stage c.approval_status)) [
      | inl p ↦ absurd (at_no_stage p h)
      | inr (stage, p) ↦ (stage, p, (at_stage a stage f p).0 h)
    ],
    λ (stage, p, may). (at_stage a stage f p).1 may,
  )
