-- ===== src/Approvals/Decide/Progress.antt =====
-- How far a change is from the end of the chain
-- (src/modules/commercial-changes/approvals.service.ts).
use isp_sam_backend.Prelude.{ℕ, ◌≡◌, ◌<◌, ◌-◌, some, arith, if◌then◌else◌}
use isp_sam_backend.Db.{
  ChangeType, ApprovalStatus, pending_super_admin_2, pending_accounts, pending_sam_head,
  is_disconnection, Account, Change, Store, ok, err, not_pending, ContractStatus,
}
use isp_sam_backend.Approvals.Chain.{PendingStage, pending_stage, next_stage}
use isp_sam_backend.Approvals.Decide.{approve, reject, Decision, DecideInput, decide}
use isp_sam_backend.Approvals.Decide.Outcome.{outcome, decide-outcome, Realises-ok}
use isp_sam_backend.Approvals.Decide.Gate.{IsKeyed, decide_ok_decidable}

-- The approvals that a change still needs.
abbrev pub approvals_left : ChangeType → ApprovalStatus → ℕ
approvals_left t pending_sam_head = if is_disconnection t then 3 else 2
approvals_left t pending_accounts = if is_disconnection t then 2 else 1
approvals_left t pending_super_admin_2 = 1
approvals_left t _ = 0

-- An accepted decision: an approval takes one off the count, a rejection ends the chain.
abbrev pub left_after : Decision → ℕ → ℕ
left_after approve n = n - 1
left_after reject n = 0

module _ (now : ℕ) (o : DecideInput) (c : Change) (a : Account) (stage : PendingStage) where
  outcome-approvals_left :
      (d : Decision)
      → pending_stage c.approval_status ≡ some stage
      → {c' : Change} {a' : Account} → outcome now o c a stage d ≡ ok (c', a')
      → (0 < approvals_left c.change_type c.approval_status)
        × (approvals_left c'.change_type c'.approval_status
            ≡ left_after d (approvals_left c.change_type c.approval_status))
  unfolding next_stage
  outcome-approvals_left approve p e = ground arith
  outcome-approvals_left reject p e = ground arith

-- The change that a decision is about still needs an approval; an accepted approval takes one off
-- the count, an accepted rejection ends it.
pub decide-approvals_left :
    (now : ℕ) (o : DecideInput) (s : Store)
    → IsKeyed s
    → {c' : Change} {st : ContractStatus} → (decide now o s).0 ≡ ok (c', st)
    → (c : Change) × (s.changes.row o.commercial_change_id ≡ some c)
      × (0 < approvals_left c.change_type c.approval_status)
      × (approvals_left c'.change_type c'.approval_status
          ≡ left_after o.action (approvals_left c.change_type c.approval_status))
decide-approvals_left now o s keyed h =
    let (c, a, stage, d) = decide_ok_decidable now o s keyed h in
    let (a', e, _) = Realises-ok s _ _ (decide-outcome now o s c a stage d) h in
    let (more, less) = outcome-approvals_left now o c a stage o.action d.waiting e in
    (c, d.found, more, less)

-- Once no approval is left on a change that is there, with its account, every decision about it is
-- refused and nothing is written.
pub decide_settled :
    (now : ℕ) (o : DecideInput) (s : Store) (c : Change) (a : Account)
    → s.changes.row o.commercial_change_id ≡ some c
    → s.accounts.row c.account_id ≡ some a
    → approvals_left c.change_type c.approval_status ≡ 0
    → decide now o s ≡ (err not_pending, s)
unfolding decide
decide_settled now o s c a f g z = ground arith
