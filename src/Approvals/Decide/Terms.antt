-- ===== src/Approvals/Decide/Terms.antt =====
-- What the approval chain may do to the commercial terms of an account
-- (src/modules/commercial-changes/approvals.service.ts).
use isp_sam_backend.Prelude.{ℕ, ◌≡◌, ◌≢◌, ◌⊎◌, some, arith, or_else}
use isp_sam_backend.Db.{
  approved, active, disconnection, pending_super_admin_2, ContractStatus, Account, Change, Store,
  ok,
}
use isp_sam_backend.Approvals.Chain.{PendingStage, pending_stage, next_stage}
use isp_sam_backend.Approvals.Decide.{Decision, approve, reject, DecideInput, decide}
use isp_sam_backend.Approvals.Decide.Outcome.{IsDecidable, outcome, decide-outcome, Realises-ok}

-- The change went live: the account has its terms and is ACTIVE, and the change is marked.
abbrev pub IsApplied : ℕ → Change → Change → Account → Account → Type 0
IsApplied now c c' a a' =
    (c.change_type ≢ disconnection)
    × (c'.approval_status ≡ approved)
    × (c'.account_applied_at ≡ some now)
    × (a'.current_arc ≡ c.new_arc)
    × (a'.bandwidth_mbps ≡ or_else c.new_bandwidth_mbps a.bandwidth_mbps)
    × (a'.contract_status ≡ active)

module _ (now : ℕ) (o : DecideInput) (c : Change) (a : Account) (stage : PendingStage) where
  -- The commercial terms of the account after a decision.
  outcome-terms :
      (d : Decision) {c' : Change} {a' : Account}
      → pending_stage c.approval_status ≡ some stage
      → outcome now o c a stage d ≡ ok (c', a')
      → ((a'.current_arc ≡ a.current_arc) × (a'.bandwidth_mbps ≡ a.bandwidth_mbps))
        ⊎ IsApplied now c c' a a'
  unfolding next_stage
  outcome-terms approve p e = ground arith
  outcome-terms reject p e = ground arith

  outcome-account_id :
      (d : Decision) {c' : Change} {a' : Account}
      → outcome now o c a stage d ≡ ok (c', a')
      → c'.account_id ≡ c.account_id
  outcome-account_id approve e = ground arith
  outcome-account_id reject e = ground arith

  outcome-gate :
      (d : Decision) {c' : Change} {a' : Account}
      → pending_stage c.approval_status ≡ some stage
      → outcome now o c a stage d ≡ ok (c', a')
      → c'.approval_status ≡ approved
      → (c.change_type ≡ disconnection)
      → c.approval_status ≡ pending_super_admin_2
  unfolding next_stage
  outcome-gate approve p e f t = ground arith
  outcome-gate reject p e f t = ground arith

-- An accepted decision changes the terms of the account only if it approves a change that is no
-- disconnection at its last stage; the terms are then those of the change, the account is ACTIVE
-- and the change is marked approved and applied. A disconnection that it approves for good had
-- reached SUPER_ADMIN_2.
pub decide-terms :
    (now : ℕ) (o : DecideInput) (s : Store) (c : Change) (a : Account) (stage : PendingStage)
    → IsDecidable o s c a stage
    → {c' : Change} {st : ContractStatus} → (decide now o s).0 ≡ ok (c', st)
    → ((a' : Account) × ((decide now o s).1.accounts.row c.account_id ≡ some a')
        × (((a'.current_arc ≡ a.current_arc) × (a'.bandwidth_mbps ≡ a.bandwidth_mbps))
            ⊎ IsApplied now c c' a a'))
      × (c'.approval_status ≡ approved
          → c.change_type ≡ disconnection
          → c.approval_status ≡ pending_super_admin_2)
decide-terms now o s c a stage d {c'} h =
    let (a', e, w) = Realises-ok s _ _ (decide-outcome now o s c a stage d) h in
    (
      (
        a',
        rw (outcome-account_id now o c a stage o.action e) at w.1,
        outcome-terms now o c a stage o.action d.waiting e,
      ),
      outcome-gate now o c a stage o.action d.waiting e,
    )
