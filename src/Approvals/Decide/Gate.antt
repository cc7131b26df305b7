-- ===== src/Approvals/Decide/Gate.antt =====
-- What a decision needs, what it never does, and that it is taken at most once
-- (src/modules/commercial-changes/approvals.service.ts).
use isp_sam_backend.Prelude.{ℕ, ◌≡◌, inl, inr, Option, none, some, arith, Option-cases}
use isp_sam_backend.Db.{
  Account, Change, Store, ok, err, Error, Result-cases, ContractStatus, joined,
}
use isp_sam_backend.Approvals.Chain.{PendingStage, pending_stage}
use isp_sam_backend.Approvals.Decide.{DecideInput, decide, assert_can_act}
use isp_sam_backend.Approvals.Decide.Authority.{assert_can_act_sound, assert_can_act_same}
use isp_sam_backend.Approvals.Decide.Outcome.{IsDecidable, decide-outcome, Realises-error}

-- Rows are stored under their own ids.
abbrev pub IsKeyed : Store → Type 0
IsKeyed s = (k : ℕ) (c : Change) → s.changes.row k ≡ some c → c.id ≡ k

-- What an accepted decision rests on.
abbrev pub Accepted : DecideInput → Store → Type 0
Accepted o s = (c : Change) × (a : Account) × (stage : PendingStage) × IsDecidable o s c a stage

joined_found :
    (s : Store) (o : Option Change) (c : Change) (a : Account)
    → joined o s.accounts.row ≡ some (c, a)
    → (o ≡ some c) × (s.accounts.row c.account_id ≡ some a)
joined_found s none c a h = cc
joined_found s (some d) c a h = ground arith

module _ (now : ℕ) (o : DecideInput) (s : Store) (keyed : IsKeyed s) where
  passed :
      (c : Change) (a : Account) (stage : PendingStage)
      → joined (s.changes.row o.commercial_change_id) s.accounts.row ≡ some (c, a)
      → pending_stage c.approval_status ≡ some stage
      → {c' : Change} {st : ContractStatus} → (decide now o s).0 ≡ ok (c', st)
      → (assert_can_act stage a.sam_owner_id o.requester_role o.performed_by_user_id s).0 ≡ ok tt
  unfolding decide
  passed c a stage e p h = ground arith

  decidable :
      (c : Change) (a : Account) (stage : PendingStage)
      → joined (s.changes.row o.commercial_change_id) s.accounts.row ≡ some (c, a)
      → pending_stage c.approval_status ≡ some stage
      → (assert_can_act stage a.sam_owner_id o.requester_role o.performed_by_user_id s).0 ≡ ok tt
      → IsDecidable o s c a stage
  decidable c a stage e p may =
      let (f, g) = joined_found s _ c a e in
      record {
        found = f;
        keyed = keyed _ c f;
        owner = g;
        waiting = p;
        authorised = assert_can_act_sound stage _ _ _ s may;
      }

  -- A decision is accepted only for a change that is there and waits at a stage, and only from a
  -- user who may act on that stage.
  pub decide_ok_decidable :
      {c' : Change} {st : ContractStatus} → (decide now o s).0 ≡ ok (c', st) → Accepted o s
  unfolding decide
  decide_ok_decidable h =
      elim (Option-cases (joined (s.changes.row o.commercial_change_id) s.accounts.row)) [
        | inl missing ↦ ground arith
        | inr ((c, a), e) ↦ elim (Option-cases (pending_stage c.approval_status)) [
          | inl settled ↦ ground arith
          | inr (stage, p) ↦ (c, a, stage, decidable c a stage e p (passed c a stage e p h))
        ]
      ]

  refused_by_role :
      (c : Change) (a : Account) (stage : PendingStage)
      → joined (s.changes.row o.commercial_change_id) s.accounts.row ≡ some (c, a)
      → pending_stage c.approval_status ≡ some stage
      → {e : Error}
      → (assert_can_act stage a.sam_owner_id o.requester_role o.performed_by_user_id s).0 ≡ err e
      → (decide now o s).1 ≡ s
  unfolding decide
  refused_by_role c a stage e p h =
      ground
        (arith, assert_can_act_same stage a.sam_owner_id o.requester_role o.performed_by_user_id s)

  -- A decision that is refused, for whatever reason, writes nothing.
  pub decide_error_unchanged : {x : Error} → (decide now o s).0 ≡ err x → (decide now o s).1 ≡ s
  unfolding decide
  decide_error_unchanged h =
      elim (Option-cases (joined (s.changes.row o.commercial_change_id) s.accounts.row)) [
        | inl missing ↦ ground arith
        | inr ((c, a), e) ↦ elim (Option-cases (pending_stage c.approval_status)) [
          | inl settled ↦ ground arith
          | inr (stage, p) ↦
              elim (Result-cases
                (assert_can_act stage a.sam_owner_id o.requester_role o.performed_by_user_id s).0) [
                  | inl (u, may) ↦
                      Realises-error s _ _
                        (decide-outcome now o s c a stage (decidable c a stage e p may)) h
                  | inr (y, may_not) ↦ refused_by_role c a stage e p may_not
                ]
        ]
      ]
