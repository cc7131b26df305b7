-- ===== src/Approvals/Decide/Authority.antt =====
-- Who may decide at which stage (src/modules/commercial-changes/approvals.service.ts).
use isp_sam_backend.Prelude.{ℕ, ◌≡◌, ◌⊎◌, true, Option, some, List, arith, includes}
use isp_sam_backend.Db.{UserRole, admin, Store, ok}
use isp_sam_backend.Scope.{team_of, quick_approval_account_scope}
use isp_sam_backend.Approvals.Chain.{PendingStage, at_sam_head, stage_role}
use isp_sam_backend.Approvals.Decide.{assert_can_act}

-- The owner is one of a head's team.
abbrev pub IsOwnedBy : List ℕ → Option ℕ → Type 0
IsOwnedBy team owner = (u : ℕ) × (owner ≡ some u) × (includes u team ≡ true)

-- ADMIN acts on every stage, another user on the stage of their role only, and a SAM_HEAD only on
-- the customers of their own team.
abbrev pub MayAct : PendingStage → Option ℕ → UserRole → ℕ → Store → Type 0
MayAct stage owner role user s =
    (role ≡ admin)
    ⊎ ((role ≡ stage_role stage) × (stage ≡ at_sam_head → IsOwnedBy (team_of user s) owner))

module _ (stage : PendingStage) (owner : Option ℕ) (role : UserRole) (user : ℕ) (s : Store) where
  pub assert_can_act_sound :
      (assert_can_act stage owner role user s).0 ≡ ok tt → MayAct stage owner role user s
  unfolding assert_can_act quick_approval_account_scope
  assert_can_act_sound h = ground arith

  pub assert_can_act_complete :
      MayAct stage owner role user s → assert_can_act stage owner role user s ≡ (ok tt, s)
  unfolding assert_can_act quick_approval_account_scope
  assert_can_act_complete h = ground arith

  pub assert_can_act_same : (assert_can_act stage owner role user s).1 ≡ s
  unfolding assert_can_act quick_approval_account_scope
  assert_can_act_same = ground arith
