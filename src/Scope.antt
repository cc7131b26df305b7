-- ===== src/Scope.antt =====
-- `quickApprovalAccountScope` of src/modules/commercial-changes/commercial-changes.service.ts: the
-- owners whose customers a SAM_HEAD may decide on.
use isp_sam_backend.Prelude.{
  ℕ, Bool, true, false, Option, none, some, List, ◌∷◌, map, ◌==◌, includes,
}
use isp_sam_backend.Db.{UserRole, sam_head, User, Store, find_many}

pub record Requester : Type 0 where
  pub id : ℕ
  pub role : UserRole

abbrev pub reports_to : ℕ → User → Bool
reports_to head u = elim (u.sam_head_id) [ none ↦ false | some h ↦ h == head ]

-- The head, then the users who report to them.
abbrev pub team_of : ℕ → Store → List ℕ
team_of head s = head ∷ map (λ u. u.id) (find_many (reports_to head) s.users)

abbrev scope_of : UserRole → List ℕ → Option (List ℕ)
scope_of sam_head team = some team
scope_of _ team = none

-- `undefined`, which is no filter, for every role but SAM_HEAD.
unfoldable pub quick_approval_account_scope : Requester → Store → Option (List ℕ)
quick_approval_account_scope r s = scope_of r.role (team_of r.id s)

abbrev pub owned_within : List ℕ → Option ℕ → Bool
owned_within owners none = false
owned_within owners (some o) = includes o owners

-- An absent scope lets every account through.
abbrev pub in_scope : Option (List ℕ) → Option ℕ → Bool
in_scope none owner = true
in_scope (some owners) owner = owned_within owners owner
