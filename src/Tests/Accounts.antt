-- ===== src/Tests/Accounts.antt =====
-- Owners and lists of accounts at work (src/modules/accounts/accounts.service.ts).
use isp_sam_backend.Prelude.{ℕ, ◌≡◌, ◌≢◌, ◌⊎◌, All, refl, true, none, some, [], ◌∷◌}
use isp_sam_backend.Db.{
  new, active, sam, sam_head, same_role, Account, ok, err, reassign_forbidden,
  foreign_key_violation,
}
use isp_sam_backend.Scope.{Requester}
use isp_sam_backend.Accounts.Assign.{assign}
use isp_sam_backend.Accounts.Assign.Laws.{assign_lem}
use isp_sam_backend.Accounts.View.{unassigned, listed, narrowed_where, scoped_where}
use isp_sam_backend.Accounts.View.Laws.{IsInRoleScope, listed-scope}
use isp_sam_backend.Tests.Data.{account_of, fresh_store, world_at}

-- A customer that waits for an owner.
abbrev free : Account
free = record (account_of new active) { sam_owner_id = none }

abbrev head : Requester
head = record { id = 5; role = sam_head }

abbrev other_sam : Requester
other_sam = record { id = 12; role = sam }

assign_lem_example :
    let (x, s') = assign (world_at 1000) 1 (some 11) head (fresh_store free) in
    (sam_head ≡ sam_head
      → free.sam_owner_id ≢ none
      → (x ≡ err reassign_forbidden) × (s' ≡ fresh_store free))
    × ((sam_head ≢ sam_head) ⊎ (free.sam_owner_id ≡ none)
        → ((u : ℕ)
            → some 11 ≡ some u
            → (fresh_store free).users.row u ≡ none
            → (x ≡ err foreign_key_violation) × (s' ≡ fresh_store free))
          × (((u : ℕ) → some 11 ≡ some u → (fresh_store free).users.row u ≢ none)
              → (x ≡ ok (record free { sam_owner_id = some 11 }))
                × (s'.accounts.row 1 ≡ some (record free { sam_owner_id = some 11 }))
                × ((j : ℕ) → j ≢ 1 → s'.accounts.row j ≡ (fresh_store free).accounts.row j)))
assign_lem_example = assign_lem (world_at 1000) 1 (some 11) head (fresh_store free) free refl

-- A SAM asks for unassigned accounts and gets one.
shown_to_sam : listed none (some unassigned) other_sam (fresh_store free) ≡ free ∷ []
unfolding listed narrowed_where scoped_where
shown_to_sam = refl

listed-scope_example :
    All
      (λ a.
        IsInRoleScope other_sam (fresh_store free) a
        ⊎ ((same_role sam sam ≡ true)
            × (some unassigned ≡ some unassigned)
            × (a.sam_owner_id ≡ none)))
      (listed none (some unassigned) other_sam (fresh_store free))
listed-scope_example = listed-scope none (some unassigned) other_sam (fresh_store free)
