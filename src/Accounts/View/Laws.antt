-- ===== src/Accounts/View/Laws.antt =====
-- Whose accounts a user sees (src/modules/accounts/accounts.service.ts).
use isp_sam_backend.Prelude.{
  ℕ, ◌≡◌, ◌⊎◌, ◌↔◌, ◌≢◌, All, Bool, true, Option, none, some, List, [], ◌∷◌, arith, Bool-cases,
  Option-cases, inl, inr, refl, select, gather,
}
use isp_sam_backend.Db.{sam, sam_head, same_role, Account, Store, KittyType}
use isp_sam_backend.Scope.{Requester, owned_within}
use isp_sam_backend.Accounts.View.{
  OwnerFilter, mine, unassigned, team, all, scoped_where, narrowed_where, report_ids, listed,
  account_matches, get_by_id,
}

-- The owners whose accounts the role may see: a SAM's own; of a head, those of the head and of the
-- team, and accounts that no one owns; of any other role, all.
abbrev pub IsInRoleScope : Requester → Store → Account → Type 0
IsInRoleScope r s a =
    (same_role r.role sam ≡ true → a.sam_owner_id ≡ some r.id)
    × (same_role r.role sam_head ≡ true
        → (a.sam_owner_id ≡ none)
          ⊎ (a.sam_owner_id ≡ some r.id)
          ⊎ (owned_within (report_ids r.id s) a.sam_owner_id ≡ true))

-- The same for one account.
matched-scope :
    (kitty : Option KittyType) (owner : Option OwnerFilter) (r : Requester) (s : Store)
    (a : Account)
    → account_matches (narrowed_where owner r s (scoped_where kitty r s)) a ≡ true
    → IsInRoleScope r s a
      ⊎ ((same_role r.role sam ≡ true) × (owner ≡ some unassigned) × (a.sam_owner_id ≡ none))
unfolding narrowed_where scoped_where
matched-scope kitty none r s a h = inl (λ q. ground arith, λ q. ground arith)
matched-scope kitty (some mine) r s a h = inl (λ q. ground arith, λ q. ground arith)
matched-scope kitty (some unassigned) r s a h = elim (Bool-cases (same_role r.role sam)) [
  | inl q ↦ inr (q, refl, ground arith)
  | inr q ↦ inl (λ t. ground arith, λ t. ground arith)
]
matched-scope kitty (some team) r s a h = inl (λ q. ground arith, λ q. ground arith)
matched-scope kitty (some all) r s a h = inl (λ q. ground arith, λ q. ground arith)

select-All :
    {V : Type 0} (P : V → Type 0) (p : V → Bool)
    → ((x : V) → p x ≡ true → P x)
    → (xs : List V) → All P (select p xs)
select-All P p h [] = tt
select-All P p h (x ∷ xs) = elim (Bool-cases (p x)) [
  | inl e ↦ rw e (h x e, select-All P p h xs)
  | inr e ↦ rw e (select-All P p h xs)
]

-- An account that a list selects, under any filter, is in the scope of the requester's role, but for
-- one case: a SAM who asks for unassigned accounts gets accounts that no one owns.
pub listed-scope :
    (kitty : Option KittyType) (owner : Option OwnerFilter) (r : Requester) (s : Store)
    → All
        (λ a.
          IsInRoleScope r s a
          ⊎ ((same_role r.role sam ≡ true) × (owner ≡ some unassigned) × (a.sam_owner_id ≡ none)))
        (listed kitty owner r s)
unfolding listed
listed-scope kitty owner r s =
    select-All _ (account_matches (narrowed_where owner r s (scoped_where kitty r s)))
      (matched-scope kitty owner r s) (gather s.accounts.row s.accounts.keys)

-- A SAM who opens an account by its id gets it exactly if it is there and they own it; any other
-- role gets every account that is there.
pub get_by_id_iff :
    (k : ℕ) (r : Requester) (s : Store)
    → (get_by_id k r s ≢ none) ↔ (
        (a : Account) × (s.accounts.row k ≡ some a)
        × (same_role r.role sam ≡ true → a.sam_owner_id ≡ some r.id))
unfolding get_by_id
get_by_id_iff k r s = elim (Option-cases (s.accounts.row k)) [
  | inl e ↦ (λ h. ground arith, λ (a, f, g). ground arith)
  | inr (a, e) ↦ (λ h. (a, e, λ q. ground arith), λ (b, f, g). λ n. ground arith)
]
