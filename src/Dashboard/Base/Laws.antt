-- ===== src/Dashboard/Base/Laws.antt =====
-- Whose accounts the dashboard sums, and that it counts each customer once
-- (src/modules/dashboard/dashboard.service.ts).
use isp_sam_backend.Prelude.{
  ℕ, ◌+◌, ◌≡◌, ◌≢◌, Bool, true, false, ◌||◌, some, List, [], ◌∷◌, length, select, not, ◌&&◌,
  includes, arith, refl, gather,
}
use isp_sam_backend.Db.{sam, sam_head, same_role, Account, Store}
use isp_sam_backend.Scope.{Requester, team_of}
use isp_sam_backend.Dashboard.Base.{
  is_kitty, role_owners, account_scope, kitty_accounts, is_active, is_terminated, is_churning,
  sum_of, base_customers, new_customers,
}

select-none :
    {V : Type 0} (p : V → Bool) → ((x : V) → p x ≡ false) → (xs : List V) → select p xs ≡ []
select-none p h [] = refl
select-none p h (x ∷ xs) = let r = select-none p h xs in ground (arith, h x)

-- No account passes the scope of a role that does not cover the SAM who is named.
scope-none :
    (r : Requester) (u : ℕ) (s : Store) (owners : List ℕ)
    → role_owners r s ≡ some owners
    → includes u owners ≡ false
    → (a : Account) → account_scope r (some u) s a ≡ false
unfolding account_scope
scope-none r u s owners e n a = ground arith

sam_owners :
    (r : Requester) (s : Store) → same_role r.role sam ≡ true → role_owners r s ≡ some (r.id ∷ [])
unfolding role_owners
sam_owners r s e = ground arith

head_owners :
    (r : Requester) (s : Store)
    → same_role r.role sam_head ≡ true
    → role_owners r s ≡ some (team_of r.id s)
unfolding role_owners
head_owners r s e = ground arith

-- A SAM who names another SAM, and a SAM_HEAD who names a user who is neither the head nor of the
-- team, get no account, of the one base and of the other.
pub kitty_accounts-none :
    (of_base : Bool) (r : Requester) (u : ℕ) (s : Store)
    → (same_role r.role sam ≡ true → r.id ≢ u → kitty_accounts of_base r (some u) s ≡ [])
      × (same_role r.role sam_head ≡ true
          → includes u (team_of r.id s) ≡ false
          → kitty_accounts of_base r (some u) s ≡ [])
unfolding kitty_accounts
kitty_accounts-none of_base r u s =
    let pass = select-none (λ a. is_kitty of_base a.kitty_type && account_scope r (some u) s a) in
    (
      λ e ne.
          pass
            (λ a.
              let z = scope-none r u s (r.id ∷ []) (sam_owners r s e) (ground arith) a in
              ground arith)
            (gather s.accounts.row s.accounts.keys),
      λ e n.
          pass
            (λ a. let z = scope-none r u s (team_of r.id s) (head_owners r s e) n a in ground arith)
            (gather s.accounts.row s.accounts.keys),
    )

-- The statuses that no group of the new base has.
abbrev pub is_ungrouped : Account → Bool
is_ungrouped a = not (is_active a || (is_terminated a || is_churning a))

-- By the rule of the existing base each customer is counted once, as current, terminated or leaving,
-- and the ARC of the current and the leaving ones is that of all customers but the terminated ones.
-- By the rule of the new base, the customers who are expired, pending or wait for an approval are
-- not current: it has that many current customers less, and less of the current ARC by theirs.
pub customers_lem :
    (accounts : List Account)
    → let b = base_customers accounts in
      let n = new_customers accounts in
      (b.total_customers ≡ b.current_customers + b.terminated_count + b.churn_count)
      × (sum_of (λ a. a.current_arc) accounts
          ≡ b.current_arc
            + b.churn_arc
            + sum_of (λ a. a.current_arc) (select is_terminated accounts))
      × (b.current_customers ≡ n.current_customers + length (select is_ungrouped accounts))
      × (b.current_arc ≡ n.current_arc + sum_of (λ a. a.current_arc) (select is_ungrouped accounts))
unfolding base_customers new_customers
customers_lem [] = ground arith
customers_lem (a ∷ more) = let r = customers_lem more in ground arith
