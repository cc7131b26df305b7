-- ===== src/Accounts/Assign/Laws.antt =====
-- Who may change an owner, and what that does (src/modules/accounts/accounts.service.ts).
use isp_sam_backend.Prelude.{
  ℕ, ◌≡◌, ◌≢◌, ◌⊎◌, inl, inr, ap, true, false, Option, Option-cases, none, some, arith, refl,
}
use isp_sam_backend.Db.{
  sam_head, Account, User, Store, ok, err, put, reassign_forbidden, foreign_key_violation,
}
use isp_sam_backend.Scope.{Requester}
use isp_sam_backend.World.{World}
use isp_sam_backend.Notifications.Assigned.{
  send_customer_assigned_alert-returns, send_customer_assigned_alert-accounts,
}
use isp_sam_backend.Accounts.Assign.{
  assign, change_owner, tell_new_owner, put_owner, is_forbidden, dangling, user_of,
}

module _ (w : World) (k : ℕ) (r : Requester) (s : Store) where
  told-returns : (u p : Option User) → (tell_new_owner w k r u p s).0 ≡ ok tt
  unfolding tell_new_owner
  told-returns none p = refl
  told-returns (some u) none = refl
  told-returns (some u) (some p) = ground (arith, send_customer_assigned_alert-returns w k u p.id s)

  told-accounts : (u p : Option User) → (tell_new_owner w k r u p s).1.accounts ≡ s.accounts
  unfolding tell_new_owner
  told-accounts none p = refl
  told-accounts (some u) none = refl
  told-accounts (some u) (some p) = ground (
    arith,
    send_customer_assigned_alert-returns w k u p.id s,
    send_customer_assigned_alert-accounts w k u p.id s,
  )

module _ (w : World) (k : ℕ) (owner : Option ℕ) (r : Requester) (s : Store) (a : Account)
    (e : s.accounts.row k ≡ some a) where
  module _ (f : is_forbidden r a ≡ false) (d : dangling owner s ≡ false) where
    changed-returns : (change_owner k owner r s).0 ≡ ok (put_owner owner a)
    unfolding change_owner
    changed-returns = ground arith

    changed-accounts : (change_owner k owner r s).1.accounts ≡ put k (put_owner owner a) s.accounts
    unfolding change_owner
    changed-accounts = ground arith

    told_store : Store
    told_store = (change_owner k owner r s).1

    assigned-returns : (assign w k owner r s).0 ≡ ok (put_owner owner a)
    unfolding assign told_store
    assigned-returns = ground (
      arith,
      changed-returns,
      told-returns w k r told_store (user_of owner told_store) (told_store.users.row r.id),
    )

    assigned-accounts : (assign w k owner r s).1.accounts ≡ put k (put_owner owner a) s.accounts
    unfolding assign told_store
    assigned-accounts = ground (
      arith,
      changed-returns,
      changed-accounts,
      told-returns w k r told_store (user_of owner told_store) (told_store.users.row r.id),
      told-accounts w k r told_store (user_of owner told_store) (told_store.users.row r.id),
    )

  forbidden : is_forbidden r a ≡ true → change_owner k owner r s ≡ (err reassign_forbidden, s)
  unfolding change_owner
  forbidden f = ground arith

  no_user :
      is_forbidden r a ≡ false
      → dangling owner s ≡ true
      → change_owner k owner r s ≡ (err foreign_key_violation, s)
  unfolding change_owner
  no_user f d = ground arith

  refused : is_forbidden r a ≡ true → assign w k owner r s ≡ (err reassign_forbidden, s)
  unfolding assign
  refused f = ground (arith, forbidden f)

  unknown_owner :
      is_forbidden r a ≡ false
      → dangling owner s ≡ true
      → assign w k owner r s ≡ (err foreign_key_violation, s)
  unfolding assign
  unknown_owner f d = ground (arith, no_user f d)

  owned_head : r.role ≡ sam_head → a.sam_owner_id ≢ none → is_forbidden r a ≡ true
  owned_head h o = ground arith

  allowed : (r.role ≢ sam_head) ⊎ (a.sam_owner_id ≡ none) → is_forbidden r a ≡ false
  allowed (inl h) = ground arith
  allowed (inr h) = ground arith

  dangling_no_user : (u : ℕ) → owner ≡ some u → s.users.row u ≡ none → dangling owner s ≡ true
  dangling_no_user u e f = ground arith

  not_dangling : ((u : ℕ) → owner ≡ some u → s.users.row u ≢ none) → dangling owner s ≡ false
  not_dangling h = elim (Option-cases owner) [
    | inl e ↦ ground arith
    | inr (u, e) ↦ let there = h u e in ground arith
  ]

  -- Changing the owner of an account that is there has three outcomes. A SAM head is refused where
  -- someone owns the account already, so that a head can neither take it away nor hand it on, and
  -- nothing is written. Of the others, and for an account that no one owns, an owner that is no user
  -- is refused, and nothing is written. Where the owner is a user or none, the call returns, whatever
  -- becomes of the alert: the account has the new owner or none, all else of it stays, and no other
  -- account changes.
  pub assign_lem :
      let (x, s') = assign w k owner r s in
      (r.role ≡ sam_head → a.sam_owner_id ≢ none → (x ≡ err reassign_forbidden) × (s' ≡ s))
      × ((r.role ≢ sam_head) ⊎ (a.sam_owner_id ≡ none)
          → ((u : ℕ)
              → owner ≡ some u
              → s.users.row u ≡ none
              → (x ≡ err foreign_key_violation) × (s' ≡ s))
            × (((u : ℕ) → owner ≡ some u → s.users.row u ≢ none)
                → (x ≡ ok (record a { sam_owner_id = owner }))
                  × (s'.accounts.row k ≡ some (record a { sam_owner_id = owner }))
                  × ((j : ℕ) → j ≢ k → s'.accounts.row j ≡ s.accounts.row j)))
  assign_lem = (
    λ h o. let e = refused (owned_head h o) in (ap (λ x. x.0) e, ap (λ x. x.1) e),
    λ free. (
      λ u e f.
          let q = unknown_owner (allowed free) (dangling_no_user u e f) in
          (ap (λ x. x.0) q, ap (λ x. x.1) q),
      λ there.
          let f = allowed free in
          let d = not_dangling there in
          (
            assigned-returns f d,
            ground (arith, assigned-accounts f d),
            λ j ne. ground (arith, assigned-accounts f d),
          ),
    ),
  )
