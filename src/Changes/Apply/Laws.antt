-- ===== src/Changes/Apply/Laws.antt =====
-- A change is mirrored onto its account exactly once
-- (src/modules/commercial-changes/commercial-changes.service.ts).
use isp_sam_backend.Prelude.{ℕ, ◌≡◌, ◌≢◌, true, false, some, arith, is_some}
use isp_sam_backend.Db.{Account, Change, Store, ok, err, Error}
use isp_sam_backend.Changes.Apply.{mirrored, mark_applied, apply_change_to_account}

module _ (now k : ℕ) (s : Store) where
  -- A change that is not yet applied is mirrored onto its account and marked; no other change or
  -- account is touched, and no audit row is written. Once it is applied the call changes nothing.
  pub apply_change_to_account_lem :
      (c : Change) (a : Account)
      → s.changes.row k ≡ some c
      → s.accounts.row c.account_id ≡ some a
      → let (r, s') = apply_change_to_account now k s in
        (is_some c.account_applied_at ≡ true → (r ≡ ok c) × (s' ≡ s))
        × (is_some c.account_applied_at ≡ false
            → (r ≡ ok (mark_applied now c))
              × (s'.changes.row k ≡ some (mark_applied now c))
              × (s'.accounts.row c.account_id ≡ some (mirrored c a))
              × ((j : ℕ) → j ≢ k → s'.changes.row j ≡ s.changes.row j)
              × ((j : ℕ) → j ≢ c.account_id → s'.accounts.row j ≡ s.accounts.row j)
              × (s'.audit ≡ s.audit))
  unfolding apply_change_to_account
  apply_change_to_account_lem c a f g = (
    λ h. (ground arith, ground arith),
    λ h. (
      ground arith,
      ground arith,
      ground arith,
      λ j ne. ground arith,
      λ j ne. ground arith,
      ground arith,
    ),
  )

  applied :
      (c : Change)
      → (apply_change_to_account now k s).0 ≡ ok c
      → ((apply_change_to_account now k s).1.changes.row k ≡ some c)
        × (is_some c.account_applied_at ≡ true)
  unfolding apply_change_to_account
  applied c h = ground arith

applied_stays :
    (now k : ℕ) (s : Store) (c : Change)
    → s.changes.row k ≡ some c
    → is_some c.account_applied_at ≡ true
    → apply_change_to_account now k s ≡ (ok c, s)
unfolding apply_change_to_account
applied_stays now k s c f h = ground arith

-- Applying a change a second time, at any later instant, gives the same row back and writes nothing.
pub apply_change_to_account_idempotent :
    (now later k : ℕ) (s : Store) {c : Change}
    → (apply_change_to_account now k s).0 ≡ ok c
    → let s' = (apply_change_to_account now k s).1 in
      apply_change_to_account later k s' ≡ (ok c, s')
apply_change_to_account_idempotent now later k s {c} h =
    let (f, m) = applied now k s c h in applied_stays later k _ c f m

-- A call that fails writes nothing.
pub apply_change_to_account_error :
    (now k : ℕ) (s : Store) {e : Error}
    → (apply_change_to_account now k s).0 ≡ err e
    → (apply_change_to_account now k s).1 ≡ s
unfolding apply_change_to_account
apply_change_to_account_error now k s h = ground arith
