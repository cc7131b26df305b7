-- ===== src/Changes/Backfill/Laws.antt =====
-- A backfill closes the account at once, and only once
-- (src/modules/commercial-changes/commercial-changes.service.ts).
use isp_sam_backend.Prelude.{ℕ, ◌≡◌, ◌≢◌, some, false, arith, ap, refl, ◌∙◌}
use isp_sam_backend.Db.{terminated, Account, Store, ok, err, account_already_terminated}
use isp_sam_backend.World.{World}
use isp_sam_backend.Changes.Apply.{is_due}
use isp_sam_backend.Changes.Backfill.{
  BackfillInput, backfilled_change, closed, backfill_disconnection,
}

module _ (w : World) (i : BackfillInput) (s : Store) (a : Account)
    (found : s.accounts.row i.account_id ≡ some a) (live : a.contract_status ≢ terminated) where
  -- A backfill on an account that is not terminated succeeds: the account is TERMINATED with ARC 0,
  -- the new row is stored, the sweep will never take it up, and no other row changes.
  pub backfill_disconnection_lem :
      let (r, s') = backfill_disconnection w i s in
      let c = backfilled_change w i a in
      (r ≡ ok c)
      × (s'.changes.row w.fresh_id ≡ some c)
      × (s'.accounts.row i.account_id ≡ some (closed a))
      × ((today : ℕ) → is_due today c ≡ false)
      × ((j : ℕ) → j ≢ w.fresh_id → s'.changes.row j ≡ s.changes.row j)
      × ((j : ℕ) → j ≢ i.account_id → s'.accounts.row j ≡ s.accounts.row j)
  unfolding backfill_disconnection
  backfill_disconnection_lem = (
    ground arith,
    ground arith,
    ground arith,
    λ today. ground arith,
    λ j ne. ground arith,
    λ j ne. ground arith,
  )

terminated_refused :
    (w : World) (i : BackfillInput) (s : Store) (a : Account)
    → s.accounts.row i.account_id ≡ some a
    → a.contract_status ≡ terminated
    → backfill_disconnection w i s ≡ (err account_already_terminated, s)
unfolding backfill_disconnection
terminated_refused w i s a f t = ground arith

-- A second backfill of the same account, whatever its other inputs are, is refused and writes
-- nothing.
pub backfill_once :
    (w later : World) (i i' : BackfillInput) (s : Store) (a : Account)
    → s.accounts.row i.account_id ≡ some a
    → a.contract_status ≢ terminated
    → i'.account_id ≡ i.account_id
    → let s' = (backfill_disconnection w i s).1 in
      backfill_disconnection later i' s' ≡ (err account_already_terminated, s')
backfill_once w later i i' s a f live same =
    let (_, _, g, _, _, _) = backfill_disconnection_lem w i s a f live in
    terminated_refused later i' (backfill_disconnection w i s).1 (closed a)
      (ap (λ k. (backfill_disconnection w i s).1.accounts.row k) same ∙ g) refl
