-- ===== src/Changes/Backfill/Keeps.antt =====
-- `backfillDisconnection` keeps the store consistent
-- (src/modules/commercial-changes/commercial-changes.service.ts).
use isp_sam_backend.Prelude.{ℕ, ◌≡◌, true, some, refl, arith}
use isp_sam_backend.Db.{
  Account, Store, Action, Change, ok, pure, transaction, ◌>>=◌, ◌>>◌, or_throw, throw_if,
  find_account, terminated, same_status, account_not_found, account_already_terminated,
  create_change, update_account, create_audit, is_consistent, IsConsistent,
}
use isp_sam_backend.Db.Keeps.{
  Keeps, keeps_rules, bind-IsConsistent, reading-IsConsistent, create_change-IsConsistent,
  transaction-IsConsistent,
}
use isp_sam_backend.World.{World}
use isp_sam_backend.Changes.Backfill.{
  BackfillInput, backfilled_change, closed, backfill_audit, backfill_disconnection,
}

module _ (w : World) (i : BackfillInput) (a : Account) where
  backfilled-is_consistent : is_consistent (backfilled_change w i a) ≡ true
  unfolding is_consistent
  backfilled-is_consistent = refl

  close_account : Action Change
  unfolding backfill_audit
  close_account = do
    update_account i.account_id closed
    create_audit (backfill_audit w i a)
    pure (backfilled_change w i a)

  Keeps-close_account : Keeps close_account
  unfolding close_account
  Keeps-close_account = search keeps_rules depth 9

  write_backfill : Action Change
  unfolding close_account
  write_backfill = transaction (create_change (backfilled_change w i a) >> close_account)

  write_backfill-IsConsistent :
      (s : Store)
      → IsConsistent s
      → s.accounts.row i.account_id ≡ some a
      → IsConsistent (write_backfill s).1
  unfolding write_backfill
  write_backfill-IsConsistent s h e =
      transaction-IsConsistent (create_change (backfilled_change w i a) >> close_account) s h (
        bind-IsConsistent (create_change (backfilled_change w i a)) (λ _. close_account) s
          (create_change-IsConsistent (backfilled_change w i a) s h (ground arith)
            backfilled-is_consistent)
          (λ c. Keeps-close_account))

found :
    (k : ℕ) (s : Store) {a : Account}
    → ((find_account k >>= λ found. or_throw found account_not_found) s).0 ≡ ok a
    → s.accounts.row k ≡ some a
found k s e = ground arith

found_same :
    (k : ℕ) (s : Store) → ((find_account k >>= λ found. or_throw found account_not_found) s).1 ≡ s
found_same k s = ground arith

pub Keeps-backfill : (w : World) (i : BackfillInput) → Keeps (backfill_disconnection w i)
unfolding backfill_disconnection write_backfill close_account
Keeps-backfill w i = record {
  at = λ s h.
      reading-IsConsistent (find_account i.account_id >>= λ found. or_throw found account_not_found)
        (λ a.
          throw_if (same_status a.contract_status terminated) account_already_terminated
          >> write_backfill w i a)
        s h (found_same i.account_id s)
        (λ a e.
          reading-IsConsistent
            (throw_if (same_status a.contract_status terminated) account_already_terminated)
            (λ _. write_backfill w i a) s h refl
            (λ u q. write_backfill-IsConsistent w i a s h (found i.account_id s e)));
}
