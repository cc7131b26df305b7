-- ===== src/Bulk/Apply/Laws.antt =====
-- What a row of the sheet changes (src/modules/commercial-changes/bulk-import/bulk-import.service.ts).
use isp_sam_backend.Prelude.{ℕ, ◌≡◌, ◌≢◌, some, none, arith}
use isp_sam_backend.Db.{Account, Store, ok, err, record_not_found}
use isp_sam_backend.World.{World}
use isp_sam_backend.Dates.{start_of_day_utc}
use isp_sam_backend.Bulk.Validate.{ValidatedRow}
use isp_sam_backend.Bulk.Apply.{ImportContext, imported_change, imported_account, apply_row}

module _ (w : World) (ctx : ImportContext) (v : ValidatedRow) (s : Store) where
  -- With its account a row is stored and applied, and no other row of the two tables changes.
  pub apply_row_lem :
      (a : Account)
      → s.accounts.row v.account.id ≡ some a
      → let (r, s') = apply_row w ctx v s in
        (r ≡ ok (start_of_day_utc v.effective_date))
        × (s'.changes.row w.fresh_id ≡ some (imported_change w ctx v))
        × (s'.accounts.row v.account.id ≡ some (imported_account v a))
        × ((j : ℕ) → j ≢ w.fresh_id → s'.changes.row j ≡ s.changes.row j)
        × ((j : ℕ) → j ≢ v.account.id → s'.accounts.row j ≡ s.accounts.row j)
  unfolding apply_row
  apply_row_lem a e =
      (ground arith, ground arith, ground arith, λ j ne. ground arith, λ j ne. ground arith)

  -- Without it nothing is written.
  pub apply_row-missing :
      s.accounts.row v.account.id ≡ none → apply_row w ctx v s ≡ (err record_not_found, s)
  unfolding apply_row
  apply_row-missing e = ground arith

  -- What a row returns is the day of its date.
  pub apply_row-day :
      (day : ℕ) → (apply_row w ctx v s).0 ≡ ok day → day ≡ start_of_day_utc v.effective_date
  unfolding apply_row
  apply_row-day day e = ground arith
