-- ===== src/Bulk/Apply/Keeps.antt =====
-- A row of the sheet keeps the store consistent
-- (src/modules/commercial-changes/bulk-import/bulk-import.service.ts).
use isp_sam_backend.Prelude.{ℕ, ◌≡◌, true, arith, Option-cases, inl, inr}
use isp_sam_backend.Db.{
  Action, pure, ◌>>◌, create_change, update_account, create_audit, is_consistent,
}
use isp_sam_backend.Db.Keeps.{
  Keeps, keeps_rules, moved, bind-IsConsistent, create_change-IsConsistent,
  transaction-IsConsistent,
}
use isp_sam_backend.Dates.{start_of_day_utc}
use isp_sam_backend.World.{World}
use isp_sam_backend.Bulk.Validate.{ValidatedRow}
use isp_sam_backend.Bulk.Apply.{
  ImportContext, imported_change, imported_account, import_audit, apply_row,
}
use isp_sam_backend.Bulk.Apply.Laws.{apply_row-missing}

module _ (w : World) (ctx : ImportContext) (v : ValidatedRow) where
  imported-is_consistent : is_consistent (imported_change w ctx v) ≡ true
  unfolding is_consistent
  imported-is_consistent = ground arith

  update_owner : Action ℕ
  unfolding import_audit
  update_owner = do
    update_account v.account.id (imported_account v)
    create_audit (import_audit w ctx v)
    pure (start_of_day_utc v.effective_date)

  Keeps-update_owner : Keeps update_owner
  unfolding update_owner
  Keeps-update_owner = search keeps_rules depth 9

  pub Keeps-apply_row : Keeps (apply_row w ctx v)
  unfolding apply_row update_owner
  Keeps-apply_row = record {
    at = λ s h. elim (Option-cases (s.accounts.row v.account.id)) [
      | inl none_there ↦ moved h (ground (arith, apply_row-missing w ctx v s none_there))
      | inr (a, there) ↦
          transaction-IsConsistent (create_change (imported_change w ctx v) >> update_owner) s h (
            bind-IsConsistent (create_change (imported_change w ctx v)) (λ _. update_owner) s
              (create_change-IsConsistent (imported_change w ctx v) s h (ground arith)
                imported-is_consistent)
              (λ c. Keeps-update_owner))
    ];
  }
