-- ===== src/Bulk/Import/Keeps.antt =====
-- An import keeps the store consistent
-- (src/modules/commercial-changes/bulk-import/bulk-import.service.ts).
use isp_sam_backend.Prelude.{ℕ, List, [], ◌∷◌, arith, inl, inr}
use isp_sam_backend.Db.{Store, IsConsistent}
use isp_sam_backend.Db.Keeps.{moved}
use isp_sam_backend.World.{World}
use isp_sam_backend.Bulk.Sheet.{ParsedRow}
use isp_sam_backend.Bulk.Validate.{validate_row}
use isp_sam_backend.Bulk.Validate.Laws.{Check-cases}
use isp_sam_backend.Bulk.Apply.{ImportContext}
use isp_sam_backend.Bulk.Apply.Keeps.{Keeps-apply_row}
use isp_sam_backend.Bulk.Import.{
  Progress, import_row, import_rows, import_workbook, started, ordered_rows,
}

module _ (worlds : ℕ → World) (ctx : ImportContext) where
  import_row-IsConsistent :
      (row : ParsedRow) (p : Progress) (s : Store)
      → IsConsistent s
      → IsConsistent (import_row worlds ctx row p s).1
  unfolding import_row
  import_row-IsConsistent row p s h = elim (Check-cases (validate_row row p.accounts)) [
    | inl (v, e) ↦ moved ((Keeps-apply_row (worlds row.row_number) ctx v).at s h) (ground arith)
    | inr (x, e) ↦ moved h (ground arith)
  ]

  import_rows-IsConsistent :
      (rows : List ParsedRow) (p : Progress) (s : Store)
      → IsConsistent s
      → IsConsistent (import_rows worlds ctx rows p s).1
  unfolding import_rows
  import_rows-IsConsistent [] p s h = h
  import_rows-IsConsistent (row ∷ rows) p s h =
      let (q, t) = import_row worlds ctx row p s in
      import_rows-IsConsistent rows q t (import_row-IsConsistent row p s h)

  pub import_workbook-IsConsistent :
      (rows : List ParsedRow) (parse_errors : List ℕ) (s : Store)
      → IsConsistent s
      → IsConsistent (import_workbook worlds ctx rows parse_errors s).1
  unfolding import_workbook
  import_workbook-IsConsistent rows parse_errors s =
      import_rows-IsConsistent (ordered_rows rows) (started rows parse_errors s) s
