-- ===== src/Bulk/Import/Counts.antt =====
-- The numbers of the summary of an import
-- (src/modules/commercial-changes/bulk-import/bulk-import.service.ts).
use isp_sam_backend.Prelude.{
  ℕ, ◌+◌, ◌≡◌, List, [], ◌∷◌, length, length-snoc, length-map, arith, refl, inl, inr,
}
use isp_sam_backend.Db.{Store, Result, ok, err}
use isp_sam_backend.World.{World}
use isp_sam_backend.Bulk.Sheet.{ParsedRow}
use isp_sam_backend.Bulk.Validate.{RowError, apply_failed, ValidatedRow, validate_row}
use isp_sam_backend.Bulk.Validate.Laws.{Check-cases}
use isp_sam_backend.Bulk.Apply.{ImportContext, apply_row}
use isp_sam_backend.Bulk.Import.{
  BulkImportSummary, BulkImportError, Progress, preview, skip, take_result, import_row, import_rows,
  import_workbook, started, ordered_rows, insert_row, invalid,
}

length-insert_row : (x : ParsedRow) (ys : List ParsedRow) → length (insert_row x ys) ≡ length ys + 1
unfolding insert_row
length-insert_row x [] = refl
length-insert_row x (y ∷ ys) = ground (arith, length-insert_row x ys)

pub length-ordered_rows : (rows : List ParsedRow) → length (ordered_rows rows) ≡ length rows
unfolding ordered_rows
length-ordered_rows [] = refl
length-ordered_rows (x ∷ xs) =
    omega (arith, length-insert_row x (ordered_rows xs), length-ordered_rows xs)

-- The numbers are those of the two lists, and of the rows and cells that were gone through.
abbrev Counted : ℕ → BulkImportSummary → Type 0
Counted n x =
    (x.imported ≡ length x.applied_changes)
    × (x.skipped ≡ length x.errors)
    × (x.imported + x.skipped ≡ n)

skip-Counted :
    (n : ℕ) (row : ParsedRow) (e : RowError) (p : Progress)
    → Counted n p.summary
    → Counted (n + 1) (skip row e p).summary
skip-Counted n row e p h =
    let added : BulkImportError = record {
      row_number = row.row_number;
      reason = e;
      circuit_id = row.circuit_id;
      change_type = row.change_type;
    } in
    omega (arith, length-snoc p.summary.errors added)

take_result-Counted :
    (n : ℕ) (row : ParsedRow) (v : ValidatedRow) (p : Progress) (r : Result ℕ)
    → Counted n p.summary
    → Counted (n + 1) (take_result row v p r).summary
take_result-Counted n row v p (ok day) h =
    omega (arith, length-snoc p.summary.applied_changes (preview v day))
take_result-Counted n row v p (err e) h = skip-Counted n row (apply_failed e) p h

module _ (worlds : ℕ → World) (ctx : ImportContext) where
  import_row-Counted :
      (n : ℕ) (row : ParsedRow) (p : Progress) (s : Store)
      → Counted n p.summary
      → Counted (n + 1) (import_row worlds ctx row p s).0.summary
  unfolding import_row
  import_row-Counted n row p s h = elim (Check-cases (validate_row row p.accounts)) [
    | inl (v, e) ↦
        let r = apply_row (worlds row.row_number) ctx v s in
        let k = take_result-Counted n row v p r.0 h in ground arith
    | inr (x, e) ↦ let k = skip-Counted n row x p h in ground arith
  ]

  import_rows-Counted :
      (n : ℕ) (rows : List ParsedRow) (p : Progress) (s : Store)
      → Counted n p.summary
      → Counted (n + length rows) (import_rows worlds ctx rows p s).0.summary
  unfolding import_rows
  import_rows-Counted n [] p s h = ground arith
  import_rows-Counted n (row ∷ rows) p s h =
      let (q, t) = import_row worlds ctx row p s in
      let r = import_rows-Counted (n + 1) rows q t (import_row-Counted n row p s h) in ground arith

  -- Every row of the sheet is either imported or skipped, and the summary lists each imported one as
  -- a change and each skipped one, and each cell that the parser refused, as an error.
  pub import_workbook-counts :
      (rows : List ParsedRow) (parse_errors : List ℕ) (s : Store)
      → let r = (import_workbook worlds ctx rows parse_errors s).0 in
        (r.imported ≡ length r.applied_changes)
        × (r.skipped ≡ length r.errors)
        × (r.imported + r.skipped ≡ length rows + length parse_errors)
  unfolding import_workbook
  import_workbook-counts rows parse_errors s =
      let h =
        import_rows-Counted (length parse_errors) (ordered_rows rows) (started rows parse_errors s)
          s (ground (arith, length-map (invalid) parse_errors)) in
      ground (arith, length-ordered_rows rows)
