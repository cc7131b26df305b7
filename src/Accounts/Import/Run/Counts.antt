-- ===== src/Accounts/Import/Run/Counts.antt =====
-- The numbers of the summary of an import (src/modules/accounts/import/import.service.ts).
use isp_sam_backend.Prelude.{
  ℕ, ◌+◌, ◌≡◌, ◌≤◌, String, true, Option, none, some, List, [], ◌∷◌, length, length-snoc,
  length-map, arith, refl, ◌⊎◌, inl, inr,
}
use isp_sam_backend.Db.{Store, Result, ok, err, find_many}
use isp_sam_backend.World.{World}
use isp_sam_backend.Accounts.Import.Sheet.{ParsedRow}
use isp_sam_backend.Accounts.Import.Directory.{SamWarning, SamDirectory, load_sam_directory}
use isp_sam_backend.Accounts.Import.Validate.{
  ValidatedData, Validation, invalid_status, passed, validate,
}
use isp_sam_backend.Accounts.Import.Write.{Written, created, updated, write_data}
use isp_sam_backend.Accounts.Import.Run.{
  ImportSummary, ImportError, unknown_status, owner_warning, database, invalid_value, warning,
  to_preview, describe_db_error, error_of, skip, report_warning, take_written, cell_error, started,
  import_row, import_rows, import_workbook,
}

-- After `n` rows, on a sheet with `cells` refused cells.
abbrev Counted : ℕ → ℕ → ImportSummary → Type 0
Counted cells n m =
    (m.imported ≡ length m.created_accounts)
    × (m.updated ≡ length m.updated_accounts)
    × (m.imported + m.updated + m.skipped ≡ n)
    × (cells + m.skipped ≤ length m.errors)
    × (length m.errors ≤ cells + n + m.skipped)

pub Validation-cases :
    (v : Validation)
    → (v ≡ invalid_status)
      ⊎ ((d : ValidatedData) × (owner : Option String) × (w : Option SamWarning) × (v
            ≡ passed d owner w))
Validation-cases invalid_status = inl refl
Validation-cases (passed d owner w) = inr (d, owner, w, refl)

skip-Counted :
    (cells n : ℕ) (e : ImportError) (m : ImportSummary)
    → Counted cells n m
    → Counted cells (n + 1) (skip e m)
skip-Counted cells n e m h = omega (arith, length-snoc m.errors e)

-- A warning, and then what came of the row.
taken-Counted :
    (cells n : ℕ) (row : ParsedRow) (owner : Option String) (w : Option SamWarning)
    (r : Result Written) (m : ImportSummary)
    → Counted cells n m
    → Counted cells (n + 1) (take_written row owner r (report_warning row w m))
taken-Counted cells n row owner none (ok (created a)) m h =
    omega (arith, length-snoc m.created_accounts (to_preview row.row_number a owner))
taken-Counted cells n row owner none (ok (updated a)) m h =
    omega (arith, length-snoc m.updated_accounts (to_preview row.row_number a owner))
taken-Counted cells n row owner none (err e) m h =
    skip-Counted cells n (error_of row (database e) (describe_db_error e)) m h
taken-Counted cells n row owner (some w) (ok (created a)) m h = omega (
  arith,
  length-snoc m.created_accounts (to_preview row.row_number a owner),
  length-snoc m.errors (error_of row (owner_warning w) warning),
)
taken-Counted cells n row owner (some w) (ok (updated a)) m h = omega (
  arith,
  length-snoc m.updated_accounts (to_preview row.row_number a owner),
  length-snoc m.errors (error_of row (owner_warning w) warning),
)
taken-Counted cells n row owner (some w) (err e) m h =
    let t = report_warning row (some w) m in
    omega (
      arith,
      length-snoc m.errors (error_of row (owner_warning w) warning),
      length-snoc t.errors (error_of row (database e) (describe_db_error e)),
    )

module _ (lower : String → String) (worlds : ℕ → World) (year : ℕ) where
  import_row-Counted :
      (cells n : ℕ) (directory : SamDirectory) (row : ParsedRow) (m : ImportSummary) (s : Store)
      → Counted cells n m
      → Counted cells (n + 1) (import_row lower worlds year directory row m s).0
  unfolding import_row
  import_row-Counted cells n directory row m s h =
      let w = worlds row.row_number in
      elim (Validation-cases (validate lower w year row directory)) [
        | inl e ↦
            let k = skip-Counted cells n (error_of row unknown_status invalid_value) m h in
            ground arith
        | inr (d, owner, warned, e) ↦
            let k = taken-Counted cells n row owner warned (write_data w d s).0 m h in ground arith
      ]

  import_rows-Counted :
      (cells n : ℕ) (directory : SamDirectory) (rows : List ParsedRow) (m : ImportSummary)
      (s : Store)
      → Counted cells n m
      → Counted cells (n + length rows) (import_rows lower worlds year directory rows m s).0
  unfolding import_rows
  import_rows-Counted cells n directory [] m s h = ground arith
  import_rows-Counted cells n directory (row ∷ rows) m s h =
      let (m', s') = import_row lower worlds year directory row m s in
      let k =
        import_rows-Counted cells (n + 1) directory rows m' s'
          (import_row-Counted cells n directory row m s h) in
      ground arith

  -- Every row of the sheet is counted once, as imported, updated or skipped; the summary lists each
  -- imported and each updated one. Its errors are one for each refused cell and each skipped row, and
  -- at most one more, the warning, for each row.
  pub import_workbook-numbers :
      (rows : List ParsedRow) (parse_errors : List ℕ) (s : Store)
      → let m = (import_workbook lower worlds year rows parse_errors s).0 in
        (m.imported ≡ length m.created_accounts)
        × (m.updated ≡ length m.updated_accounts)
        × (m.imported + m.updated + m.skipped ≡ length rows)
        × (length parse_errors + m.skipped ≤ length m.errors)
        × (length m.errors ≤ length parse_errors + length rows + m.skipped)
  unfolding import_workbook
  import_workbook-numbers rows parse_errors s =
      let directory = load_sam_directory lower (find_many (λ _. true) s.users) in
      let k =
        import_rows-Counted (length parse_errors) 0 directory rows (started parse_errors) s
          (ground (arith, length-map cell_error parse_errors)) in
      omega arith
