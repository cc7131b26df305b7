-- ===== src/Tests/Bulk.antt =====
-- A sheet of changes at work (src/modules/commercial-changes/bulk-import/bulk-import.service.ts).
use isp_sam_backend.Prelude.{
  ℕ, ℤ, pos, String, ◌+◌, ◌*◌, ◌≡◌, Option, none, some, List, [], ◌∷◌, map, refl, arith,
}
use isp_sam_backend.Text.{trim, is_space}
use isp_sam_backend.Db.{active, base, Account, Store}
use isp_sam_backend.Dates.{day_ms, start_of_day_utc}
use isp_sam_backend.World.{World}
use isp_sam_backend.Reasons.{disconnection_reasons}
use isp_sam_backend.Bulk.Sheet.{ParsedRow, change_type_of}
use isp_sam_backend.Bulk.Validate.{validate_row}
use isp_sam_backend.Bulk.Apply.{ImportContext, apply_row}
use isp_sam_backend.Bulk.Import.{
  import_workbook, import_rows, import_row, ordered_rows, accounts_by_circuit, load,
}
use isp_sam_backend.Bulk.Import.Current.{HasAccounts}
use isp_sam_backend.Bulk.Import.Chain.{Chain, import_workbook-Chain}
use isp_sam_backend.Bulk.Import.Sorted.{IsAscending, import_workbook-IsAscending}
use isp_sam_backend.Tests.Data.{account_of, fresh_store, world_at}

abbrev linked : Account
linked = record (account_of base active) { circuit_id = some "CKT-1" }

-- The row `n` of a sheet, on day `d`.
abbrev row_of : ℕ → String → Option ℤ → ℕ → ParsedRow
row_of n name arc d = record {
  row_number = n;
  circuit_id = some "CKT-1";
  change_type = some name;
  new_arc = arc;
  new_bandwidth_mbps = none;
  effective_date = some (d * day_ms + 500);
  mail_received_date = none;
  disconnection_reason = none;
  reason = none;
}

-- A termination on day 9 stands above the changes that come before it.
abbrev sheet : List ParsedRow
sheet =
    row_of 2 "disconnection" none 9
    ∷ row_of 3 "rate - revision" (some (pos 1500000)) 5
    ∷ row_of 4 " Upgrade" (some (pos 1500000)) 2
    ∷ row_of 5 "UPGRADE" (some (pos 1600000)) 10
    ∷ record (row_of 6 "UPGRADE" (some (pos 1600000)) 1) { circuit_id = some "CKT-2" }
    ∷ []

abbrev worlds : ℕ → World
worlds n = record (world_at 1000) { fresh_id = 100 + n }

abbrev importer : ImportContext
importer = record { performed_by_user_id = 11; ip_address = none; user_agent = none }

abbrev linked_store : Store
linked_store = fresh_store linked

-- The three rows are applied, each on the ARC of the one before; the row after the termination and
-- the unknown circuit are skipped.
import_sheet :
    let r = (import_workbook worlds importer sheet (7 ∷ []) linked_store).0 in
    (map (λ x. x.row_number) r.applied_changes ≡ 4 ∷ 3 ∷ 2 ∷ [])
    × (map (λ x. x.old_arc) r.applied_changes ≡ 1000000 ∷ 1500000 ∷ 1500000 ∷ [])
    × (map (λ x. x.new_arc) r.applied_changes ≡ 1500000 ∷ 1500000 ∷ 0 ∷ [])
    × (map (λ x. x.row_number) r.errors ≡ 7 ∷ 6 ∷ 5 ∷ [])
unfolding import_workbook import_rows import_row ordered_rows accounts_by_circuit load validate_row
    apply_row change_type_of disconnection_reasons trim is_space start_of_day_utc
import_sheet = (refl, refl, refl, refl)

linked-HasAccounts : HasAccounts linked_store
linked-HasAccounts = λ k a e. ground arith

import_workbook-Chain_example :
    let (r, t) = import_workbook worlds importer sheet (7 ∷ []) linked_store in
    Chain linked_store r.applied_changes t
import_workbook-Chain_example =
    import_workbook-Chain worlds importer sheet (7 ∷ []) linked_store linked-HasAccounts

import_workbook-IsAscending_example :
    IsAscending (import_workbook worlds importer sheet (7 ∷ []) linked_store).0.applied_changes
import_workbook-IsAscending_example =
    import_workbook-IsAscending worlds importer sheet (7 ∷ []) linked_store
