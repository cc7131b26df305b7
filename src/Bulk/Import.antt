-- ===== src/Bulk/Import.antt =====
-- `importWorkbook` of src/modules/commercial-changes/bulk-import/bulk-import.service.ts, on the
-- parsed rows. Each row finds a world of its own, by its number.
pub mod Counts
pub mod Sorted
pub mod Current
pub mod Chain
pub mod Keeps
use text.Mathlib.Text.{◌==◌ as str_eq}
use isp_sam_backend.Prelude.{
  ℕ, ◌+◌, String, Bool, true, false, Option, none, some, List, [], ◌∷◌, ◌++◌, map, length, leb,
  or_else, if◌then◌else◌,
}
use isp_sam_backend.Text.{trim, bind_truthy}
use isp_sam_backend.Db.{
  Account, ChangeType, is_disconnection, terminated, Store, Result, ok, err, find_many,
}
use isp_sam_backend.Dates.{start_of_day_utc}
use isp_sam_backend.World.{World}
use isp_sam_backend.Bulk.Sheet.{ParsedRow}
use isp_sam_backend.Bulk.Validate.{
  Entry, AccountsByCircuit, RowError, invalid_cell, apply_failed, passed, refused, ValidatedRow,
  validate_row,
}
use isp_sam_backend.Bulk.Apply.{ImportContext, apply_row}

pub record BulkImportedRowPreview : Type 0 where
  pub row_number : ℕ
  pub circuit_id : String
  pub client_name : String
  pub change_type : ChangeType
  pub old_arc : ℕ
  pub new_arc : ℕ
  pub effective_date : ℕ

pub record BulkImportError : Type 0 where
  pub row_number : ℕ
  pub reason : RowError
  pub circuit_id : Option String
  pub change_type : Option String

pub record BulkImportSummary : Type 0 where
  pub imported : ℕ
  pub skipped : ℕ
  pub applied_changes : List BulkImportedRowPreview
  pub errors : List BulkImportError

-- The keys that the rows name, trimmed and not empty.
abbrev circuit_ids : List ParsedRow → List String
circuit_ids [] = []
circuit_ids (r ∷ rows) =
    let rest = circuit_ids rows in
    elim (bind_truthy r.circuit_id) [
      | none ↦ rest
      | some c ↦ elim (bind_truthy (some (trim c))) [ none ↦ rest | some t ↦ t ∷ rest ]
    ]

abbrev has_text : List String → String → Bool
has_text [] s = false
has_text (x ∷ xs) s = if str_eq x s then true else has_text xs s

abbrev is_named : List String → Account → Bool
is_named ids a = elim a.circuit_id [ none ↦ false | some c ↦ has_text ids c ]

abbrev pub entry_of : Account → String → Entry
entry_of a circuit = record {
  id = a.id;
  client_name = a.client_name;
  circuit_id = circuit;
  current_arc = a.current_arc;
  bandwidth_mbps = a.bandwidth_mbps;
  contract_status = a.contract_status;
}

abbrev pub put_entry : String → Entry → AccountsByCircuit → AccountsByCircuit
put_entry c e m k = if str_eq c k then some e else m k

abbrev pub load_under : Account → Option String → AccountsByCircuit → AccountsByCircuit
load_under a none m = m
load_under a (some c) m = put_entry c (entry_of a c) m

-- The loop that fills the map.
unfoldable pub load : List Account → AccountsByCircuit → AccountsByCircuit
load [] m = m
load (a ∷ found) m = load found (load_under a (bind_truthy a.circuit_id) m)

unfoldable pub accounts_by_circuit : List ParsedRow → Store → AccountsByCircuit
unfolding load
accounts_by_circuit rows s = load (find_many (is_named (circuit_ids rows)) s.accounts) (λ _. none)

-- The comparison gives 0 or less. A missing date is infinite; two of them compare as equal.
abbrev pub in_date_order : ParsedRow → ParsedRow → Bool
in_date_order x y = elim x.effective_date [
  | none ↦ elim y.effective_date [ none ↦ true | some e ↦ false ]
  | some d ↦ elim y.effective_date [ none ↦ true | some e ↦ leb d e ]
]

insert_row : ParsedRow → List ParsedRow → List ParsedRow
insert_row x [] = x ∷ []
insert_row x (y ∷ ys) =
    let rest = insert_row x ys in if in_date_order x y then x ∷ y ∷ ys else y ∷ rest

-- `sort`, which keeps the order of rows that compare as equal.
unfoldable pub ordered_rows : List ParsedRow → List ParsedRow
unfolding insert_row
ordered_rows [] = []
ordered_rows (x ∷ xs) = insert_row x (ordered_rows xs)

-- What the loop keeps: the accounts as the next row is to find them, and the summary.
pub record Progress : Type 0 where
  pub accounts : AccountsByCircuit
  pub summary : BulkImportSummary

abbrev pub skip : ParsedRow → RowError → Progress → Progress
skip row e p = record {
  accounts = p.accounts;
  summary = record {
    imported = p.summary.imported;
    skipped = p.summary.skipped + 1;
    applied_changes = p.summary.applied_changes;
    errors =
        p.summary.errors
        ++ record {
          row_number = row.row_number;
          reason = e;
          circuit_id = row.circuit_id;
          change_type = row.change_type;
        }
          ∷ [];
  };
}

abbrev pub preview : ValidatedRow → ℕ → BulkImportedRowPreview
preview v day = record {
  row_number = v.row_number;
  circuit_id = v.account.circuit_id;
  client_name = v.account.client_name;
  change_type = v.change_type;
  old_arc = v.account.current_arc;
  new_arc = v.new_arc;
  effective_date = day;
}

-- The shared entry after its row.
abbrev pub chained : ValidatedRow → Entry
chained v =
    if is_disconnection v.change_type
    then record v.account { current_arc = 0; contract_status = terminated }
    else record v.account {
      current_arc = v.new_arc;
      bandwidth_mbps = or_else v.new_bandwidth_mbps v.account.bandwidth_mbps;
    }

abbrev pub accept : ValidatedRow → ℕ → Progress → Progress
accept v day p = record {
  accounts = put_entry v.account.circuit_id (chained v) p.accounts;
  summary = record {
    imported = p.summary.imported + 1;
    skipped = p.summary.skipped;
    applied_changes = p.summary.applied_changes ++ preview v day ∷ [];
    errors = p.summary.errors;
  };
}

abbrev pub take_result : ParsedRow → ValidatedRow → Progress → Result ℕ → Progress
take_result row v p (ok day) = accept v day p
take_result row v p (err e) = skip row (apply_failed e) p

abbrev pub invalid : ℕ → BulkImportError
invalid n = record { row_number = n; reason = invalid_cell; circuit_id = none; change_type = none }

abbrev pub started : List ParsedRow → List ℕ → Store → Progress
started rows parse_errors s = record {
  accounts = accounts_by_circuit rows s;
  summary = record {
    imported = 0;
    skipped = length parse_errors;
    applied_changes = [];
    errors = map invalid parse_errors;
  };
}

module _ (worlds : ℕ → World) (ctx : ImportContext) where
  unfoldable pub import_row : ParsedRow → Progress → Store → Progress × Store
  unfolding apply_row validate_row
  import_row row p s = elim (validate_row row p.accounts) [
    | refused e ↦ (skip row e p, s)
    | passed v ↦
        let (r, s') = apply_row (worlds row.row_number) ctx v s in (take_result row v p r, s')
  ]

  unfoldable pub import_rows : List ParsedRow → Progress → Store → Progress × Store
  unfolding import_row
  import_rows [] p s = (p, s)
  import_rows (row ∷ rows) p s = let (p', s') = import_row row p s in import_rows rows p' s'

  -- `parse_errors` are the numbers of the rows that the parser refuses, one for each cell.
  unfoldable pub import_workbook : List ParsedRow → List ℕ → Store → BulkImportSummary × Store
  unfolding import_rows ordered_rows accounts_by_circuit
  import_workbook rows parse_errors s =
      let (p, s') = import_rows (ordered_rows rows) (started rows parse_errors s) s in
      (p.summary, s')
