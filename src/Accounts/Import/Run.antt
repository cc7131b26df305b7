-- ===== src/Accounts/Import/Run.antt =====
-- `importWorkbook` of src/modules/accounts/import/import.service.ts, on the parsed rows. Each row
-- finds a world of its own, by its number; `year` is the year of the clock and `lower` is
-- `toLowerCase`.
pub mod Counts
pub mod Keeps
use isp_sam_backend.Prelude.{ℕ, ◌+◌, String, true, Option, none, some, List, [], ◌∷◌, ◌++◌, map}
use isp_sam_backend.Db.{
  KittyType, ContractStatus, Account, Store, Error, unique_violation, Result, ok, err, find_many,
}
use isp_sam_backend.World.{World}
use isp_sam_backend.Accounts.Import.Sheet.{ParsedRow}
use isp_sam_backend.Accounts.Import.Directory.{SamWarning, SamDirectory, load_sam_directory}
use isp_sam_backend.Accounts.Import.Validate.{
  ValidatedData, Validation, invalid_status, passed, validate,
}
use isp_sam_backend.Accounts.Import.Write.{Written, created, updated, write_data}

pub record ImportedAccountPreview : Type 0 where
  pub row_number : ℕ
  pub account_id : ℕ
  pub client_name : String
  pub company_name : Option String
  pub lead_id : Option String
  pub external_crm_id : Option String
  pub email : Option String
  pub current_arc : ℕ
  pub kitty_type : KittyType
  pub contract_status : ContractStatus
  pub circuit_id : Option String
  pub customer_code : Option String
  pub address : Option String
  pub sam_owner_name : Option String

pub data ImportErrorKind : Type 0 where
  missing_field invalid_value duplicate warning other : ImportErrorKind

-- The reasons, by the head of their texts.
pub data Reason : Type 0 where
  invalid_cell unknown_status : Reason
  owner_warning : SamWarning → Reason
  database : Error → Reason

pub record ImportError : Type 0 where
  pub row_number : ℕ
  pub reason : Reason
  pub kind : ImportErrorKind
  pub client_name : Option String
  pub lead_id : Option String

pub record ImportSummary : Type 0 where
  pub imported : ℕ
  pub updated : ℕ
  pub skipped : ℕ
  pub created_accounts : List ImportedAccountPreview
  pub updated_accounts : List ImportedAccountPreview
  pub errors : List ImportError

abbrev pub to_preview : ℕ → Account → Option String → ImportedAccountPreview
to_preview n a owner = record {
  row_number = n;
  account_id = a.id;
  client_name = a.client_name;
  company_name = a.company_name;
  lead_id = a.lead_id;
  external_crm_id = a.external_crm_id;
  email = a.email;
  current_arc = a.current_arc;
  kitty_type = a.kitty_type;
  contract_status = a.contract_status;
  circuit_id = a.circuit_id;
  customer_code = a.customer_code;
  address = a.address;
  sam_owner_name = owner;
}

abbrev pub describe_db_error : Error → ImportErrorKind
describe_db_error unique_violation = duplicate
describe_db_error e = other

abbrev pub error_of : ParsedRow → Reason → ImportErrorKind → ImportError
error_of row reason kind = record {
  row_number = row.row_number;
  reason = reason;
  kind = kind;
  client_name = row.canonical.client_name;
  lead_id = row.canonical.lead_id;
}

abbrev pub add_error : ImportError → ImportSummary → ImportSummary
add_error e m = record m { errors = m.errors ++ e ∷ [] }

abbrev pub skip : ImportError → ImportSummary → ImportSummary
skip e m = record (add_error e m) { skipped = m.skipped + 1 }

abbrev pub report_warning : ParsedRow → Option SamWarning → ImportSummary → ImportSummary
report_warning row none m = m
report_warning row (some w) m = add_error (error_of row (owner_warning w) warning) m

abbrev pub take_written : ParsedRow → Option String → Result Written → ImportSummary → ImportSummary
take_written row owner (ok (created a)) m = record m {
  imported = m.imported + 1;
  created_accounts = m.created_accounts ++ to_preview row.row_number a owner ∷ [];
}
take_written row owner (ok (updated a)) m = record m {
  updated = m.updated + 1;
  updated_accounts = m.updated_accounts ++ to_preview row.row_number a owner ∷ [];
}
take_written row owner (err e) m = skip (error_of row (database e) (describe_db_error e)) m

abbrev pub cell_error : ℕ → ImportError
cell_error n = record {
  row_number = n;
  reason = invalid_cell;
  kind = invalid_value;
  client_name = none;
  lead_id = none;
}

abbrev pub started : List ℕ → ImportSummary
started parse_errors = record {
  imported = 0;
  updated = 0;
  skipped = 0;
  created_accounts = [];
  updated_accounts = [];
  errors = map cell_error parse_errors;
}

module _ (lower : String → String) (worlds : ℕ → World) (year : ℕ) where
  unfoldable pub import_row :
      SamDirectory → ParsedRow → ImportSummary → Store → ImportSummary × Store
  unfolding validate write_data
  import_row directory row m s =
      let w = worlds row.row_number in
      elim (validate lower w year row directory) [
        | invalid_status ↦ (skip (error_of row unknown_status invalid_value) m, s)
        | passed d owner warned ↦
            let (r, t) = write_data w d s in
            (take_written row owner r (report_warning row warned m), t)
      ]

  unfoldable pub import_rows :
      SamDirectory → List ParsedRow → ImportSummary → Store → ImportSummary × Store
  unfolding import_row
  import_rows directory [] m s = (m, s)
  import_rows directory (row ∷ rows) m s =
      let (m', s') = import_row directory row m s in import_rows directory rows m' s'

  -- `parse_errors` are the numbers of the rows that the parser complains of, one for each cell.
  unfoldable pub import_workbook : List ParsedRow → List ℕ → Store → ImportSummary × Store
  unfolding import_rows load_sam_directory
  import_workbook rows parse_errors s =
      let directory = load_sam_directory lower (find_many (λ _. true) s.users) in
      import_rows directory rows (started parse_errors) s
