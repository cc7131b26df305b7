-- ===== src/Bulk/Validate.antt =====
-- `validateRow` of src/modules/commercial-changes/bulk-import/bulk-import.service.ts, on the
-- accounts that were loaded.
pub mod Laws
use text.Mathlib.Text.{◌==◌ as str_eq}
use isp_sam_backend.Prelude.{
  ℕ, ℤ, pos, negsuc, ◌+◌, ◌/◌, String, Bool, true, false, not, ◌&&◌, ◌||◌, Option, none, some, List,
  [], ◌∷◌, leb, ◌==◌, is_some, if◌then◌else◌,
}
use isp_sam_backend.Text.{trim, bind_truthy}
use isp_sam_backend.Db.{
  Account, ChangeType, upgrade, downgrade, rate_revision, disconnection, is_disconnection,
  ContractStatus, terminated, same_status, Error,
}
use isp_sam_backend.Reasons.{Category, find_sub, disconnection_reasons}
use isp_sam_backend.Bulk.Sheet.{ParsedRow, change_type_of}

-- What is held of an account between the rows.
pub record Entry : Type 0 where
  pub id : ℕ
  pub client_name : String
  pub circuit_id : String
  pub current_arc : ℕ
  pub bandwidth_mbps : Option ℕ
  pub contract_status : ContractStatus

-- `accountsByCircuit`
abbrev pub AccountsByCircuit : Type 0
AccountsByCircuit = String → Option Entry

-- The errors of a row, by their messages.
pub data RowError : Type 0 where
  missing_circuit_id unknown_circuit missing_change_type invalid_change_type : RowError
  missing_effective_date account_terminated missing_new_arc negative_new_arc : RowError
  upgrade_not_greater downgrade_not_less rate_revision_not_equal : RowError
  invalid_disconnection_reason invalid_cell : RowError
  apply_failed : Error → RowError

pub data BulkImportErrorKind : Type 0 where
  missing_field invalid_value unknown inconsistent_arc invalid_reason terminated_account other :
      BulkImportErrorKind

unfoldable pub error_kind : RowError → BulkImportErrorKind
error_kind missing_circuit_id = missing_field
error_kind unknown_circuit = unknown
error_kind missing_change_type = missing_field
error_kind invalid_change_type = invalid_value
error_kind missing_effective_date = missing_field
error_kind account_terminated = terminated_account
error_kind missing_new_arc = missing_field
error_kind negative_new_arc = invalid_value
error_kind upgrade_not_greater = inconsistent_arc
error_kind downgrade_not_less = inconsistent_arc
error_kind rate_revision_not_equal = inconsistent_arc
error_kind invalid_disconnection_reason = invalid_reason
error_kind invalid_cell = invalid_value
error_kind (apply_failed e) = other

pub data Check (A : Type 0) : Type 0 where
  passed : A → Check A
  refused : RowError → Check A

infixl 5 ◌>>=◌ ◌>>◌
abbrev pub ◌>>=◌ : {A B : Type 0} → Check A → (A → Check B) → Check B
passed a >>= f = f a
refused e >>= f = refused e

abbrev ◌>>◌ : {B : Type 0} → Check (Unit {0}) → Check B → Check B
m >> k = m >>= λ _. k

abbrev pub required : {A : Type 0} → Option A → RowError → Check A
required none e = refused e
required (some a) e = passed a

abbrev pub refuse_if : Bool → RowError → Check (Unit {0})
refuse_if true e = refused e
refuse_if false e = passed tt

pub record ValidatedRow : Type 0 where
  pub row_number : ℕ
  pub change_type : ChangeType
  pub new_arc : ℕ
  pub new_bandwidth_mbps : Option ℕ
  pub effective_date : ℕ
  pub mail_received_date : Option ℕ
  pub disconnection_reason : Option String
  pub reason : Option String
  pub account : Entry

abbrev pub given_arc : Option ℤ → Check ℕ
given_arc none = refused missing_new_arc
given_arc (some (negsuc n)) = refused negative_new_arc
given_arc (some (pos n)) = passed n

abbrev pub new_arc_of : ChangeType → Option ℤ → Check ℕ
new_arc_of disconnection given = passed 0
new_arc_of _ given = given_arc given

-- The test of the ARC against the current one.
abbrev pub check_arc : ChangeType → ℕ → ℕ → Check (Unit {0})
check_arc upgrade old new = refuse_if (leb new old) upgrade_not_greater
check_arc downgrade old new = refuse_if (leb old new) downgrade_not_less
check_arc rate_revision old new = refuse_if (not (new == old)) rate_revision_not_equal
check_arc disconnection old new = passed tt

-- VALID_DISCONNECTION_CODES
abbrev is_code : String → List Category → Bool
is_code s [] = false
is_code s (c ∷ cs) = str_eq c.id s || is_some (find_sub s c.sub_categories) || is_code s cs

abbrev is_bad_reason : Option String → Bool
is_bad_reason none = false
is_bad_reason (some s) = not (is_code (trim s) disconnection_reasons)

abbrev pub trimmed : Option String → Option String
trimmed none = none
trimmed (some s) = some (trim s)

-- `Math.round` of a number of hundredths.
abbrev rounded : Option ℕ → Option ℕ
rounded none = none
rounded (some n) = some ((n + 50) / 100)

-- The tests that follow once the type and the date are known.
check_terms : ParsedRow → Entry → ChangeType → ℕ → Check ValidatedRow
unfolding disconnection_reasons trim
check_terms row account t date = do
  refuse_if (same_status account.contract_status terminated) account_terminated
  arc ← new_arc_of t row.new_arc
  check_arc t account.current_arc arc
  refuse_if (is_disconnection t && is_bad_reason (bind_truthy row.disconnection_reason))
      invalid_disconnection_reason
  passed (record {
    row_number = row.row_number;
    change_type = t;
    new_arc = arc;
    new_bandwidth_mbps = rounded row.new_bandwidth_mbps;
    effective_date = date;
    mail_received_date = row.mail_received_date;
    disconnection_reason = trimmed row.disconnection_reason;
    reason = trimmed row.reason;
    account = account;
  })

unfoldable pub validate_row : ParsedRow → AccountsByCircuit → Check ValidatedRow
unfolding check_terms change_type_of trim
validate_row row accounts = do
  circuit ← required (bind_truthy row.circuit_id) missing_circuit_id
  account ← required (accounts (trim circuit)) unknown_circuit
  text ← required (bind_truthy row.change_type) missing_change_type
  t ← required (change_type_of text) invalid_change_type
  date ← required row.effective_date missing_effective_date
  check_terms row account t date
