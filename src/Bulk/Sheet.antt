-- ===== src/Bulk/Sheet.antt =====
-- The rows that the parser of src/modules/commercial-changes/bulk-import gives, and the reading of a
-- change type (src/modules/commercial-changes/bulk-import/bulk-import.service.ts). The parser itself
-- reads the workbook by a library; its result is an input. An amount of the sheet is a whole number
-- of hundredths, and may be negative.
use Prim.Native.Char.{code}
use isp_sam_backend.Prelude.{
  ℕ, ℤ, ◌-◌, String, Bool, true, false, ◌&&◌, ◌||◌, Option, none, some, List, [], ◌∷◌, leb, ◌==◌,
  if◌then◌else◌,
}
use isp_sam_backend.Text.{is_space, trim, codes, same_codes}
use isp_sam_backend.Db.{ChangeType, upgrade, downgrade, rate_revision, disconnection}

-- `ParsedRow`, with its `CanonicalRow`.
pub record ParsedRow : Type 0 where
  pub row_number : ℕ
  pub circuit_id : Option String
  pub change_type : Option String
  pub new_arc : Option ℤ
  pub new_bandwidth_mbps : Option ℕ
  pub effective_date : Option ℕ
  pub mail_received_date : Option ℕ
  pub disconnection_reason : Option String
  pub reason : Option String

-- `toUpperCase`, as far as the names of the four types can tell: besides the letters from a to z,
-- the dotless i and the long s become letters of the names.
upper : ℕ → ℕ
upper c =
    if leb b'a' c && leb c b'z'
    then c - 32
    else if c == 0x131
    then b'I'
    else if c == 0x17f
    then b'S'
    else c

-- `replace(/[\s-]+/g, '_')` after it; the flag says that a run of them is under way.
squash : Bool → String → List ℕ
unfolding upper is_space
squash in_run String.[] = []
squash in_run (String.◌∷◌ c s) =
    let next = squash true s in
    let other = squash false s in
    if is_space (code c) || code c == b'-'
    then (if in_run then next else b'_' ∷ next)
    else upper (code c) ∷ other

-- The type that a cell names, if it is one of ALLOWED_CHANGE_TYPES.
unfoldable pub change_type_of : String → Option ChangeType
unfolding squash trim
change_type_of text =
    let name = squash false (trim text) in
    if same_codes name (codes "UPGRADE")
    then some upgrade
    else if same_codes name (codes "DOWNGRADE")
    then some downgrade
    else if same_codes name (codes "RATE_REVISION")
    then some rate_revision
    else if same_codes name (codes "DISCONNECTION")
    then some disconnection
    else none
