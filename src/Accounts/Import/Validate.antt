-- ===== src/Accounts/Import/Validate.antt =====
-- `validate` of src/modules/accounts/import/import.service.ts, with `deriveKittyType` of
-- src/lib/kitty.ts.
use Prim.Native.Char.{code}
use isp_sam_backend.Prelude.{
  ℕ, ◌+◌, ◌-◌, String, ◌&&◌, Option, none, some, List, [], ◌∷◌, leb, ◌==◌, get_or, or_else,
  if◌then◌else◌,
}
use isp_sam_backend.Text.{trimmed, bind_truthy, codes, same_codes}
use isp_sam_backend.Db.{KittyType, base, new, ContractStatus, active, expired, terminated, pending}
use isp_sam_backend.World.{World}
use isp_sam_backend.Dates.{start_of_day_utc}
use isp_sam_backend.Dashboard.Calendar.{date_utc}
use isp_sam_backend.Accounts.Import.Sheet.{CanonicalRow, ParsedRow}
use isp_sam_backend.Accounts.Import.Directory.{SamWarning, SamMatch, SamDirectory, resolve_sam}

-- The last 1 April, and the date itself on 1 April. `year` is `now.getUTCFullYear()`.
unfoldable pub current_fiscal_cutoff : ℕ → ℕ → ℕ
current_fiscal_cutoff now year =
    let april_first = date_utc year 3 1 in
    if leb april_first now then april_first else date_utc (year - 1) 3 1

unfoldable pub derive_kitty_type : ℕ → ℕ → ℕ → KittyType
unfolding current_fiscal_cutoff
derive_kitty_type onboarding_date now year =
    if leb onboarding_date (current_fiscal_cutoff now year) then base else new

-- `toLowerCase` and the removal of all but the letters from a to z: besides the capital letters, the
-- dotted I gives an i, and the Kelvin sign a k.
lower_letter : ℕ → Option ℕ
lower_letter c =
    if leb b'a' c && leb c b'z'
    then some c
    else if leb b'A' c && leb c b'Z'
    then some (c + 32)
    else if c == 0x130
    then some b'i'
    else if c == 0x212a
    then some b'k'
    else none

abbrev cons_letter : Option ℕ → List ℕ → List ℕ
cons_letter none cs = cs
cons_letter (some c) cs = c ∷ cs

unfoldable pub letters : String → List ℕ
unfolding lower_letter
letters String.[] = []
letters (String.◌∷◌ c s) = cons_letter (lower_letter (code c)) (letters s)

-- What STATUS_ALIASES holds under a name: a status, or what every object inherits.
pub data Alias : Type 0 where
  status : ContractStatus → Alias
  inherited : Alias

-- `STATUS_ALIASES`; of the names that every object inherits, one has small letters only.
abbrev pub status_aliases : List (String × Alias)
status_aliases =
    ("active", status active)
    ∷ ("live", status active)
    ∷ ("inservice", status active)
    ∷ ("completed", status active)
    ∷ ("complete", status active)
    ∷ ("activated", status active)
    ∷ ("installed", status active)
    ∷ ("pending", status pending)
    ∷ ("new", status pending)
    ∷ ("inprogress", status pending)
    ∷ ("expired", status expired)
    ∷ ("suspended", status expired)
    ∷ ("paused", status expired)
    ∷ ("terminated", status terminated)
    ∷ ("closed", status terminated)
    ∷ ("disconnected", status terminated)
    ∷ ("deactive", status terminated)
    ∷ ("inactive", status terminated)
    ∷ ("notactive", status terminated)
    ∷ ("stopped", status terminated)
    ∷ ("cancelled", status terminated)
    ∷ ("canceled", status terminated)
    ∷ ("churned", status terminated)
    ∷ ("constructor", inherited)
    ∷ []

abbrev alias_in : List (String × Alias) → List ℕ → Option Alias
alias_in [] cs = none
alias_in ((name, a) ∷ rest) cs =
    let later = alias_in rest cs in if same_codes (codes name) cs then some a else later

unfoldable pub alias_of : String → Option Alias
unfolding letters
alias_of text = alias_in status_aliases (letters text)

-- The status of a row without one is ACTIVE.
abbrev pub status_cell : Option String → Option Alias
status_cell cell = elim (bind_truthy cell) [ none ↦ some (status active) | some t ↦ alias_of t ]

pub record ValidatedData : Type 0 where
  pub client_name : String
  pub kitty_type : KittyType
  pub current_arc : ℕ
  pub start_of_period_arc : ℕ
  pub contract_status : Alias
  pub onboarding_date : ℕ
  pub company_name : Option String
  pub mobile_number : Option String
  pub email : Option String
  pub lead_id : Option String
  pub external_crm_id : Option String
  pub current_plan : Option String
  pub bandwidth_mbps : Option ℕ
  pub circuit_id : Option String
  pub customer_code : Option String
  pub address : Option String
  pub sam_owner_id : Option ℕ
  pub gst_number : Option String
  pub contact_person_name : Option String
  pub industry_type : Option String
  pub circle : Option String
  pub account_manager : Option String
  pub user_name : Option String
  pub ip_details : Option String
  -- None leaves the column as it is.
  pub metadata : Option (List (String × String))

pub data Validation : Type 0 where
  invalid_status : Validation
  passed : ValidatedData → Option String → Option SamWarning → Validation

abbrev pub client_name_of : CanonicalRow → String
client_name_of c =
    get_or
      (or_else (trimmed c.client_name) (
        or_else (trimmed c.company_name) (or_else (trimmed c.customer_code) (trimmed c.user_name))))
      "Unnamed Customer"

abbrev pub given_metadata : List (String × String) → Option (List (String × String))
given_metadata [] = none
given_metadata (m ∷ ms) = some (m ∷ ms)

-- `year` is the year of the clock.
abbrev pub validated_data : World → ℕ → ParsedRow → Alias → SamMatch → ValidatedData
validated_data w year row st sam =
    let c = row.canonical in
    let onboarding_date = get_or c.onboarding_date (start_of_day_utc w.now) in
    record {
      client_name = client_name_of c;
      kitty_type = get_or c.kitty_type (derive_kitty_type onboarding_date w.now year);
      current_arc = get_or c.current_arc 0;
      start_of_period_arc = get_or c.current_arc 0;
      contract_status = st;
      onboarding_date = onboarding_date;
      company_name = c.company_name;
      mobile_number = c.mobile_number;
      email = trimmed c.email;
      lead_id = c.lead_id;
      external_crm_id = c.external_crm_id;
      current_plan = c.current_plan;
      bandwidth_mbps = c.bandwidth_mbps;
      circuit_id = trimmed c.circuit_id;
      customer_code = trimmed c.customer_code;
      address = trimmed c.address;
      sam_owner_id = sam.sam_owner_id;
      gst_number = trimmed c.gst_number;
      contact_person_name = trimmed c.contact_person_name;
      industry_type = trimmed c.industry_type;
      circle = trimmed c.circle;
      account_manager = trimmed c.account_manager;
      user_name = trimmed c.user_name;
      ip_details = trimmed c.ip_details;
      metadata = given_metadata row.metadata;
    }

unfoldable pub validate : (String → String) → World → ℕ → ParsedRow → SamDirectory → Validation
unfolding resolve_sam derive_kitty_type alias_of
validate lower w year row directory = elim (status_cell row.canonical.contract_status) [
  | none ↦ invalid_status
  | some st ↦
      let sam = resolve_sam lower row.canonical directory in
      passed (validated_data w year row st sam) sam.sam_owner_name sam.warning
]
