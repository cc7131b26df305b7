-- ===== src/Accounts/Import/Write.antt =====
-- How a row of the sheet is written: the search for its account, and `create` and `update` with the
-- unique columns of prisma/schema.prisma (src/modules/accounts/import/import.service.ts).
pub mod Laws
pub mod Unique
use text.Mathlib.Text.{◌==◌ as str_eq}
use isp_sam_backend.Prelude.{
  ℕ, String, Bool, false, not, ◌&&◌, ◌||◌, Option, none, some, List, [], ◌∷◌, or_else, is_some,
  ◌==◌, if◌then◌else◌,
}
use isp_sam_backend.Text.{bind_truthy}
use isp_sam_backend.Db.{
  ContractStatus, Account, Store, Action, ok, err, add, put, find_many, unique_violation,
  validation_failed, record_not_found,
}
use isp_sam_backend.World.{World}
use isp_sam_backend.Accounts.Import.Validate.{Alias, status, inherited, ValidatedData}

abbrev pub holds_text : Option String → Option String → Bool
holds_text (some x) (some y) = str_eq x y
holds_text _ _ = false

-- `{ leadId }`, or else `{ externalCrmId }`.
abbrev pub has_lead : String → Account → Bool
has_lead x a = holds_text (some x) a.lead_id

abbrev pub has_crm_customer : String → Account → Bool
has_crm_customer x a = holds_text (some x) a.external_crm_id

abbrev pub dedup_key : ValidatedData → Option (Account → Bool)
dedup_key d = elim (bind_truthy d.lead_id) [
  | some x ↦ some (has_lead x)
  | none ↦ elim (bind_truthy d.external_crm_id) [ some x ↦ some (has_crm_customer x) | none ↦ none ]
]

abbrev pub first {ℓ} : {A : Type ℓ} → List A → Option A
first [] = none
first (x ∷ xs) = some x

abbrev pub find_existing : ValidatedData → Store → Option Account
find_existing d s = elim (dedup_key d) [ none ↦ none | some p ↦ first (find_many p s.accounts) ]

abbrev pub shares_column : Account → Account → Bool
shares_column a b =
    holds_text a.lead_id b.lead_id
    || (holds_text a.external_crm_id b.external_crm_id
        || (holds_text a.customer_code b.customer_code || holds_text a.circuit_id b.circuit_id))

-- Another account has a value of a unique column.
unfoldable pub is_in_use : ℕ → Account → Store → Bool
is_in_use k a s = is_some (first (find_many (λ b. not (b.id == k) && shares_column a b) s.accounts))

abbrev pub created_account : World → ValidatedData → ContractStatus → Account
created_account w d st = record {
  id = w.fresh_id;
  client_name = d.client_name;
  kitty_type = d.kitty_type;
  sam_owner_id = d.sam_owner_id;
  current_arc = d.current_arc;
  contract_status = st;
  onboarding_date = d.onboarding_date;
  external_crm_id = d.external_crm_id;
  company_name = d.company_name;
  email = d.email;
  mobile_number = d.mobile_number;
  current_plan = d.current_plan;
  circuit_id = d.circuit_id;
  bandwidth_mbps = d.bandwidth_mbps;
  start_of_period_arc = some d.start_of_period_arc;
  last_meeting_date = none;
  last_mom_date = none;
  lead_id = d.lead_id;
  customer_code = d.customer_code;
  address = d.address;
  gst_number = d.gst_number;
  contact_person_name = d.contact_person_name;
  industry_type = d.industry_type;
  circle = d.circle;
  account_manager = d.account_manager;
  user_name = d.user_name;
  ip_details = d.ip_details;
  metadata = d.metadata;
}

-- `updateData`, without startOfPeriodArc.
abbrev pub updated_account : ValidatedData → ContractStatus → Account → Account
updated_account d st a = record a {
  client_name = d.client_name;
  kitty_type = d.kitty_type;
  sam_owner_id = d.sam_owner_id;
  current_arc = d.current_arc;
  contract_status = st;
  onboarding_date = d.onboarding_date;
  external_crm_id = d.external_crm_id;
  company_name = d.company_name;
  email = d.email;
  mobile_number = d.mobile_number;
  current_plan = d.current_plan;
  circuit_id = d.circuit_id;
  bandwidth_mbps = d.bandwidth_mbps;
  lead_id = d.lead_id;
  customer_code = d.customer_code;
  address = d.address;
  gst_number = d.gst_number;
  contact_person_name = d.contact_person_name;
  industry_type = d.industry_type;
  circle = d.circle;
  account_manager = d.account_manager;
  user_name = d.user_name;
  ip_details = d.ip_details;
  metadata = or_else d.metadata a.metadata;
}

-- `account.create`
unfoldable pub create_account : Account → Action Account
unfolding is_in_use
create_account a s =
    if is_some (s.accounts.row a.id) || is_in_use a.id a s
    then (err unique_violation, s)
    else (ok a, record s { accounts = add a.id a s.accounts })

-- `account.update`
unfoldable pub save_account : ℕ → (Account → Account) → Action Account
unfolding is_in_use
save_account k f s = elim (s.accounts.row k) [
  | none ↦ (err record_not_found, s)
  | some a ↦
      if is_in_use k (f a) s
      then (err unique_violation, s)
      else (ok (f a), record s { accounts = put k (f a) s.accounts })
]

-- Whether a row was created or updated.
pub data Written : Type 0 where
  created updated : Account → Written

abbrev pub as_created : Action Account → Action Written
as_created m s = let (r, t) = m s in elim r [ ok a ↦ (ok (created a), t) | err e ↦ (err e, t) ]

abbrev pub as_updated : Action Account → Action Written
as_updated m s = let (r, t) = m s in elim r [ ok a ↦ (ok (updated a), t) | err e ↦ (err e, t) ]

-- Prisma refuses a status that is none of the enumeration.
unfoldable pub write_data : World → ValidatedData → Action Written
unfolding create_account save_account
write_data w d s = elim d.contract_status [
  | inherited ↦ (err validation_failed, s)
  | status st ↦ elim (find_existing d s) [
    | some a ↦ as_updated (save_account a.id (updated_account d st)) s
    | none ↦ as_created (create_account (created_account w d st)) s
  ]
]
