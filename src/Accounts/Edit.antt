-- ===== src/Accounts/Edit.antt =====
-- `update` of src/modules/accounts/accounts.service.ts, on a patch that has the types of its schema:
-- figures are whole and amounts have two decimals at most.
pub mod Laws
pub mod Outcome
use text.Mathlib.Text.{◌==◌ as str_eq}
use isp_sam_backend.Prelude.{
  ℕ, String, Bool, true, false, not, Option, none, some, List, [], ◌∷◌, ◌++◌, map, get_or, ◌==◌,
  if◌then◌else◌,
}
use isp_sam_backend.Text.{trimmed}
use isp_sam_backend.Dates.{start_of_day_utc}
use isp_sam_backend.Db.{
  ContractStatus, same_status, Account, Json, json_or_null, AuditEntry, Store, Action, Result, ok,
  err, pure, gets, or_throw, throw_if, transaction, ◌>>=◌, ◌>>◌, find_account, set_account,
  create_audit, account_not_found, validation_failed, unique_violation,
}
use isp_sam_backend.Scope.{Requester}
use isp_sam_backend.Accounts.Import.Write.{is_in_use}

-- `stringFields`
pub data TextField : Type 0 where
  client_name_field company_name_field mobile_number_field email_field current_plan_field
        customer_code_field :
      TextField
  circuit_id_field address_field gst_number_field contact_person_name_field industry_type_field
        circle_field :
      TextField
  account_manager_field user_name_field ip_details_field lead_id_field external_crm_id_field :
      TextField

abbrev pub text_fields : List TextField
text_fields =
    client_name_field ∷ company_name_field ∷ mobile_number_field ∷ email_field ∷ current_plan_field
    ∷ customer_code_field ∷ circuit_id_field ∷ address_field ∷ gst_number_field
    ∷ contact_person_name_field ∷ industry_type_field ∷ circle_field ∷ account_manager_field
    ∷ user_name_field ∷ ip_details_field ∷ lead_id_field ∷ external_crm_id_field ∷ []

abbrev pub field_name : TextField → String
field_name client_name_field = "clientName"
field_name company_name_field = "companyName"
field_name mobile_number_field = "mobileNumber"
field_name email_field = "email"
field_name current_plan_field = "currentPlan"
field_name customer_code_field = "customerCode"
field_name circuit_id_field = "circuitId"
field_name address_field = "address"
field_name gst_number_field = "gstNumber"
field_name contact_person_name_field = "contactPersonName"
field_name industry_type_field = "industryType"
field_name circle_field = "circle"
field_name account_manager_field = "accountManager"
field_name user_name_field = "userName"
field_name ip_details_field = "ipDetails"
field_name lead_id_field = "leadId"
field_name external_crm_id_field = "externalCrmId"

abbrev pub text_of : TextField → Account → Option String
text_of client_name_field a = some a.client_name
text_of company_name_field a = a.company_name
text_of mobile_number_field a = a.mobile_number
text_of email_field a = a.email
text_of current_plan_field a = a.current_plan
text_of customer_code_field a = a.customer_code
text_of circuit_id_field a = a.circuit_id
text_of address_field a = a.address
text_of gst_number_field a = a.gst_number
text_of contact_person_name_field a = a.contact_person_name
text_of industry_type_field a = a.industry_type
text_of circle_field a = a.circle
text_of account_manager_field a = a.account_manager
text_of user_name_field a = a.user_name
text_of ip_details_field a = a.ip_details
text_of lead_id_field a = a.lead_id
text_of external_crm_id_field a = a.external_crm_id

-- The texts of an account. A name is never null.
abbrev pub with_texts : (TextField → Option String) → Account → Account
with_texts t a = record a {
  client_name = get_or (t client_name_field) a.client_name;
  company_name = t company_name_field;
  mobile_number = t mobile_number_field;
  email = t email_field;
  current_plan = t current_plan_field;
  customer_code = t customer_code_field;
  circuit_id = t circuit_id_field;
  address = t address_field;
  gst_number = t gst_number_field;
  contact_person_name = t contact_person_name_field;
  industry_type = t industry_type_field;
  circle = t circle_field;
  account_manager = t account_manager_field;
  user_name = t user_name_field;
  ip_details = t ip_details_field;
  lead_id = t lead_id_field;
  external_crm_id = t external_crm_id_field;
}

-- A field that is absent is left alone; null clears it. `text` has the seventeen text columns.
pub record AccountUpdatePatch : Type 0 where
  pub text : TextField → Option (Option String)
  pub bandwidth_mbps : Option (Option ℕ)
  pub current_arc : Option ℕ
  pub start_of_period_arc : Option (Option ℕ)
  pub contract_status : Option ContractStatus
  pub onboarding_date : Option ℕ

abbrev pub same_text : Option String → Option String → Bool
same_text none none = true
same_text (some x) (some y) = str_eq x y
same_text _ _ = false

abbrev pub same_figure : Option ℕ → Option ℕ → Bool
same_figure none none = true
same_figure (some x) (some y) = x == y
same_figure _ _ = false

-- The new value of a column that is given and differs from the old one.
abbrev pub differing {ℓ} : {A : Type ℓ} → (A → A → Bool) → A → Option A → Option A
differing same prev none = none
differing same prev (some next) = if same prev next then none else some next

abbrev pub next_text : AccountUpdatePatch → TextField → Option (Option String)
next_text patch f = elim (patch.text f) [ none ↦ none | some v ↦ some (trimmed v) ]

abbrev pub same_day : ℕ → ℕ → Bool
same_day x y = start_of_day_utc x == start_of_day_utc y

-- `data`: what is to be written, by column.
pub record UpdateData : Type 0 where
  pub text : TextField → Option (Option String)
  pub bandwidth_mbps : Option (Option ℕ)
  pub current_arc : Option ℕ
  pub start_of_period_arc : Option (Option ℕ)
  pub contract_status : Option ContractStatus
  pub onboarding_date : Option ℕ

unfoldable pub update_data : AccountUpdatePatch → Account → UpdateData
update_data patch a = record {
  text = λ f. differing same_text (text_of f a) (next_text patch f);
  bandwidth_mbps = differing same_figure a.bandwidth_mbps patch.bandwidth_mbps;
  current_arc = differing (λ x y. x == y) a.current_arc patch.current_arc;
  start_of_period_arc = differing same_figure a.start_of_period_arc patch.start_of_period_arc;
  contract_status = differing same_status a.contract_status patch.contract_status;
  onboarding_date = differing same_day a.onboarding_date patch.onboarding_date;
}

pub record Diff : Type 0 where
  pub field : String
  pub from : Json
  pub to : Json

abbrev pub diff_of {ℓ} : {A : Type ℓ} → String → (A → Json) → A → Option A → List Diff
diff_of name json prev none = []
diff_of name json prev (some next) = record { field = name; from = json prev; to = json next } ∷ []

abbrev pub text_diffs : List TextField → UpdateData → Account → List Diff
text_diffs [] d a = []
text_diffs (f ∷ fs) d a =
    diff_of (field_name f) (json_or_null Json.text) (text_of f a) (d.text f) ++ text_diffs fs d a

abbrev pub day_of_update : Option ℕ → Option ℕ
day_of_update none = none
day_of_update (some t) = some (start_of_day_utc t)

unfoldable pub diffs_of : UpdateData → Account → List Diff
diffs_of d a =
    text_diffs text_fields d a
    ++ (diff_of "bandwidthMbps" (json_or_null Json.num) a.bandwidth_mbps d.bandwidth_mbps
        ++ (diff_of "currentArc" Json.num a.current_arc d.current_arc
            ++ (diff_of "startOfPeriodArc" (json_or_null Json.num) a.start_of_period_arc
                  d.start_of_period_arc
                ++ (diff_of "contractStatus" Json.status a.contract_status d.contract_status
                    ++ diff_of "onboardingDate" Json.day (start_of_day_utc a.onboarding_date)
                        (day_of_update d.onboarding_date)))))

abbrev pub edited_account : UpdateData → Account → Account
edited_account d a = record (with_texts (λ f. get_or (d.text f) (text_of f a)) a) {
  bandwidth_mbps = get_or d.bandwidth_mbps a.bandwidth_mbps;
  current_arc = get_or d.current_arc a.current_arc;
  start_of_period_arc = get_or d.start_of_period_arc a.start_of_period_arc;
  contract_status = get_or d.contract_status a.contract_status;
  onboarding_date = get_or d.onboarding_date a.onboarding_date;
}

pub record UpdateContext : Type 0 where
  pub requester : Requester
  pub ip_address : Option String
  pub user_agent : Option String

abbrev pub update_field_audit : UpdateContext → ℕ → Diff → AuditEntry
update_field_audit ctx k d = record {
  entity_type = "Account";
  entity_id = k;
  action = "UPDATE_FIELD";
  performed_by = some ctx.requester.id;
  ip_address = ctx.ip_address;
  user_agent = ctx.user_agent;
  payload = ("field", Json.text d.field) ∷ ("from", d.from) ∷ ("to", d.to) ∷ [];
}

-- `auditLog.createMany`
abbrev pub create_audits : List AuditEntry → Action (Unit {0})
create_audits es s = (ok tt, record s { audit = s.audit ++ es })

-- A name that is cleared is refused by Prisma.
abbrev pub clears_name : UpdateData → Bool
clears_name d = elim (d.text client_name_field) [
  | none ↦ false
  | some v ↦ elim v [ none ↦ true | some t ↦ false ]
]

unfoldable pub write_edit : UpdateContext → ℕ → UpdateData → Account → Action (Account × List Diff)
unfolding diffs_of is_in_use
write_edit ctx k d a = do
  throw_if (clears_name d) validation_failed
  taken ← gets (is_in_use k (edited_account d a))
  throw_if taken unique_violation
  set_account k (edited_account d a)
  create_audits (map (update_field_audit ctx k) (diffs_of d a))
  pure (edited_account d a, diffs_of d a)

-- The account that is there, with what changes.
unfoldable pub edit_found :
    UpdateContext → ℕ → AccountUpdatePatch → Account → Action (Account × List Diff)
unfolding write_edit update_data diffs_of
edit_found ctx k patch a =
    let d = update_data patch a in
    elim (diffs_of d a) [ [] ↦ pure (a, []) | _ ↦ write_edit ctx k d a ]

unfoldable pub update_account_fields :
    UpdateContext → ℕ → AccountUpdatePatch → Action (Account × List Diff)
unfolding edit_found
update_account_fields ctx k patch = transaction (do
  a ← (find_account k >>= λ found. or_throw found account_not_found)
  edit_found ctx k patch a)
