-- ===== src/Integrations/Activation.antt =====
-- `ingestCustomerActivated` of src/modules/integrations/integrations.service.ts: the CRM hands over
-- a customer. The upsert fails where another account has a value of a unique column.
mod Accepts
pub mod Laws
pub mod Keeps
use text.Mathlib.Text.{◌==◌ as str_eq}
use isp_sam_backend.Prelude.{
  ℕ, ◌*◌, String, Bool, false, ◌||◌, Option, none, some, List, [], ◌∷◌, get_or, is_some,
  if◌then◌else◌,
}
use isp_sam_backend.Text.{trimmed, bind_truthy}
use isp_sam_backend.Db.{
  new, active, Account, Store, Action, Result, ok, err, missing_arc, pure, gets, or_throw, ◌>>=◌,
  ◌>>◌, put, add, find_newest, unique_violation,
}
use isp_sam_backend.Accounts.Import.Write.{holds_text, is_in_use}
use isp_sam_backend.Changes.Orders.{◌<>◌}
use isp_sam_backend.World.{World}
use isp_sam_backend.Notifications.{send_customer_activated_alert}
use isp_sam_backend.Integrations.Events.{
  system_user_id, Reservation, reserved, seen, reserve, safe_update_status_reason, mark_processed,
  Ingested, processed_event, duplicate_event,
}

pub record CustomerPayload : Type 0 where
  pub event_id : ℕ
  pub occurred_at : ℕ
  pub external_id : String
  pub company_name : String
  pub contact_name : Option String
  pub email : Option String
  pub phone : Option String
  pub circuit_id : Option String
  pub bandwidth_mbps : Option ℕ
  pub current_plan : Option String
  pub current_arc : Option ℕ
  pub current_mrr : Option ℕ
  pub onboarding_date : ℕ

-- A monthly figure counts twelve times.
unfoldable pub resolve_current_arc : CustomerPayload → Option ℕ
resolve_current_arc p = elim (p.current_arc) [
  | some arc ↦ some arc
  | none ↦ elim (p.current_mrr) [ some mrr ↦ some (mrr * 12) | none ↦ none ]
]

-- `contactName?.trim() || companyName`
abbrev client_name_of : CustomerPayload → String
client_name_of p = get_or (trimmed p.contact_name) p.company_name

abbrev pub has_crm_id : String → Account → Bool
has_crm_id x a = elim (a.external_crm_id) [ none ↦ false | some y ↦ str_eq x y ]

-- The `create` branch of the upsert.
abbrev pub created_account : World → CustomerPayload → ℕ → Account
created_account w p arc = record {
  id = w.fresh_id;
  client_name = client_name_of p;
  kitty_type = new;
  sam_owner_id = none;
  current_arc = arc;
  contract_status = active;
  onboarding_date = p.onboarding_date;
  external_crm_id = some p.external_id;
  company_name = some p.company_name;
  email = p.email;
  mobile_number = p.phone;
  current_plan = p.current_plan;
  circuit_id = p.circuit_id;
  bandwidth_mbps = p.bandwidth_mbps;
  start_of_period_arc = some arc;
  last_meeting_date = none;
  last_mom_date = none;
  lead_id = none;
  customer_code = none;
  address = none;
  gst_number = none;
  contact_person_name = none;
  industry_type = none;
  circle = none;
  account_manager = none;
  user_name = none;
  ip_details = none;
  metadata = none;
}

-- The `update` branch: the status, the owner and the ARC at onboarding stay.
abbrev pub refreshed_account : CustomerPayload → ℕ → Account → Account
refreshed_account p arc a = record a {
  company_name = some p.company_name;
  client_name = client_name_of p;
  current_arc = arc;
  email = p.email;
  mobile_number = p.phone;
  current_plan = p.current_plan;
  circuit_id = p.circuit_id;
  bandwidth_mbps = p.bandwidth_mbps;
}

-- The upsert; it gives the id of the account. The id and the unique columns of the row that it writes
-- may not be another account's.
unfoldable pub upsert_account : World → CustomerPayload → ℕ → Action ℕ
unfolding is_in_use
upsert_account w p arc s = elim (find_newest (has_crm_id p.external_id) s.accounts) [
  | none ↦
      let a = created_account w p arc in
      if is_some (s.accounts.row a.id) || is_in_use a.id a s
      then (err unique_violation, s)
      else (ok a.id, record s { accounts = add a.id a s.accounts })
  | some old ↦
      let a = refreshed_account p arc old in
      if is_in_use a.id a s
      then (err unique_violation, s)
      else (ok a.id, record s { accounts = put a.id a s.accounts })
]

abbrev joined_names : List String → String
joined_names [] = ""
joined_names (x ∷ []) = x
joined_names (x ∷ y ∷ more) = x <> (", " <> joined_names (y ∷ more))

abbrev names_column : String → List String → Bool
names_column c [] = false
names_column c (x ∷ xs) = str_eq x c || names_column c xs

-- `owner` of the circuit, if the database has named that column.
abbrev pub circuit_owner : World → CustomerPayload → Store → Option Account
circuit_owner w p s = elim (bind_truthy p.circuit_id) [
  | none ↦ none
  | some x ↦
      if names_column "circuit_id" w.violated_columns
      then find_newest (λ a. holds_text (some x) a.circuit_id) s.accounts
      else none
]

-- `describeIngestError` of a violated unique column, the only failure of the upsert that is modelled.
abbrev pub describe_ingest_error : World → CustomerPayload → Store → String
describe_ingest_error w p s = elim (circuit_owner w p s) [
  | none ↦ "P2002: unique constraint violation on (" <> (joined_names w.violated_columns <> ").")
  | some a ↦
      "P2002: duplicate circuit_id '"
      <> (get_or p.circuit_id ""
          <> ("'. Already owned by account "
              <> (w.id_text a.id
                  <> (" (externalCrmId="
                      <> (get_or a.external_crm_id "null"
                          <> (", name='"
                              <> (get_or a.company_name a.client_name
                                  <> "'). Fix the data on CRM side — two accounts cannot share a circuit ID.")))))))
]

-- A failed upsert is described on the event and thrown again.
describing : World → CustomerPayload → Action ℕ → Action ℕ
describing w p m s =
    let (r, s') = m s in
    elim r [
      | ok k ↦ (ok k, s')
      | err e ↦ (err e, (safe_update_status_reason w.fresh_id (describe_ingest_error w p s') s').1)
    ]

activate : World → CustomerPayload → Action Ingested
unfolding resolve_current_arc upsert_account describing
activate w p = do
  arc ← or_throw (resolve_current_arc p) missing_arc
  k ← describing w p (upsert_account w p arc)
  mark_processed w.fresh_id k
  send_customer_activated_alert w k system_user_id
  pure (processed_event w.fresh_id k)

unfoldable pub ingest_customer_activated : World → CustomerPayload → Action Ingested
unfolding activate
ingest_customer_activated w p = do
  r ← reserve w "customer.activated" p.event_id p.occurred_at
  elim r [ seen e ↦ pure (duplicate_event e.id e.account_id) | reserved k ↦ activate w p ]
