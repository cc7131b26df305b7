-- ===== src/Tests/Data.antt =====
-- The rows, stores and the world of the examples.
use isp_sam_backend.Prelude.{
  ℕ, ◌*◌, ◌==◌, ◌≡◌, true, false, Option, none, some, [], ◌∷◌, if◌then◌else◌, arith,
}
use isp_sam_backend.Db.{
  KittyType, ContractStatus, ChangeType, ApprovalStatus, DisconnectionMode, sam_head, sam, Account,
  Change, User, Store, Table, IsSound,
}
use isp_sam_backend.Dates.{day_ms}
use isp_sam_backend.World.{World, answer, sent}
use isp_sam_backend.Approvals.Decide.Gate.{IsKeyed}

-- An account of the SAM 11.
abbrev pub account_of : KittyType → ContractStatus → Account
account_of kind st = record {
  id = 1;
  client_name = "Acme";
  kitty_type = kind;
  sam_owner_id = some 11;
  current_arc = 1000000;
  contract_status = st;
  onboarding_date = 0;
  external_crm_id = some "crm-1";
  company_name = none;
  email = none;
  mobile_number = none;
  current_plan = some "100 Mbps";
  circuit_id = none;
  bandwidth_mbps = some 100;
  start_of_period_arc = some 1000000;
  last_meeting_date = none;
  last_mom_date = none;
  lead_id = none;
  customer_code = none;
  address = none;
  gst_number = none;
  contact_person_name = none;
  industry_type = none;
  circle = none;
  account_manager = none;
  user_name = none;
  ip_details = none;
  metadata = none;
}

-- A change on that account, with the columns of a new row.
abbrev pub change_of : ChangeType → Option DisconnectionMode → ApprovalStatus → Change
change_of t mode st = record {
  id = 7;
  account_id = 1;
  change_type = t;
  old_arc = 1000000;
  new_arc = 1500000;
  effective_date = 20 * day_ms;
  client_approval_attached = true;
  approval_file_url = some "u";
  approval_file_public_id = some "p";
  po_file_url = none;
  po_file_public_id = none;
  accounts_notified_date = none;
  created_by = 11;
  reason = none;
  old_bandwidth_mbps = some 100;
  new_bandwidth_mbps = some 200;
  mail_received_date = none;
  crm_service_order_id = none;
  crm_order_number = none;
  crm_status = none;
  crm_status_updated_at = none;
  activation_date = none;
  account_applied_at = none;
  disconnection_category_id = some "office-closed";
  disconnection_sub_category_id = some "office-closed";
  disconnection_reason = none;
  disconnection_mode = mode;
  quick_requested_days = some 3;
  quick_approval_reason = none;
  quick_approval_decision = none;
  quick_approval_decided_at = none;
  quick_approval_decided_by = none;
  quick_approval_note = none;
  retention_prompt_due_at = none;
  retention_decision = none;
  retention_decided_at = none;
  scheduled_termination_at = none;
  approval_status = st;
  rejection_reason = none;
  rejected_by = none;
  rejected_at = none;
  approved_by = none;
  approved_at = none;
  material_recovered = none;
  material_recovery_notes = none;
}

abbrev pub only {ℓ} : {V : Type ℓ} → ℕ → V → ℕ → Option V
only k v j = if k == j then some v else none

-- The SAM 11 and the head 5 of that SAM.
abbrev pub users : Table User
users = record {
  keys = 5 ∷ 11 ∷ [];
  row = λ j.
      if j == 5
      then some (record {
        id = 5;
        email = "head@sam";
        name = "Head";
        role = sam_head;
        sam_head_id = none;
        password_hash = "h";
        allowable_churn_percent = 700;
        created_at = 0;
      })
      else (if j == 11
          then some (record {
            id = 11;
            email = "sam@sam";
            name = "Sam";
            role = sam;
            sam_head_id = some 5;
            password_hash = "h";
            allowable_churn_percent = 700;
            created_at = 0;
          })
          else none);
}

abbrev pub store_of : Account → Change → Store
store_of a c = record {
  accounts = record { keys = 1 ∷ []; row = only 1 a };
  changes = record { keys = 7 ∷ []; row = only 7 c };
  users = users;
  meetings = record { keys = []; row = λ _. none };
  events = record { keys = []; row = λ _. none };
  audit = [];
  notification_states = λ _ _. none;
}

-- The same without the change.
abbrev pub fresh_store : Account → Store
fresh_store a = record {
  accounts = record { keys = 1 ∷ []; row = only 1 a };
  changes = record { keys = []; row = λ _. none };
  users = users;
  meetings = record { keys = []; row = λ _. none };
  events = record { keys = []; row = λ _. none };
  audit = [];
  notification_states = λ _ _. none;
}

abbrev pub world_at : ℕ → World
world_at now = record {
  now = now;
  fresh_id = 7;
  short_id_text = λ _. "00000007";
  id_text = λ _. "1";
  violated_columns = "circuit_id" ∷ [];
  number_text = λ _. "500";
  quick_disconnect_enabled = true;
  crm_service_orders_enabled = true;
  accounts_notifications_enabled = true;
  notify_mom_to_customer_enabled = none;
  sales_director_email = some "director@isp";
  accounts_team_email = none;
  admin_notify_email = none;
  accounts_team_cc_emails = [];
  upload_approval_file = λ _ _ name. some (record { secure_url = name; public_id = "p" });
  create_service_order = λ _. answer (record {
    id = "so";
    order_number = "SO-1";
    status = "PENDING_APPROVAL";
    activation_date = none;
  });
  list_service_orders = λ _. answer [];
  set_activation_date = λ _ _.
      answer
        (record { id = "so"; order_number = "SO-1"; status = "SCHEDULED"; activation_date = none });
  push_quick_disconnect_request = λ _. record {
    ok = true;
    status = 200;
    event_id = "e";
    deduped = none;
    error = "";
    retriable = false;
  };
  send_email = λ _. sent "m-1";
}

module _ (a : Account) (c : Change) (i : c.id ≡ 7) where
  pub store_of-IsKeyed : IsKeyed (store_of a c)
  store_of-IsKeyed k d e = ground arith

  pub store_of-IsSound : c.account_id ≡ 1 → IsSound (store_of a c)
  store_of-IsSound o = record {
    keyed = λ k d e. ground arith;
    listed = λ k d e. ground arith;
    owned = λ k d e. ground arith;
  }
