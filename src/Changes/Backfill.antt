-- ===== src/Changes/Backfill.antt =====
-- `backfillDisconnection` of src/modules/commercial-changes/commercial-changes.service.ts: a
-- disconnection that has already happened is entered afterwards.
pub mod Laws
pub mod Keeps
use isp_sam_backend.Prelude.{ℕ, String, false, Option, none, some, [], ◌∷◌}
use isp_sam_backend.Text.{trim}
use isp_sam_backend.Db.{
  terminated, disconnection, normal, proceed, not_required, same_status, Account, Change, Json,
  AuditEntry, Action, pure, transaction, ◌>>=◌, ◌>>◌, or_throw, throw_if, find_account,
  update_account, create_change, create_audit, account_not_found, account_already_terminated,
}
use isp_sam_backend.Dates.{start_of_day_utc}
use isp_sam_backend.World.{World}

pub record BackfillInput : Type 0 where
  pub account_id : ℕ
  pub effective_date : ℕ
  pub reason : String
  pub performed_by_user_id : ℕ
  pub ip_address : Option String
  pub user_agent : Option String

-- The row, with every step of the workflow stamped.
abbrev pub backfilled_change : World → BackfillInput → Account → Change
backfilled_change w i a =
    let day = start_of_day_utc i.effective_date in
    record {
      id = w.fresh_id;
      account_id = i.account_id;
      change_type = disconnection;
      old_arc = a.current_arc;
      new_arc = 0;
      effective_date = day;
      client_approval_attached = false;
      approval_file_url = none;
      approval_file_public_id = none;
      po_file_url = none;
      po_file_public_id = none;
      accounts_notified_date = none;
      created_by = i.performed_by_user_id;
      reason = some (trim i.reason);
      old_bandwidth_mbps = none;
      new_bandwidth_mbps = none;
      mail_received_date = none;
      crm_service_order_id = none;
      crm_order_number = none;
      crm_status = some "BACKFILL_LOCAL";
      crm_status_updated_at = some w.now;
      activation_date = some day;
      account_applied_at = some day;
      disconnection_category_id = none;
      disconnection_sub_category_id = none;
      disconnection_reason = some (trim i.reason);
      disconnection_mode = some normal;
      quick_requested_days = none;
      quick_approval_reason = none;
      quick_approval_decision = none;
      quick_approval_decided_at = none;
      quick_approval_decided_by = none;
      quick_approval_note = none;
      retention_prompt_due_at = some day;
      retention_decision = some proceed;
      retention_decided_at = some day;
      scheduled_termination_at = some day;
      approval_status = not_required;
      rejection_reason = none;
      rejected_by = none;
      rejected_at = none;
      approved_by = none;
      approved_at = none;
      material_recovered = none;
      material_recovery_notes = none;
    }

abbrev pub closed : Account → Account
closed a = record a { contract_status = terminated; current_arc = 0 }

backfill_audit : World → BackfillInput → Account → AuditEntry
backfill_audit w i a = record {
  entity_type = "CommercialChange";
  entity_id = w.fresh_id;
  action = "BACKFILL_DISCONNECTION";
  performed_by = some i.performed_by_user_id;
  ip_address = i.ip_address;
  user_agent = i.user_agent;
  payload =
      ("accountId", Json.ref i.account_id)
      ∷ ("clientName", Json.text a.client_name)
      ∷ ("effectiveDate", Json.day (start_of_day_utc i.effective_date))
      ∷ ("oldArc", Json.num a.current_arc)
      ∷ ("reason", Json.text (trim i.reason))
      ∷ ("note", Json.text "Historical disconnection — no CRM service-order raised.")
      ∷ [];
}

unfoldable pub backfill_disconnection : World → BackfillInput → Action Change
unfolding backfill_audit
backfill_disconnection w i = do
  a ← (find_account i.account_id >>= λ found. or_throw found account_not_found)
  throw_if (same_status a.contract_status terminated) account_already_terminated
  transaction (do
    create_change (backfilled_change w i a)
    update_account i.account_id closed
    create_audit (backfill_audit w i a)
    pure (backfilled_change w i a))
