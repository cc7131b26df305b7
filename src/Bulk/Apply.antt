-- ===== src/Bulk/Apply.antt =====
-- `applyRow` of src/modules/commercial-changes/bulk-import/bulk-import.service.ts.
pub mod Laws
pub mod Keeps
use isp_sam_backend.Prelude.{ℕ, String, false, Option, none, some, [], ◌∷◌, or_else, if◌then◌else◌}
use isp_sam_backend.Db.{
  terminated, disconnection, normal, proceed, not_required, is_disconnection, Account, Change, Json,
  json_or_null, AuditEntry, Action, pure, transaction, ◌>>=◌, ◌>>◌, update_account, create_change,
  create_audit,
}
use isp_sam_backend.Dates.{start_of_day_utc}
use isp_sam_backend.World.{World}
use isp_sam_backend.Bulk.Validate.{Entry, ValidatedRow}

-- Who imports, and from where.
pub record ImportContext : Type 0 where
  pub performed_by_user_id : ℕ
  pub ip_address : Option String
  pub user_agent : Option String

-- What a disconnection has, and nothing else.
abbrev of_disconnection : {A : Type 0} → ValidatedRow → Option A → Option A
of_disconnection v o = if is_disconnection v.change_type then o else none

abbrev bandwidth_after : ValidatedRow → Option ℕ
bandwidth_after v = or_else v.new_bandwidth_mbps v.account.bandwidth_mbps

-- The row, with every step of the workflow stamped.
abbrev pub imported_change : World → ImportContext → ValidatedRow → Change
imported_change w ctx v =
    let day = start_of_day_utc v.effective_date in
    record {
      id = w.fresh_id;
      account_id = v.account.id;
      change_type = v.change_type;
      old_arc = v.account.current_arc;
      new_arc = v.new_arc;
      effective_date = day;
      client_approval_attached = false;
      approval_file_url = none;
      approval_file_public_id = none;
      po_file_url = none;
      po_file_public_id = none;
      accounts_notified_date = none;
      created_by = ctx.performed_by_user_id;
      reason = v.reason;
      old_bandwidth_mbps = v.account.bandwidth_mbps;
      new_bandwidth_mbps = bandwidth_after v;
      mail_received_date = v.mail_received_date;
      crm_service_order_id = none;
      crm_order_number = none;
      crm_status = some "BULK_LOCAL";
      crm_status_updated_at = some w.now;
      activation_date = some day;
      account_applied_at = some day;
      disconnection_category_id = none;
      disconnection_sub_category_id = none;
      disconnection_reason = of_disconnection v v.disconnection_reason;
      disconnection_mode = of_disconnection v (some normal);
      quick_requested_days = none;
      quick_approval_reason = none;
      quick_approval_decision = none;
      quick_approval_decided_at = none;
      quick_approval_decided_by = none;
      quick_approval_note = none;
      retention_prompt_due_at = of_disconnection v (some day);
      retention_decision = of_disconnection v (some proceed);
      retention_decided_at = of_disconnection v (some day);
      scheduled_termination_at = of_disconnection v (some day);
      approval_status = not_required;
      rejection_reason = none;
      rejected_by = none;
      rejected_at = none;
      approved_by = none;
      approved_at = none;
      material_recovered = none;
      material_recovery_notes = none;
    }

-- The account afterwards.
abbrev pub imported_account : ValidatedRow → Account → Account
imported_account v a =
    if is_disconnection v.change_type
    then record a { contract_status = terminated; current_arc = 0 }
    else record a {
      current_arc = v.new_arc;
      bandwidth_mbps = or_else v.new_bandwidth_mbps a.bandwidth_mbps;
    }

import_audit : World → ImportContext → ValidatedRow → AuditEntry
import_audit w ctx v = record {
  entity_type = "CommercialChange";
  entity_id = w.fresh_id;
  action = "BULK_IMPORT_COMMERCIAL_CHANGE";
  performed_by = some ctx.performed_by_user_id;
  ip_address = ctx.ip_address;
  user_agent = ctx.user_agent;
  payload =
      ("accountId", Json.ref v.account.id)
      ∷ ("circuitId", Json.text v.account.circuit_id)
      ∷ ("clientName", Json.text v.account.client_name)
      ∷ ("changeType", Json.change_type v.change_type)
      ∷ ("oldArc", Json.num v.account.current_arc)
      ∷ ("newArc", Json.num v.new_arc)
      ∷ ("oldBandwidthMbps", json_or_null Json.num v.account.bandwidth_mbps)
      ∷ ("newBandwidthMbps", json_or_null Json.num (bandwidth_after v))
      ∷ ("effectiveDate", Json.day (start_of_day_utc v.effective_date))
      ∷ ("rowNumber", Json.num v.row_number)
      ∷ ("source", Json.text "BULK_EXCEL")
      ∷ (
        "note",
        Json.text
            "Bulk-imported commercial change — no CRM service-order raised, no document attached.",
      )
      ∷ [];
}

unfoldable pub apply_row : World → ImportContext → ValidatedRow → Action ℕ
unfolding import_audit
apply_row w ctx v = transaction (do
  create_change (imported_change w ctx v)
  update_account v.account.id (imported_account v)
  create_audit (import_audit w ctx v)
  pure (start_of_day_utc v.effective_date))
