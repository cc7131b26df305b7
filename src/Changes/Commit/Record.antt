-- ===== src/Changes/Commit/Record.antt =====
-- The uploads of `commit`, and the rows that its transaction creates
-- (src/modules/commercial-changes/commercial-changes.service.ts).
use isp_sam_backend.Prelude.{
  ℕ, ℤ, pos, negsuc, String, true, not, ◌&&◌, Option, none, some, List, [], ◌∷◌, if◌then◌else◌,
  is_some, or_else,
}
use isp_sam_backend.Db.{
  normal, not_required, is_disconnection, Account, Change, Json, json_or_null, Action, pure, throw,
  transaction, ◌>>◌, create_change, create_audit, upload_failed,
}
use isp_sam_backend.World.{World, FileKind, Upload}
use isp_sam_backend.Changes.Retention.{change_audit}
use isp_sam_backend.Changes.Commit.Guards.{CommitInput, is_quick_request}

-- A file that was given is uploaded; a failed upload throws.
unfoldable pub upload_file : World → FileKind → Option String → Action (Option Upload)
upload_file w kind none = pure none
upload_file w kind (some name) = elim (w.upload_approval_file w.fresh_id kind name) [
  | none ↦ throw upload_failed
  | some u ↦ pure (some u)
]

abbrev url_of : Option Upload → Option String
url_of none = none
url_of (some u) = some u.secure_url

abbrev public_id_of : Option Upload → Option String
public_id_of none = none
public_id_of (some u) = some u.public_id

abbrev natural : Option ℤ → Option ℕ
natural (some (pos n)) = some n
natural (some (negsuc n)) = none
natural none = none

-- The new row; the columns that the call does not set have their defaults.
abbrev pub new_change : World → Account → CommitInput → Option Upload → Option Upload → Change
new_change w a i approval po = record {
  id = w.fresh_id;
  account_id = i.account_id;
  change_type = i.change_type;
  old_arc = a.current_arc;
  new_arc = i.new_arc;
  effective_date = i.effective_date;
  client_approval_attached = is_some approval;
  approval_file_url = url_of approval;
  approval_file_public_id = public_id_of approval;
  po_file_url = url_of po;
  po_file_public_id = public_id_of po;
  accounts_notified_date = none;
  created_by = i.performed_by_user_id;
  reason = i.reason;
  old_bandwidth_mbps = a.bandwidth_mbps;
  new_bandwidth_mbps = i.new_bandwidth_mbps;
  mail_received_date = i.mail_received_date;
  crm_service_order_id = none;
  crm_order_number = none;
  crm_status = none;
  crm_status_updated_at = none;
  activation_date = none;
  account_applied_at = none;
  disconnection_category_id = i.disconnection_category_id;
  disconnection_sub_category_id = i.disconnection_sub_category_id;
  disconnection_reason = i.disconnection_reason;
  disconnection_mode =
      if is_disconnection i.change_type then or_else i.disconnection_mode (some normal) else none;
  quick_requested_days = if is_quick_request i then natural i.quick_requested_days else none;
  quick_approval_reason = if is_quick_request i then i.quick_approval_reason else none;
  quick_approval_decision = none;
  quick_approval_decided_at = none;
  quick_approval_decided_by = none;
  quick_approval_note = none;
  retention_prompt_due_at = none;
  retention_decision = none;
  retention_decided_at = none;
  scheduled_termination_at = none;
  approval_status = not_required;
  rejection_reason = none;
  rejected_by = none;
  rejected_at = none;
  approved_by = none;
  approved_at = none;
  material_recovered = none;
  material_recovery_notes = none;
}

abbrev test_mode_note : CommitInput → List (String × Json)
test_mode_note i =
    if i.test_mode && (not (is_some i.approval_file) && not (is_some i.po_file))
    then ("testMode", Json.bool true) ∷ []
    else []

-- The transaction: the change and its audit row.
unfoldable pub create_commit : Account → CommitInput → Change → Action Change
create_commit a i c = transaction (do
  create_change c
  create_audit (
      change_audit c.id "COMMIT" i.performed_by_user_id (
        ("accountId", Json.ref i.account_id)
        ∷ ("changeType", Json.change_type i.change_type)
        ∷ ("oldArc", Json.num a.current_arc)
        ∷ ("newArc", Json.num i.new_arc)
        ∷ ("effectiveDate", Json.instant i.effective_date)
        ∷ ("approvalFileUrl", json_or_null Json.text c.approval_file_url)
        ∷ ("approvalFilePublicId", json_or_null Json.text c.approval_file_public_id)
        ∷ ("poFileUrl", json_or_null Json.text c.po_file_url)
        ∷ ("poFilePublicId", json_or_null Json.text c.po_file_public_id)
        ∷ test_mode_note i))
  pure c)
