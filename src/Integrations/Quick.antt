-- ===== src/Integrations/Quick.antt =====
-- `ingestQuickDisconnectDecision` of src/modules/integrations/integrations.service.ts: the CRM has
-- decided on a quick disconnection.
pub mod Laws
pub mod Keeps
use isp_sam_backend.Prelude.{
  ℕ, String, not, Option, none, some, List, [], ◌∷◌, ◌++◌, if◌then◌else◌, get_or,
}
use isp_sam_backend.Db.{
  active, disconnecting, quick_approved, quick_rejected, retain, proceed, is_quick, Account, Change,
  Json, json_or_null, Action, pure, transaction, ◌>>=◌, ◌>>◌, find_change_with_account,
  update_account, update_change, create_audit,
}
use isp_sam_backend.Dates.{start_of_day_utc_plus_days}
use isp_sam_backend.World.{World}
use isp_sam_backend.Changes.Orders.{OrderSummary, raise_disconnection_order, link_order}
use isp_sam_backend.Changes.Retention.{put_status, change_audit}
use isp_sam_backend.Integrations.Events.{
  system_user_id, Reservation, reserved, seen, reserve, safe_update_status_reason, mark_processed,
  Ingested, processed_event, duplicate_event, not_found,
}
use isp_sam_backend.Integrations.Status.{noting}

pub data CrmDecision : Type 0 where
  approve reject : CrmDecision

pub record DecisionPayload : Type 0 where
  pub event_id : ℕ
  pub occurred_at : ℕ
  pub commercial_change_id : ℕ
  pub decision : CrmDecision
  pub decided_by : String
  pub note : Option String

abbrev pub crm_approved : World → DecisionPayload → OrderSummary → Change → Change
crm_approved w p order c = link_order p.occurred_at order (record c {
  quick_approval_decision = some quick_approved;
  quick_approval_decided_at = some p.occurred_at;
  quick_approval_decided_by = some p.decided_by;
  quick_approval_note = p.note;
  scheduled_termination_at =
      some (start_of_day_utc_plus_days w.now (get_or c.quick_requested_days 1));
  retention_decision = some proceed;
  retention_decided_at = some p.occurred_at;
})

abbrev pub crm_rejected : DecisionPayload → Change → Change
crm_rejected p c = record c {
  quick_approval_decision = some quick_rejected;
  quick_approval_decided_at = some p.occurred_at;
  quick_approval_decided_by = some p.decided_by;
  quick_approval_note = p.note;
  retention_decision = some retain;
  retention_decided_at = some p.occurred_at;
}

-- The CRM's order for an approved disconnection.
abbrev pub approval_order : World → Change → Account → OrderSummary
approval_order w c a =
    raise_disconnection_order w c a.external_crm_id (some "QUICK disconnect — CRM Admin approved")

apply_decision : World → DecisionPayload → Change → Account → CrmDecision → Action (Unit {0})
apply_decision w p c a approve = transaction (do
  update_change c.id (crm_approved w p (approval_order w c a))
  update_account c.account_id (put_status disconnecting))
apply_decision w p c a reject =
    transaction
      (do update_change c.id (crm_rejected p); update_account c.account_id (put_status active))

abbrev action_of : CrmDecision → String
action_of approve = "QUICK_DISCONNECT_APPROVED"
action_of reject = "QUICK_DISCONNECT_REJECTED"

abbrev order_payload : CrmDecision → OrderSummary → List (String × Json)
order_payload approve order =
    ("crmServiceOrderId", json_or_null Json.text order.crm_service_order_id)
    ∷ ("crmOrderNumber", json_or_null Json.text order.crm_order_number)
    ∷ ("crmStatus", json_or_null Json.text order.crm_status)
    ∷ ("crmError", json_or_null Json.text order.crm_error)
    ∷ []
order_payload reject order = []

decision_audit : World → DecisionPayload → Change → Account → Action (Unit {0})
decision_audit w p c a = create_audit (
    change_audit c.id (action_of p.decision) system_user_id (
      ("eventId", Json.ref p.event_id)
      ∷ ("decidedBy", Json.text p.decided_by)
      ∷ ("note", json_or_null Json.text p.note)
      ∷ order_payload p.decision (approval_order w c a)))

settle_decision : World → DecisionPayload → Change → Account → Action Ingested
unfolding apply_decision decision_audit
settle_decision w p c a = do
  noting w.fresh_id (apply_decision w p c a p.decision)
  mark_processed w.fresh_id c.account_id
  decision_audit w p c a
  pure (processed_event w.fresh_id c.account_id)

refuse_decision : World → String → Action Ingested
refuse_decision w reason = do
  safe_update_status_reason w.fresh_id reason
  pure (not_found w.fresh_id)

handle_decision : World → DecisionPayload → Option (Change × Account) → Action Ingested
unfolding settle_decision refuse_decision
handle_decision w p none s = refuse_decision w "Unknown commercialChangeId" s
handle_decision w p (some (c, a)) s =
    if not (is_quick c.disconnection_mode)
    then refuse_decision w "not a QUICK disconnect" s
    else settle_decision w p c a s

unfoldable pub ingest_quick_disconnect_decision : World → DecisionPayload → Action Ingested
unfolding handle_decision
ingest_quick_disconnect_decision w p = do
  r ← reserve w "quickDisconnect.decided" p.event_id p.occurred_at
  elim r [
    | seen e ↦ pure (duplicate_event e.id none)
    | reserved k ↦
        (find_change_with_account p.commercial_change_id >>= λ found. handle_decision w p found)
  ]
