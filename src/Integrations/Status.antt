-- ===== src/Integrations/Status.antt =====
-- `ingestCommercialChangeStatusChanged` of src/modules/integrations/integrations.service.ts: the
-- CRM reports a step of its workflow.
pub mod Laws
pub mod Keeps
use text.Mathlib.Text.{◌==◌ as str_eq}
use isp_sam_backend.Prelude.{
  ℕ, String, Bool, ◌||◌, ◌&&◌, not, Option, none, some, List, [], ◌∷◌, ◌++◌, if◌then◌else◌, get_or,
  or_else,
}
use isp_sam_backend.Text.{bind_truthy}
use isp_sam_backend.Db.{
  ContractStatus, active, disconnecting, terminated, quick_approved, quick_rejected, proceed,
  is_quick, same_status, Account, Change, Json, json_or_null, Action, Result, ok, err, pure, gets,
  transaction, ◌>>=◌, ◌>>◌, find_change_with_account, update_account, update_change, create_audit,
  Error,
}
use isp_sam_backend.Dates.{start_of_day_utc_plus_days}
use isp_sam_backend.World.{World}
use isp_sam_backend.Changes.Retention.{put_status, change_audit}
use isp_sam_backend.Integrations.Events.{
  system_user_id, Reservation, reserved, seen, reserve, safe_update_status_reason, mark_processed,
  Ingested, processed_event, duplicate_event, not_found,
}

pub record StatusPayload : Type 0 where
  pub event_id : ℕ
  pub occurred_at : ℕ
  pub commercial_change_id : ℕ
  pub from_status : Option String
  pub to_status : String
  pub changed_by : String
  pub note : Option String
  pub service_order_id : Option String
  pub service_order_number : Option String

-- The branches on `toStatus`.
pub data StatusKind : Type 0 where
  docs_review in_flight completed stage_one_rejection later_rejection unknown : StatusKind

abbrev is_docs_review : String → Bool
is_docs_review t = str_eq t "PENDING_DOCS_REVIEW" || str_eq t "DOCS"

-- `IN_FLIGHT_STATUSES`, without the two that `is_docs_review` has taken.
abbrev is_in_flight : String → Bool
is_in_flight t =
    str_eq t "PENDING_NOC"
    || (str_eq t "PENDING_ACCOUNTS" || (str_eq t "NOC" || str_eq t "ACCOUNTS"))

-- `REJECTION_STATUSES`, without REJECTED.
abbrev is_later_rejection : String → Bool
is_later_rejection t = str_eq t "DOCS_REJECTED" || (str_eq t "NOC_REJECTED" || str_eq t "CANCELLED")

unfoldable pub kind_of : String → StatusKind
kind_of t =
    if is_docs_review t
    then docs_review
    else if is_in_flight t
    then in_flight
    else if str_eq t "COMPLETED"
    then completed
    else if str_eq t "REJECTED"
    then stage_one_rejection
    else if is_later_rejection t
    then later_rejection
    else unknown

-- The columns that every report sets.
abbrev pub with_status : StatusPayload → Change → Change
with_status p c = record c {
  crm_status = some p.to_status;
  crm_status_updated_at = some p.occurred_at;
  crm_service_order_id = or_else (bind_truthy p.service_order_id) c.crm_service_order_id;
  crm_order_number = or_else (bind_truthy p.service_order_number) c.crm_order_number;
}

abbrev pub with_proceed : StatusPayload → Change → Change
with_proceed p c = record c {
  retention_decision = some proceed;
  retention_decided_at = some p.occurred_at;
}

abbrev pub with_quick_approval : ℕ → StatusPayload → Change → Change
with_quick_approval now p c = record c {
  quick_approval_decision = some quick_approved;
  quick_approval_decided_at = some p.occurred_at;
  quick_approval_decided_by = some p.changed_by;
  quick_approval_note = or_else (bind_truthy p.note) c.quick_approval_note;
  scheduled_termination_at =
      some (start_of_day_utc_plus_days now (get_or c.quick_requested_days 1));
}

abbrev pub with_quick_rejection : StatusPayload → Change → Change
with_quick_rejection p c = record c {
  quick_approval_decision = some quick_rejected;
  quick_approval_decided_at = some p.occurred_at;
  quick_approval_decided_by = some p.changed_by;
  quick_approval_note = or_else (bind_truthy p.note) c.quick_approval_note;
}

-- `changeUpdate`
unfoldable pub status_row : ℕ → StatusPayload → StatusKind → Change → Change
status_row now p docs_review c =
    let r = with_proceed p (with_status p c) in
    if is_quick c.disconnection_mode then with_quick_approval now p r else r
status_row now p completed c =
    let r = with_status p c in record r { account_applied_at = some p.occurred_at }
status_row now p stage_one_rejection c =
    let r = with_status p c in if is_quick c.disconnection_mode then with_quick_rejection p r else r
status_row now p _ c = with_status p c

-- `accountUpdate`
unfoldable pub status_move : StatusKind → ContractStatus → Option ContractStatus
status_move docs_review st = some disconnecting
status_move in_flight st = if not (same_status st disconnecting) then some disconnecting else none
status_move completed st = some terminated
status_move stage_one_rejection st = some active
status_move later_rejection st = some active
status_move unknown st = none

move_account : ℕ → Option ContractStatus → Action (Unit {0})
move_account k none = pure tt
move_account k (some st) = update_account k (put_status st)

status_audit : StatusPayload → Change → Action (Unit {0})
status_audit p c = create_audit (
    change_audit c.id "CRM_STATUS_CHANGED" system_user_id (
      ("eventId", Json.ref p.event_id)
      ∷ ("fromStatus", json_or_null Json.text p.from_status)
      ∷ ("toStatus", Json.text p.to_status)
      ∷ ("changedBy", Json.text p.changed_by)
      ∷ ("note", json_or_null Json.text p.note)
      ∷ ("serviceOrderId", json_or_null Json.text p.service_order_id)
      ∷ ("serviceOrderNumber", json_or_null Json.text p.service_order_number)
      ∷ []))

apply_status : World → StatusPayload → Change → Account → Action (Unit {0})
unfolding move_account
apply_status w p c a = transaction (do
  update_change c.id (λ r. status_row w.now p (kind_of p.to_status) r)
  move_account c.account_id (status_move (kind_of p.to_status) a.contract_status))

-- A failure to apply is noted on the event and thrown again.
abbrev pub noting : ℕ → Action (Unit {0}) → Action (Unit {0})
noting k m s =
    let (r, s') = m s in
    elim r [
      | ok u ↦ (ok u, s')
      | err e ↦ (err e, (safe_update_status_reason k "Apply failed" s').1)
    ]

handle_status : World → StatusPayload → Option (Change × Account) → Action Ingested
unfolding apply_status status_audit
handle_status w p none = do
  safe_update_status_reason w.fresh_id "Unknown commercialChangeId"
  pure (not_found w.fresh_id)
handle_status w p (some (c, a)) = do
  noting w.fresh_id (apply_status w p c a)
  mark_processed w.fresh_id c.account_id
  status_audit p c
  pure (processed_event w.fresh_id c.account_id)

unfoldable pub ingest_commercial_change_status_changed : World → StatusPayload → Action Ingested
unfolding handle_status
ingest_commercial_change_status_changed w p = do
  r ← reserve w "commercialChange.statusChanged" p.event_id p.occurred_at
  elim r [
    | seen e ↦ pure (duplicate_event e.id none)
    | reserved k ↦
        (find_change_with_account p.commercial_change_id >>= λ found. handle_status w p found)
  ]
