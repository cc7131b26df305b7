-- ===== src/Changes/Quick.antt =====
-- Quick disconnections (src/modules/commercial-changes/commercial-changes.service.ts):
-- `enterPendingQuickApproval`, `notifyCrmQuickDisconnectRequested`, `listPendingSamQuickApprovals`
-- and `samQuickDecision`.
pub mod Laws
pub mod Keeps
use isp_sam_backend.Prelude.{
  ℕ, String, Bool, false, true, not, ◌&&◌, Option, none, some, List, [], ◌∷◌, ◌++◌, if◌then◌else◌,
  is_some, get_or,
}
use isp_sam_backend.Text.{trim, truthy, bind_truthy}
use isp_sam_backend.Db.{
  UserRole, active, disconnecting, pending_quick_approval, retain, proceed, quick_approved,
  quick_rejected, same_status, ContractStatus, Account, Change, User, is_disconnection, is_quick,
  is_base, is_not_required, Json, json_or_null, AuditEntry, Store, err, Action, pure, gets,
  or_throw, transaction, ◌>>=◌, ◌>>◌, throw_if, find_change, find_change_with_account, set_account,
  update_account, update_change, create_audit, find_many, change_not_found, not_a_quick_disconnect,
  out_of_scope, already_decided, new_base_not_local, record_not_found,
}
use isp_sam_backend.Dates.{start_of_day_utc, add_days}
use isp_sam_backend.Scope.{Requester, quick_approval_account_scope, in_scope}
use isp_sam_backend.World.{World, PushResult}
use isp_sam_backend.Changes.Retention.{put_status, change_audit}

unfoldable pub enter_pending_quick_approval : ℕ → Action (Unit {0})
enter_pending_quick_approval k = transaction (do
  c ← (find_change k >>= λ found. or_throw found change_not_found)
  update_account c.account_id (put_status pending_quick_approval)
  create_audit (
      change_audit k "QUICK_DISCONNECT_REQUESTED" c.created_by (
        ("accountId", Json.ref c.account_id)
        ∷ ("quickRequestedDays", json_or_null Json.num c.quick_requested_days)
        ∷ ("quickApprovalReason", json_or_null Json.text c.quick_approval_reason)
        ∷ [])))

abbrev push_payload : PushResult → List (String × Json)
push_payload r =
    if r.ok
    then ("outcome", Json.text "SENT")
      ∷ ("eventId", Json.text r.event_id)
      ∷ ("status", Json.num r.status)
      ∷ ("deduped", Json.bool (get_or r.deduped false))
      ∷ []
    else ("outcome", Json.text "FAILED")
      ∷ ("eventId", Json.text r.event_id)
      ∷ ("status", Json.num r.status)
      ∷ ("error", Json.text r.error)
      ∷ ("retriable", Json.bool r.retriable)
      ∷ []

-- An account without a CRM id has no lead to push against.
unfoldable pub notify_crm_quick_disconnect_requested :
    World → Change → Account → User → Action (Unit {0})
notify_crm_quick_disconnect_requested w c a u = elim (bind_truthy a.external_crm_id) [
  | none ↦ create_audit (
      change_audit c.id "NOTIFY_CRM_QUICK_DISCONNECT_REQUESTED" u.id (
        ("outcome", Json.text "SKIPPED")
        ∷ (
          "detail",
          Json.text "Account has no externalCrmId (Excel-imported) — no CRM lead to push against.",
        )
        ∷ []))
  | some lead ↦ create_audit (
      change_audit c.id "NOTIFY_CRM_QUICK_DISCONNECT_REQUESTED" u.id (
        push_payload (
          w.push_quick_disconnect_request (record {
            commercial_change_id = c.id;
            external_crm_id = lead;
            raised_by_id = u.id;
            raised_by_email = u.email;
            reason = get_or c.quick_approval_reason "(no reason provided)";
            disconnection_category_id = get_or c.disconnection_category_id "";
            disconnection_sub_category_id = get_or c.disconnection_sub_category_id "";
            requested_arc = a.current_arc;
            requested_plan_name = a.current_plan;
            requested_bandwidth = c.new_bandwidth_mbps;
            requested_days = c.quick_requested_days;
          }))))
]

abbrev on_account : (Account → Bool) → Store → Change → Bool
on_account p s c = elim (s.accounts.row c.account_id) [ none ↦ false | some a ↦ p a ]

-- The legacy queue: undecided quick disconnections of BASE accounts outside the approval chain.
unfoldable pub in_quick_queue : Requester → Store → Change → Bool
in_quick_queue r s c =
    is_disconnection c.change_type
    && (is_quick c.disconnection_mode
        && (not (is_some c.quick_approval_decision)
            && (is_not_required c.approval_status
                && on_account
                    (λ a.
                      is_base a.kitty_type
                      && in_scope (quick_approval_account_scope r s) a.sam_owner_id)
                    s c)))

unfoldable pub list_pending_sam_quick_approvals : Requester → Store → List Change
unfolding in_quick_queue
list_pending_sam_quick_approvals r s = find_many (in_quick_queue r s) s.changes

pub data QuickAction : Type 0 where
  approve reject : QuickAction

-- The options of `samQuickDecision`.
pub record QuickInput : Type 0 where
  pub commercial_change_id : ℕ
  pub decision : QuickAction
  pub note : Option String
  pub performed_by_user_id : ℕ
  pub requester_role : UserRole
  pub ip_address : Option String
  pub user_agent : Option String
  -- The decider's id as text, for `quick_approval_decided_by`.
  pub decided_by : String

-- `note?.trim() || null`
abbrev pub trimmed : Option String → Option String
trimmed none = none
trimmed (some s) = truthy (trim s)

abbrev quick_audit : QuickInput → Change → String → List (String × Json) → AuditEntry
quick_audit o c action more = record {
  entity_type = "CommercialChange";
  entity_id = c.id;
  action = action;
  performed_by = some o.performed_by_user_id;
  ip_address = o.ip_address;
  user_agent = o.user_agent;
  payload =
      ("source", Json.text "SAM_LOCAL")
      ∷ ("decidedBy", Json.text o.decided_by)
      ∷ ("note", json_or_null Json.text (trimmed o.note))
      ∷ more;
}

abbrev quick_days : Change → ℕ
quick_days c = get_or c.quick_requested_days 1

abbrev pub quick_approved_change : ℕ → QuickInput → Change → Change
quick_approved_change now o c = record c {
  quick_approval_decision = some quick_approved;
  quick_approval_decided_at = some now;
  quick_approval_decided_by = some o.decided_by;
  quick_approval_note = trimmed o.note;
  scheduled_termination_at = some (start_of_day_utc (add_days now (quick_days c)));
  retention_decision = some proceed;
  retention_decided_at = some now;
  crm_status = some "SAM_LOCAL_APPROVED";
  crm_status_updated_at = some now;
}

abbrev pub quick_rejected_change : ℕ → QuickInput → Change → Change
quick_rejected_change now o c = record c {
  quick_approval_decision = some quick_rejected;
  quick_approval_decided_at = some now;
  quick_approval_decided_by = some o.decided_by;
  quick_approval_note = trimmed o.note;
  retention_decision = some retain;
  retention_decided_at = some now;
  crm_status = some "SAM_LOCAL_REJECTED";
  crm_status_updated_at = some now;
}

approve_quick : ℕ → QuickInput → Change → Action (Unit {0})
approve_quick now o c = transaction (do
  update_change c.id (quick_approved_change now o)
  update_account c.account_id (put_status disconnecting)
  create_audit (
      quick_audit o c "QUICK_DISCONNECT_APPROVED" (
        ("quickRequestedDays", Json.num (quick_days c))
        ∷ ("scheduledTerminationAt", Json.day (start_of_day_utc (add_days now (quick_days c))))
        ∷ [])))

-- `account.update` under the guard that the account still waits for the decision.
abbrev reactivate : ℕ → Action (Unit {0})
reactivate k s = elim (s.accounts.row k) [
  | none ↦ (err record_not_found, s)
  | some a ↦
      if same_status a.contract_status pending_quick_approval
      then set_account k (put_status active a) s
      else (err record_not_found, s)
]

reject_quick : ℕ → QuickInput → Change → Action (Unit {0})
reject_quick now o c = transaction (do
  update_change c.id (quick_rejected_change now o)
  reactivate c.account_id
  create_audit (quick_audit o c "QUICK_DISCONNECT_REJECTED" []))

settle_quick : ℕ → QuickInput → Change → QuickAction → Action (Unit {0})
unfolding approve_quick reject_quick
settle_quick now o c approve = approve_quick now o c
settle_quick now o c reject = reject_quick now o c

unfoldable pub sam_quick_decision : ℕ → QuickInput → Action (Change × ContractStatus)
unfolding settle_quick
sam_quick_decision now o = do
  (c, a) ←
      (find_change_with_account o.commercial_change_id >>= λ found. or_throw found change_not_found)
  throw_if (not (is_disconnection c.change_type && is_quick c.disconnection_mode))
      not_a_quick_disconnect
  scope ← gets (
      quick_approval_account_scope
        (record { id = o.performed_by_user_id; role = o.requester_role }))
  throw_if (not (in_scope scope a.sam_owner_id)) out_of_scope
  throw_if (is_some c.quick_approval_decision) already_decided
  throw_if (not (is_base a.kitty_type)) new_base_not_local
  settle_quick now o c o.decision
  (c', a') ← (find_change_with_account c.id >>= λ found. or_throw found record_not_found)
  pure (c', a'.contract_status)
