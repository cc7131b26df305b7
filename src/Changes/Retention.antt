-- ===== src/Changes/Retention.antt =====
-- The 21-day retention window of src/modules/commercial-changes/commercial-changes.service.ts:
-- `enterProbableChurn`, `autoRetainPendingDisconnection` and `retentionDecision`.
pub mod Laws
pub mod Keeps
use isp_sam_backend.Prelude.{
  ℕ, String, Bool, false, true, not, ◌&&◌, Option, none, some, List, [], ◌∷◌, ltb, ◌==◌,
  if◌then◌else◌, is_some, get_or,
}
use isp_sam_backend.Db.{
  active, probable_churn, disconnecting, retain, proceed, RetentionDecision, ContractStatus,
  Account, Change, is_disconnection, Json, json_or_null, AuditEntry, Store, Action, pure, gets,
  or_throw, transaction, ◌>>=◌, ◌>>◌, throw_if, find_change, find_change_with_account,
  update_account, update_change, create_audit, find_newest, change_not_found, not_a_disconnection,
  retention_already_decided, window_not_elapsed, record_not_found,
}
use isp_sam_backend.Dates.{
  start_of_day_utc, add_days, probable_churn_window_days, disconnection_notice_days,
}
use isp_sam_backend.World.{World}
use isp_sam_backend.Changes.Orders.{OrderSummary, raise_disconnection_order, link_order}

abbrev pub put_status : ContractStatus → Account → Account
put_status st a = record a { contract_status = st }

-- An audit row about a change, with no request context.
abbrev pub change_audit : ℕ → String → ℕ → List (String × Json) → AuditEntry
change_audit k action by payload = record {
  entity_type = "CommercialChange";
  entity_id = k;
  action = action;
  performed_by = some by;
  ip_address = none;
  user_agent = none;
  payload = payload;
}

unfoldable pub enter_probable_churn : ℕ → Option ℕ → Action (Unit {0})
enter_probable_churn k anchor = transaction (do
  c ← (find_change k >>= λ found. or_throw found change_not_found)
  let prompt =
      add_days (start_of_day_utc (get_or anchor c.effective_date)) probable_churn_window_days
  update_change k (λ r. record r { retention_prompt_due_at = some prompt })
  update_account c.account_id (put_status probable_churn))

-- The pending disconnection of an account.
abbrev pub is_pending_disconnection : ℕ → Change → Bool
is_pending_disconnection account c =
    c.account_id == account
    && (is_disconnection c.change_type && not (is_some c.retention_decision))

abbrev decided : RetentionDecision → ℕ → Change → Change
decided d now c = record c { retention_decision = some d; retention_decided_at = some now }

retain_auto : ℕ → ℕ → ℕ → Option Change → Action (Unit {0})
retain_auto now account by none = pure tt
retain_auto now account by (some c) = transaction (do
  update_change c.id (decided retain now)
  update_account account (put_status active)
  create_audit (
      change_audit c.id "RETENTION_RETAINED_AUTO" by (
        ("accountId", Json.ref account)
        ∷ ("trigger", Json.text "non-disconnection-commit-on-probable-churn")
        ∷ [])))

unfoldable pub auto_retain_pending_disconnection : ℕ → ℕ → ℕ → Action (Unit {0})
unfolding retain_auto
auto_retain_pending_disconnection now account by = do
  found ← gets (λ s. find_newest (is_pending_disconnection account) s.changes)
  retain_auto now account by found

retain_change : ℕ → ℕ → ℕ → Change → ContractStatus → Action Change
retain_change now k by c previous = do
  transaction (do
    update_change k (decided retain now)
    update_account c.account_id (put_status active)
    create_audit (
        change_audit k "RETENTION_RETAINED" by
          (("accountId", Json.ref c.account_id) ∷ ("previousStatus", Json.status previous) ∷ [])))
  find_change k >>= λ found. or_throw found record_not_found

abbrev pub proceeded : ℕ → OrderSummary → Change → Change
proceeded now order c = link_order now order (record c {
  retention_decision = some proceed;
  retention_decided_at = some now;
  scheduled_termination_at = some (add_days (start_of_day_utc now) disconnection_notice_days);
})

proceed_change : World → ℕ → ℕ → Change → Account → Action Change
proceed_change w k by c a = do
  let order = raise_disconnection_order w c a.external_crm_id none
  transaction (do
    update_change k (proceeded w.now order)
    update_account c.account_id (put_status disconnecting)
    create_audit (
        change_audit k "RETENTION_PROCEEDED" by (
          ("accountId", Json.ref c.account_id)
          ∷ (
            "scheduledTerminationAt",
            Json.instant (add_days (start_of_day_utc w.now) disconnection_notice_days),
          )
          ∷ ("crmServiceOrderId", json_or_null Json.text order.crm_service_order_id)
          ∷ ("crmOrderNumber", json_or_null Json.text order.crm_order_number)
          ∷ ("crmStatus", json_or_null Json.text order.crm_status)
          ∷ ("crmError", json_or_null Json.text order.crm_error)
          ∷ [])))
  find_change k >>= λ found. or_throw found record_not_found

-- PROCEED before the prompt is due; a change without a prompt date passes.
abbrev pub too_early : ℕ → RetentionDecision → Change → Bool
too_early now proceed c = elim (c.retention_prompt_due_at) [
  | none ↦ false
  | some due ↦ ltb (start_of_day_utc now) due
]
too_early now retain c = false

settle : World → ℕ → ℕ → Change → Account → RetentionDecision → Action Change
unfolding retain_change proceed_change
settle w k by c a retain = retain_change w.now k by c a.contract_status
settle w k by c a proceed = proceed_change w k by c a

unfoldable pub retention_decision : World → ℕ → RetentionDecision → ℕ → Action Change
unfolding settle
retention_decision w k decision by = do
  (c, a) ← (find_change_with_account k >>= λ found. or_throw found change_not_found)
  throw_if (not (is_disconnection c.change_type)) not_a_disconnection
  throw_if (is_some c.retention_decision) retention_already_decided
  throw_if (too_early w.now decision c) window_not_elapsed
  settle w k by c a decision
