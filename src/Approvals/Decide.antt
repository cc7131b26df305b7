-- ===== src/Approvals/Decide.antt =====
-- `decide` of src/modules/commercial-changes/approvals.service.ts and the functions that it calls.
-- `now` is the clock, read once in a call.
mod Authority
pub mod Outcome
pub mod Gate
pub mod Progress
pub mod Terms
pub mod Keeps
use isp_sam_backend.Prelude.{
  ℕ, String, Bool, true, false, not, ◌&&◌, Option, none, some, List, [], ◌∷◌, ◌++◌, ltb,
  if◌then◌else◌, or_else, get_or,
}
use isp_sam_backend.Text.{trim, text_length, truthy}
use isp_sam_backend.Db.{
  UserRole, admin, approved, rejected, ContractStatus, active, probable_churn, disconnecting,
  pending_approval, proceed, Account, Change, is_disconnection, is_quick, same_role, same_status,
  Json, json_or_null, AuditEntry, Action, pure, gets, or_throw, transaction, ◌>>=◌, ◌>>◌, throw_if,
  find_change_with_account, set_account, update_account, update_change, create_audit,
  change_not_found, not_pending, wrong_stage, out_of_scope, rejection_reason_required,
  record_not_found, err,
}
use isp_sam_backend.Dates.{start_of_day_utc, add_days, probable_churn_window_days}
use isp_sam_backend.Scope.{quick_approval_account_scope, in_scope}
use isp_sam_backend.Approvals.Chain.{
  PendingStage, at_sam_head, status_of, pending_stage, stage_role, next_stage,
}

pub data Decision : Type 0 where
  approve reject : Decision

-- The options of `decide`.
pub record DecideInput : Type 0 where
  pub commercial_change_id : ℕ
  pub action : Decision
  pub reason : Option String
  pub performed_by_user_id : ℕ
  pub requester_role : UserRole
  pub ip_address : Option String
  pub user_agent : Option String
  pub material_recovered : Option Bool
  pub material_recovery_notes : Option String

-- An audit row of this service about change `c`.
abbrev audit_of : DecideInput → Change → String → List (String × Json) → AuditEntry
audit_of o c action payload = record {
  entity_type = "CommercialChange";
  entity_id = c.id;
  action = action;
  performed_by = some o.performed_by_user_id;
  ip_address = o.ip_address;
  user_agent = o.user_agent;
  payload = payload;
}

-- The row as it stands after the decision, with the contract status of its account.
reload : ℕ → Action (Change × ContractStatus)
reload k = do
  (c, a) ← (find_change_with_account k >>= λ found. or_throw found record_not_found)
  pure (c, a.contract_status)

-- The stage PENDING_SAM_HEAD is scoped to the head's team; no other stage is.
abbrev needs_scope : PendingStage → Bool
needs_scope at_sam_head = true
needs_scope _ = false

unfoldable pub assert_can_act : PendingStage → Option ℕ → UserRole → ℕ → Action (Unit {0})
assert_can_act stage owner role user = if same_role role admin then pure tt else do
  throw_if (not (same_role role (stage_role stage))) wrong_stage
  scope ← gets (quick_approval_account_scope (record { id = user; role = role }))
  throw_if (needs_scope stage && not (in_scope scope owner)) out_of_scope

-- `note?.trim() || null`
abbrev pub trimmed : Option String → Option String
trimmed none = none
trimmed (some s) = truthy (trim s)

abbrev pub mark_approved : ℕ → DecideInput → Change → Change
mark_approved now o c = record c {
  approval_status = approved;
  approved_by = some o.performed_by_user_id;
  approved_at = some now;
}

-- The row of an approved non-disconnection.
abbrev pub approved_change : ℕ → DecideInput → Change → Change
approved_change now o c =
    let m = mark_approved now o c in record m { account_applied_at = some now }

-- `materialFields`
abbrev pub material_fields : DecideInput → Change → Change
material_fields o c = record c {
  material_recovered = o.material_recovered;
  material_recovery_notes = trimmed o.material_recovery_notes;
}

-- The row of an approved quick disconnection.
abbrev pub approved_quick : ℕ → DecideInput → Change → Change
approved_quick now o c =
    let m = material_fields o (mark_approved now o c) in
    record m {
      scheduled_termination_at =
          some (start_of_day_utc (add_days now (get_or c.quick_requested_days 1)));
      retention_decision = some proceed;
      retention_decided_at = some now;
    }

-- The row of an approved normal disconnection.
abbrev pub approved_normal : ℕ → DecideInput → Change → Change
approved_normal now o c =
    let m = material_fields o (mark_approved now o c) in
    record m {
      retention_prompt_due_at = some (add_days (start_of_day_utc now) probable_churn_window_days);
    }

-- `auditPayload`, with what its caller appends.
abbrev approval_payload :
    PendingStage → DecideInput → Change → List (String × Json) → List (String × Json)
approval_payload stage o c more =
    ("from", Json.stage (status_of stage))
    ∷ ("changeType", Json.change_type c.change_type)
    ∷ ("accountId", Json.ref c.account_id)
    ∷ ("disconnectionMode", json_or_null Json.mode c.disconnection_mode)
    ∷ ((if is_disconnection c.change_type
          then ("materialRecovered", json_or_null Json.bool o.material_recovered) ∷ []
          else [])
        ++ more)

abbrev pub set_status : ContractStatus → Account → Account
set_status st a = record a { contract_status = st }

-- The account of an approved non-disconnection.
abbrev pub apply_new_terms : Change → Account → Account
apply_new_terms c a = record a {
  current_arc = c.new_arc;
  bandwidth_mbps = or_else c.new_bandwidth_mbps a.bandwidth_mbps;
  contract_status = active;
}

approve_new_terms : ℕ → PendingStage → DecideInput → Change → Action (Unit {0})
approve_new_terms now stage o c = transaction (do
  update_change c.id (approved_change now o)
  update_account c.account_id (apply_new_terms c)
  create_audit (audit_of o c "APPROVAL_APPROVED" (approval_payload stage o c [])))

approve_quick_disconnection : ℕ → PendingStage → DecideInput → Change → Action (Unit {0})
approve_quick_disconnection now stage o c = transaction (do
  update_change c.id (approved_quick now o)
  update_account c.account_id (set_status disconnecting)
  let due = start_of_day_utc (add_days now (get_or c.quick_requested_days 1))
  create_audit (
      audit_of o c "APPROVAL_APPROVED"
        (approval_payload stage o c (("scheduledTerminationAt", Json.day due) ∷ []))))

approve_normal_disconnection : ℕ → PendingStage → DecideInput → Change → Action (Unit {0})
approve_normal_disconnection now stage o c = transaction (do
  update_change c.id (approved_normal now o)
  update_account c.account_id (set_status probable_churn)
  let prompt = add_days (start_of_day_utc now) probable_churn_window_days
  create_audit (
      audit_of o c "APPROVAL_APPROVED"
        (approval_payload stage o c (("retentionPromptDueAt", Json.day prompt) ∷ []))))

apply_terminal_approval : ℕ → PendingStage → DecideInput → Change → Action (Unit {0})
unfolding approve_new_terms approve_quick_disconnection approve_normal_disconnection
apply_terminal_approval now stage o c =
    if not (is_disconnection c.change_type)
    then approve_new_terms now stage o c
    else if is_quick c.disconnection_mode
    then approve_quick_disconnection now stage o c
    else approve_normal_disconnection now stage o c

-- An approval that is not the last one signs the stage off and touches no account.
advance : PendingStage → PendingStage → DecideInput → Change → Action (Unit {0})
advance stage next o c = transaction (do
  update_change c.id (λ r. record r { approval_status = status_of next })
  create_audit (
      audit_of o c "APPROVAL_ADVANCED" (
        ("from", Json.stage (status_of stage))
        ∷ ("to", Json.stage (status_of next))
        ∷ ("accountId", Json.ref c.account_id)
        ∷ [])))

approve_change : ℕ → PendingStage → DecideInput → Change → Action (Change × ContractStatus)
unfolding apply_terminal_approval advance reload
approve_change now stage o c = do
  elim (next_stage stage (is_disconnection c.change_type)) [
    | some next ↦ advance stage next o c
    | none ↦ apply_terminal_approval now stage o c
  ]
  reload c.id

-- `account.update` under the guard that the account is still PENDING_APPROVAL.
abbrev restore_account : ℕ → Action (Unit {0})
restore_account k s = elim (s.accounts.row k) [
  | none ↦ (err record_not_found, s)
  | some a ↦
      if same_status a.contract_status pending_approval
      then set_account k (set_status active a) s
      else (err record_not_found, s)
]

abbrev pub rejected_change : ℕ → DecideInput → String → Change → Change
rejected_change now o reason c = record c {
  approval_status = rejected;
  rejection_reason = some reason;
  rejected_by = some o.performed_by_user_id;
  rejected_at = some now;
}

reject_change : ℕ → PendingStage → DecideInput → String → Change → Action (Change × ContractStatus)
unfolding reload
reject_change now stage o reason c = do
  transaction (do
    update_change c.id (rejected_change now o reason)
    restore_account c.account_id
    create_audit (
        audit_of o c "APPROVAL_REJECTED" (
          ("stage", Json.stage (status_of stage))
          ∷ ("reason", Json.text reason)
          ∷ ("accountId", Json.ref c.account_id)
          ∷ [])))
  reload c.id

-- The two branches of `decide` behind its authority check.
settle : ℕ → PendingStage → DecideInput → Change → Decision → Action (Change × ContractStatus)
unfolding approve_change reject_change
settle now stage o c reject = do
  let reason = trim (get_or o.reason "")
  throw_if (ltb (text_length reason) 3) rejection_reason_required
  reject_change now stage o reason c
settle now stage o c approve = approve_change now stage o c

unfoldable pub decide : ℕ → DecideInput → Action (Change × ContractStatus)
unfolding settle
decide now o = do
  (c, a) ←
      (find_change_with_account o.commercial_change_id >>= λ found. or_throw found change_not_found)
  stage ← or_throw (pending_stage c.approval_status) not_pending
  assert_can_act stage a.sam_owner_id o.requester_role o.performed_by_user_id
  settle now stage o c o.action
