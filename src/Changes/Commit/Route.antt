-- ===== src/Changes/Commit/Route.antt =====
-- Where `commit` sends a new change: the approval chain, the retention window, the CRM's quick
-- queue, the account itself, or the CRM as a service order
-- (src/modules/commercial-changes/commercial-changes.service.ts).
pub mod Keeps
use isp_sam_backend.Prelude.{
  ℕ, ◌+◌, ◌/◌, String, not, ◌&&◌, Option, none, some, [], ◌∷◌, if◌then◌else◌, is_some,
}
use isp_sam_backend.Text.{bind_truthy}
use isp_sam_backend.Db.{
  probable_churn, pending_approval, ApprovalStatus, is_disconnection, is_base, same_status, Account,
  Change, User, Json, json_or_null, Action, Result, ok, err, pure, when, or_throw, transaction,
  ◌>>=◌, ◌>>◌, find_change, update_account, update_change, create_audit, change_not_found,
  categories_required,
}
use isp_sam_backend.World.{
  World, CreateServiceOrderInput, ServiceOrder, CrmReply, answer, http_error, other_error,
}
use isp_sam_backend.Approvals.Chain.{PendingStage, at_sam_head, at_accounts, status_of}
use isp_sam_backend.Changes.Apply.{apply_change_to_account}
use isp_sam_backend.Changes.Orders.{◌<>◌, sam_ref}
use isp_sam_backend.Changes.Retention.{
  put_status, change_audit, enter_probable_churn, auto_retain_pending_disconnection,
}
use isp_sam_backend.Changes.Quick.{
  enter_pending_quick_approval, notify_crm_quick_disconnect_requested,
}
use isp_sam_backend.Changes.Commit.Guards.{CommitInput, is_quick_request}

-- The `crm` part of `CommitResult`.
pub data CrmOutcome : Type 0 where
  order_raised : String → String → String → CrmOutcome
  call_failed : String → Option ℕ → CrmOutcome
  disabled local_only in_probable_churn pending_quick : CrmOutcome
  pending_chain : ApprovalStatus → CrmOutcome

-- `enterApprovalChain`
unfoldable pub enter_approval_chain : ℕ → ApprovalStatus → Action (Unit {0})
enter_approval_chain k initial = transaction (do
  c ← (find_change k >>= λ found. or_throw found change_not_found)
  update_change k (λ r. record r { approval_status = initial })
  update_account c.account_id (put_status pending_approval)
  create_audit (
      change_audit k "APPROVAL_REQUESTED" c.created_by (
        ("accountId", Json.ref c.account_id)
        ∷ ("changeType", Json.change_type c.change_type)
        ∷ ("disconnectionMode", json_or_null Json.mode c.disconnection_mode)
        ∷ ("stage", Json.stage initial)
        ∷ [])))

-- The stage at which a BASE change begins.
abbrev pub initial_stage : CommitInput → PendingStage
initial_stage i = if is_quick_request i then at_sam_head else at_accounts

-- `buildServiceOrderInput`. ARC goes out in whole rupees, rounded half up.
unfoldable pub build_service_order_input :
    World
    → CommitInput
    → String
    → ℕ
    → Option String
    → Option String
    → Result CreateServiceOrderInput
build_service_order_input w i customer k approval_url po_url =
    let disconnects = is_disconnection i.change_type in
    let note = sam_ref w k in
    let category = bind_truthy i.disconnection_category_id in
    let sub_category = bind_truthy i.disconnection_sub_category_id in
    if disconnects && not (is_some category && is_some sub_category)
    then err categories_required
    else ok (record {
      customer_id = customer;
      order_type = i.change_type;
      new_bandwidth = if disconnects then none else i.new_bandwidth_mbps;
      new_arc = if disconnects then none else some ((i.new_arc + 50) / 100);
      effective_date = if disconnects then none else some i.effective_date;
      mail_received_date = i.mail_received_date;
      notes = elim (bind_truthy i.notes) [
        | none ↦ some note
        | some n ↦ some (note <> (" | " <> n))
      ];
      approval_file_url = bind_truthy approval_url;
      po_file_url = bind_truthy po_url;
      disconnection_category_id = if disconnects then category else none;
      disconnection_sub_category_id = if disconnects then sub_category else none;
      disconnection_reason = if disconnects then bind_truthy i.disconnection_reason else none;
    })

-- The row of a change whose order the CRM took.
abbrev pub with_order : ℕ → ServiceOrder → Change → Change
with_order now o c = record c {
  crm_service_order_id = some o.id;
  crm_order_number = some o.order_number;
  crm_status = some o.status;
  crm_status_updated_at = some now;
}

take_reply : World → ℕ → CrmReply ServiceOrder → Action CrmOutcome
take_reply w k (answer o) = do
  update_change k (with_order w.now o)
  pure (order_raised o.id o.order_number o.status)
take_reply w k (http_error code message) = pure (call_failed message (some code))
take_reply w k (other_error message) = pure (call_failed message none)

-- Whatever fails on the way to the CRM is an outcome, never an error.
raise_order : World → CommitInput → String → Change → Action CrmOutcome
unfolding take_reply
raise_order w i customer c =
    elim (build_service_order_input w i customer c.id c.approval_file_url c.po_file_url) [
      | err e ↦ pure (
          call_failed
            "disconnectionCategoryId and disconnectionSubCategoryId are required for DISCONNECTION"
            none)
      | ok body ↦ take_reply w c.id (w.create_service_order body)
    ]

apply_locally : World → Change → Action CrmOutcome
apply_locally w c = do apply_change_to_account w.now c.id; pure local_only

-- A change on a NEW account that is no disconnection.
route_new_terms : World → Account → CommitInput → Change → Action CrmOutcome
unfolding raise_order apply_locally
route_new_terms w a i c s = elim (bind_truthy a.external_crm_id) [
  | none ↦ apply_locally w c s
  | some customer ↦
      if not w.crm_service_orders_enabled then (ok disabled, s) else raise_order w i customer c s
]

request_quick : World → Account → User → Change → Action CrmOutcome
request_quick w a u c = do
  enter_pending_quick_approval c.id
  notify_crm_quick_disconnect_requested w c a u
  pure pending_quick

open_window : Change → Action CrmOutcome
open_window c = do enter_probable_churn c.id none; pure in_probable_churn

open_chain : CommitInput → Change → Action CrmOutcome
open_chain i c = do
  enter_approval_chain c.id (status_of (initial_stage i))
  pure (pending_chain (status_of (initial_stage i)))

-- `a` is the account as `commit` read it at its start.
unfoldable pub route : World → Account → User → CommitInput → Change → Action CrmOutcome
unfolding route_new_terms request_quick open_window open_chain
route w a u i c s =
    if is_base a.kitty_type
    then open_chain i c s
    else if not (is_disconnection i.change_type)
    then route_new_terms w a i c s
    else if is_quick_request i
    then request_quick w a u c s
    else open_window c s

-- A change other than a disconnection on an account in the window keeps the customer.
unfoldable pub retain_if_churning : World → Account → CommitInput → Action (Unit {0})
retain_if_churning w a i =
    when (not (is_disconnection i.change_type) && same_status a.contract_status probable_churn)
      (auto_retain_pending_disconnection w.now i.account_id i.performed_by_user_id)
