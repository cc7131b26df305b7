-- ===== src/Changes/Crm.antt =====
-- `refreshCrmStatus`, `setActivationDate` and `getFileUrl` of
-- src/modules/commercial-changes/commercial-changes.service.ts.
pub mod Laws
pub mod Keeps
use text.Mathlib.Text.{◌==◌ as str_eq}
use isp_sam_backend.Prelude.{
  ℕ, String, Bool, true, false, not, ◌&&◌, ◌||◌, Option, none, some, List, [], ◌∷◌, ◌==◌,
  if◌then◌else◌, is_some, get_or,
}
use isp_sam_backend.Text.{bind_truthy}
use isp_sam_backend.Db.{
  sam, same_role, is_disconnection, Account, Change, Action, Error, crm_failure, err, ok, pure,
  throw, ◌>>=◌, ◌>>◌, or_throw, throw_if, when, find_change, find_change_with_account,
  update_change, change_not_found, no_crm_order, no_file, record_not_found,
}
use isp_sam_backend.World.{
  World, ServiceOrder, CrmReply, answer, http_error, other_error, FileKind, approval, po,
}
use isp_sam_backend.Scope.{Requester}
use isp_sam_backend.Notifications.{
  CrmStatusChangeKind, pending_sam_activation, completed, send_crm_status_change_alert,
}
use isp_sam_backend.Changes.Apply.{apply_change_to_account}

-- A CRM call that fails throws.
unfoldable pub of_reply : {A : Type 0} → CrmReply A → Action A
of_reply (answer a) = pure a
of_reply (http_error code message) = throw (crm_failure (some code) message)
of_reply (other_error message) = throw (crm_failure none message)

abbrev pub find_order : String → List ServiceOrder → Option ServiceOrder
find_order id [] = none
find_order id (o ∷ os) = let rest = find_order id os in if str_eq o.id id then some o else rest

-- The columns that a refresh sets.
abbrev pub refreshed : ℕ → ServiceOrder → Change → Change
refreshed now o c = record c {
  crm_status = some o.status;
  crm_status_updated_at = some now;
  activation_date = o.activation_date;
}

abbrev is_status : String → Option String → Bool
is_status t none = false
is_status t (some u) = str_eq t u

-- Whom a change of status is announced as; nothing for a status that stays.
abbrev alert_kind : Option String → String → Option CrmStatusChangeKind
alert_kind previous status =
    if is_status status previous
    then none
    else if str_eq status "PENDING_SAM_ACTIVATION"
    then some pending_sam_activation
    else if str_eq status "COMPLETED"
    then some completed
    else none

announce : World → ℕ → Change → Account → ServiceOrder → Action (Unit {0})
announce w k c a o s = elim (alert_kind c.crm_status o.status) [
  | none ↦ (ok tt, s)
  | some kind ↦
      (send_crm_status_change_alert w k kind a.sam_owner_id (get_or a.sam_owner_id 0) >> pure tt) s
]

-- COMPLETED is mirrored onto the account, but for a disconnection.
abbrev mirror_completed : World → ℕ → Change → Action Change
mirror_completed w k c s =
    if is_status "COMPLETED" c.crm_status
      && (not (is_some c.account_applied_at) && not (is_disconnection c.change_type))
    then apply_change_to_account w.now k s
    else (ok c, s)

pub refresh_with : World → ℕ → Change → Account → ServiceOrder → Action Change
refresh_with w k c a o = do
  update_change k (refreshed w.now o)
  announce w k c a o
  mirror_completed w k (refreshed w.now o c)

-- The order is looked for among those of the customer.
abbrev pub with_orders : World → ℕ → Change → Account → String → List ServiceOrder → Action Change
with_orders w k c a id orders s = elim (find_order id orders) [
  | none ↦ (ok c, s)
  | some o ↦ refresh_with w k c a o s
]

abbrev pub refresh_linked : World → ℕ → Change → Account → String → String → Action Change
refresh_linked w k c a id customer =
    of_reply (w.list_service_orders customer) >>= with_orders w k c a id

unfoldable pub refresh_crm_status : World → ℕ → Action Change
refresh_crm_status w k = do
  (c, a) ← (find_change_with_account k >>= λ found. or_throw found change_not_found)
  elim (bind_truthy c.crm_service_order_id) [
    | none ↦ pure c
    | some id ↦ elim (bind_truthy a.external_crm_id) [
      | none ↦ pure c
      | some customer ↦ refresh_linked w k c a id customer
    ]
  ]

abbrev pub activated : ℕ → ServiceOrder → ℕ → Change → Change
activated now o date c = record c {
  crm_status = some o.status;
  crm_status_updated_at = some now;
  activation_date = some date;
}

finish_activation : World → ℕ → Change → Action Change
finish_activation w k c s =
    if is_status "COMPLETED" c.crm_status && not (is_some c.account_applied_at)
    then apply_change_to_account w.now k s
    else (ok c, s)

unfoldable pub set_activation_date : World → ℕ → ℕ → Action Change
unfolding finish_activation of_reply
set_activation_date w k date = do
  c ← (find_change k >>= λ found. or_throw found change_not_found)
  id ← or_throw (bind_truthy c.crm_service_order_id) no_crm_order
  o ← of_reply (w.set_activation_date id date)
  update_change k (activated w.now o date)
  finish_activation w k (activated w.now o date c)

abbrev file_of : FileKind → Change → Option String
file_of approval c = c.approval_file_url
file_of po c = c.po_file_url

abbrev is_owner : ℕ → Option ℕ → Bool
is_owner user none = false
is_owner user (some o) = o == user

-- The URL and the account of a stored file.
unfoldable pub get_file_url : ℕ → FileKind → Requester → Action (String × ℕ)
get_file_url k kind r = do
  (c, a) ← (find_change_with_account k >>= λ found. or_throw found change_not_found)
  throw_if (same_role r.role sam && not (is_owner r.id a.sam_owner_id)) change_not_found
  url ← or_throw (bind_truthy (file_of kind c)) no_file
  pure (url, c.account_id)
