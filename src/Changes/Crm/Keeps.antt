-- ===== src/Changes/Crm/Keeps.antt =====
-- Refreshes from the CRM keep the store consistent
-- (src/modules/commercial-changes/commercial-changes.service.ts).
use isp_sam_backend.Prelude.{ℕ, String, List, refl}
use isp_sam_backend.Text.{bind_truthy}
use isp_sam_backend.Db.{Change, Account, change_not_found, is_consistent}
use isp_sam_backend.Db.Keeps.{
  IsFaithful, Keeps, Keeps-option, Keeps-option_at, Keeps-pure, Keeps-bind, Keeps-then,
  Keeps-or_throw, Keeps-find_change_with_account, keeps_rules,
}
use isp_sam_backend.World.{World, ServiceOrder, CrmReply, answer, http_error, other_error}
use isp_sam_backend.Notifications.Keeps.{Keeps-crm_status_change_alert}
use isp_sam_backend.Changes.Apply.Keeps.{Keeps-apply_change_to_account}
use isp_sam_backend.Changes.Crm.{
  of_reply, refreshed, announce, mirror_completed, alert_kind, refresh_with, with_orders,
  find_order, refresh_linked, refresh_crm_status, activated, finish_activation, set_activation_date,
}

Keeps-of_reply : {A : Type 0} (r : CrmReply A) → Keeps (of_reply r)
unfolding of_reply
Keeps-of_reply (answer a) = search keeps_rules
Keeps-of_reply (http_error c m) = search keeps_rules
Keeps-of_reply (other_error m) = search keeps_rules

refreshed-IsFaithful : (now : ℕ) (o : ServiceOrder) → IsFaithful (refreshed now o)
unfolding is_consistent
refreshed-IsFaithful now o = record {
  same_id = λ c. refl;
  same_account = λ c. refl;
  consistent = λ c h. h;
}

activated-IsFaithful : (now : ℕ) (o : ServiceOrder) (date : ℕ) → IsFaithful (activated now o date)
unfolding is_consistent
activated-IsFaithful now o date = record {
  same_id = λ c. refl;
  same_account = λ c. refl;
  consistent = λ c h. h;
}

module _ (w : World) (k : ℕ) where
  Keeps-announce : (c : Change) (a : Account) (o : ServiceOrder) → Keeps (announce w k c a o)
  unfolding announce
  Keeps-announce c a o =
      Keeps-option_at (alert_kind c.crm_status o.status) _ _ (Keeps-pure tt)
        (λ kind. Keeps-then _ _ (Keeps-crm_status_change_alert w k kind _ _) (Keeps-pure tt))

  Keeps-mirror : (c : Change) → Keeps (mirror_completed w k c)
  Keeps-mirror c = search (keeps_rules, Keeps-apply_change_to_account)

  Keeps-finish_activation : (c : Change) → Keeps (finish_activation w k c)
  unfolding finish_activation
  Keeps-finish_activation c = search (keeps_rules, Keeps-apply_change_to_account)

  Keeps-refresh_with :
      (c : Change) (a : Account) (o : ServiceOrder) → Keeps (refresh_with w k c a o)
  unfolding refresh_with
  Keeps-refresh_with c a o =
      search (keeps_rules, refreshed-IsFaithful, Keeps-announce, Keeps-mirror) depth 9

  Keeps-with_orders :
      (c : Change) (a : Account) (id : String) (orders : List ServiceOrder)
      → Keeps (with_orders w k c a id orders)
  Keeps-with_orders c a id orders =
      Keeps-option_at (find_order id orders) _ _ (Keeps-pure c) (Keeps-refresh_with c a)

  Keeps-refresh_linked :
      (c : Change) (a : Account) (id customer : String) → Keeps (refresh_linked w k c a id customer)
  Keeps-refresh_linked c a id customer =
      Keeps-bind _ _ (Keeps-of_reply _) (Keeps-with_orders c a id)

  pub Keeps-refresh_crm_status : Keeps (refresh_crm_status w k)
  unfolding refresh_crm_status
  Keeps-refresh_crm_status =
      Keeps-bind _ _
        (Keeps-bind _ _ (Keeps-find_change_with_account k)
          (λ found. Keeps-or_throw found change_not_found))
        (λ (c, a). Keeps-option (bind_truthy c.crm_service_order_id) _ _ (Keeps-pure c) (λ id.
          Keeps-option (bind_truthy a.external_crm_id) _ _ (Keeps-pure c)
            (λ customer. Keeps-refresh_linked c a id customer)))

  pub Keeps-set_activation_date : (date : ℕ) → Keeps (set_activation_date w k date)
  unfolding set_activation_date
  Keeps-set_activation_date date =
      search (keeps_rules, activated-IsFaithful, Keeps-of_reply, Keeps-finish_activation) depth 12
