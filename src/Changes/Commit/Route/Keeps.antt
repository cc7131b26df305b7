-- ===== src/Changes/Commit/Route/Keeps.antt =====
-- The routes of a new change keep the store consistent
-- (src/modules/commercial-changes/commercial-changes.service.ts).
use isp_sam_backend.Prelude.{ℕ, String, refl, arith, not}
use isp_sam_backend.Text.{bind_truthy}
use isp_sam_backend.Db.{Change, Account, User, Error, ok, err, Result, is_consistent, Action, pure}
use isp_sam_backend.Db.Keeps.{
  IsFaithful, Keeps, Keeps-if_at, Keeps-option_at, Keeps-pure, keeps_rules,
}
use isp_sam_backend.World.{World, ServiceOrder, CrmReply, answer, http_error, other_error}
use isp_sam_backend.Approvals.Chain.{
  PendingStage, at_sam_head, at_accounts, at_super_admin_2, status_of,
}
use isp_sam_backend.Changes.Apply.Keeps.{Keeps-apply_change_to_account}
use isp_sam_backend.Changes.Retention.Keeps.{Keeps-enter_probable_churn, Keeps-auto_retain}
use isp_sam_backend.Changes.Quick.Keeps.{Keeps-enter_pending_quick_approval, Keeps-notify}
use isp_sam_backend.Changes.Commit.Guards.{CommitInput}
use isp_sam_backend.Changes.Commit.Route.{
  disabled, enter_approval_chain, with_order, take_reply, raise_order, build_service_order_input,
  apply_locally, route_new_terms, request_quick, open_window, open_chain, route, retain_if_churning,
}

stage-IsFaithful :
    (st : PendingStage) → IsFaithful (λ r. record r { approval_status = status_of st })
unfolding is_consistent
stage-IsFaithful st = record {
  same_id = λ c. refl;
  same_account = λ c. refl;
  consistent = λ c h. elim st [
    | at_sam_head ↦ ground arith
    | at_accounts ↦ ground arith
    | at_super_admin_2 ↦ ground arith
  ];
}

with_order-IsFaithful : (now : ℕ) (o : ServiceOrder) → IsFaithful (with_order now o)
unfolding is_consistent
with_order-IsFaithful now o = record {
  same_id = λ c. refl;
  same_account = λ c. refl;
  consistent = λ c h. h;
}

Keeps-enter_chain : (k : ℕ) (st : PendingStage) → Keeps (enter_approval_chain k (status_of st))
unfolding enter_approval_chain
Keeps-enter_chain k st = search (keeps_rules, stage-IsFaithful) depth 9

Keeps-built :
    {A B : Type 0} (r : Result A) (f : Error → Action B) (g : A → Action B)
    → ((e : Error) → Keeps (f e))
    → ((a : A) → Keeps (g a))
    → Keeps (elim r [ err e ↦ f e | ok a ↦ g a ])
Keeps-built (ok a) f g kf kg = kg a
Keeps-built (err e) f g kf kg = kf e

module _ (w : World) (i : CommitInput) (a : Account) (u : User) where
  Keeps-take_reply : (k : ℕ) (r : CrmReply ServiceOrder) → Keeps (take_reply w k r)
  unfolding take_reply
  Keeps-take_reply k (answer o) = search (keeps_rules, with_order-IsFaithful)
  Keeps-take_reply k (http_error c m) = search keeps_rules
  Keeps-take_reply k (other_error m) = search keeps_rules

  Keeps-raise_order : (customer : String) (c : Change) → Keeps (raise_order w i customer c)
  unfolding raise_order
  Keeps-raise_order customer c =
      Keeps-built (build_service_order_input w i customer c.id c.approval_file_url c.po_file_url) _
        _ (λ e. Keeps-pure _) (λ body. Keeps-take_reply c.id _)

  Keeps-locally : (c : Change) → Keeps (apply_locally w c)
  unfolding apply_locally
  Keeps-locally c = search (keeps_rules, Keeps-apply_change_to_account) depth 9

  Keeps-new_terms : (c : Change) → Keeps (route_new_terms w a i c)
  unfolding route_new_terms
  Keeps-new_terms c =
      Keeps-option_at (bind_truthy a.external_crm_id) _ _ (Keeps-locally c) (λ customer.
        Keeps-if_at (not w.crm_service_orders_enabled) (pure disabled) _ (Keeps-pure disabled)
          (Keeps-raise_order customer c))

  Keeps-quick : (c : Change) → Keeps (request_quick w a u c)
  unfolding request_quick
  Keeps-quick c = search (keeps_rules, Keeps-enter_pending_quick_approval, Keeps-notify) depth 9

  Keeps-window : (c : Change) → Keeps (open_window c)
  unfolding open_window
  Keeps-window c = search (keeps_rules, Keeps-enter_probable_churn) depth 9

  Keeps-chain : (c : Change) → Keeps (open_chain i c)
  unfolding open_chain
  Keeps-chain c = search (keeps_rules, Keeps-enter_chain) depth 9

  pub Keeps-route : (c : Change) → Keeps (route w a u i c)
  unfolding route
  Keeps-route c = search (Keeps-if_at, Keeps-chain, Keeps-new_terms, Keeps-quick, Keeps-window)

  pub Keeps-retain_if_churning : Keeps (retain_if_churning w a i)
  unfolding retain_if_churning
  Keeps-retain_if_churning = search (keeps_rules, Keeps-auto_retain)
