-- ===== src/Integrations/Quick/Keeps.antt =====
-- The decision webhook keeps the store consistent
-- (src/modules/integrations/integrations.service.ts).
use isp_sam_backend.Prelude.{String, Option, none, some, refl, arith, not}
use isp_sam_backend.Db.{Account, Change, is_quick, is_consistent}
use isp_sam_backend.Db.Keeps.{
  Keeps, IsFaithful, Keeps-bind, Keeps-then, Keeps-pure, Keeps-if_at, Keeps-create_audit,
  Keeps-find_change_with_account, keeps_rules,
}
use isp_sam_backend.World.{World}
use isp_sam_backend.Changes.Orders.{OrderSummary}
use isp_sam_backend.Changes.Retention.Keeps.{link_order-IsFaithful}
use isp_sam_backend.Integrations.Events.{duplicate_event}
use isp_sam_backend.Integrations.Keeps.{Keeps-ingest, Keeps-mark_processed, Keeps-reason}
use isp_sam_backend.Integrations.Status.Keeps.{Keeps-noting}
use isp_sam_backend.Integrations.Quick.{
  CrmDecision, approve, reject, DecisionPayload, crm_approved, crm_rejected, apply_decision,
  decision_audit, settle_decision, refuse_decision, handle_decision,
  ingest_quick_disconnect_decision,
}

module _ (w : World) (p : DecisionPayload) where
  crm_approved-IsFaithful : (o : OrderSummary) → IsFaithful (crm_approved w p o)
  unfolding is_consistent
  crm_approved-IsFaithful o =
      link_order-IsFaithful p.occurred_at o _
        (record { same_id = λ c. refl; same_account = λ c. refl; consistent = λ c h. ground arith })

  crm_rejected-IsFaithful : IsFaithful (crm_rejected p)
  unfolding is_consistent
  crm_rejected-IsFaithful = record {
    same_id = λ c. refl;
    same_account = λ c. refl;
    consistent = λ c h. ground arith;
  }

  Keeps-apply_decision :
      (c : Change) (a : Account) (d : CrmDecision) → Keeps (apply_decision w p c a d)
  unfolding apply_decision
  Keeps-apply_decision c a approve = search (keeps_rules, crm_approved-IsFaithful) depth 9
  Keeps-apply_decision c a reject = search (keeps_rules, crm_rejected-IsFaithful) depth 9

  Keeps-decision_audit : (c : Change) (a : Account) → Keeps (decision_audit w p c a)
  unfolding decision_audit
  Keeps-decision_audit c a = Keeps-create_audit _

  Keeps-settle_decision : (c : Change) (a : Account) → Keeps (settle_decision w p c a)
  unfolding settle_decision
  Keeps-settle_decision c a =
      Keeps-then _ _ (Keeps-noting w.fresh_id _ (Keeps-apply_decision c a p.decision)) (
        Keeps-then _ _ (Keeps-mark_processed w.fresh_id c.account_id)
          (Keeps-then _ _ (Keeps-decision_audit c a) (Keeps-pure _)))

  Keeps-refuse_decision : (reason : String) → Keeps (refuse_decision w reason)
  unfolding refuse_decision
  Keeps-refuse_decision reason = Keeps-then _ _ (Keeps-reason w.fresh_id reason) (Keeps-pure _)

  Keeps-handle_decision : (o : Option (Change × Account)) → Keeps (handle_decision w p o)
  unfolding handle_decision
  Keeps-handle_decision none = Keeps-refuse_decision "Unknown commercialChangeId"
  Keeps-handle_decision (some (c, a)) =
      Keeps-if_at (not (is_quick c.disconnection_mode)) _ _
        (Keeps-refuse_decision "not a QUICK disconnect") (Keeps-settle_decision c a)

  pub Keeps-ingest_decision : Keeps (ingest_quick_disconnect_decision w p)
  unfolding ingest_quick_disconnect_decision
  Keeps-ingest_decision =
      Keeps-ingest w "quickDisconnect.decided" p.event_id p.occurred_at _ _
        (λ e. Keeps-pure (duplicate_event e.id none))
        (λ k.
          Keeps-bind _ _ (Keeps-find_change_with_account p.commercial_change_id)
            Keeps-handle_decision)
