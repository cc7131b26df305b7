-- ===== src/Integrations/Activation/Keeps.antt =====
-- The activation webhook keeps the store consistent
-- (src/modules/integrations/integrations.service.ts).
use isp_sam_backend.Prelude.{ℕ, ◌||◌, is_some, arith, Bool-cases, Option-cases, inl, inr}
use isp_sam_backend.Accounts.Import.Write.{is_in_use}
use isp_sam_backend.Db.{Action, Result-cases, find_newest, put, add}
use isp_sam_backend.Db.Keeps.{Keeps, moved, Keeps-pure, keeps_rules}
use isp_sam_backend.World.{World}
use isp_sam_backend.Notifications.Keeps.{Keeps-customer_activated_alert}
use isp_sam_backend.Integrations.Events.{duplicate_event}
use isp_sam_backend.Integrations.Keeps.{
  with_accounts-IsConsistent, Keeps-ingest, Keeps-mark_processed, Keeps-reason,
}
use isp_sam_backend.Integrations.Activation.{
  CustomerPayload, has_crm_id, created_account, refreshed_account, upsert_account, describing,
  describe_ingest_error, activate, ingest_customer_activated,
}

module _ (w : World) (p : CustomerPayload) where
  Keeps-upsert_account : (arc : ℕ) → Keeps (upsert_account w p arc)
  unfolding upsert_account
  Keeps-upsert_account arc = record {
    at = λ s h. elim (Option-cases (find_newest (has_crm_id p.external_id) s.accounts)) [
      | inl e ↦
          let a = created_account w p arc in
          elim (Bool-cases (is_some (s.accounts.row a.id) || is_in_use a.id a s)) [
            | inl taken ↦ moved h (ground arith)
            | inr free ↦
                moved (with_accounts-IsConsistent s (add a.id a s.accounts) (λ k q. ground arith) h)
                  (ground arith)
          ]
      | inr (old, e) ↦
          let a = refreshed_account p arc old in
          elim (Bool-cases (is_in_use a.id a s)) [
            | inl taken ↦ moved h (ground arith)
            | inr free ↦
                moved (with_accounts-IsConsistent s (put a.id a s.accounts) (λ k q. ground arith) h)
                  (ground arith)
          ]
    ];
  }

  Keeps-describing : (m : Action ℕ) → Keeps m → Keeps (describing w p m)
  unfolding describing
  Keeps-describing m km = record {
    at = λ s h. elim (Result-cases (m s).0) [
      | inl (k, e) ↦ moved (km.at s h) (ground arith)
      | inr (e, q) ↦
          moved
            ((Keeps-reason w.fresh_id (describe_ingest_error w p (m s).1)).at (m s).1 (km.at s h))
            (ground arith)
    ];
  }

  Keeps-activate : Keeps (activate w p)
  unfolding activate
  Keeps-activate =
      search
        (
          keeps_rules, Keeps-describing, Keeps-upsert_account, Keeps-mark_processed,
          Keeps-customer_activated_alert,
        )
        depth 9

  pub Keeps-ingest_activated : Keeps (ingest_customer_activated w p)
  unfolding ingest_customer_activated
  Keeps-ingest_activated =
      Keeps-ingest w "customer.activated" p.event_id p.occurred_at _ _
        (λ e. Keeps-pure (duplicate_event e.id e.account_id)) (λ k. Keeps-activate)
