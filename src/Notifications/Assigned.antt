-- ===== src/Notifications/Assigned.antt =====
-- `sendCustomerAssignedAlert` of src/services/email/notifications.service.ts: a new owner is told of
-- the customer.
use isp_sam_backend.Prelude.{ℕ, ◌≡◌, not, none, some, [], ◌∷◌, if◌then◌else◌, arith, inl, inr}
use isp_sam_backend.Text.{truthy}
use isp_sam_backend.Db.{User, Json, Store, Action, ok, Result-cases}
use isp_sam_backend.Db.Keeps.{Keeps, Keeps-if, Keeps-option}
use isp_sam_backend.World.{World}
use isp_sam_backend.Notifications.{
  AuditHead, AuditOutcome, was_skipped, misconfigured, finish, dispatch,
}
use isp_sam_backend.Notifications.Keeps.{Keeps-finish, Keeps-dispatch}

assigned_head : ℕ → User → ℕ → AuditHead
assigned_head account u by = record {
  entity_type = "Account";
  entity_id = account;
  action = "NOTIFY_CUSTOMER_ASSIGNED";
  performed_by = by;
  extra_payload = ("newOwnerId", Json.ref u.id) ∷ [];
}

-- The account, its new owner, and who assigned it.
unfoldable pub send_customer_assigned_alert : World → ℕ → User → ℕ → Action AuditOutcome
unfolding assigned_head finish dispatch
send_customer_assigned_alert w account u by =
    let h : AuditHead = assigned_head account u by in
    if not w.accounts_notifications_enabled
    then finish h was_skipped "ACCOUNTS_NOTIFICATIONS_ENABLED is not true"
    else elim (truthy u.email) [
      | none ↦ finish h misconfigured "New owner has no email address on record"
      | some to ↦ dispatch w h (record { to = to; cc = []; bcc = []; from = none; about = account })
    ]

module _ (w : World) (account : ℕ) (u : User) (by : ℕ) where
  pub Keeps-customer_assigned_alert : Keeps (send_customer_assigned_alert w account u by)
  unfolding send_customer_assigned_alert
  Keeps-customer_assigned_alert =
      Keeps-if (not w.accounts_notifications_enabled) _ _ (Keeps-finish _ _ _) (
        Keeps-option (truthy u.email) _ _ (Keeps-finish _ _ _) (λ to.
          Keeps-dispatch w (assigned_head account u by)
            (record { to = to; cc = []; bcc = []; from = none; about = account })))

  module _ (s : Store) where
    -- The alert never throws, and leaves the accounts alone.
    pub send_customer_assigned_alert-returns :
        (o : AuditOutcome) × ((send_customer_assigned_alert w account u by s).0 ≡ ok o)
    unfolding send_customer_assigned_alert
    send_customer_assigned_alert-returns =
        elim (Result-cases (send_customer_assigned_alert w account u by s).0) [
          | inl r ↦ r
          | inr (e, q) ↦ ground arith
        ]

    pub send_customer_assigned_alert-accounts :
        (send_customer_assigned_alert w account u by s).1.accounts ≡ s.accounts
    unfolding send_customer_assigned_alert
    send_customer_assigned_alert-accounts = ground arith
