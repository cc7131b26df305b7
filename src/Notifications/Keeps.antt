-- ===== src/Notifications/Keeps.antt =====
-- The alerts keep the store consistent (src/services/email/notifications.service.ts).
use isp_sam_backend.Prelude.{ℕ, String, Option, refl, not, or_else, List, none, some, [], ◌∷◌}
use isp_sam_backend.Text.{bind_truthy}
use isp_sam_backend.Db.{Action, is_consistent}
use isp_sam_backend.Db.Keeps.{IsFaithful, Keeps, Keeps-option, Keeps-if, keeps_rules}
use isp_sam_backend.World.{World, EmailMessage, SendResult, sent, send_failed}
use isp_sam_backend.Notifications.{
  AuditHead, AuditOutcome, was_sent, was_skipped, misconfigured, was_failed, write_audit, finish,
  dispatch, stamp_if_sent, tell_owner, tell_heads, send_commercial_change_alert,
  CrmStatusChangeKind, send_crm_status_change_alert, send_customer_activated_alert,
}

pub Keeps-finish : (h : AuditHead) (o : AuditOutcome) (d : String) → Keeps (finish h o d)
unfolding finish write_audit
Keeps-finish h o d = search keeps_rules depth 9

Keeps-sending :
    (r : SendResult) (f g : String → Action AuditOutcome)
    → ((m : String) → Keeps (f m))
    → ((m : String) → Keeps (g m))
    → Keeps (elim r [ sent m ↦ f m | send_failed m ↦ g m ])
Keeps-sending (sent m) f g kf kg = kf m
Keeps-sending (send_failed m) f g kf kg = kg m

pub Keeps-dispatch : (w : World) (h : AuditHead) (m : EmailMessage) → Keeps (dispatch w h m)
unfolding dispatch
Keeps-dispatch w h m =
    Keeps-sending (w.send_email m) _ _ (λ t. Keeps-finish h _ _) (λ t. Keeps-finish h _ _)

stamped-IsFaithful : (now : ℕ) → IsFaithful (λ c. record c { accounts_notified_date = some now })
unfolding is_consistent
stamped-IsFaithful now = record {
  same_id = λ c. refl;
  same_account = λ c. refl;
  consistent = λ c h. h;
}

Keeps-stamp_if_sent : (now k : ℕ) (o : AuditOutcome) → Keeps (stamp_if_sent now k o)
Keeps-stamp_if_sent now k was_sent = search (keeps_rules, stamped-IsFaithful) depth 9
Keeps-stamp_if_sent now k was_skipped = search keeps_rules
Keeps-stamp_if_sent now k misconfigured = search keeps_rules
Keeps-stamp_if_sent now k was_failed = search keeps_rules

pub Keeps-commercial_change_alert :
    (w : World) (k : ℕ) (owner : Option ℕ) (by : ℕ)
    → Keeps (send_commercial_change_alert w k owner by)
unfolding send_commercial_change_alert
Keeps-commercial_change_alert w k owner by =
    Keeps-if (not w.accounts_notifications_enabled) _ _ (Keeps-finish _ _ _) (
      Keeps-option (bind_truthy (or_else w.sales_director_email w.accounts_team_email)) _ _
        (Keeps-finish _ _ _)
        (λ t. search (keeps_rules, Keeps-dispatch, Keeps-stamp_if_sent) depth 9))

Keeps-tell_owner :
    (w : World) (h : AuditHead) (kind : CrmStatusChangeKind) (k : ℕ) (owner : Option ℕ)
    (to : Option String)
    → Keeps (tell_owner w h kind k owner to)
unfolding tell_owner
Keeps-tell_owner w h kind k owner none = Keeps-finish h _ _
Keeps-tell_owner w h kind k owner (some a) = Keeps-dispatch w h _

Keeps-tell_heads :
    (w : World) (h : AuditHead) (k : ℕ) (heads : List String) → Keeps (tell_heads w h k heads)
unfolding tell_heads
Keeps-tell_heads w h k [] = Keeps-finish h _ _
Keeps-tell_heads w h k (x ∷ xs) = Keeps-dispatch w h _

pub Keeps-crm_status_change_alert :
    (w : World) (k : ℕ) (kind : CrmStatusChangeKind) (owner : Option ℕ) (by : ℕ)
    → Keeps (send_crm_status_change_alert w k kind owner by)
unfolding send_crm_status_change_alert
Keeps-crm_status_change_alert w k kind owner by =
    search (keeps_rules, Keeps-tell_owner, Keeps-finish, Keeps-dispatch) depth 9

pub Keeps-customer_activated_alert :
    (w : World) (account by : ℕ) → Keeps (send_customer_activated_alert w account by)
unfolding send_customer_activated_alert
Keeps-customer_activated_alert w account by =
    search (keeps_rules, Keeps-tell_heads, Keeps-finish, Keeps-dispatch) depth 9
