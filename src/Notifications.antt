-- ===== src/Notifications.antt =====
-- src/services/email/notifications.service.ts: the alerts about commercial changes and activated
-- customers. They write audit rows and never throw. The subject and body of a message, which the
-- templates build, are not modelled.
pub mod Laws
pub mod Keeps
pub mod Mom
pub mod Assigned
use Prim.Native.String
use text.Mathlib.Text.{◌==◌ as str_eq}
use isp_sam_backend.Prelude.{
  ℕ, String, Bool, true, false, not, ◌&&◌, Option, none, some, List, [], ◌∷◌, ◌++◌, map, select,
  if◌then◌else◌, or_else,
}
use isp_sam_backend.Text.{truthy, bind_truthy}
use isp_sam_backend.Db.{
  UserRole, sam_head, same_role, User, Change, Account, Store, Json, AuditEntry, Action, pure, gets,
  ◌>>=◌, ◌>>◌, create_audit, update_change, find_many,
}
use isp_sam_backend.World.{World, EmailMessage, SendResult, sent, send_failed}

pub data AuditOutcome : Type 0 where
  was_sent was_skipped misconfigured was_failed : AuditOutcome

abbrev outcome_text : AuditOutcome → String
outcome_text was_sent = "SENT"
outcome_text was_skipped = "SKIPPED"
outcome_text misconfigured = "MISCONFIGURED"
outcome_text was_failed = "FAILED"

-- The row that an alert writes, but for its outcome.
pub record AuditHead : Type 0 where
  pub entity_type : String
  pub entity_id : ℕ
  pub action : String
  pub performed_by : ℕ
  pub extra_payload : List (String × Json)

write_audit : AuditHead → AuditOutcome → String → Action (Unit {0})
write_audit h outcome detail = create_audit (record {
  entity_type = h.entity_type;
  entity_id = h.entity_id;
  action = h.action;
  performed_by = some h.performed_by;
  ip_address = none;
  user_agent = none;
  payload =
      ("outcome", Json.text (outcome_text outcome))
      ∷ ("detail", Json.text detail)
      ∷ h.extra_payload;
})

-- Writes the outcome and returns it.
pub finish : AuditHead → AuditOutcome → String → Action AuditOutcome
unfolding write_audit
finish h outcome detail = do write_audit h outcome detail; pure outcome

pub dispatch : World → AuditHead → EmailMessage → Action AuditOutcome
unfolding finish
dispatch w h m = elim (w.send_email m) [
  | sent id ↦ finish h was_sent (String.◌++◌ "messageId=" id)
  | send_failed reason ↦ finish h was_failed reason
]

-- The email of the head of the account's SAM.
abbrev resolve_sam_head_email : Option ℕ → Store → Option String
resolve_sam_head_email none s = none
resolve_sam_head_email (some owner) s = elim (s.users.row owner) [
  | none ↦ none
  | some u ↦ elim (u.sam_head_id) [
    | none ↦ none
    | some h ↦ elim (s.users.row h) [ none ↦ none | some head ↦ some head.email ]
  ]
]

abbrev listed : Option String → List String
listed none = []
listed (some address) = address ∷ []

abbrev holds : String → List String → Bool
holds x [] = false
holds x (y ∷ ys) = if str_eq x y then true else holds x ys

-- `Array.from(new Set(xs))`
abbrev distinct : List String → List String → List String
distinct seen [] = []
distinct seen (x ∷ xs) =
    let later = distinct (x ∷ seen) xs in if holds x seen then distinct seen xs else x ∷ later

-- ACCOUNTS_TEAM_EMAIL gets a copy where SALES_DIRECTOR_EMAIL is another address.
abbrev accounts_cc : Option String → Option String → List String
accounts_cc (some director) (some team) = if str_eq team director then [] else team ∷ []
accounts_cc _ _ = []

abbrev cc_list : World → String → Option String → List String
cc_list w to head = distinct [] (
    select (λ a. not (str_eq a to))
      (w.accounts_team_cc_emails
        ++ (accounts_cc (bind_truthy w.sales_director_email) (bind_truthy w.accounts_team_email)
            ++ (listed (bind_truthy w.admin_notify_email) ++ listed (bind_truthy head)))))

abbrev stamp_if_sent : ℕ → ℕ → AuditOutcome → Action AuditOutcome
stamp_if_sent now k was_sent = do
  update_change k (λ c. record c { accounts_notified_date = some now })
  pure was_sent
stamp_if_sent now k outcome = pure was_failed

unfoldable pub send_commercial_change_alert : World → ℕ → Option ℕ → ℕ → Action AuditOutcome
unfolding finish dispatch
send_commercial_change_alert w k sam_owner performed_by =
    let h : AuditHead = record {
      entity_type = "CommercialChange";
      entity_id = k;
      action = "NOTIFY_ACCOUNTS_TEAM";
      performed_by = performed_by;
      extra_payload = [];
    } in
    if not w.accounts_notifications_enabled
    then finish h was_skipped "ACCOUNTS_NOTIFICATIONS_ENABLED is not true"
    else elim (bind_truthy (or_else w.sales_director_email w.accounts_team_email)) [
      | none ↦
          finish h misconfigured
            "Neither SALES_DIRECTOR_EMAIL nor ACCOUNTS_TEAM_EMAIL env var is set"
      | some to ↦ do
        head ← gets (resolve_sam_head_email sam_owner)
        outcome ←
            dispatch w h
              (record { to = to; cc = cc_list w to head; bcc = []; from = none; about = k })
        stamp_if_sent w.now k outcome
    ]

-- The two CRM statuses that the owner is told of.
pub data CrmStatusChangeKind : Type 0 where
  pending_sam_activation completed : CrmStatusChangeKind

abbrev kind_action : CrmStatusChangeKind → String
kind_action pending_sam_activation = "NOTIFY_CRM_PENDING_SAM_ACTIVATION"
kind_action completed = "NOTIFY_CRM_COMPLETED"

abbrev kind_cc : CrmStatusChangeKind → World → List String
kind_cc completed w = listed (bind_truthy w.accounts_team_email)
kind_cc pending_sam_activation w = []

abbrev owner_email : Option ℕ → Store → Option String
owner_email none s = none
owner_email (some u) s = elim (s.users.row u) [ none ↦ none | some o ↦ truthy o.email ]

abbrev no_owner_reason : Option ℕ → String
no_owner_reason none = "Account is unassigned — no SAM to notify"
no_owner_reason (some u) = "SAM owner has no email address on record"

tell_owner :
    World → AuditHead → CrmStatusChangeKind → ℕ → Option ℕ → Option String → Action AuditOutcome
unfolding finish dispatch
tell_owner w h kind k owner none = finish h misconfigured (no_owner_reason owner)
tell_owner w h kind k owner (some address) =
    dispatch w h (record { to = address; cc = kind_cc kind w; bcc = []; from = none; about = k })

unfoldable pub send_crm_status_change_alert :
    World → ℕ → CrmStatusChangeKind → Option ℕ → ℕ → Action AuditOutcome
unfolding finish tell_owner
send_crm_status_change_alert w k kind sam_owner performed_by =
    let h : AuditHead = record {
      entity_type = "CommercialChange";
      entity_id = k;
      action = kind_action kind;
      performed_by = performed_by;
      extra_payload = [];
    } in
    if not w.accounts_notifications_enabled
    then finish h was_skipped "ACCOUNTS_NOTIFICATIONS_ENABLED is not true"
    else do to ← gets (owner_email sam_owner); tell_owner w h kind k sam_owner to

abbrev head_emails : Store → List String
head_emails s =
    select (λ e. not (str_eq e ""))
      (map (λ u. u.email) (find_many (λ u. same_role u.role sam_head) s.users))

tell_heads : World → AuditHead → ℕ → List String → Action AuditOutcome
unfolding finish dispatch
tell_heads w h account [] = finish h misconfigured "No SAM_HEAD users to notify"
tell_heads w h account (to ∷ cc) =
    dispatch w h (record { to = to; cc = cc; bcc = []; from = none; about = account })

unfoldable pub send_customer_activated_alert : World → ℕ → ℕ → Action AuditOutcome
unfolding finish tell_heads
send_customer_activated_alert w account system_user =
    let h : AuditHead = record {
      entity_type = "Account";
      entity_id = account;
      action = "NOTIFY_CUSTOMER_ACTIVATED";
      performed_by = system_user;
      extra_payload = [];
    } in
    if not w.accounts_notifications_enabled
    then finish h was_skipped "ACCOUNTS_NOTIFICATIONS_ENABLED is not true"
    else do heads ← gets head_emails; tell_heads w h account heads
