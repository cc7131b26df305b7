-- ===== src/Notifications/Mom.antt =====
-- `sendMomToCustomer` of src/services/email/notifications.service.ts: the minutes of a meeting go to
-- the customer. What only the text of the message uses is left out of the input, and the reason and
-- the message id of the result, which the audit row holds too.
pub mod Keeps
use isp_sam_backend.Prelude.{
  ℕ, String, Bool, true, false, not, Option, none, some, List, [], ◌∷◌, ◌++◌, map, select,
  if◌then◌else◌, or_else, get_or, ◌≡◌, arith, inl, inr,
}
use isp_sam_backend.Text.{trim, truthy}
use isp_sam_backend.Db.{User, Account, Store, Action, gets, ◌>>=◌, ok, Result-cases}
use isp_sam_backend.World.{World, EmailMessage}
use isp_sam_backend.Notifications.{
  AuditHead, AuditOutcome, was_skipped, misconfigured, finish, dispatch, listed, distinct,
}

pub record MomInput : Type 0 where
  pub meeting_id : ℕ
  pub account : Account
  pub performed_by : ℕ
  pub to_override : Option String
  pub cc_override : Option (List String)

-- `isEventEnabled('NOTIFY_MOM_TO_CUSTOMER')`
abbrev pub is_mom_enabled : World → Bool
is_mom_enabled w = get_or w.notify_mom_to_customer_enabled w.accounts_notifications_enabled

-- `s?.trim()`, where an empty text counts as none.
abbrev trimmed : Option String → Option String
trimmed none = none
trimmed (some s) = truthy (trim s)

abbrev pub customer_email : MomInput → Option String
customer_email i = or_else (trimmed i.to_override) (trimmed i.account.email)

abbrev owning_sam : Option ℕ → Store → Option User
owning_sam none s = none
owning_sam (some k) s = s.users.row k

abbrev sam_email : Option User → Option String
sam_email none = none
sam_email (some u) = truthy u.email

abbrev head_email : Option User → Store → Option String
head_email none s = none
head_email (some u) s = elim (u.sam_head_id) [ none ↦ none | some h ↦ sam_email (s.users.row h) ]

-- `ss.map((s) => s.trim()).filter(Boolean)`
abbrev trimmed_list : List String → List String
trimmed_list [] = []
trimmed_list (x ∷ xs) = listed (truthy (trim x)) ++ trimmed_list xs

-- A list that the caller gives is taken as it is, an empty one too.
abbrev mom_cc : Option (List String) → Option String → Option String → List String
mom_cc (some given) head team = trimmed_list given
mom_cc none head team = listed head ++ listed (trimmed team)

abbrev pub mom_message : World → MomInput → String → Store → EmailMessage
mom_message w i to s =
    let u = owning_sam i.account.sam_owner_id s in
    record {
      to = to;
      cc = distinct [] (mom_cc i.cc_override (head_email u s) w.accounts_team_email);
      bcc = listed (sam_email u);
      from = sam_email u;
      about = i.meeting_id;
    }

mom_head : MomInput → AuditHead
mom_head i = record {
  entity_type = "Meeting";
  entity_id = i.meeting_id;
  action = "NOTIFY_MOM_TO_CUSTOMER";
  performed_by = i.performed_by;
  extra_payload = [];
}

send_mom_to : World → MomInput → String → Action AuditOutcome
unfolding dispatch mom_head
send_mom_to w i to = do m ← gets (mom_message w i to); dispatch w (mom_head i) m

unfoldable pub send_mom_to_customer : World → MomInput → Action AuditOutcome
unfolding finish mom_head send_mom_to
send_mom_to_customer w i =
    if not (is_mom_enabled w)
    then finish (mom_head i) was_skipped "NOTIFY_MOM_TO_CUSTOMER_ENABLED is not true"
    else elim (customer_email i) [
      | none ↦ finish (mom_head i) misconfigured "Account has no customer email on record"
      | some to ↦ send_mom_to w i to
    ]

module _ (w : World) (i : MomInput) (s : Store) where
  -- The email never throws, and writes nothing but audit rows.
  pub send_mom_to_customer-returns : (o : AuditOutcome) × ((send_mom_to_customer w i s).0 ≡ ok o)
  unfolding send_mom_to_customer
  send_mom_to_customer-returns = elim (Result-cases (send_mom_to_customer w i s).0) [
    | inl r ↦ r
    | inr (e, q) ↦ ground arith
  ]

  pub send_mom_to_customer-accounts : (send_mom_to_customer w i s).1.accounts ≡ s.accounts
  unfolding send_mom_to_customer
  send_mom_to_customer-accounts = ground arith

  pub send_mom_to_customer-meetings : (send_mom_to_customer w i s).1.meetings ≡ s.meetings
  unfolding send_mom_to_customer
  send_mom_to_customer-meetings = ground arith
