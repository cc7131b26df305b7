-- ===== src/Meetings/Mom.antt =====
-- `sendMomEmail` and `completeMeeting` of src/modules/meetings/meetings.service.ts: a meeting and its
-- minutes are recorded in one transaction, and the customer is told afterwards. The reason and the
-- message id of the result are those of the email.
pub mod Laws
pub mod Keeps
use isp_sam_backend.Prelude.{
  ℕ, String, Bool, true, Option, none, some, List, [], ◌∷◌, if◌then◌else◌, get_or, is_some, not,
}
use isp_sam_backend.Db.{
  ActionItem, MeetingType, Meeting, Account, Json, Store, Action, pure, gets, or_throw, transaction,
  ◌>>=◌, ◌>>◌, when, find_account, update_account, create_audit, account_not_found,
  meeting_not_found,
}
use isp_sam_backend.World.{World}
use isp_sam_backend.Notifications.{AuditOutcome, was_skipped}
use isp_sam_backend.Notifications.Mom.{send_mom_to_customer}
use isp_sam_backend.Meetings.Table.{
  create_meeting, update_meeting, meeting_audit, count_items, put_meeting_date, put_mom_date,
}

-- What the two calls have in common of their inputs.
pub record MomEmail : Type 0 where
  pub mom_content : String
  pub to_override : Option String
  pub cc_override : Option (List String)
  pub test_mode : Bool
  pub performed_by_user_id : ℕ

-- A test run tells no one.
tell_customer : World → MomEmail → Meeting → Account → Action AuditOutcome
tell_customer w i m a =
    if i.test_mode
    then (do
      create_audit (
          meeting_audit m.id "NOTIFY_MOM_TO_CUSTOMER" i.performed_by_user_id (
            ("outcome", Json.text "SKIPPED")
            ∷ ("detail", Json.text "testMode=true (no email dispatched)")
            ∷ []))
      pure was_skipped)
    else send_mom_to_customer w (record {
      meeting_id = m.id;
      account = a;
      performed_by = i.performed_by_user_id;
      to_override = i.to_override;
      cc_override = i.cc_override;
    })

pub record SendMomEmailInput : Type 0 where
  pub account_id : ℕ
  pub scheduled_at : ℕ
  pub meeting_type : MeetingType
  pub location : Option String
  pub agenda : Option String
  pub client_participants : Option String
  pub gazon_participants : Option String
  pub action_items : Option (List ActionItem)
  pub email : MomEmail

abbrev pub sent_meeting : World → SendMomEmailInput → Meeting
sent_meeting w i = record {
  id = w.fresh_id;
  account_id = i.account_id;
  scheduled_at = i.scheduled_at;
  held_at = some i.scheduled_at;
  agenda = i.agenda;
  mom_content = some i.email.mom_content;
  mom_sent_at = some w.now;
  meeting_type = i.meeting_type;
  location = i.location;
  client_participants = i.client_participants;
  gazon_participants = i.gazon_participants;
  action_items = i.action_items;
  created_by = i.email.performed_by_user_id;
  created_at = w.now;
}

held_audit : MomEmail → Meeting → ℕ → Action (Unit {0})
held_audit i m held =
    create_audit
      (meeting_audit m.id "HELD" i.performed_by_user_id (("heldAt", Json.instant held) ∷ []))

mom_audit : World → MomEmail → Meeting → Action (Unit {0})
mom_audit w i m =
    create_audit (
      meeting_audit m.id "MOM_SENT" i.performed_by_user_id (("momSentAt", Json.instant w.now) ∷ []))

record_sent : World → SendMomEmailInput → Action Meeting
unfolding held_audit mom_audit
record_sent w i = transaction (do
  m ← create_meeting (sent_meeting w i)
  update_account i.account_id (λ a. put_mom_date w.now (put_meeting_date i.scheduled_at a))
  create_audit (
      meeting_audit m.id "LOG" i.email.performed_by_user_id (
        ("accountId", Json.ref i.account_id)
        ∷ ("scheduledAt", Json.instant i.scheduled_at)
        ∷ ("meetingType", Json.meeting_type i.meeting_type)
        ∷ ("actionItemsCount", Json.num (count_items i.action_items))
        ∷ ("viaSendMomEmail", Json.bool true)
        ∷ []))
  held_audit i.email m i.scheduled_at
  mom_audit w i.email m
  pure m)

unfoldable pub send_mom_email : World → SendMomEmailInput → Action (Meeting × AuditOutcome)
unfolding record_sent tell_customer
send_mom_email w i = do
  a ← (find_account i.account_id >>= λ found. or_throw found account_not_found)
  m ← record_sent w i
  status ← tell_customer w i.email m a
  pure (m, status)

pub record CompleteMeetingInput : Type 0 where
  pub meeting_id : ℕ
  pub agenda : Option String
  pub client_participants : Option String
  pub gazon_participants : Option String
  pub action_items : Option (List ActionItem)
  pub email : MomEmail

-- The date of a meeting that was not marked as held is the scheduled one.
abbrev pub held_date : Meeting → ℕ
held_date m = get_or m.held_at m.scheduled_at

abbrev pub completed_meeting : World → CompleteMeetingInput → ℕ → Meeting → Meeting
completed_meeting w i held m = record m {
  agenda = i.agenda;
  client_participants = i.client_participants;
  gazon_participants = i.gazon_participants;
  action_items = i.action_items;
  held_at = some held;
  mom_content = some i.email.mom_content;
  mom_sent_at = some w.now;
}

record_completed : World → CompleteMeetingInput → Meeting → Action Meeting
unfolding held_audit mom_audit
record_completed w i existing = transaction (do
  m ← update_meeting i.meeting_id (completed_meeting w i (held_date existing))
  update_account m.account_id (λ a. put_mom_date w.now (put_meeting_date (held_date existing) a))
  when (not (is_some existing.held_at)) (held_audit i.email m (held_date existing))
  mom_audit w i.email m
  pure m)

-- A meeting with its account.
abbrev with_account : Option Meeting → (ℕ → Option Account) → Option (Meeting × Account)
with_account none accounts = none
with_account (some m) accounts = elim (accounts m.account_id) [ none ↦ none | some a ↦ some (m, a) ]

unfoldable pub complete_meeting : World → CompleteMeetingInput → Action (Meeting × AuditOutcome)
unfolding record_completed tell_customer
complete_meeting w i = do
  (existing, a) ←
      (gets (λ s. with_account (s.meetings.row i.meeting_id) s.accounts.row) >>= λ found.
      or_throw found meeting_not_found)
  m ← record_completed w i existing
  status ← tell_customer w i.email m a
  pure (m, status)
