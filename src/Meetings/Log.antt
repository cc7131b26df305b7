-- ===== src/Meetings/Log.antt =====
-- `log`, `markHeld` and `submitMom` of src/modules/meetings/meetings.service.ts.
pub mod Keeps
use isp_sam_backend.Prelude.{ℕ, String, Option, none, some, List, [], ◌∷◌}
use isp_sam_backend.Db.{
  ActionItem, MeetingType, Meeting, Account, Json, Action, pure, or_throw, transaction, ◌>>=◌, ◌>>◌,
  find_account, update_account, create_audit, account_not_found,
}
use isp_sam_backend.World.{World}
use isp_sam_backend.Notifications.Mom.{send_mom_to_customer}
use isp_sam_backend.Meetings.Table.{
  create_meeting, update_meeting, meeting_audit, count_items, put_meeting_date, put_mom_date,
}

pub record LogInput : Type 0 where
  pub account_id : ℕ
  pub scheduled_at : ℕ
  pub agenda : Option String
  pub meeting_type : MeetingType
  pub location : Option String
  pub client_participants : Option String
  pub gazon_participants : Option String
  pub action_items : Option (List ActionItem)
  pub performed_by_user_id : ℕ

abbrev pub logged_meeting : World → LogInput → Meeting
logged_meeting w i = record {
  id = w.fresh_id;
  account_id = i.account_id;
  scheduled_at = i.scheduled_at;
  held_at = none;
  agenda = i.agenda;
  mom_content = none;
  mom_sent_at = none;
  meeting_type = i.meeting_type;
  location = i.location;
  client_participants = i.client_participants;
  gazon_participants = i.gazon_participants;
  action_items = i.action_items;
  created_by = i.performed_by_user_id;
  created_at = w.now;
}

unfoldable pub log : World → LogInput → Action Meeting
log w i = do
  a ← (find_account i.account_id >>= λ found. or_throw found account_not_found)
  transaction (do
    m ← create_meeting (logged_meeting w i)
    create_audit (
        meeting_audit m.id "LOG" i.performed_by_user_id (
          ("accountId", Json.ref i.account_id)
          ∷ ("scheduledAt", Json.instant i.scheduled_at)
          ∷ ("meetingType", Json.meeting_type i.meeting_type)
          ∷ ("actionItemsCount", Json.num (count_items i.action_items))
          ∷ []))
    pure m)

pub record MarkHeldInput : Type 0 where
  pub meeting_id : ℕ
  pub held_at : ℕ
  pub performed_by_user_id : ℕ

unfoldable pub mark_held : MarkHeldInput → Action Meeting
mark_held i = transaction (do
  m ← update_meeting i.meeting_id (λ r. record r { held_at = some i.held_at })
  update_account m.account_id (put_meeting_date i.held_at)
  create_audit
      (meeting_audit m.id "HELD" i.performed_by_user_id (("heldAt", Json.instant i.held_at) ∷ []))
  pure m)

pub record SubmitMomInput : Type 0 where
  pub meeting_id : ℕ
  pub mom_content : String
  pub sent_at : ℕ
  pub performed_by_user_id : ℕ

abbrev pub with_minutes : SubmitMomInput → Meeting → Meeting
with_minutes i m = record m { mom_content = some i.mom_content; mom_sent_at = some i.sent_at }

record_minutes : SubmitMomInput → Action Meeting
record_minutes i = transaction (do
  m ← update_meeting i.meeting_id (with_minutes i)
  update_account m.account_id (put_mom_date i.sent_at)
  create_audit (
      meeting_audit m.id "MOM_SENT" i.performed_by_user_id
        (("momSentAt", Json.instant i.sent_at) ∷ []))
  pure m)

mail_minutes : World → SubmitMomInput → Meeting → Option Account → Action (Unit {0})
mail_minutes w i m none = pure tt
mail_minutes w i m (some a) = do
  send_mom_to_customer w (record {
    meeting_id = m.id;
    account = a;
    performed_by = i.performed_by_user_id;
    to_override = none;
    cc_override = none;
  })
  pure tt

-- The email goes out after the transaction and does not decide the result.
unfoldable pub submit_mom : World → SubmitMomInput → Action Meeting
unfolding record_minutes mail_minutes
submit_mom w i = do
  m ← record_minutes i
  a ← find_account m.account_id
  mail_minutes w i m a
  pure m
