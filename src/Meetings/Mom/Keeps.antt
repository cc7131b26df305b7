-- ===== src/Meetings/Mom/Keeps.antt =====
-- Meetings with their minutes keep the store consistent
-- (src/modules/meetings/meetings.service.ts).
use isp_sam_backend.Db.{Account, Meeting}
use isp_sam_backend.Db.Keeps.{Keeps, keeps_rules}
use isp_sam_backend.World.{World}
use isp_sam_backend.Notifications.Mom.Keeps.{Keeps-send_mom_to_customer}
use isp_sam_backend.Meetings.Keeps.{meeting_rules}
use isp_sam_backend.Meetings.Mom.{
  MomEmail, tell_customer, SendMomEmailInput, record_sent, send_mom_email, CompleteMeetingInput,
  record_completed, complete_meeting, held_audit, mom_audit,
}

module _ (w : World) where
  Keeps-tell_customer : (i : MomEmail) (m : Meeting) (a : Account) → Keeps (tell_customer w i m a)
  unfolding tell_customer
  Keeps-tell_customer i m a = search (keeps_rules, Keeps-send_mom_to_customer)

  Keeps-record_sent : (i : SendMomEmailInput) → Keeps (record_sent w i)
  unfolding record_sent held_audit mom_audit
  Keeps-record_sent i = search (keeps_rules, meeting_rules) depth 16

  pub Keeps-send_mom_email : (i : SendMomEmailInput) → Keeps (send_mom_email w i)
  unfolding send_mom_email
  Keeps-send_mom_email i = search (keeps_rules, Keeps-record_sent, Keeps-tell_customer) depth 9

  Keeps-record_completed : (i : CompleteMeetingInput) (m : Meeting) → Keeps (record_completed w i m)
  unfolding record_completed held_audit mom_audit
  Keeps-record_completed i m = search (keeps_rules, meeting_rules) depth 16

  pub Keeps-complete_meeting : (i : CompleteMeetingInput) → Keeps (complete_meeting w i)
  unfolding complete_meeting
  Keeps-complete_meeting i =
      search (keeps_rules, Keeps-record_completed, Keeps-tell_customer) depth 9
