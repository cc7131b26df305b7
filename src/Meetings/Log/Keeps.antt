-- ===== src/Meetings/Log/Keeps.antt =====
-- Logging meetings and minutes keeps the store consistent
-- (src/modules/meetings/meetings.service.ts).
use isp_sam_backend.Prelude.{Option, none, some}
use isp_sam_backend.Db.{Account, Meeting}
use isp_sam_backend.Db.Keeps.{Keeps, keeps_rules}
use isp_sam_backend.World.{World}
use isp_sam_backend.Notifications.Mom.Keeps.{Keeps-send_mom_to_customer}
use isp_sam_backend.Meetings.Keeps.{meeting_rules}
use isp_sam_backend.Meetings.Log.{
  LogInput, log, MarkHeldInput, mark_held, SubmitMomInput, record_minutes, mail_minutes, submit_mom,
}

pub Keeps-log : (w : World) (i : LogInput) → Keeps (log w i)
unfolding log
Keeps-log w i = search (keeps_rules, meeting_rules) depth 9

pub Keeps-mark_held : (i : MarkHeldInput) → Keeps (mark_held i)
unfolding mark_held
Keeps-mark_held i = search (keeps_rules, meeting_rules) depth 9

module _ (w : World) (i : SubmitMomInput) where
  Keeps-record_minutes : Keeps (record_minutes i)
  unfolding record_minutes
  Keeps-record_minutes = search (keeps_rules, meeting_rules) depth 9

  Keeps-mail_minutes : (m : Meeting) (a : Option Account) → Keeps (mail_minutes w i m a)
  unfolding mail_minutes
  Keeps-mail_minutes m none = search keeps_rules
  Keeps-mail_minutes m (some a) = search (keeps_rules, Keeps-send_mom_to_customer)

  pub Keeps-submit_mom : Keeps (submit_mom w i)
  unfolding submit_mom
  Keeps-submit_mom = search (keeps_rules, Keeps-record_minutes, Keeps-mail_minutes) depth 9
