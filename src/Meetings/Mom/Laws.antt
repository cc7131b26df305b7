-- ===== src/Meetings/Mom/Laws.antt =====
-- What the minutes of a meeting change (src/modules/meetings/meetings.service.ts).
use isp_sam_backend.Prelude.{
  ℕ, ◌≡◌, ◌≢◌, ◌≤◌, some, Bool-cases, inl, inr, ap, ◌∙◌, refl, arith, get_or,
}
use isp_sam_backend.Dates.Laws.{midnight}
use isp_sam_backend.Db.{Meeting, Account, Store, ok, put}
use isp_sam_backend.Dates.{start_of_day_utc}
use isp_sam_backend.World.{World}
use isp_sam_backend.Notifications.{AuditOutcome, was_skipped}
use isp_sam_backend.Notifications.Mom.{
  MomInput, send_mom_to_customer-returns, send_mom_to_customer-accounts,
  send_mom_to_customer-meetings,
}
use isp_sam_backend.Meetings.Table.{day_of, put_meeting_date, put_mom_date}
use isp_sam_backend.Meetings.Latest.{IsLatest, put-IsLatest}
use isp_sam_backend.Meetings.Mom.{
  CompleteMeetingInput, completed_meeting, held_date, complete_meeting, record_completed,
  tell_customer, MomEmail,
}

module _ (w : World) (i : MomEmail) (m : Meeting) (a : Account) (s : Store) where
  mail : MomInput
  mail = record {
    meeting_id = m.id;
    account = a;
    performed_by = i.performed_by_user_id;
    to_override = i.to_override;
    cc_override = i.cc_override;
  }

  told-returns : (o : AuditOutcome) × ((tell_customer w i m a s).0 ≡ ok o)
  unfolding tell_customer mail
  told-returns = elim (Bool-cases i.test_mode) [
    | inl e ↦ (was_skipped, ground arith)
    | inr e ↦ let (o, q) = send_mom_to_customer-returns w mail s in (o, ground arith)
  ]

  told-accounts : (tell_customer w i m a s).1.accounts ≡ s.accounts
  unfolding tell_customer mail
  told-accounts = ground (arith, send_mom_to_customer-accounts w mail s)

  told-meetings : (tell_customer w i m a s).1.meetings ≡ s.meetings
  unfolding tell_customer mail
  told-meetings = ground (arith, send_mom_to_customer-meetings w mail s)

-- The meeting with its minutes, and its account with the days of the two dates. A meeting that was not
-- marked as held counts as held when it was planned.
abbrev pub meeting_after : World → CompleteMeetingInput → Meeting → Meeting
meeting_after w i m = record m {
  agenda = i.agenda;
  client_participants = i.client_participants;
  gazon_participants = i.gazon_participants;
  action_items = i.action_items;
  held_at = some (get_or m.held_at m.scheduled_at);
  mom_content = some i.email.mom_content;
  mom_sent_at = some w.now;
}

abbrev pub account_after : World → Meeting → Account → Account
account_after w m a = record a {
  last_meeting_date = some (midnight (get_or m.held_at m.scheduled_at));
  last_mom_date = some (midnight w.now);
}

module _ (w : World) (i : CompleteMeetingInput) (s : Store) (m : Meeting) (a : Account)
    (e : s.meetings.row i.meeting_id ≡ some m) (q : s.accounts.row m.account_id ≡ some a) where
  minuted : Meeting
  minuted = completed_meeting w i (held_date m) m

  dated : Account
  dated = put_mom_date w.now (put_meeting_date (held_date m) a)

  recorded-returns : (record_completed w i m s).0 ≡ ok minuted
  unfolding record_completed minuted
  recorded-returns = ground arith

  recorded-meetings : (record_completed w i m s).1.meetings ≡ put i.meeting_id minuted s.meetings
  unfolding record_completed minuted
  recorded-meetings = ground arith

  recorded-accounts : (record_completed w i m s).1.accounts ≡ put m.account_id dated s.accounts
  unfolding record_completed dated
  recorded-accounts = ground arith

  completes :
      let s1 = (record_completed w i m s).1 in
      let (o, s2) = tell_customer w i.email minuted a s1 in (complete_meeting w i s).1 ≡ s2
  unfolding complete_meeting
  completes = ground (arith, recorded-returns)

  outcome : AuditOutcome
  outcome = (told-returns w i.email minuted a (record_completed w i m s).1).0

  completed-returns : (complete_meeting w i s).0 ≡ ok (minuted, outcome)
  unfolding complete_meeting outcome
  completed-returns =
      ground
        (arith, recorded-returns, (told-returns w i.email minuted a (record_completed w i m s).1).1)

  completed-meetings : (complete_meeting w i s).1.meetings ≡ put i.meeting_id minuted s.meetings
  completed-meetings =
      ap (λ x. x.meetings) completes
      ∙ told-meetings w i.email minuted a (record_completed w i m s).1
      ∙ recorded-meetings

  completed-accounts : (complete_meeting w i s).1.accounts ≡ put m.account_id dated s.accounts
  completed-accounts =
      ap (λ x. x.accounts) completes
      ∙ told-accounts w i.email minuted a (record_completed w i m s).1
      ∙ recorded-accounts

  -- Completing a meeting that is there returns, whatever becomes of the email: the meeting has the
  -- given agenda, participants, action items and minutes, sent now, and counts as held on its date or
  -- else on the one it was planned for. The account has the days of these two dates. All else of the
  -- two stays, and no other meeting or account changes.
  pub complete_meeting_lem :
      let (r, s') = complete_meeting w i s in
      let m' = meeting_after w i m in
      ((o : AuditOutcome) × (r ≡ ok (m', o)))
      × (s'.meetings.row i.meeting_id ≡ some m')
      × ((j : ℕ) → j ≢ i.meeting_id → s'.meetings.row j ≡ s.meetings.row j)
      × (s'.accounts.row m.account_id ≡ some (account_after w m a))
      × ((j : ℕ) → j ≢ m.account_id → s'.accounts.row j ≡ s.accounts.row j)
  unfolding minuted dated start_of_day_utc
  complete_meeting_lem = rw completed-meetings (
      rw completed-accounts (
        (outcome, completed-returns),
        ground arith,
        λ j ne. ground arith,
        ground arith,
        λ j ne. ground arith,
      ))

  -- Where the dates on the account are the days of its latest meeting and minutes, and the completed
  -- meeting was held on no earlier day than the one and is completed on no earlier day than the other,
  -- they still are after it.
  pub complete_meeting-IsLatest :
      IsLatest (λ x. day_of x.held_at) m.account_id s.meetings.row a.last_meeting_date
      → IsLatest (λ x. day_of x.mom_sent_at) m.account_id s.meetings.row a.last_mom_date
      → ((d : ℕ) → a.last_meeting_date ≡ some d → d ≤ start_of_day_utc (held_date m))
      → ((d : ℕ) → a.last_mom_date ≡ some d → d ≤ start_of_day_utc w.now)
      → let s' = (complete_meeting w i s).1 in
        (a' : Account) × (s'.accounts.row m.account_id ≡ some a')
        × IsLatest (λ x. day_of x.held_at) m.account_id s'.meetings.row a'.last_meeting_date
        × IsLatest (λ x. day_of x.mom_sent_at) m.account_id s'.meetings.row a'.last_mom_date
  unfolding minuted dated
  complete_meeting-IsLatest lh lm bh bm = rw completed-meetings (
      rw completed-accounts (
        dated,
        ground arith,
        put-IsLatest (λ x. day_of x.held_at) i.meeting_id m minuted s.meetings a.last_meeting_date
            (start_of_day_utc (held_date m)) lh refl refl bh,
        put-IsLatest (λ x. day_of x.mom_sent_at) i.meeting_id m minuted s.meetings a.last_mom_date
            (start_of_day_utc w.now) lm refl refl bm,
      ))
