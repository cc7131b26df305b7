-- ===== src/Meetings/Remove/Laws.antt =====
-- What is left when a meeting is deleted (src/modules/meetings/meetings.service.ts).
use isp_sam_backend.Prelude.{ℕ, ◌≡◌, ◌≢◌, none, some, Option, [], ◌∷◌, ◌++◌, refl, is_some, arith}
use isp_sam_backend.Db.{Meeting, Account, Store, Table, ok, put, delete, find_many}
use isp_sam_backend.Meetings.Table.{day_of, recent, meeting_audit}
use isp_sam_backend.Meetings.Latest.{HasMeetings, IsLatest, recent-delete}
use isp_sam_backend.Dates.{start_of_day_utc}
use isp_sam_backend.Dates.Laws.{midnight}
use isp_sam_backend.Meetings.Remove.{snapshot, with_dates, remove}

-- The day of a date, if there is one.
abbrev pub days : Option ℕ → Option ℕ
days none = none
days (some t) = some (midnight t)

day_of-days : (o : Option ℕ) → day_of o ≡ days o
unfolding start_of_day_utc
day_of-days none = refl
day_of-days (some t) = refl

module _ (k by : ℕ) (s : Store) (h : HasMeetings s) (m : Meeting) (a : Account)
    (e : s.meetings.row k ≡ some m) (q : s.accounts.row m.account_id ≡ some a) where
  same_id : m.id ≡ k
  same_id = h.keyed k m e

  left : Table Meeting
  left = delete k s.meetings

  last : (Meeting → Option ℕ) → Option ℕ
  unfolding left
  last f = recent f m.account_id (find_many (λ x. is_some (f x)) left)

  removed : remove k by s ≡ (
    ok (snapshot m),
    record s {
      audit = s.audit ++ meeting_audit k "DELETE" by (snapshot m) ∷ [];
      meetings = left;
      accounts =
          put m.account_id
            (with_dates (last (λ x. x.held_at)) (last (λ x. x.mom_sent_at)) a)
            s.accounts;
    },
  )
  unfolding remove left last
  removed = ground (arith, same_id)

  -- Deleting a meeting that is there returns its snapshot, which the audit trail keeps; the meeting
  -- is gone, and no other one is touched. On the account the date of the last meeting is then the
  -- day of the latest of the meetings that are left, and that of the last minutes the day of the
  -- latest of theirs, or empty where none is left; nothing else of the account changes, and no other account.
  pub remove_lem :
      let (r, s') = remove k by s in
      (r ≡ ok (snapshot m))
      × (s'.audit ≡ s.audit ++ meeting_audit k "DELETE" by (snapshot m) ∷ [])
      × (s'.meetings.row k ≡ none)
      × ((j : ℕ) → j ≢ k → s'.meetings.row j ≡ s.meetings.row j)
      × ((j : ℕ) → j ≢ m.account_id → s'.accounts.row j ≡ s.accounts.row j)
      × ((held : Option ℕ) × (mom : Option ℕ) × (s'.accounts.row m.account_id
            ≡ some (record a { last_meeting_date = days held; last_mom_date = days mom }))
          × IsLatest (λ x. x.held_at) m.account_id s'.meetings.row held
          × IsLatest (λ x. x.mom_sent_at) m.account_id s'.meetings.row mom)
  unfolding left last
  remove_lem = rw removed (
    refl,
    refl,
    ground arith,
    λ j ne. ground arith,
    λ j ne. ground arith,
    (
      last (λ x. x.held_at),
      last (λ x. x.mom_sent_at),
      ground (arith, day_of-days (last (λ x. x.held_at)), day_of-days (last (λ x. x.mom_sent_at))),
      recent-delete (λ x. x.held_at) m.account_id k s h,
      recent-delete (λ x. x.mom_sent_at) m.account_id k s h,
    ),
  )
