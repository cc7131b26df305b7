-- ===== src/Tests/Meetings.antt =====
-- Meetings and their minutes at work (src/modules/meetings/meetings.service.ts).
use isp_sam_backend.Prelude.{
  ℕ, ◌+◌, ◌*◌, ◌≡◌, ◌≢◌, ◌==◌, ◌∷◌, [], refl, false, Option, none, some, if◌then◌else◌, arith,
}
use isp_sam_backend.Dates.{day_ms, start_of_day_utc}
use isp_sam_backend.Db.{new, active, online, Account, Meeting, Store, Table, ok}
use isp_sam_backend.Notifications.{AuditOutcome}
use isp_sam_backend.Meetings.Table.{day_of, put_meeting_date, meeting_audit}
use isp_sam_backend.Meetings.Latest.{IsLatest, HasMeetings}
use isp_sam_backend.Meetings.Log.{mark_held}
use isp_sam_backend.Meetings.Mom.{CompleteMeetingInput, complete_meeting}
use isp_sam_backend.Meetings.Mom.Laws.{
  meeting_after, account_after, complete_meeting_lem, complete_meeting-IsLatest,
}
use isp_sam_backend.Meetings.Remove.{remove, snapshot}
use isp_sam_backend.Meetings.Remove.Laws.{days, remove_lem}
use isp_sam_backend.Tests.Data.{account_of, fresh_store, world_at}

abbrev meeting_at : ℕ → ℕ → Option ℕ → Meeting
meeting_at k planned held = record {
  id = k;
  account_id = 1;
  scheduled_at = planned;
  held_at = held;
  agenda = none;
  mom_content = none;
  mom_sent_at = none;
  meeting_type = online;
  location = none;
  client_participants = none;
  gazon_participants = none;
  action_items = none;
  created_by = 11;
  created_at = 0;
}

abbrev met : Account
met = record (account_of new active) { email = some "client@acme"; last_meeting_date = some day_ms }

-- Meeting 21 was held on the first day after 1970-01-01, meeting 22 is planned for the second.
abbrev two_meetings : Table Meeting
two_meetings = record {
  keys = 21 ∷ 22 ∷ [];
  row = λ j.
      if j == 21
      then some (meeting_at 21 (day_ms + 500) (some (day_ms + 500)))
      else if j == 22
      then some (meeting_at 22 (2 * day_ms) none)
      else none;
}

abbrev met_store : Store
met_store = record (fresh_store met) { meetings = two_meetings }

met_store-HasMeetings : HasMeetings met_store
met_store-HasMeetings = record { keyed = λ k m e. ground arith; listed = λ k m e. ground arith }

remove_lem_example :
    let (r, s') = remove 21 11 met_store in
    let m = meeting_at 21 (day_ms + 500) (some (day_ms + 500)) in
    (r ≡ ok (snapshot m))
    × (s'.audit ≡ meeting_audit 21 "DELETE" 11 (snapshot m) ∷ [])
    × (s'.meetings.row 21 ≡ none)
    × ((j : ℕ) → j ≢ 21 → s'.meetings.row j ≡ met_store.meetings.row j)
    × ((j : ℕ) → j ≢ 1 → s'.accounts.row j ≡ met_store.accounts.row j)
    × ((held : Option ℕ) × (mom : Option ℕ) × (s'.accounts.row 1
          ≡ some (record met { last_meeting_date = days held; last_mom_date = days mom }))
        × IsLatest (λ x. x.held_at) 1 s'.meetings.row held
        × IsLatest (λ x. x.mom_sent_at) 1 s'.meetings.row mom)
remove_lem_example =
    remove_lem 21 11 met_store met_store-HasMeetings
      (meeting_at 21 (day_ms + 500) (some (day_ms + 500))) met refl refl

abbrev minutes : CompleteMeetingInput
minutes = record {
  meeting_id = 22;
  agenda = none;
  client_participants = none;
  gazon_participants = none;
  action_items = none;
  email = record {
    mom_content = "We met.";
    to_override = none;
    cc_override = none;
    test_mode = false;
    performed_by_user_id = 11;
  };
}

complete_meeting_lem_example :
    let (r, s') = complete_meeting (world_at (2 * day_ms + 900)) minutes met_store in
    let m = meeting_at 22 (2 * day_ms) none in
    let m' = meeting_after (world_at (2 * day_ms + 900)) minutes m in
    ((o : AuditOutcome) × (r ≡ ok (m', o)))
    × (s'.meetings.row 22 ≡ some m')
    × ((j : ℕ) → j ≢ 22 → s'.meetings.row j ≡ met_store.meetings.row j)
    × (s'.accounts.row 1 ≡ some (account_after (world_at (2 * day_ms + 900)) m met))
    × ((j : ℕ) → j ≢ 1 → s'.accounts.row j ≡ met_store.accounts.row j)
complete_meeting_lem_example =
    complete_meeting_lem (world_at (2 * day_ms + 900)) minutes met_store
      (meeting_at 22 (2 * day_ms) none) met refl refl

held_before : IsLatest (λ x. day_of x.held_at) 1 two_meetings.row (some day_ms)
unfolding start_of_day_utc
held_before = record {
  bound = λ j m e a x q. (day_ms, refl, ground arith);
  attained = λ d e. (21, meeting_at 21 (day_ms + 500) (some (day_ms + 500)), refl, refl, e);
}

mom_before : IsLatest (λ x. day_of x.mom_sent_at) 1 two_meetings.row none
mom_before = record { bound = λ j m e a x q. ground arith; attained = λ d e. ground arith }

complete_meeting-IsLatest_example :
    let s' = (complete_meeting (world_at (2 * day_ms + 900)) minutes met_store).1 in
    (a' : Account) × (s'.accounts.row 1 ≡ some a')
    × IsLatest (λ x. day_of x.held_at) 1 s'.meetings.row a'.last_meeting_date
    × IsLatest (λ x. day_of x.mom_sent_at) 1 s'.meetings.row a'.last_mom_date
unfolding start_of_day_utc
complete_meeting-IsLatest_example =
    complete_meeting-IsLatest (world_at (2 * day_ms + 900)) minutes met_store
      (meeting_at 22 (2 * day_ms) none) met refl refl held_before mom_before (λ d e. ground arith)
      (λ d e. ground arith)

-- A meeting that is marked as held on an earlier day takes the place of a later one.
moves_back :
    let s' =
      (mark_held
        (record { meeting_id = 22; held_at = 300; performed_by_user_id = 11 })
        met_store).1 in
    s'.accounts.row 1 ≡ some (put_meeting_date 300 met)
unfolding mark_held
moves_back = refl
