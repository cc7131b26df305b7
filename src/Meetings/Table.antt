-- ===== src/Meetings/Table.antt =====
-- The meetings as src/modules/meetings/meetings.service.ts writes them: rows, audit rows and the
-- dates of the account that repeat the latest meeting and the latest minutes.
use isp_sam_backend.Prelude.{
  ℕ, String, Option, none, some, List, [], ◌∷◌, ◌==◌, if◌then◌else◌, is_some, ltb, length,
}
use isp_sam_backend.Db.{
  Account, ActionItem, Meeting, Json, AuditEntry, Store, Action, ok, err, put, add, delete,
  find_many, record_not_found,
}
use isp_sam_backend.Dates.{start_of_day_utc}

abbrev pub create_meeting : Meeting → Action Meeting
create_meeting m s = (ok m, record s { meetings = add m.id m s.meetings })

-- `meeting.update`, which gives the row back.
abbrev pub update_meeting : ℕ → (Meeting → Meeting) → Action Meeting
update_meeting k f s = elim (s.meetings.row k) [
  | none ↦ (err record_not_found, s)
  | some m ↦ (ok (f m), record s { meetings = put k (f m) s.meetings })
]

-- `meeting.delete` of a row that is there.
abbrev pub delete_meeting : ℕ → Action (Unit {0})
delete_meeting k s = (ok tt, record s { meetings = delete k s.meetings })

abbrev pub find_meeting : ℕ → Action (Option Meeting)
find_meeting k s = (ok (s.meetings.row k), s)

abbrev pub meeting_audit : ℕ → String → ℕ → List (String × Json) → AuditEntry
meeting_audit k action by payload = record {
  entity_type = "Meeting";
  entity_id = k;
  action = action;
  performed_by = some by;
  ip_address = none;
  user_agent = none;
  payload = payload;
}

-- `actionItems?.length ?? 0`
abbrev pub count_items : Option (List ActionItem) → ℕ
count_items none = 0
count_items (some items) = length items

-- The later of two dates.
abbrev pub later : Option ℕ → Option ℕ → Option ℕ
later none o = o
later (some d) none = some d
later (some d) (some e) = if ltb d e then some e else some d

-- `findFirst` of the meetings of an account that have the date, the latest date first; it selects
-- the date.
abbrev pub recent : (Meeting → Option ℕ) → ℕ → List Meeting → Option ℕ
recent f account [] = none
recent f account (m ∷ ms) =
    let rest = recent f account ms in if m.account_id == account then later (f m) rest else rest

abbrev pub recent_of : (Meeting → Option ℕ) → ℕ → Store → Option ℕ
recent_of f account s = recent f account (find_many (λ m. is_some (f m)) s.meetings)

-- The columns of the account are dates, and keep the day of an instant.
abbrev pub day_of : Option ℕ → Option ℕ
day_of none = none
day_of (some d) = some (start_of_day_utc d)

abbrev pub put_meeting_date : ℕ → Account → Account
put_meeting_date d a = record a { last_meeting_date = day_of (some d) }

abbrev pub put_mom_date : ℕ → Account → Account
put_mom_date d a = record a { last_mom_date = day_of (some d) }
