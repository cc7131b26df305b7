-- ===== src/Meetings/Remove.antt =====
-- `remove` of src/modules/meetings/meetings.service.ts.
pub mod Laws
pub mod Keeps
use isp_sam_backend.Prelude.{ℕ, String, Option, none, some, List, [], ◌∷◌}
use isp_sam_backend.Db.{
  Meeting, Account, Json, json_or_null, Action, pure, gets, or_throw, transaction, ◌>>=◌, ◌>>◌,
  update_account, create_audit, meeting_not_found,
}
use isp_sam_backend.Meetings.Table.{day_of, delete_meeting, find_meeting, meeting_audit, recent_of}

-- The payload of the audit row, which outlives the meeting, without its outer key.
abbrev pub snapshot : Meeting → List (String × Json)
snapshot m =
    ("accountId", Json.ref m.account_id)
    ∷ ("scheduledAt", Json.instant m.scheduled_at)
    ∷ ("heldAt", json_or_null Json.instant m.held_at)
    ∷ ("momSentAt", json_or_null Json.instant m.mom_sent_at)
    ∷ ("momContent", json_or_null Json.text m.mom_content)
    ∷ ("meetingType", Json.meeting_type m.meeting_type)
    ∷ ("location", json_or_null Json.text m.location)
    ∷ ("agenda", json_or_null Json.text m.agenda)
    ∷ ("clientParticipants", json_or_null Json.text m.client_participants)
    ∷ ("gazonParticipants", json_or_null Json.text m.gazon_participants)
    ∷ ("actionItems", json_or_null Json.items m.action_items)
    ∷ ("createdBy", Json.ref m.created_by)
    ∷ ("createdAt", Json.instant m.created_at)
    ∷ []

abbrev pub with_dates : Option ℕ → Option ℕ → Account → Account
with_dates held mom a = record a { last_meeting_date = day_of held; last_mom_date = day_of mom }

remove_existing : ℕ → Meeting → Action (List (String × Json))
remove_existing by m = transaction (do
  create_audit (meeting_audit m.id "DELETE" by (snapshot m))
  delete_meeting m.id
  held ← gets (recent_of (λ r. r.held_at) m.account_id)
  mom ← gets (recent_of (λ r. r.mom_sent_at) m.account_id)
  update_account m.account_id (with_dates held mom)
  pure (snapshot m))

unfoldable pub remove : ℕ → ℕ → Action (List (String × Json))
unfolding remove_existing
remove k by = do
  m ← (find_meeting k >>= λ found. or_throw found meeting_not_found)
  remove_existing by m
