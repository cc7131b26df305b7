-- ===== src/Meetings/Keeps.antt =====
-- Writing the table of meetings keeps the store consistent
-- (src/modules/meetings/meetings.service.ts).
use isp_sam_backend.Prelude.{ℕ, Option-cases, inl, inr, arith}
use isp_sam_backend.Db.{Meeting, Store, Table, IsConsistent, put, add, delete}
use isp_sam_backend.Db.Keeps.{Keeps, moved}
use isp_sam_backend.Meetings.Table.{create_meeting, update_meeting, delete_meeting, find_meeting}

with_meetings :
    (t : Table Meeting) (s : Store) → IsConsistent s → IsConsistent (record s { meetings = t })
with_meetings t s h = record {
  sound = record { keyed = h.sound.keyed; listed = h.sound.listed; owned = h.sound.owned };
  rows = h.rows;
}

pub Keeps-create_meeting : (m : Meeting) → Keeps (create_meeting m)
Keeps-create_meeting m = record { at = λ s h. with_meetings (add m.id m s.meetings) s h }

pub Keeps-delete_meeting : (k : ℕ) → Keeps (delete_meeting k)
Keeps-delete_meeting k = record { at = λ s h. with_meetings (delete k s.meetings) s h }

pub Keeps-find_meeting : (k : ℕ) → Keeps (find_meeting k)
Keeps-find_meeting k = record { at = λ s h. h }

pub Keeps-update_meeting : (k : ℕ) (f : Meeting → Meeting) → Keeps (update_meeting k f)
Keeps-update_meeting k f = record {
  at = λ s h. elim (Option-cases (s.meetings.row k)) [
    | inl e ↦ moved h (ground arith)
    | inr (m, e) ↦ moved (with_meetings (put k (f m) s.meetings) s h) (ground arith)
  ];
}

pub ruleset meeting_rules =
    (Keeps-create_meeting, Keeps-delete_meeting, Keeps-find_meeting, Keeps-update_meeting)
