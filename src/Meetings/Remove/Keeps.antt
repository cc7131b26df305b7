-- ===== src/Meetings/Remove/Keeps.antt =====
-- Deleting a meeting keeps the store consistent (src/modules/meetings/meetings.service.ts).
use isp_sam_backend.Prelude.{ℕ}
use isp_sam_backend.Db.{Meeting}
use isp_sam_backend.Db.Keeps.{Keeps, keeps_rules}
use isp_sam_backend.Meetings.Keeps.{meeting_rules}
use isp_sam_backend.Meetings.Remove.{remove, remove_existing}

Keeps-remove_existing : (by : ℕ) (m : Meeting) → Keeps (remove_existing by m)
unfolding remove_existing
Keeps-remove_existing by m = search (keeps_rules, meeting_rules) depth 12

pub Keeps-remove : (k by : ℕ) → Keeps (remove k by)
unfolding remove
Keeps-remove k by = search (keeps_rules, meeting_rules, Keeps-remove_existing) depth 9
