-- ===== src/Db/Invariant.antt =====
-- What every row of a sound store keeps: the columns of a change that are written together.
use isp_sam_backend.Prelude.{ℕ, ◌≡◌, Bool, true, not, ◌&&◌, ◌||◌, some, is_some}
use isp_sam_backend.Db.Types.{Change, approved, rejected, same_approval, is_disconnection}
use isp_sam_backend.Db.Tables.{Store}
use isp_sam_backend.Db.Integrity.{IsSound}

abbrev implies : Bool → Bool → Bool
implies a b = not a || b

-- A disconnection has a mode and nothing else has one; a decision has its date; a termination is
-- scheduled by a decision only; an approval and a rejection say when and by whom.
unfoldable pub is_consistent : Change → Bool
is_consistent c =
    (implies (is_some c.disconnection_mode) (is_disconnection c.change_type)
      && implies (is_disconnection c.change_type) (is_some c.disconnection_mode))
    && (implies (is_some c.retention_decision) (is_some c.retention_decided_at)
        && (implies (is_some c.scheduled_termination_at) (is_some c.retention_decision)
            && (implies (is_some c.quick_approval_decision) (is_some c.quick_approval_decided_at)
                && (implies (same_approval c.approval_status approved)
                      (is_some c.approved_at && is_some c.approved_by)
                    && implies (same_approval c.approval_status rejected) (
                        is_some c.rejected_at
                        && (is_some c.rejected_by && is_some c.rejection_reason))))))

pub record IsConsistent (s : Store) : Type 0 where
  pub sound : IsSound s
  pub rows : (k : ℕ) (c : Change) → s.changes.row k ≡ some c → is_consistent c ≡ true
