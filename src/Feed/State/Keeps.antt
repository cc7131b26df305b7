-- ===== src/Feed/State/Keeps.antt =====
-- Reading and dismissing keeps the store consistent
-- (src/modules/notifications/notifications.service.ts).
use isp_sam_backend.Prelude.{ℕ, Option, some, Bool-cases, inl, inr, length, ltb, arith}
use isp_sam_backend.Db.{NotificationState, Store, IsConsistent}
use isp_sam_backend.Db.Keeps.{Keeps, moved}
use isp_sam_backend.Scope.{Requester}
use isp_sam_backend.Feed.{targets}
use isp_sam_backend.Feed.State.{
  upsert_state, put_state, state_or_new, mark_as_read, dismiss_notification, mark_all,
  mark_all_as_read,
}

with_states :
    (t : ℕ → ℕ → Option NotificationState) (s : Store)
    → IsConsistent s
    → IsConsistent (record s { notification_states = t })
with_states t s h = record {
  sound = record { keyed = h.sound.keyed; listed = h.sound.listed; owned = h.sound.owned };
  rows = h.rows;
}

Keeps-upsert_state :
    (user k : ℕ) (f : NotificationState → NotificationState) → Keeps (upsert_state user k f)
Keeps-upsert_state user k f = record {
  at = λ s h. elim (Bool-cases (ltb k (length s.audit))) [
    | inl e ↦
        moved
          (with_states
            (put_state user k (f (state_or_new (s.notification_states user k)))
              s).notification_states
            s h)
          (ground arith)
    | inr e ↦ moved h (ground arith)
  ];
}

pub Keeps-mark_as_read : (now user k : ℕ) → Keeps (mark_as_read now user k)
unfolding mark_as_read
Keeps-mark_as_read now user k = Keeps-upsert_state user k (λ x. record x { read_at = some now })

pub Keeps-dismiss_notification : (now user k : ℕ) → Keeps (dismiss_notification now user k)
unfolding dismiss_notification
Keeps-dismiss_notification now user k =
    Keeps-upsert_state user k (λ x. record x { dismissed_at = some now })

pub Keeps-mark_all_as_read : (now : ℕ) (r : Requester) → Keeps (mark_all_as_read now r)
unfolding mark_all_as_read
Keeps-mark_all_as_read now r = record {
  at = λ s h. with_states (mark_all now r.id (targets r s) s).notification_states s h;
}
