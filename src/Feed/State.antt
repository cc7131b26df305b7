-- ===== src/Feed/State.antt =====
-- `markAsRead`, `dismissNotification` and `markAllAsRead` of
-- src/modules/notifications/notifications.service.ts.
pub mod Laws
pub mod Keeps
use isp_sam_backend.Prelude.{
  ℕ, Bool, ◌&&◌, Option, none, some, List, [], ◌∷◌, ◌==◌, if◌then◌else◌, is_some, ltb, length,
  includes, or_else,
}
use isp_sam_backend.Db.{NotificationState, Store, Action, ok, err, foreign_key_violation}
use isp_sam_backend.Scope.{Requester}
use isp_sam_backend.Feed.{targets}

abbrev pub put_state : ℕ → ℕ → NotificationState → Store → Store
put_state user k x s = record s {
  notification_states = λ u j. if u == user && j == k then some x else s.notification_states u j;
}

abbrev pub no_state : NotificationState
no_state = record { read_at = none; dismissed_at = none }

abbrev pub state_or_new : Option NotificationState → NotificationState
state_or_new none = no_state
state_or_new (some x) = x

-- `upsert` by user and audit row. The row has to be there.
abbrev upsert_state : ℕ → ℕ → (NotificationState → NotificationState) → Action (Unit {0})
upsert_state user k f s =
    if ltb k (length s.audit)
    then (ok tt, put_state user k (f (state_or_new (s.notification_states user k))) s)
    else (err foreign_key_violation, s)

unfoldable pub mark_as_read : ℕ → ℕ → ℕ → Action (Unit {0})
mark_as_read now user k = upsert_state user k (λ x. record x { read_at = some now })

unfoldable pub dismiss_notification : ℕ → ℕ → ℕ → Action (Unit {0})
dismiss_notification now user k = upsert_state user k (λ x. record x { dismissed_at = some now })

-- A row that is read already keeps its date.
abbrev pub read_now : ℕ → Option NotificationState → NotificationState
read_now now o = let x = state_or_new o in record x { read_at = or_else x.read_at (some now) }

-- `createMany` for the targets that have no state, `updateMany` for the unread ones that have one.
abbrev pub mark_all : ℕ → ℕ → List ℕ → Store → Store
mark_all now user ks s = record s {
  notification_states = λ u j.
      if u == user && includes j ks
      then some (read_now now (s.notification_states u j))
      else s.notification_states u j;
}

-- `markedCount`
unfoldable pub mark_all_as_read : ℕ → Requester → Action ℕ
mark_all_as_read now r s = let ks = targets r s in (ok (length ks), mark_all now r.id ks s)
