-- ===== src/Tests/Feed.antt =====
-- A feed of three rows, read and dismissed (src/modules/notifications/notifications.service.ts).
use isp_sam_backend.Prelude.{ℕ, ℤ, pos, ◌≡◌, ◌≢◌, String, refl, none, some, [], ◌∷◌, length, arith}
use isp_sam_backend.Db.{
  new, active, upgrade, not_required, sam, AuditEntry, NotificationState, Store, ok,
}
use isp_sam_backend.Scope.{Requester}
use isp_sam_backend.Feed.{
  targets, feed_rows, get_notifications, is_meant_for, is_relevant, entity_in_scope, count_unread,
}
use isp_sam_backend.Feed.State.{mark_all_as_read}
use isp_sam_backend.Feed.State.Laws.{mark_all_as_read_lem}
use isp_sam_backend.Feed.Paging.{first_pages, first_pages-feed_rows}
use isp_sam_backend.Tests.Data.{account_of, change_of, store_of}

abbrev row_of : String → ℕ → String → AuditEntry
row_of kind entity action = record {
  entity_type = kind;
  entity_id = entity;
  action = action;
  performed_by = some 5;
  ip_address = none;
  user_agent = none;
  payload = [];
}

-- The third row is about no change of this SAM.
abbrev noted_store : Store
noted_store = record (store_of (account_of new active) (change_of upgrade none not_required)) {
  audit =
      row_of "Account" 1 "ASSIGN"
      ∷ row_of "CommercialChange" 7 "COMMIT"
      ∷ row_of "CommercialChange" 99 "COMMIT"
      ∷ [];
}

abbrev the_sam : Requester
the_sam = record { id = 11; role = sam }

feed_of_sam : feed_rows the_sam noted_store ≡ 1 ∷ 0 ∷ []
unfolding feed_rows targets is_meant_for is_relevant entity_in_scope
feed_of_sam = refl

two_unread : (get_notifications the_sam (pos 1) (pos 50) noted_store).unread ≡ 2
unfolding get_notifications count_unread feed_rows targets is_meant_for is_relevant entity_in_scope
two_unread = refl

mark_all_as_read_lem_example :
    let (c, s') = mark_all_as_read 900 the_sam noted_store in
    (c ≡ ok (length (targets the_sam noted_store)))
    × ((page size : ℤ) → (get_notifications the_sam page size s').unread ≡ 0)
    × (feed_rows the_sam s' ≡ feed_rows the_sam noted_store)
    × ((k : ℕ) (x : NotificationState) (d : ℕ)
        → noted_store.notification_states 11 k ≡ some x
        → x.read_at ≡ some d
        → s'.notification_states 11 k ≡ some x)
    × ((u k : ℕ) → u ≢ 11 → s'.notification_states u k ≡ noted_store.notification_states u k)
mark_all_as_read_lem_example = mark_all_as_read_lem 900 the_sam noted_store

total_two : (get_notifications the_sam (pos 1) (pos 1) noted_store).total ≡ 2
unfolding get_notifications feed_rows targets is_meant_for is_relevant entity_in_scope
total_two = refl

first_pages-feed_rows_example : first_pages the_sam 1 noted_store 2 ≡ feed_rows the_sam noted_store
first_pages-feed_rows_example =
    first_pages-feed_rows the_sam 1 noted_store (omega arith) (omega arith) 2
      (ground (arith, total_two))
