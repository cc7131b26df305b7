-- ===== src/Feed/State/Laws.antt =====
-- What reading and dismissing do to a feed (src/modules/notifications/notifications.service.ts).
use isp_sam_backend.Prelude.{
  ℕ, ℤ, ◌≡◌, ◌≢◌, ◌<◌, Bool, true, not, ◌&&◌, some, List, [], ◌∷◌, ◌==◌, arith, length, select,
  includes, if◌then◌else◌, ap, ◌∙◌, sym, refl,
}
use isp_sam_backend.Db.{Store, ok, NotificationState}
use isp_sam_backend.Scope.{Requester}
use isp_sam_backend.Feed.{
  targets, feed_rows, is_meant_for, entity_in_scope, is_dismissed, is_read, count_unread,
  get_notifications,
}
use isp_sam_backend.Feed.State.{mark_all, mark_all_as_read, dismiss_notification}

module _ {P : Type 0} where
  select-ext : (p q : P → Bool) → ((x : P) → p x ≡ q x) → (xs : List P) → select p xs ≡ select q xs
  select-ext p q h [] = refl
  select-ext p q h (x ∷ xs) = ground (arith, h x, select-ext p q h xs)

  select-select :
      (p q : P → Bool) (xs : List P) → select q (select p xs) ≡ select (λ x. p x && q x) xs
  select-select p q [] = refl
  select-select p q (x ∷ xs) = ground (arith, select-select p q xs)

select-all :
    (p : ℕ → Bool) (xs : List ℕ) → ((x : ℕ) → includes x xs ≡ true → p x ≡ true) → select p xs ≡ xs
select-all p [] h = refl
select-all p (x ∷ xs) h =
    ground (arith, h x (ground arith), select-all p xs (λ y l. h y (ground arith)))

includes-select :
    (p : ℕ → Bool) (x : ℕ) (xs : List ℕ) → includes x (select p xs) ≡ true → includes x xs ≡ true
includes-select p x [] h = h
includes-select p x (y ∷ ys) h = ground (arith, includes-select p x ys)

module _ (now : ℕ) (r : Requester) (s : Store) where
  marked : Store
  marked = mark_all now r.id (targets r s) s

  marked-dismissed : (k : ℕ) → is_dismissed r.id marked k ≡ is_dismissed r.id s k
  unfolding marked
  marked-dismissed k = ground arith

  marked-read : (k : ℕ) → includes k (targets r s) ≡ true → is_read r.id marked k ≡ true
  unfolding marked
  marked-read k l = ground arith

  -- The scope of a user does not depend on what has been read.
  marked-targets : targets r marked ≡ targets r s
  unfolding marked targets is_meant_for entity_in_scope
  marked-targets = refl

  marked-rows : feed_rows r marked ≡ feed_rows r s
  unfolding feed_rows
  marked-rows =
      ap (select (λ k. not (is_dismissed r.id marked k))) marked-targets
      ∙ select-ext (λ k. not (is_dismissed r.id marked k)) (λ k. not (is_dismissed r.id s k))
          (λ k. ap not (marked-dismissed k)) (targets r s)

  marked-unread : count_unread r.id marked (feed_rows r marked) ≡ 0
  unfolding count_unread feed_rows
  marked-unread = rw marked-rows (
      rw
        (select-all (is_read r.id marked) (feed_rows r s) (λ k l.
          marked-read k (includes-select (λ j. not (is_dismissed r.id s j)) k (targets r s) l)))
        (ground arith))

  -- Marking all as read returns the number of the user's rows and leaves none of them unread, on no
  -- page of the feed. The feed has the same rows as before, a row that was read already keeps its
  -- date, and no state of another user changes.
  pub mark_all_as_read_lem :
      let (c, s') = mark_all_as_read now r s in
      (c ≡ ok (length (targets r s)))
      × ((page size : ℤ) → (get_notifications r page size s').unread ≡ 0)
      × (feed_rows r s' ≡ feed_rows r s)
      × ((k : ℕ) (x : NotificationState) (d : ℕ)
          → s.notification_states r.id k ≡ some x
          → x.read_at ≡ some d
          → s'.notification_states r.id k ≡ some x)
      × ((u k : ℕ) → u ≢ r.id → s'.notification_states u k ≡ s.notification_states u k)
  unfolding mark_all_as_read get_notifications marked
  mark_all_as_read_lem = (
    refl,
    λ page size. marked-unread,
    marked-rows,
    λ k x d e q. ground arith,
    λ u k ne. ground arith,
  )

  module _ (k : ℕ) (e : k < length s.audit) where
    dismissed : Store
    dismissed = (dismiss_notification now r.id k s).1

    dismissed-is_dismissed :
        (j : ℕ) → is_dismissed r.id dismissed j ≡ (if j == k then true else is_dismissed r.id s j)
    unfolding dismissed dismiss_notification
    dismissed-is_dismissed j = ground arith

    dismissed-targets : targets r dismissed ≡ targets r s
    unfolding dismissed dismiss_notification targets is_meant_for entity_in_scope
    dismissed-targets = ground arith

    dismissed-ok : (dismiss_notification now r.id k s).0 ≡ ok tt
    unfolding dismiss_notification
    dismissed-ok = ground arith

    stays : ℕ → Bool
    stays j = not (is_dismissed r.id s j)

    -- Dismissing a row that is in the audit trail takes it out of the user's feed, and takes out
    -- nothing else: what is left keeps its order.
    pub dismiss_notification_lem :
        let (u, s') = dismiss_notification now r.id k s in
        (u ≡ ok tt) × (feed_rows r s' ≡ select (λ j. not (j == k)) (feed_rows r s))
    unfolding feed_rows dismissed stays
    dismiss_notification_lem = (
      dismissed-ok,
      ap (select (λ j. not (is_dismissed r.id dismissed j))) dismissed-targets
          ∙ select-ext (λ j. not (is_dismissed r.id dismissed j)) (λ j. stays j && not (j == k))
              (λ j. ground (arith, dismissed-is_dismissed j)) (targets r s)
          ∙ sym (select-select stays (λ j. not (j == k)) (targets r s)),
    )
