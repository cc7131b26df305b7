-- ===== src/Feed/Paging.antt =====
-- The pages of a feed (src/modules/notifications/notifications.service.ts).
use isp_sam_backend.Prelude.{
  ℕ, pos, zero, suc, ◌+◌, ◌*◌, ◌≤◌, ◌≡◌, List, [], ◌∷◌, ◌++◌, length, refl, sym, ap, ◌∙◌, arith,
}
use isp_sam_backend.Db.{Store}
use isp_sam_backend.Scope.{Requester}
use isp_sam_backend.Feed.{take, drop, feed_rows, get_notifications}

module _ {A : Type 0} where
  take-add : (m n t : ℕ) (xs : List A) → t ≡ m + n → take t xs ≡ take m xs ++ take n (drop m xs)
  take-add zero n t xs e = ap (λ i. take i xs) (omega arith)
  take-add (suc m) n zero xs e = absurd (omega arith)
  take-add (suc m) zero (suc t) [] e = refl
  take-add (suc m) (suc n) (suc t) [] e = refl
  take-add (suc m) n (suc t) (x ∷ xs) e = ap (λ l. x ∷ l) (take-add m n t xs (omega arith))

  take-all : (n : ℕ) (xs : List A) → length xs ≤ n → take n xs ≡ xs
  take-all zero [] h = refl
  take-all zero (x ∷ xs) h = ground arith
  take-all (suc n) [] h = refl
  take-all (suc n) (x ∷ xs) h = ap (λ l. x ∷ l) (take-all n xs (ground arith))

-- The pages 1 to k, one after the other.
unfoldable pub first_pages : Requester → ℕ → Store → ℕ → List ℕ
first_pages r size s zero = []
first_pages r size s (suc k) =
    first_pages r size s k ++ (get_notifications r (pos (suc k)) (pos size) s).notifications

module _ (r : Requester) (size : ℕ) (s : Store) (low : 1 ≤ size) (high : size ≤ 100) where
  page_rows :
      (k : ℕ)
      → (get_notifications r (pos (suc k)) (pos size) s).notifications
        ≡ take size (drop (k * size) (feed_rows r s))
  unfolding get_notifications
  page_rows k = ground arith

  pages-take : (k : ℕ) → first_pages r size s k ≡ take (k * size) (feed_rows r s)
  unfolding first_pages
  pages-take zero = ap (λ i. take i (feed_rows r s)) {x = 0} {y = 0 * size} (ground arith)
  pages-take (suc k) =
      ap (λ l. l ++ (get_notifications r (pos (suc k)) (pos size) s).notifications) (pages-take k)
      ∙ ap (λ l. take (k * size) (feed_rows r s) ++ l) (page_rows k)
      ∙ sym (take-add (k * size) size (suc k * size) (feed_rows r s) (ground arith))

  -- With a page size of 1 to 100, as many pages as hold the total, one after the other, are the
  -- feed: no row is lost between two pages and none is shown twice.
  pub first_pages-feed_rows :
      (k : ℕ)
      → (get_notifications r (pos 1) (pos size) s).total ≤ k * size
      → first_pages r size s k ≡ feed_rows r s
  unfolding get_notifications
  first_pages-feed_rows k h = pages-take k ∙ take-all (k * size) (feed_rows r s) h
