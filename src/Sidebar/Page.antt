-- ===== src/Sidebar/Page.antt =====
-- The badge of the leaving customers and the page behind it (src/modules/sidebar/sidebar.service.ts
-- and src/modules/probable-churn/probable-churn.service.ts).
use isp_sam_backend.Prelude.{
  ℕ, ◌≡◌, ◌≢◌, ap, Bool, true, false, Option, none, some, List, [], ◌∷◌, select, gather, includes,
  arith, refl, inl, inr, Bool-cases, Option-cases,
}
use isp_sam_backend.Db.{
  Account, Change, Store, ok, find_many, latest, IsConsistent, probable_churn, sam, same_role,
}
use isp_sam_backend.Dates.{start_of_day_utc}
use isp_sam_backend.Dates.Laws.{midnight}
use isp_sam_backend.Scope.{Requester}
use isp_sam_backend.World.{World}
use isp_sam_backend.Accounts.Import.Write.Unique.{IsIndexed}
use isp_sam_backend.Changes.Apply.{is_due, sweep_due_terminations}
use isp_sam_backend.Churn.{
  ChurnList, is_shown, is_pending, pending_of, row_of, churn_rows, summed, list_probable_churn,
}
use isp_sam_backend.Churn.Sorted.{Occurs}
use isp_sam_backend.Churn.Laws.{churn_rows-Occurs}
use isp_sam_backend.Sidebar.{awaits_prompt}
use isp_sam_backend.Sidebar.Laws.{awaits_prompt_iff}

select-empty :
    (p : Change → Bool) (row : ℕ → Option Change) (keys : List ℕ)
    → ((k : ℕ) (c : Change) → row k ≡ some c → p c ≡ false)
    → select p (gather row keys) ≡ []
select-empty p row [] h = refl
select-empty p row (k ∷ ks) h = elim (Option-cases (row k)) [
  | inl e ↦ ground (arith, select-empty p row ks h)
  | inr (c, e) ↦ ground (arith, select-empty p row ks h, h k c e)
]

select-filled :
    (p : Change → Bool) (row : ℕ → Option Change) (keys : List ℕ) (k : ℕ) (c : Change)
    → row k ≡ some c
    → includes k keys ≡ true
    → p c ≡ true
    → select p (gather row keys) ≢ []
select-filled p row [] k c f i t q = cc
select-filled p row (j ∷ js) k c f i t q = ground (arith, select-filled p row js k c f)

latest-some : (c : Change) (cs : List Change) → (d : Change) × (latest (some c) cs ≡ some d)
latest-some c [] = (c, refl)
latest-some c (d ∷ ds) = latest-some d ds

newest_some : (cs : List Change) → cs ≢ [] → (d : Change) × (latest none cs ≡ some d)
newest_some [] h = absurd (h refl)
newest_some (c ∷ cs) h = latest-some c cs

-- The page of a store in which nothing is left to sweep is that store's.
page_of :
    (w : World) (r : Requester) (s : Store)
    → ((k : ℕ) (c : Change) → s.changes.row k ≡ some c → is_due (midnight w.now) c ≡ false)
    → list_probable_churn w r s ≡ (ok (summed (churn_rows (midnight w.now) r s)), s)
unfolding list_probable_churn sweep_due_terminations start_of_day_utc
page_of w r s swept =
    ground
      (arith, select-empty (is_due (midnight w.now)) (λ k. s.changes.row k) s.changes.keys swept)

shown :
    (r : Requester) (a : Account)
    → a.contract_status ≡ probable_churn
    → (r.role ≡ sam → a.sam_owner_id ≡ some r.id)
    → is_shown r a ≡ true
shown r a e own = elim (Bool-cases (same_role r.role sam)) [
  | inl f ↦ let role : r.role ≡ sam = ground arith in let o = own role in ground arith
  | inr f ↦ ground arith
]

-- Where nothing is left to sweep, every disconnection that the badge counts and that has not been
-- applied has its account on the page of the leaving customers, with a pending disconnection of that
-- account. The store is consistent, and its accounts stand under their ids, are listed and share no
-- unique column.
pub counted-Occurs :
    (w : World) (r : Requester) (s : Store)
    → IsConsistent s
    → IsIndexed s.accounts
    → ((k : ℕ) (c : Change) → s.changes.row k ≡ some c → is_due (midnight w.now) c ≡ false)
    → (k : ℕ) (c : Change) → s.changes.row k ≡ some c
    → c.account_applied_at ≡ none
    → awaits_prompt r (midnight w.now) s c ≡ true
    → (l : ChurnList) × ((list_probable_churn w r s).0 ≡ ok l)
      × ((a : Account) × (d : Change) × (s.accounts.row c.account_id ≡ some a)
          × (pending_of s a ≡ some d)
          × Occurs (row_of (midnight w.now) a d) l.rows)
counted-Occurs w r s h g swept k c f u counted =
    let (t, v, due, (a, e, p, own)) = (awaits_prompt_iff r (midnight w.now) s c).0 counted in
    let id = g.keyed c.account_id a e in
    let mine : is_pending a.id c ≡ true = ground arith in
    let (d, q) = newest_some (find_many (is_pending a.id) s.changes) (
      select-filled (is_pending a.id) (λ j. s.changes.row j) s.changes.keys k c f
        (h.sound.listed k c f) mine) in
    (
      summed (churn_rows (midnight w.now) r s),
      ap (λ x. x.0) (page_of w r s swept),
      (
        a,
        d,
        e,
        q,
        churn_rows-Occurs r (midnight w.now) s c.account_id a d (g.listed c.account_id a e) e
            (shown r a p own) q,
      ),
    )
