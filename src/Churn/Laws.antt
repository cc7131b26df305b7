-- ===== src/Churn/Laws.antt =====
-- What the list of leaving customers shows (src/modules/probable-churn/probable-churn.service.ts).
use isp_sam_backend.Prelude.{
  ℕ, ◌≡◌, ◌⊎◌, true, false, some, List, [], ◌∷◌, select, gather, includes, ◌==◌, arith, inl, inr,
  subst, sym, Bool-cases, Option-cases,
}
use isp_sam_backend.Db.{Account, Change, Store}
use isp_sam_backend.Scope.{Requester}
use isp_sam_backend.World.{World}
use isp_sam_backend.Changes.Apply.{is_due}
use isp_sam_backend.Churn.{ChurnRow, is_shown, is_pending, pending_of, row_of, rows_of, churn_rows}
use isp_sam_backend.Churn.Sorted.{Occurs, here, there, sort_rows-Occurs}

-- A row shows an account that is leaving and that the user may see, with a pending disconnection of
-- it that the sweep has nothing to do about.
pub record IsRow (r : Requester) (today : ℕ) (s : Store) (x : ChurnRow) : Type 0 where
  pub account : (k : ℕ) × (s.accounts.row k ≡ some x.account)
  pub shown : is_shown r x.account ≡ true
  pub change : s.changes.row x.change.id ≡ some x.change
  pub pending : is_pending x.account.id x.change ≡ true
  pub not_overdue : is_due today x.change ≡ false

module _ (r : Requester) (today : ℕ) (s : Store) where
  shown_rows : List ℕ → List ChurnRow
  shown_rows keys = rows_of today s (select (is_shown r) (gather s.accounts.row keys))

  -- A key adds the row of its account, or nothing.
  shown_rows-step :
      (k : ℕ) (ks : List ℕ)
      → (shown_rows (k ∷ ks) ≡ shown_rows ks)
        ⊎ ((a : Account) × (c : Change) × (s.accounts.row k ≡ some a)
            × (is_shown r a ≡ true)
            × (pending_of s a ≡ some c)
            × (shown_rows (k ∷ ks) ≡ row_of today a c ∷ shown_rows ks))
  unfolding shown_rows
  shown_rows-step k ks = elim (Option-cases (s.accounts.row k)) [
    | inl e ↦ inl (ground arith)
    | inr (a, e) ↦ elim (Bool-cases (is_shown r a)) [
      | inr t ↦ inl (ground arith)
      | inl t ↦ elim (Option-cases (pending_of s a)) [
        | inl q ↦ inl (ground arith)
        | inr (c, q) ↦ inr (a, c, e, t, q, ground arith)
      ]
    ]
  ]

  shown_rows-own :
      (k : ℕ) (ks : List ℕ) (a : Account) (c : Change)
      → s.accounts.row k ≡ some a
      → is_shown r a ≡ true
      → pending_of s a ≡ some c
      → shown_rows (k ∷ ks) ≡ row_of today a c ∷ shown_rows ks
  unfolding shown_rows
  shown_rows-own k ks a c e t q = ground arith

  shown_rows-Occurs :
      (keys : List ℕ) (k : ℕ) (a : Account) (c : Change)
      → includes k keys ≡ true
      → s.accounts.row k ≡ some a
      → is_shown r a ≡ true
      → pending_of s a ≡ some c
      → Occurs (row_of today a c) (shown_rows keys)
  shown_rows-Occurs [] k a c l e t q = cc
  shown_rows-Occurs (j ∷ js) k a c l e t q = elim (Bool-cases (j == k)) [
    | inl same ↦
        subst (Occurs (row_of today a c)) (sym (shown_rows-own j js a c (ground arith) t q)) here
    | inr other ↦
        let rest = shown_rows-Occurs js k a c (ground arith) e t q in
        elim (shown_rows-step j js) [
          | inl p ↦ subst (Occurs (row_of today a c)) (sym p) rest
          | inr (b, d, f, u, v, p) ↦ subst (Occurs (row_of today a c)) (sym p) (there rest)
        ]
  ]

-- An account of the page with a pending disconnection has its row.
pub churn_rows-Occurs :
    (r : Requester) (today : ℕ) (s : Store) (k : ℕ) (a : Account) (c : Change)
    → includes k s.accounts.keys ≡ true
    → s.accounts.row k ≡ some a
    → is_shown r a ≡ true
    → pending_of s a ≡ some c
    → Occurs (row_of today a c) (churn_rows today r s)
unfolding churn_rows shown_rows
churn_rows-Occurs r today s k a c l e t q =
    sort_rows-Occurs (row_of today a c) (shown_rows r today s s.accounts.keys)
      (shown_rows-Occurs r today s s.accounts.keys k a c l e t q)
