-- ===== src/Meetings/Latest.antt =====
-- What the dates on an account mean: they are the latest of its meetings
-- (src/modules/meetings/meetings.service.ts).
use isp_sam_backend.Prelude.{
  ℕ, ◌≡◌, ◌≢◌, ◌≤◌, true, not, Option, some, List, [], ◌∷◌, ◌==◌, is_some, includes, select, gather,
  arith, Bool-cases, Option-cases, inl, inr, refl,
}
use isp_sam_backend.Db.{Meeting, Store, put, delete, Table, find_many}
use isp_sam_backend.Meetings.Table.{recent}

-- `o` is the latest date `f` of the meetings of the account.
pub record IsLatest (f : Meeting → Option ℕ) (account : ℕ) (row : ℕ → Option Meeting) (o : Option ℕ)
    : Type 0 where
  pub bound :
      (j : ℕ) (m : Meeting)
      → row j ≡ some m
      → m.account_id ≡ account
      → (x : ℕ) → f m ≡ some x
      → (d : ℕ) × (o ≡ some d) × (x ≤ d)
  pub attained :
      (d : ℕ)
      → o ≡ some d
      → (j : ℕ) × (m : Meeting) × (row j ≡ some m) × (m.account_id ≡ account) × (f m ≡ some d)

-- The meetings of a store stand under their ids and are listed.
pub record HasMeetings (s : Store) : Type 0 where
  pub keyed : (k : ℕ) (m : Meeting) → s.meetings.row k ≡ some m → m.id ≡ k
  pub listed : (k : ℕ) (m : Meeting) → s.meetings.row k ≡ some m → includes k s.meetings.keys ≡ true

module _ (f : Meeting → Option ℕ) (account : ℕ) (row : ℕ → Option Meeting) where
  recent_dates : List ℕ → Option ℕ
  recent_dates keys = recent f account (select (λ m. is_some (f m)) (gather row keys))

  recent-bound :
      (keys : List ℕ) (j : ℕ) (m : Meeting)
      → includes j keys ≡ true
      → row j ≡ some m
      → m.account_id ≡ account
      → (x : ℕ) → f m ≡ some x
      → (d : ℕ) × (recent_dates keys ≡ some d) × (x ≤ d)
  unfolding recent_dates
  recent-bound [] j m l e a x q = cc
  recent-bound (k ∷ ks) j m l e a x q = elim (Option-cases (recent_dates (k ∷ ks))) [
    | inl n ↦ elim (Bool-cases (k == j)) [
      | inl h ↦ ground arith
      | inr h ↦ let (d, p, b) = recent-bound ks j m (ground arith) e a x q in ground arith
    ]
    | inr (d, p) ↦ (
      d,
      p,
      elim (Bool-cases (k == j)) [
        | inl h ↦ ground arith
        | inr h ↦ let (c, g, b) = recent-bound ks j m (ground arith) e a x q in ground arith
      ],
    )
  ]

  recent-attained :
      (keys : List ℕ) (d : ℕ)
      → recent_dates keys ≡ some d
      → (j : ℕ) × (m : Meeting) × (row j ≡ some m) × (m.account_id ≡ account) × (f m ≡ some d)
  unfolding recent_dates
  recent-attained [] d e = cc
  recent-attained (k ∷ ks) d e = elim (Option-cases (row k)) [
    | inl q ↦ recent-attained ks d (ground arith)
    | inr (m, q) ↦ elim (Option-cases (f m)) [
      | inl n ↦ recent-attained ks d (ground arith)
      | inr (x, p) ↦ elim (Bool-cases (m.account_id == account)) [
        | inr other ↦ recent-attained ks d (ground arith)
        | inl same ↦ elim (Bool-cases (x == d)) [
          | inl h ↦ (k, m, q, ground arith, ground arith)
          | inr h ↦ recent-attained ks d (ground arith)
        ]
      ]
    ]
  ]

includes-select :
    (k j : ℕ) (keys : List ℕ)
    → j ≢ k
    → includes j keys ≡ true
    → includes j (select (λ i. not (i == k)) keys) ≡ true
includes-select k j [] ne h = cc
includes-select k j (i ∷ is) ne h = ground (arith, includes-select k j is ne)

-- A listed table gives the latest date of its rows.
recent-IsLatest :
    (f : Meeting → Option ℕ) (account : ℕ) (t : Table Meeting)
    → ((j : ℕ) (m : Meeting) → t.row j ≡ some m → includes j t.keys ≡ true)
    → IsLatest f account t.row (recent f account (find_many (λ m. is_some (f m)) t))
unfolding recent_dates
recent-IsLatest f account t h = record {
  bound = λ j m e a x q. recent-bound f account t.row t.keys j m (h j m e) e a x q;
  attained = recent-attained f account t.row t.keys;
}

-- So it does once a meeting is deleted.
pub recent-delete :
    (f : Meeting → Option ℕ) (account k : ℕ) (s : Store)
    → HasMeetings s
    → let t = delete k s.meetings in
      IsLatest f account t.row (recent f account (find_many (λ m. is_some (f m)) t))
recent-delete f account k s h =
    recent-IsLatest f account (delete k s.meetings)
      (λ j m e. includes-select k j s.meetings.keys (ground arith) (h.listed j m (ground arith)))

-- A meeting that takes a date no earlier than the one on the account becomes the latest.
pub put-IsLatest :
    (f : Meeting → Option ℕ) (k : ℕ) (old new : Meeting) (t : Table Meeting) (o : Option ℕ) (x : ℕ)
    → IsLatest f old.account_id t.row o
    → new.account_id ≡ old.account_id
    → f new ≡ some x
    → ((d : ℕ) → o ≡ some d → d ≤ x)
    → IsLatest f old.account_id (put k new t).row (some x)
put-IsLatest f k old new t o x h a q b = record {
  bound = λ j m e c y p. (
    x,
    refl,
    elim (Bool-cases (k == j)) [
      | inl same ↦ ground arith
      | inr other ↦ let (d, g, l) = h.bound j m (ground arith) c y p in ground (arith, b d g)
    ],
  );
  attained = λ d e. (k, new, ground arith, a, ground arith);
}
