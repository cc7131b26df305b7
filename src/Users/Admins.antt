-- ===== src/Users/Admins.antt =====
-- The administrators among the users, counted
-- (src/modules/users/users.service.ts).
use isp_sam_backend.Prelude.{
  ℕ, ◌+◌, ◌==◌, ◌≡◌, ◌≢◌, ◌≤◌, true, false, not, Option, none, some, List, [], ◌∷◌, ◌++◌, length,
  select, gather, if◌then◌else◌, arith, refl, Bool-cases, Option-cases, inl, inr,
}
use isp_sam_backend.Db.{User, Table, Store, put, add, delete}
use isp_sam_backend.Users.Service.{is_admin, map_row, map_rows, without_head}

-- How often an id is listed.
abbrev pub count : ℕ → List ℕ → ℕ
count k [] = 0
count k (j ∷ js) = (if j == k then 1 else 0) + count k js

-- How many of the listed users are administrators.
unfoldable pub admins : (ℕ → Option User) → List ℕ → ℕ
admins row keys = length (select is_admin (gather row keys))

-- Users stand under their ids, every id is listed at most once, and some listed user is an administrator.
pub record IsAdministered (s : Store) : Type 0 where
  pub keyed : (k : ℕ) (u : User) → s.users.row k ≡ some u → u.id ≡ k
  pub once : (k : ℕ) → count k s.users.keys ≤ 1
  pub administered : 1 ≤ admins s.users.row s.users.keys

score : Option User → ℕ
score none = 0
score (some u) = if is_admin u then 1 else 0

admins-cons :
    (row : ℕ → Option User) (j : ℕ) (js : List ℕ)
    → admins row (j ∷ js) ≡ score (row j) + admins row js
unfolding admins score
admins-cons row j js = elim (Option-cases (row j)) [
  | inl e ↦ ground arith
  | inr (u, e) ↦ elim (Bool-cases (is_admin u)) [ inl a ↦ ground arith | inr a ↦ ground arith ]
]

admins-nil : (row : ℕ → Option User) → admins row [] ≡ 0
unfolding admins
admins-nil row = refl

score-le : (o : Option User) → score o ≤ 1
unfolding score
score-le none = omega arith
score-le (some u) = ground arith

-- Another row under an id costs at most as many administrators as the id is listed.
admins-other :
    (k : ℕ) (row row' : ℕ → Option User)
    → ((j : ℕ) → j ≢ k → score (row' j) ≡ score (row j))
    → (keys : List ℕ) → admins row keys ≤ admins row' keys + count k keys
admins-other k row row' h [] = omega (arith, admins-nil row)
admins-other k row row' h (j ∷ js) = elim (Bool-cases (j == k)) [
  | inl same ↦ ground (
    arith,
    admins-other k row row' h js,
    admins-cons row j js,
    admins-cons row' j js,
    score-le (row j),
  )
  | inr other ↦
      let e = h j (ground arith) in
      ground (arith, admins-other k row row' h js, admins-cons row j js, admins-cons row' j js)
]

-- A row under the id that is no less of an administrator costs none.
admins-kept :
    (row row' : ℕ → Option User)
    → ((j : ℕ) → score (row j) ≤ score (row' j))
    → (keys : List ℕ) → admins row keys ≤ admins row' keys
admins-kept row row' h [] = omega (arith, admins-nil row)
admins-kept row row' h (j ∷ js) =
    omega (arith, admins-kept row row' h js, admins-cons row j js, admins-cons row' j js, h j)

admins-snoc :
    (row : ℕ → Option User) (keys : List ℕ) (k : ℕ) → admins row keys ≤ admins row (keys ++ k ∷ [])
admins-snoc row [] k = omega (arith, admins-nil row)
admins-snoc row (j ∷ js) k =
    omega (arith, admins-snoc row js k, admins-cons row j js, admins-cons row j (js ++ k ∷ []))

count-snoc :
    (k j : ℕ) (keys : List ℕ) → count k (keys ++ j ∷ []) ≡ count k keys + (if j == k then 1 else 0)
count-snoc k j [] = ground arith
count-snoc k j (i ∷ is) = omega (arith, count-snoc k j is)

-- What is left out of the keys costs as many administrators as it was listed.
admins-select :
    (k : ℕ) (row : ℕ → Option User) (keys : List ℕ)
    → admins row keys ≤ admins row (select (λ j. not (j == k)) keys) + count k keys
admins-select k row [] = omega (arith, admins-nil row)
admins-select k row (j ∷ js) = elim (Bool-cases (j == k)) [
  | inl same ↦ ground (arith, admins-select k row js, admins-cons row j js, score-le (row j))
  | inr other ↦ ground (
    arith,
    admins-select k row js,
    admins-cons row j js,
    admins-cons row j (select (λ i. not (i == k)) js),
  )
]

count-select : (i k : ℕ) (keys : List ℕ) → count i (select (λ j. not (j == k)) keys) ≤ count i keys
count-select i k [] = omega arith
count-select i k (j ∷ js) = ground (arith, count-select i k js)

count-select_self : (k : ℕ) (keys : List ℕ) → count k (select (λ j. not (j == k)) keys) ≡ 0
count-select_self k [] = omega arith
count-select_self k (j ∷ js) = ground (arith, count-select_self k js)

admins-select_other :
    (k : ℕ) (row : ℕ → Option User)
    → score (row k) ≡ 0
    → (keys : List ℕ) → admins row keys ≤ admins row (select (λ j. not (j == k)) keys)
admins-select_other k row z [] = omega (arith, admins-nil row)
admins-select_other k row z (j ∷ js) = elim (Bool-cases (j == k)) [
  | inl same ↦
      let e : j ≡ k = ground arith in
      ground (arith, admins-select_other k row z js, admins-cons row j js)
  | inr other ↦ ground (
    arith,
    admins-select_other k row z js,
    admins-cons row j js,
    admins-cons row j (select (λ i. not (i == k)) js),
  )
]

score-none : score none ≡ 0
unfolding score
score-none = refl

score-admin : (u : User) → is_admin u ≡ true → score (some u) ≡ 1
unfolding score
score-admin u h = ground arith

score-other : (u : User) → is_admin u ≡ false → score (some u) ≡ 0
unfolding score
score-other u h = ground arith

score-without_head : (k : ℕ) (o : Option User) → score (map_row (without_head k) o) ≡ score o
unfolding score
score-without_head k none = refl
score-without_head k (some u) = refl

module _ (k : ℕ) (u v : User) (t : Table User) (f : t.row k ≡ some u) where
  admins-put_same :
      score (some u) ≤ score (some v) → admins t.row t.keys ≤ admins (put k v t).row t.keys
  admins-put_same h =
      admins-kept t.row (put k v t).row
        (λ j. elim (Bool-cases (k == j)) [
          | inl same ↦ let e : k ≡ j = ground arith in ground arith
          | inr other ↦ ground arith
        ])
        t.keys

  admins-put_any : admins t.row t.keys ≤ admins (put k v t).row t.keys + count k t.keys
  admins-put_any = admins-other k t.row (put k v t).row (λ j ne. ground arith) t.keys

  admins-put :
      1 ≤ admins t.row t.keys
      → count k t.keys ≤ 1
      → (is_admin u ≡ true → is_admin v ≡ false → 2 ≤ admins t.row t.keys)
      → 1 ≤ admins (put k v t).row t.keys
  admins-put h o two = elim (Bool-cases (is_admin v)) [
    | inl a ↦ omega (arith, admins-put_same, score-admin v a, score-le (some u))
    | inr b ↦ elim (Bool-cases (is_admin u)) [
      | inl a ↦ omega (arith, admins-put_any, two a b)
      | inr c ↦ omega (arith, admins-put_same, score-other u c)
    ]
  ]

-- A user who is put under the own id.
pub put-IsAdministered :
    (k : ℕ) (u v : User) (s t : Store)
    → IsAdministered s
    → s.users.row k ≡ some u
    → t.users ≡ put k v s.users
    → v.id ≡ u.id
    → (is_admin u ≡ true → is_admin v ≡ false → 2 ≤ admins s.users.row s.users.keys)
    → IsAdministered t
put-IsAdministered k u v s t h f e i two = record {
  keyed = rw e (λ j x q. ground (arith, h.keyed j x, h.keyed k u f));
  once = rw e h.once;
  administered = rw e (admins-put k u v s.users f h.administered (h.once k) two);
}

pub add-IsAdministered :
    (u : User) (s t : Store)
    → IsAdministered s
    → s.users.row u.id ≡ none
    → count u.id s.users.keys ≡ 0
    → t.users ≡ add u.id u s.users
    → IsAdministered t
add-IsAdministered u s t h f z e =
    let row' = (add u.id u s.users).row in
    let kept =
      admins-kept s.users.row row'
        (λ j. elim (Bool-cases (u.id == j)) [
          | inl same ↦ ground (arith, score-le none, score-none)
          | inr other ↦ ground arith
        ])
        s.users.keys in
    record {
      keyed = rw e (λ j x q. ground (arith, h.keyed j x));
      once = rw e (λ j. ground (arith, count-snoc j u.id s.users.keys, h.once j));
      administered = rw e (omega (arith, kept, h.administered, admins-snoc row' s.users.keys u.id));
    }

module _ (k : ℕ) (t : Table User) where
  others : List ℕ
  others = select (λ j. not (j == k)) t.keys

  row_left : ℕ → Option User
  row_left = (map_rows (without_head k) (delete k t)).row

  admins-others : admins t.row others ≤ admins row_left others
  unfolding others row_left
  admins-others =
      let r =
        admins-other k t.row row_left (λ j ne. ground (arith, score-without_head k (t.row j)))
          others in
      omega (arith, r, count-select_self k t.keys)

pub delete-IsAdministered :
    (k : ℕ) (u : User) (s t : Store)
    → IsAdministered s
    → s.users.row k ≡ some u
    → t.users ≡ map_rows (without_head k) (delete k s.users)
    → (is_admin u ≡ true → 2 ≤ admins s.users.row s.users.keys)
    → IsAdministered t
unfolding others row_left
delete-IsAdministered k u s t h f e two = record {
  keyed = rw e (λ j x q. elim (Option-cases (s.users.row j)) [
    | inl n ↦ ground arith
    | inr (y, n) ↦ ground (arith, h.keyed j y n)
  ]);
  once = rw e (λ j. omega (arith, count-select j k s.users.keys, h.once j));
  administered = rw e (elim (Bool-cases (is_admin u)) [
    | inl a ↦
        omega (
          arith,
          two a,
          admins-select k s.users.row s.users.keys,
          h.once k,
          admins-others k s.users,
        )
    | inr b ↦ omega (
      arith,
      h.administered,
      admins-select_other k s.users.row (ground (arith, score-other u b)) s.users.keys,
      admins-others k s.users,
    )
  ]);
}
