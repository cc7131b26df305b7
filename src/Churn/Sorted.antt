-- ===== src/Churn/Sorted.antt =====
-- The order of the rows (src/modules/probable-churn/probable-churn.service.ts).
use isp_sam_backend.Prelude.{
  ℕ, Bool, ◌≡◌, ◌⊎◌, ◌<◌, ◌≤◌, not, leb, ◌==◌, if◌then◌else◌, true, false, List, [], ◌∷◌, All,
  arith, inl, inr, Bool-cases,
}
use isp_sam_backend.Churn.{ChurnRow, no_later, bucket, undecided, prompt, insert, sort_rows}

-- Each row is no later than all that follow it.
abbrev pub IsSorted : List ChurnRow → Type 0
IsSorted [] = Unit
IsSorted (x ∷ xs) = All (λ y. no_later x y ≡ true) xs × IsSorted xs

no_later_total : (x y : ChurnRow) → no_later x y ≡ false → no_later y x ≡ true
unfolding no_later
no_later_total x y h = ground arith

-- The comparison on the three keys.
lexicographic : ℕ → ℕ → ℕ → ℕ → ℕ → ℕ → Bool
lexicographic a b c a' b' c' =
    if not (a == a') then leb a a' else if not (b == b') then leb b b' else leb c c'

lexicographic-first :
    (a b c a' b' c' : ℕ)
    → lexicographic a b c a' b' c' ≡ true
    → (a < a') ⊎ ((a ≡ a') × ((b < b') ⊎ ((b ≡ b') × (c ≤ c'))))
unfolding lexicographic
lexicographic-first a b c a' b' c' h = ground arith

lexicographic-back :
    (a b c a' b' c' : ℕ)
    → (a < a') ⊎ ((a ≡ a') × ((b < b') ⊎ ((b ≡ b') × (c ≤ c'))))
    → lexicographic a b c a' b' c' ≡ true
unfolding lexicographic
lexicographic-back a b c a' b' c' h = ground arith

lexicographic_join :
    (a b c a' b' c' d e f : ℕ)
    → (a < a') ⊎ ((a ≡ a') × ((b < b') ⊎ ((b ≡ b') × (c ≤ c'))))
    → (a' < d) ⊎ ((a' ≡ d) × ((b' < e) ⊎ ((b' ≡ e) × (c' ≤ f))))
    → (a < d) ⊎ ((a ≡ d) × ((b < e) ⊎ ((b ≡ e) × (c ≤ f))))
lexicographic_join a b c a' b' c' d e f h k = ground arith

lexicographic_trans :
    (a b c a' b' c' d e f : ℕ)
    → lexicographic a b c a' b' c' ≡ true
    → lexicographic a' b' c' d e f ≡ true
    → lexicographic a b c d e f ≡ true
lexicographic_trans a b c a' b' c' d e f h k = lexicographic-back a b c d e f (
    lexicographic_join a b c a' b' c' d e f (lexicographic-first a b c a' b' c' h)
      (lexicographic-first a' b' c' d e f k))

no_later_trans :
    (x y z : ChurnRow) → no_later x y ≡ true → no_later y z ≡ true → no_later x z ≡ true
unfolding no_later lexicographic
no_later_trans x y z =
    lexicographic_trans (bucket x) (undecided x) (prompt x) (bucket y) (undecided y) (prompt y)
      (bucket z) (undecided z) (prompt z)

All-map :
    {V : Type 0} {P Q : V → Type 0} (f : (x : V) → P x → Q x) (xs : List V) → All P xs → All Q xs
All-map f [] h = tt
All-map f (x ∷ xs) h = (f x h.0, All-map f xs h.1)

insert-All :
    (P : ChurnRow → Type 0) (x : ChurnRow) (ys : List ChurnRow)
    → P x
    → All P ys
    → All P (insert x ys)
unfolding insert
insert-All P x [] p h = (p, tt)
insert-All P x (y ∷ ys) p h = elim (Bool-cases (no_later x y)) [
  | inl e ↦ rw e (p, h)
  | inr e ↦ rw e (h.0, insert-All P x ys p h.1)
]

pub sort_rows-All : (P : ChurnRow → Type 0) (xs : List ChurnRow) → All P xs → All P (sort_rows xs)
unfolding sort_rows
sort_rows-All P [] h = tt
sort_rows-All P (x ∷ xs) h = insert-All P x (sort_rows xs) h.0 (sort_rows-All P xs h.1)

insert-IsSorted : (x : ChurnRow) (ys : List ChurnRow) → IsSorted ys → IsSorted (insert x ys)
unfolding insert
insert-IsSorted x [] h = (tt, tt)
insert-IsSorted x (y ∷ ys) h = elim (Bool-cases (no_later x y)) [
  | inl e ↦ rw e ((e, All-map (λ z q. no_later_trans x y z e q) ys h.0), h)
  | inr e ↦ rw e (
    insert-All (λ z. no_later y z ≡ true) x ys (no_later_total x y e) h.0,
    insert-IsSorted x ys h.1,
  )
]

pub sort_rows-IsSorted : (xs : List ChurnRow) → IsSorted (sort_rows xs)
unfolding sort_rows
sort_rows-IsSorted [] = tt
sort_rows-IsSorted (x ∷ xs) = insert-IsSorted x (sort_rows xs) (sort_rows-IsSorted xs)

-- `x` is one of the rows; the last row stands for itself.
pub data Occurs (x : ChurnRow) : List ChurnRow → Type 0 where
  here : {xs : List ChurnRow} → Occurs x (x ∷ xs)
  there : {y : ChurnRow} {xs : List ChurnRow} → Occurs x xs → Occurs x (y ∷ xs)

insert-here : (x : ChurnRow) (ys : List ChurnRow) → Occurs x (insert x ys)
unfolding insert
insert-here x [] = here
insert-here x (y ∷ ys) = elim (Bool-cases (no_later x y)) [
  | inl e ↦ rw e here
  | inr e ↦ rw e (there (insert-here x ys))
]

insert-there : (z x : ChurnRow) (ys : List ChurnRow) → Occurs z ys → Occurs z (insert x ys)
unfolding insert
insert-there z x [] o = elim o [ ]
insert-there z x (y ∷ ys) here = elim (Bool-cases (no_later x y)) [
  | inl e ↦ rw e (there here)
  | inr e ↦ rw e here
]
insert-there z x (y ∷ ys) (there o) = elim (Bool-cases (no_later x y)) [
  | inl e ↦ rw e (there (there o))
  | inr e ↦ rw e (there (insert-there z x ys o))
]

pub sort_rows-Occurs : (z : ChurnRow) (xs : List ChurnRow) → Occurs z xs → Occurs z (sort_rows xs)
unfolding sort_rows
sort_rows-Occurs z [] o = elim o [ ]
sort_rows-Occurs z (x ∷ xs) here = insert-here z (sort_rows xs)
sort_rows-Occurs z (x ∷ xs) (there o) = insert-there z x (sort_rows xs) (sort_rows-Occurs z xs o)
