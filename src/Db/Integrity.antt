-- ===== src/Db/Integrity.antt =====
-- What the schema (prisma/schema.prisma) guarantees of a store: a row stands under its own id, the
-- ids list every row, and the foreign key of a change leads to an account.
use isp_sam_backend.Prelude.{
  ℕ, ◌≡◌, ◌≢◌, Bool, true, Option, none, some, List, [], ◌∷◌, map, arith, includes, select, gather,
  Option-cases, inl, inr,
}
use isp_sam_backend.Db.Types.{Change}
use isp_sam_backend.Db.Tables.{Store}

pub record IsSound (s : Store) : Type 0 where
  pub keyed : (k : ℕ) (c : Change) → s.changes.row k ≡ some c → c.id ≡ k
  pub listed : (k : ℕ) (c : Change) → s.changes.row k ≡ some c → includes k s.changes.keys ≡ true
  pub owned : (k : ℕ) (c : Change) → s.changes.row k ≡ some c → s.accounts.row c.account_id ≢ none

-- A row that is listed and passes the test is found.
pub includes-find_many :
    (p : Change → Bool) (row : ℕ → Option Change) (keys : List ℕ) (k : ℕ) (c : Change)
    → row k ≡ some c
    → c.id ≡ k
    → p c ≡ true
    → includes k keys ≡ true
    → includes k (map (λ x. x.id) (select p (gather row keys))) ≡ true
includes-find_many p row [] k c f i t l = cc
includes-find_many p row (j ∷ js) k c f i t l =
    ground (arith, includes-find_many p row js k c f i t)

-- What is found is a row under its own id, and passes the test.
abbrev pub Found : (Change → Bool) → (ℕ → Option Change) → List Change → Type 0
Found p row [] = Unit
Found p row (c ∷ cs) = (row c.id ≡ some c) × (p c ≡ true) × Found p row cs

pub find_many-Found :
    (p : Change → Bool) (row : ℕ → Option Change) (keys : List ℕ)
    → ((k : ℕ) (c : Change) → row k ≡ some c → c.id ≡ k)
    → Found p row (select p (gather row keys))
find_many-Found p row [] h = tt
find_many-Found p row (j ∷ js) h = elim (Option-cases (row j)) [
  | inl e ↦ ground (arith, find_many-Found p row js h)
  | inr (c, e) ↦ ground (arith, h j c e, find_many-Found p row js h)
]
