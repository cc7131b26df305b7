-- ===== src/Accounts/Import/Write/Unique.antt =====
-- The unique columns of the accounts (prisma/schema.prisma), and that a row that is written keeps
-- them (src/modules/accounts/import/import.service.ts).
use text.Mathlib.Text.{◌==◌ as str_eq}
use text.Mathlib.TextEquality.{eq_iff}
use isp_sam_backend.Prelude.{
  ℕ, ◌≡◌, ◌≢◌, ◌==◌, String, Bool, true, false, not, ◌&&◌, ◌||◌, Option, none, some, ap, sym, List,
  [], ◌∷◌, ◌++◌, is_some, includes, select, gather, arith, inl, inr, refl, Bool-cases, Option-cases,
}
use isp_sam_backend.Db.{Account, Table, Store, add, put}
use isp_sam_backend.Accounts.Import.Write.{holds_text, shares_column, first, is_in_use}

pub data Column : Type 0 where
  lead crm_customer customer_code circuit : Column

abbrev pub column : Column → Account → Option String
column lead a = a.lead_id
column crm_customer a = a.external_crm_id
column customer_code a = a.customer_code
column circuit a = a.circuit_id

-- Accounts stand under their ids and are listed, and no two have a value of a unique column.
pub record IsIndexed (t : Table Account) : Type 0 where
  pub keyed : (k : ℕ) (a : Account) → t.row k ≡ some a → a.id ≡ k
  pub listed : (k : ℕ) (a : Account) → t.row k ≡ some a → includes k t.keys ≡ true
  pub unique :
      (c : Column) (j k : ℕ) (a b : Account) (x : String)
      → t.row j ≡ some a
      → t.row k ≡ some b
      → column c a ≡ some x
      → column c b ≡ some x
      → j ≡ k

shares_column-column :
    (c : Column) (a b : Account) (x : String)
    → shares_column a b ≡ false
    → column c a ≡ some x
    → column c b ≢ some x
shares_column-column lead a b x h p q = let r = (eq_iff x x).1 refl in ground arith
shares_column-column crm_customer a b x h p q = let r = (eq_iff x x).1 refl in ground arith
shares_column-column customer_code a b x h p q = let r = (eq_iff x x).1 refl in ground arith
shares_column-column circuit a b x h p q = let r = (eq_iff x x).1 refl in ground arith

-- Where nothing is found, no listed row passes the test.
first-none :
    (p : Account → Bool) (row : ℕ → Option Account) (keys : List ℕ) (k : ℕ) (a : Account)
    → is_some (first (select p (gather row keys))) ≡ false
    → includes k keys ≡ true
    → row k ≡ some a
    → p a ≡ false
first-none p row [] k a h i f = ground arith
first-none p row (j ∷ js) k a h i f = elim (Option-cases (row j)) [
  | inl e ↦ ground (arith, first-none p row js k a)
  | inr (b, e) ↦ elim (Bool-cases (p b)) [
    | inl t ↦ ground arith
    | inr t ↦ ground (arith, first-none p row js k a)
  ]
]

pub is_in_use-column :
    (c : Column) (k j : ℕ) (a b : Account) (x : String) (s : Store)
    → IsIndexed s.accounts
    → is_in_use k a s ≡ false
    → s.accounts.row j ≡ some b
    → j ≢ k
    → column c a ≡ some x
    → column c b ≢ some x
unfolding is_in_use
is_in_use-column c k j a b x s h t f ne p =
    let q =
      first-none (λ y. not (y.id == k) && shares_column a y) s.accounts.row s.accounts.keys j b t
        (h.listed j b f) f in
    let i = h.keyed j b f in shares_column-column c a b x (ground arith) p

includes-append : (k j : ℕ) (xs : List ℕ) → includes k (xs ++ j ∷ []) ≡ (includes k xs || j == k)
includes-append k j [] = ground arith
includes-append k j (x ∷ xs) = ground (arith, includes-append k j xs)

-- A row of its own id, which shares no unique column with another.
module _ (k : ℕ) (a : Account) (s : Store) (h : IsIndexed s.accounts) (own : a.id ≡ k)
    (free : is_in_use k a s ≡ false) where
  unique_put :
      (c : Column) (i j : ℕ) (b d : Account) (x : String)
      → (put k a s.accounts).row i ≡ some b
      → (put k a s.accounts).row j ≡ some d
      → column c b ≡ some x
      → column c d ≡ some x
      → i ≡ j
  unique_put c i j b d x e f p q = elim (Bool-cases (k == i)) [
    | inl u ↦ elim (Bool-cases (k == j)) [
      | inl v ↦ ground arith
      | inr v ↦
          let n =
            is_in_use-column c k j a d x s h free (ground arith) (ground arith) (ground arith) in
          absurd (n q)
    ]
    | inr u ↦ elim (Bool-cases (k == j)) [
      | inl v ↦
          let n =
            is_in_use-column c k i a b x s h free (ground arith) (ground arith) (ground arith) in
          absurd (n p)
      | inr v ↦ h.unique c i j b d x (ground arith) (ground arith) p q
    ]
  ]

  pub put-IsIndexed : includes k s.accounts.keys ≡ true → IsIndexed (put k a s.accounts)
  put-IsIndexed there = record {
    keyed = λ j b e. ground (arith, h.keyed j b);
    listed = λ j b e. ground (arith, h.listed j b);
    unique = unique_put;
  }

  pub add-IsIndexed : IsIndexed (add k a s.accounts)
  add-IsIndexed = record {
    keyed = λ j b e. ground (arith, h.keyed j b);
    listed = λ j b e. ground (arith, h.listed j b, includes-append j k s.accounts.keys);
    unique = unique_put;
  }

holds_text-false :
    (o o' : Option String) → ((x : String) → o ≡ some x → o' ≢ some x) → holds_text o o' ≡ false
holds_text-false none o' h = refl
holds_text-false (some x) none h = refl
holds_text-false (some x) (some y) h = elim (Bool-cases (str_eq x y)) [
  | inl e ↦ absurd (h x refl (ap (λ t. some t) (sym ((eq_iff x y).0 e))))
  | inr e ↦ e
]

select-empty :
    (p : Account → Bool) (row : ℕ → Option Account) (keys : List ℕ)
    → ((k : ℕ) (a : Account) → row k ≡ some a → p a ≡ false)
    → select p (gather row keys) ≡ []
select-empty p row [] h = refl
select-empty p row (k ∷ ks) h = elim (Option-cases (row k)) [
  | inl e ↦ ground (arith, select-empty p row ks h)
  | inr (a, e) ↦ ground (arith, select-empty p row ks h, h k a e)
]

-- Where no other account has a value of a unique column, the row may be written.
pub is_in_use-false :
    (k : ℕ) (a : Account) (s : Store)
    → ((j : ℕ) (b : Account) (c : Column) (x : String)
        → s.accounts.row j ≡ some b
        → b.id ≢ k
        → column c a ≡ some x
        → column c b ≢ some x)
    → is_in_use k a s ≡ false
unfolding is_in_use
is_in_use-false k a s h =
    let none_found =
      select-empty (λ b. not (b.id == k) && shares_column a b) (λ j. s.accounts.row j)
        s.accounts.keys
        (λ j b f. elim (Bool-cases (b.id == k)) [
          | inl same ↦ ground arith
          | inr other ↦
              let ne : b.id ≢ k = ground arith in
              ground (
                arith,
                holds_text-false a.lead_id b.lead_id (λ x. h j b lead x f ne),
                holds_text-false a.external_crm_id b.external_crm_id
                    (λ x. h j b crm_customer x f ne),
                holds_text-false a.customer_code b.customer_code (λ x. h j b customer_code x f ne),
                holds_text-false a.circuit_id b.circuit_id (λ x. h j b circuit x f ne),
              )
        ]) in
    ground arith
