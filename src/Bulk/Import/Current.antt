-- ===== src/Bulk/Import/Current.antt =====
-- The accounts that the import keeps between its rows are those of the store
-- (src/modules/commercial-changes/bulk-import/bulk-import.service.ts).
use text.Mathlib.Text.{◌==◌ as str_eq}
use text.Mathlib.TextEquality.{eq_iff}
use isp_sam_backend.Prelude.{
  ℕ, ◌≡◌, ◌≢◌, String, Bool, Option, none, some, List, [], ◌∷◌, All, arith, refl, ap, ◌∙◌,
  Bool-cases, Option-cases, inl, inr, select, gather,
}
use isp_sam_backend.Text.{bind_truthy}
use isp_sam_backend.Db.{Account, Store, find_many}
use isp_sam_backend.Bulk.Sheet.{ParsedRow}
use isp_sam_backend.Bulk.Validate.{Entry, AccountsByCircuit, passed, ValidatedRow, validate_row}
use isp_sam_backend.Bulk.Validate.Laws.{validate_row-IsAdmissible}
use isp_sam_backend.Bulk.Apply.{imported_account}
use isp_sam_backend.Bulk.Import.{
  is_named, circuit_ids, entry_of, put_entry, load_under, load, accounts_by_circuit, chained,
}

-- What is held under a circuit is the account that has it, with all its columns.
pub record IsCurrent (m : AccountsByCircuit) (row : ℕ → Option Account) : Type 0 where
  pub held :
      (c : String) (e : Entry)
      → m c ≡ some e
      → (a : Account) × (row e.id ≡ some a) × (a.circuit_id ≡ some c) × (e ≡ entry_of a c)

-- Accounts stand under their own ids.
abbrev pub HasAccounts : Store → Type 0
HasAccounts s = (k : ℕ) (a : Account) → s.accounts.row k ≡ some a → a.id ≡ k

put_entry-IsCurrent :
    (c : String) (a : Account) (m : AccountsByCircuit) (row : ℕ → Option Account)
    → row a.id ≡ some a
    → a.circuit_id ≡ some c
    → IsCurrent m row
    → IsCurrent (put_entry c (entry_of a c) m) row
put_entry-IsCurrent c a m row f q h = record {
  held = λ k e l. elim (Bool-cases (str_eq c k)) [
    | inl same ↦ (
      a,
      ground arith,
      q ∙ ap (λ x. some x) ((eq_iff c k).0 same),
      let x : c ≡ k = (eq_iff c k).0 same in ground arith,
    )
    | inr other ↦ h.held k e (ground arith)
  ];
}

bind_truthy-some : (o : Option String) (c : String) → bind_truthy o ≡ some c → o ≡ some c
bind_truthy-some none c e = cc
bind_truthy-some (some String.[]) c e = cc
bind_truthy-some (some (String.◌∷◌ x t)) c e = e

load_under-IsCurrent :
    (a : Account) (o : Option String) (m : AccountsByCircuit) (row : ℕ → Option Account)
    → bind_truthy a.circuit_id ≡ o
    → row a.id ≡ some a
    → IsCurrent m row
    → IsCurrent (load_under a o m) row
load_under-IsCurrent a none m row e f h = h
load_under-IsCurrent a (some c) m row e f h =
    put_entry-IsCurrent c a m row f (bind_truthy-some a.circuit_id c e) h

load-IsCurrent :
    (found : List Account) (m : AccountsByCircuit) (row : ℕ → Option Account)
    → All (λ a. row a.id ≡ some a) found
    → IsCurrent m row
    → IsCurrent (load found m) row
unfolding load
load-IsCurrent [] m row f h = h
load-IsCurrent (a ∷ found) m row (f, fs) h =
    let o = bind_truthy a.circuit_id in
    load-IsCurrent found (load_under a o m) row fs (load_under-IsCurrent a o m row refl f h)

All-found :
    (p : Account → Bool) (row : ℕ → Option Account)
    → ((k : ℕ) (a : Account) → row k ≡ some a → a.id ≡ k)
    → (keys : List ℕ) → All (λ a. row a.id ≡ some a) (select p (gather row keys))
All-found p row h [] = tt
All-found p row h (k ∷ ks) = elim (Option-cases (row k)) [
  | inl e ↦ ground (arith, All-found p row h ks)
  | inr (a, e) ↦ ground (arith, h k a e, All-found p row h ks)
]

-- One row moves the store and what is held together.
pub chained-IsCurrent :
    (v : ValidatedRow) (c : String) (a : Account) (m : AccountsByCircuit)
    (row row' : ℕ → Option Account)
    → IsCurrent m row
    → row v.account.id ≡ some a
    → a.circuit_id ≡ some c
    → v.account ≡ entry_of a c
    → row' v.account.id ≡ some (imported_account v a)
    → ((j : ℕ) → j ≢ v.account.id → row' j ≡ row j)
    → IsCurrent (put_entry v.account.circuit_id (chained v) m) row'
chained-IsCurrent v c a m row row' h f q e f' o = record {
  held = λ k x l. elim (Bool-cases (str_eq v.account.circuit_id k)) [
    | inl same ↦
        let same_key : v.account.circuit_id ≡ k = (eq_iff v.account.circuit_id k).0 same in
        (imported_account v a, ground arith, ground arith, ground arith)
    | inr other ↦
        let (b, g, p, r) = h.held k x (ground arith) in
        let apart : x.id ≢ v.account.id = λ t. ground (arith, (eq_iff v.account.circuit_id k).1) in
        (b, o x.id apart ∙ g, p, r)
  ];
}

-- What is loaded is current.
pub accounts_by_circuit-IsCurrent :
    (rows : List ParsedRow) (s : Store)
    → HasAccounts s
    → IsCurrent (accounts_by_circuit rows s) s.accounts.row
unfolding accounts_by_circuit
accounts_by_circuit-IsCurrent rows s h =
    load-IsCurrent (find_many (is_named (circuit_ids rows)) s.accounts) (λ _. none) s.accounts.row
      (All-found (is_named (circuit_ids rows)) s.accounts.row h s.accounts.keys)
      (record { held = λ c e l. cc })

-- The entry of a row that passes is that of an account of the store.
pub entry_there :
    (row : ParsedRow) (m : AccountsByCircuit) (rows : ℕ → Option Account) (v : ValidatedRow)
    → IsCurrent m rows
    → validate_row row m ≡ passed v
    → (c : String) × (a : Account) × (rows v.account.id ≡ some a)
      × (a.circuit_id ≡ some c)
      × (v.account ≡ entry_of a c)
entry_there row m rows v h e =
    let ((c, l), live, terms) = validate_row-IsAdmissible row m v e in
    let (a, f, q, r) = h.held c v.account l in (c, a, f, q, r)
