-- ===== src/Bulk/Validate/Laws.antt =====
-- What a row that passes says (src/modules/commercial-changes/bulk-import/bulk-import.service.ts).
use isp_sam_backend.Prelude.{
  ℕ, ◌≡◌, ◌<◌, String, false, some, Option-cases, inl, inr, ◌⊎◌, arith, refl,
}
use isp_sam_backend.Text.{trim, bind_truthy}
use isp_sam_backend.Db.{
  ChangeType, upgrade, downgrade, rate_revision, disconnection, terminated, same_status,
}
use isp_sam_backend.Bulk.Sheet.{ParsedRow, change_type_of}
use isp_sam_backend.Bulk.Validate.{
  RowError, Entry, AccountsByCircuit, Check, passed, refused, ValidatedRow, check_terms,
  validate_row,
}

-- An upgrade raises the ARC, a downgrade lowers it, a rate revision keeps it, and a disconnection
-- ends it.
abbrev pub IsAdmissible : ChangeType → ℕ → ℕ → Type 0
IsAdmissible upgrade old new = old < new
IsAdmissible downgrade old new = new < old
IsAdmissible rate_revision old new = new ≡ old
IsAdmissible disconnection old new = new ≡ 0

-- To split on a check and keep the equation.
pub Check-cases :
    {A : Type 0} (c : Check A) → ((a : A) × (c ≡ passed a)) ⊎ ((e : RowError) × (c ≡ refused e))
Check-cases (passed a) = inl (a, refl)
Check-cases (refused e) = inr (e, refl)

check_terms-IsAdmissible :
    (row : ParsedRow) (a : Entry) (t : ChangeType) (date : ℕ) (v : ValidatedRow)
    → check_terms row a t date ≡ passed v
    → (v.account ≡ a)
      × (v.effective_date ≡ date)
      × (same_status a.contract_status terminated ≡ false)
      × IsAdmissible v.change_type a.current_arc v.new_arc
unfolding check_terms
check_terms-IsAdmissible row a upgrade date v h = ground arith
check_terms-IsAdmissible row a downgrade date v h = ground arith
check_terms-IsAdmissible row a rate_revision date v h = ground arith
check_terms-IsAdmissible row a disconnection date v h = ground arith

-- The account under a circuit, and the terms of the row.
validate_row-steps :
    (row : ParsedRow) (accounts : AccountsByCircuit) (v : ValidatedRow)
    → validate_row row accounts ≡ passed v
    → (c : String) × (a : Entry) × (t : ChangeType) × (date : ℕ) × (accounts c ≡ some a)
      × (row.effective_date ≡ some date)
      × (check_terms row a t date ≡ passed v)
unfolding validate_row
validate_row-steps row accounts v h = elim (Option-cases (bind_truthy row.circuit_id)) [
  | inl e ↦ ground arith
  | inr (c, e) ↦ elim (Option-cases (accounts (trim c))) [
    | inl q ↦ ground arith
    | inr (a, q) ↦ elim (Option-cases (bind_truthy row.change_type)) [
      | inl x ↦ ground arith
      | inr (text, x) ↦ elim (Option-cases (change_type_of text)) [
        | inl y ↦ ground arith
        | inr (t, y) ↦ elim (Option-cases row.effective_date) [
          | inl z ↦ ground arith
          | inr (date, z) ↦ (trim c, a, t, date, q, z, ground arith)
        ]
      ]
    ]
  ]
]

-- A row passes for an account that was loaded under its circuit and is not terminated, and with an
-- ARC that fits the type.
pub validate_row-IsAdmissible :
    (row : ParsedRow) (accounts : AccountsByCircuit) (v : ValidatedRow)
    → validate_row row accounts ≡ passed v
    → ((c : String) × (accounts c ≡ some v.account))
      × (same_status v.account.contract_status terminated ≡ false)
      × IsAdmissible v.change_type v.account.current_arc v.new_arc
validate_row-IsAdmissible row accounts v h =
    let (c, a, t, date, q, z, k) = validate_row-steps row accounts v h in
    let (same, day, live, terms) = check_terms-IsAdmissible row a t date v k in
    ((c, ground arith), ground arith, ground arith)

pub validate_row-date :
    (row : ParsedRow) (accounts : AccountsByCircuit) (v : ValidatedRow)
    → validate_row row accounts ≡ passed v
    → row.effective_date ≡ some v.effective_date
validate_row-date row accounts v h =
    let (c, a, t, date, q, z, k) = validate_row-steps row accounts v h in
    let (same, day, live, terms) = check_terms-IsAdmissible row a t date v k in ground arith
