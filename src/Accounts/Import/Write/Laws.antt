-- ===== src/Accounts/Import/Write/Laws.antt =====
-- What writing a row does to the accounts (src/modules/accounts/import/import.service.ts).
use isp_sam_backend.Prelude.{
  ℕ, ◌≡◌, false, none, some, is_some, arith, ◌⊎◌, inl, inr, refl, Bool-cases, Option-cases,
}
use isp_sam_backend.Db.{ContractStatus, Account, Store, Error, ok, err, add, put}
use isp_sam_backend.World.{World}
use isp_sam_backend.Accounts.Import.Validate.{Alias, status, inherited, ValidatedData}
use isp_sam_backend.Accounts.Import.Write.{
  find_existing, is_in_use, created_account, updated_account, create_account, save_account, created,
  updated, write_data,
}

-- A row that is written is a new account under a fresh id, or new columns of the one that was found.
pub data Effect (w : World) (d : ValidatedData) (s : Store) : Type 0 where
  failed : (e : Error) → (write_data w d s).0 ≡ err e → (write_data w d s).1 ≡ s → Effect w d s
  added :
      (st : ContractStatus)
      → s.accounts.row w.fresh_id ≡ none
      → is_in_use w.fresh_id (created_account w d st) s ≡ false
      → (write_data w d s).0 ≡ ok (created (created_account w d st))
      → (write_data w d s).1
        ≡ record s { accounts = add w.fresh_id (created_account w d st) s.accounts }
      → Effect w d s
  changed :
      (st : ContractStatus) (k : ℕ) (a : Account)
      → s.accounts.row k ≡ some a
      → is_in_use k (updated_account d st a) s ≡ false
      → (write_data w d s).0 ≡ ok (updated (updated_account d st a))
      → (write_data w d s).1 ≡ record s { accounts = put k (updated_account d st a) s.accounts }
      → Effect w d s

Alias-cases : (x : Alias) → (x ≡ inherited) ⊎ ((st : ContractStatus) × (x ≡ status st))
Alias-cases inherited = inl refl
Alias-cases (status st) = inr (st, refl)

create_account-Effect :
    (w : World) (d : ValidatedData) (st : ContractStatus) (s : Store)
    → d.contract_status ≡ status st
    → find_existing d s ≡ none
    → Effect w d s
unfolding write_data create_account
create_account-Effect w d st s e f = elim (Bool-cases (is_some (s.accounts.row w.fresh_id))) [
  | inl there ↦ failed Error.unique_violation (ground arith) (ground arith)
  | inr free ↦ elim (Bool-cases (is_in_use w.fresh_id (created_account w d st) s)) [
    | inl taken ↦ failed Error.unique_violation (ground arith) (ground arith)
    | inr own ↦ added st (ground arith) own (ground arith) (ground arith)
  ]
]

save_account-Effect :
    (w : World) (d : ValidatedData) (st : ContractStatus) (s : Store) (x : Account)
    → d.contract_status ≡ status st
    → find_existing d s ≡ some x
    → Effect w d s
unfolding write_data save_account
save_account-Effect w d st s x e f = elim (Option-cases (s.accounts.row x.id)) [
  | inl gone ↦ failed Error.record_not_found (ground arith) (ground arith)
  | inr (a, there) ↦ elim (Bool-cases (is_in_use x.id (updated_account d st a) s)) [
    | inl taken ↦ failed Error.unique_violation (ground arith) (ground arith)
    | inr own ↦ changed st x.id a there own (ground arith) (ground arith)
  ]
]

pub write_data-Effect : (w : World) (d : ValidatedData) (s : Store) → Effect w d s
unfolding write_data
write_data-Effect w d s = elim (Alias-cases d.contract_status) [
  | inl e ↦ failed Error.validation_failed (ground arith) (ground arith)
  | inr (st, e) ↦ elim (Option-cases (find_existing d s)) [
    | inl f ↦ create_account-Effect w d st s e f
    | inr (x, f) ↦ save_account-Effect w d st s x e f
  ]
]
