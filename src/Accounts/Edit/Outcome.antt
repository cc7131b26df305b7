-- ===== src/Accounts/Edit/Outcome.antt =====
-- What an edit does to the store (src/modules/accounts/accounts.service.ts).
use isp_sam_backend.Prelude.{
  ℕ, ◌≡◌, ◌≢◌, false, some, List, [], ◌∷◌, ◌++◌, map, arith, refl, inl, inr, Bool-cases,
  Option-cases, List-cases,
}
use isp_sam_backend.Db.{Account, Store, ok, put, IsConsistent}
use isp_sam_backend.Db.Keeps.{Keeps-set_account, moved}
use isp_sam_backend.Accounts.Import.Write.{is_in_use}
use isp_sam_backend.Accounts.Edit.{
  AccountUpdatePatch, UpdateContext, Diff, update_data, diffs_of, edited_account,
  update_field_audit, clears_name, write_edit, edit_found, update_account_fields,
}
use isp_sam_backend.Accounts.Edit.Laws.{IsEdited, edited_account-IsEdited, unchanged-IsEdited}

-- The three ways an edit of an account ends.
pub data Edited (ctx : UpdateContext) (k : ℕ) (patch : AccountUpdatePatch) (s : Store)
    : Type 0 where
  refused :
      ((v : Account × List Diff) → (update_account_fields ctx k patch s).0 ≢ ok v)
      → (update_account_fields ctx k patch s).1 ≡ s
      → Edited ctx k patch s
  nothing :
      (a : Account)
      → s.accounts.row k ≡ some a
      → diffs_of (update_data patch a) a ≡ []
      → (update_account_fields ctx k patch s).0 ≡ ok (a, [])
      → (update_account_fields ctx k patch s).1 ≡ s
      → Edited ctx k patch s
  written :
      (a : Account)
      → s.accounts.row k ≡ some a
      → clears_name (update_data patch a) ≡ false
      → is_in_use k (edited_account (update_data patch a) a) s ≡ false
      → (update_account_fields ctx k patch s).0
        ≡ ok (edited_account (update_data patch a) a, diffs_of (update_data patch a) a)
      → (update_account_fields ctx k patch s).1 ≡ record s {
        accounts = put k (edited_account (update_data patch a) a) s.accounts;
        audit = s.audit ++ map (update_field_audit ctx k) (diffs_of (update_data patch a) a);
      }
      → Edited ctx k patch s

update_account_fields-Edited :
    (ctx : UpdateContext) (k : ℕ) (patch : AccountUpdatePatch) (s : Store) → Edited ctx k patch s
unfolding update_account_fields edit_found write_edit
update_account_fields-Edited ctx k patch s = elim (Option-cases (s.accounts.row k)) [
  | inl e ↦ refused (λ v x. ground arith) (ground arith)
  | inr (a, e) ↦
      let d = update_data patch a in
      elim (List-cases (diffs_of d a)) [
        | inl n ↦ nothing a e n (ground arith) (ground arith)
        | inr (x, xs, n) ↦ elim (Bool-cases (clears_name d)) [
          | inl c ↦ refused (λ v x. ground arith) (ground arith)
          | inr c ↦ elim (Bool-cases (is_in_use k (edited_account d a) s)) [
            | inl taken ↦ refused (λ v x. ground arith) (ground arith)
            | inr free ↦ written a e c free (ground arith) (ground arith)
          ]
        ]
      ]
]

append_empty : {A : Type 0} (xs : List A) → xs ++ [] ≡ xs
append_empty [] = refl
append_empty (x ∷ xs) = ground (arith, append_empty xs)

-- An edit that returns gives the account with the fields that were given in place of its own, texts
-- trimmed and empty ones as null, the onboarding date by its day, and its id, kitty, owner, meeting
-- dates and metadata as before, and stores it; no other account changes. Every difference that it
-- gives is one row at the end of the audit trail, and there are no other new rows.
pub update_account_fields_lem :
    (ctx : UpdateContext) (k : ℕ) (patch : AccountUpdatePatch) (s : Store) (b : Account)
    (ds : List Diff)
    → (update_account_fields ctx k patch s).0 ≡ ok (b, ds)
    → let t = (update_account_fields ctx k patch s).1 in
      ((a : Account) × (s.accounts.row k ≡ some a) × IsEdited patch a b)
      × (t.accounts.row k ≡ some b)
      × ((j : ℕ) → j ≢ k → t.accounts.row j ≡ s.accounts.row j)
      × (t.audit ≡ s.audit ++ map (update_field_audit ctx k) ds)
update_account_fields_lem ctx k patch s b ds e = elim (update_account_fields-Edited ctx k patch s) [
  | refused never same ↦ absurd (never (b, ds) e)
  | nothing a f n r same ↦
      let q : b ≡ a = ground arith in
      let z : ds ≡ [] = ground arith in
      let nil = append_empty s.audit in
      (
        (a, f, rw q (unchanged-IsEdited patch a n)),
        ground arith,
        λ j ne. ground arith,
        ground arith,
      )
  | written a f c free r w ↦
      let q : b ≡ edited_account (update_data patch a) a = ground arith in
      let z : ds ≡ diffs_of (update_data patch a) a = ground arith in
      (
        (a, f, rw q (edited_account-IsEdited patch a c)),
        ground arith,
        λ j ne. ground arith,
        ground arith,
      )
]

pub update_account_fields-IsConsistent :
    (ctx : UpdateContext) (k : ℕ) (patch : AccountUpdatePatch) (s : Store)
    → IsConsistent s
    → IsConsistent (update_account_fields ctx k patch s).1
update_account_fields-IsConsistent ctx k patch s h =
    elim (update_account_fields-Edited ctx k patch s) [
      | refused never same ↦ moved h same
      | nothing a f n r same ↦ moved h same
      | written a f c free r w ↦
          let p = (Keeps-set_account k (edited_account (update_data patch a) a)).at s h in
          moved
            (record {
              sound = record {
                keyed = p.sound.keyed;
                listed = p.sound.listed;
                owned = p.sound.owned;
              };
              rows = p.rows;
            })
            w
    ]
