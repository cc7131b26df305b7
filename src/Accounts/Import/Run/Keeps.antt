-- ===== src/Accounts/Import/Run/Keeps.antt =====
-- What an import keeps (src/modules/accounts/import/import.service.ts).
use isp_sam_backend.Prelude.{
  ℕ, ◌≡◌, ◌≢◌, String, true, false, none, sym, subst, some, List, [], ◌∷◌, arith, refl, inl, inr,
  ◌∙◌, Bool-cases, ◌==◌,
}
use isp_sam_backend.Db.{ContractStatus, Account, Table, Store, IsConsistent, add, put, find_many}
use isp_sam_backend.Db.Keeps.{moved}
use isp_sam_backend.World.{World}
use isp_sam_backend.Accounts.Import.Sheet.{ParsedRow}
use isp_sam_backend.Accounts.Import.Directory.{SamDirectory, load_sam_directory}
use isp_sam_backend.Accounts.Import.Validate.{ValidatedData, validate}
use isp_sam_backend.Accounts.Import.Write.{updated_account, created_account, write_data, is_in_use}
use isp_sam_backend.Accounts.Import.Write.Laws.{failed, added, changed, write_data-Effect}
use isp_sam_backend.Accounts.Import.Write.Unique.{IsIndexed, put-IsIndexed, add-IsIndexed}
use isp_sam_backend.Accounts.Import.Run.{
  ImportSummary, import_row, import_rows, import_workbook, started,
}
use isp_sam_backend.Accounts.Import.Run.Counts.{Validation-cases}

-- What a row and a run of rows leave of a store.
record Step (s t : Store) : Type 0 where
  pub indexed : IsIndexed s.accounts → IsIndexed t.accounts
  pub there :
      (k : ℕ) (a : Account)
      → s.accounts.row k ≡ some a
      → (b : Account) × (t.accounts.row k ≡ some b)
        × (b.start_of_period_arc ≡ a.start_of_period_arc)
        × (b.last_meeting_date ≡ a.last_meeting_date)
        × (b.last_mom_date ≡ a.last_mom_date)
  pub others : t ≡ record s { accounts = t.accounts }
  pub consistent : IsConsistent s → IsConsistent t

same-Step : (s t : Store) → t ≡ s → Step s t
same-Step s t e = record {
  indexed = λ h. ground arith;
  there = λ k a f. (a, ground arith, refl, refl, refl);
  others = ground arith;
  consistent = λ c. moved c e;
}

then-Step : (s t u : Store) → Step s t → Step t u → Step s u
then-Step s t u p q = record {
  indexed = λ h. q.indexed (p.indexed h);
  there = λ k a f.
      let (b, g, x, y, z) = p.there k a f in
      let (c, h, x', y', z') = q.there k b g in (c, h, x' ∙ x, y' ∙ y, z' ∙ z);
  others = let e = p.others in let f = q.others in ground arith;
  consistent = λ c. q.consistent (p.consistent c);
}

-- The foreign key of a change leads to the same account.
grown-IsConsistent :
    (s : Store) (accounts : Table Account)
    → ((k : ℕ) → s.accounts.row k ≢ none → accounts.row k ≢ none)
    → IsConsistent s
    → IsConsistent (record s { accounts = accounts })
grown-IsConsistent s accounts g h = record {
  sound = record {
    keyed = h.sound.keyed;
    listed = h.sound.listed;
    owned = λ k c e. g c.account_id (h.sound.owned k c e);
  };
  rows = h.rows;
}

added-Step :
    (w : World) (d : ValidatedData) (st : ContractStatus) (s : Store)
    → s.accounts.row w.fresh_id ≡ none
    → is_in_use w.fresh_id (created_account w d st) s ≡ false
    → Step s (record s { accounts = add w.fresh_id (created_account w d st) s.accounts })
added-Step w d st s free own =
    let a = created_account w d st in
    record {
      indexed = λ h. add-IsIndexed w.fresh_id a s h refl own;
      there = λ k b f. (b, ground arith, refl, refl, refl);
      others = refl;
      consistent = grown-IsConsistent s (add w.fresh_id a s.accounts) (λ k n. ground arith);
    }

changed-Step :
    (d : ValidatedData) (st : ContractStatus) (k : ℕ) (a : Account) (s : Store)
    → s.accounts.row k ≡ some a
    → is_in_use k (updated_account d st a) s ≡ false
    → Step s (record s { accounts = put k (updated_account d st a) s.accounts })
changed-Step d st k a s f own =
    let b = updated_account d st a in
    record {
      indexed = λ h. put-IsIndexed k b s h (h.keyed k a f) own (h.listed k a f);
      there = λ j x g. elim (Bool-cases (k == j)) [
        | inl same ↦ (b, ground arith, ground arith, ground arith, ground arith)
        | inr other ↦ (x, ground arith, refl, refl, refl)
      ];
      others = refl;
      consistent = grown-IsConsistent s (put k b s.accounts) (λ j n. ground arith);
    }

write_data-Step : (w : World) (d : ValidatedData) (s : Store) → Step s (write_data w d s).1
write_data-Step w d s = elim (write_data-Effect w d s) [
  | failed e r same ↦ same-Step s (write_data w d s).1 same
  | added st free own r e ↦ subst (Step s) (sym e) (added-Step w d st s free own)
  | changed st k a f own r e ↦ subst (Step s) (sym e) (changed-Step d st k a s f own)
]

module _ (lower : String → String) (worlds : ℕ → World) (year : ℕ) where
  import_row-Step :
      (directory : SamDirectory) (row : ParsedRow) (m : ImportSummary) (s : Store)
      → Step s (import_row lower worlds year directory row m s).1
  unfolding import_row
  import_row-Step directory row m s =
      let w = worlds row.row_number in
      elim (Validation-cases (validate lower w year row directory)) [
        | inl e ↦ same-Step s (import_row lower worlds year directory row m s).1 (ground arith)
        | inr (d, owner, warned, e) ↦
            let q : (import_row lower worlds year directory row m s).1 ≡ (write_data w d s).1 =
              ground arith in
            subst (Step s) (sym q) (write_data-Step w d s)
      ]

  import_rows-Step :
      (directory : SamDirectory) (rows : List ParsedRow) (m : ImportSummary) (s : Store)
      → Step s (import_rows lower worlds year directory rows m s).1
  unfolding import_rows
  import_rows-Step directory [] m s = same-Step s s refl
  import_rows-Step directory (row ∷ rows) m s =
      let (m', s') = import_row lower worlds year directory row m s in
      let p = import_row-Step directory row m s in
      then-Step s s' (import_rows lower worlds year directory rows m' s').1 p
        (import_rows-Step directory rows m' s')

  import_workbook-Step :
      (rows : List ParsedRow) (parse_errors : List ℕ) (s : Store)
      → Step s (import_workbook lower worlds year rows parse_errors s).1
  unfolding import_workbook
  import_workbook-Step rows parse_errors s =
      import_rows-Step (load_sam_directory lower (find_many (λ _. true) s.users)) rows
        (started parse_errors) s

  pub import_workbook-IsConsistent :
      (rows : List ParsedRow) (parse_errors : List ℕ) (s : Store)
      → IsConsistent s
      → IsConsistent (import_workbook lower worlds year rows parse_errors s).1
  import_workbook-IsConsistent rows parse_errors s =
      (import_workbook-Step rows parse_errors s).consistent

  -- Where accounts stand under their ids and no two share a lead, a CRM customer, a customer code or a
  -- circuit, an import keeps it so. It loses no account: each is there afterwards with the same ARC at
  -- the start of the period and the same last meeting and last minutes. It writes to no other table.
  pub import_workbook-IsIndexed :
      (rows : List ParsedRow) (parse_errors : List ℕ) (s : Store)
      → IsIndexed s.accounts
      → let t = (import_workbook lower worlds year rows parse_errors s).1 in
        IsIndexed t.accounts
        × ((k : ℕ) (a : Account)
            → s.accounts.row k ≡ some a
            → (b : Account) × (t.accounts.row k ≡ some b)
              × (b.start_of_period_arc ≡ a.start_of_period_arc)
              × (b.last_meeting_date ≡ a.last_meeting_date)
              × (b.last_mom_date ≡ a.last_mom_date))
        × (t ≡ record s { accounts = t.accounts })
  import_workbook-IsIndexed rows parse_errors s h =
      let p = import_workbook-Step rows parse_errors s in (p.indexed h, p.there, p.others)
