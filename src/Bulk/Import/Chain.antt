-- ===== src/Bulk/Import/Chain.antt =====
-- What an import does, row by row
-- (src/modules/commercial-changes/bulk-import/bulk-import.service.ts).
use isp_sam_backend.Prelude.{
  subst, ℕ, ◌≡◌, ◌≢◌, false, some, List, [], ◌∷◌, ◌++◌, arith, refl, sym, ◌⊎◌, inl, inr,
  if◌then◌else◌,
}
use isp_sam_backend.Db.{Account, Change, Store, terminated, same_status, is_disconnection}
use isp_sam_backend.Dates.{start_of_day_utc}
use isp_sam_backend.World.{World}
use isp_sam_backend.Bulk.Sheet.{ParsedRow}
use isp_sam_backend.Bulk.Validate.{passed, refused, RowError, ValidatedRow, validate_row}
use isp_sam_backend.Bulk.Validate.Laws.{IsAdmissible, Check-cases, validate_row-IsAdmissible}
use isp_sam_backend.Bulk.Apply.{ImportContext, imported_change, imported_account, apply_row}
use isp_sam_backend.Bulk.Apply.Laws.{apply_row_lem}
use isp_sam_backend.Bulk.Import.{
  BulkImportedRowPreview, Progress, preview, skip, accept, import_row, import_rows, import_workbook,
  started, ordered_rows,
}
use isp_sam_backend.Bulk.Import.Current.{
  IsCurrent, HasAccounts, entry_there, chained-IsCurrent, accounts_by_circuit-IsCurrent,
}

-- A row is applied to a store: it takes the ARC that its account has there, which is not terminated,
-- to another that fits the type, and stores a change with these terms, which is applied already. The
-- account of a disconnection is terminated; another keeps its status. No other account or change is
-- touched.
pub record IsApplied (x : BulkImportedRowPreview) (s t : Store) : Type 0 where
  pub id : ℕ
  pub account : Account
  pub found : s.accounts.row id ≡ some account
  pub circuit : account.circuit_id ≡ some x.circuit_id
  pub live : same_status account.contract_status terminated ≡ false
  pub start : x.old_arc ≡ account.current_arc
  pub terms : IsAdmissible x.change_type x.old_arc x.new_arc
  pub after : Account
  pub left : t.accounts.row id ≡ some after
  pub arc : after.current_arc ≡ x.new_arc
  pub status :
      after.contract_status
      ≡ (if is_disconnection x.change_type then terminated else account.contract_status)
  pub change : Change
  pub stored : t.changes.row change.id ≡ some change
  pub owner : change.account_id ≡ id
  pub from_arc : change.old_arc ≡ x.old_arc
  pub to_arc : change.new_arc ≡ x.new_arc
  pub applied : change.account_applied_at ≡ some x.effective_date
  pub other_accounts : (j : ℕ) → j ≢ id → t.accounts.row j ≡ s.accounts.row j
  pub other_changes : (j : ℕ) → j ≢ change.id → t.changes.row j ≡ s.changes.row j

-- Applied rows, one after the other.
pub data Chain (s : Store) : List BulkImportedRowPreview → Store → Type 0 where
  none_yet : Chain s [] s
  next :
      {xs : List BulkImportedRowPreview} {t : Store} (x : BulkImportedRowPreview) (u : Store)
      → Chain s xs t
      → IsApplied x t u
      → Chain s (xs ++ x ∷ []) u

imported_arc :
    (v : ValidatedRow) (a : Account)
    → IsAdmissible v.change_type v.account.current_arc v.new_arc
    → (imported_account v a).current_arc ≡ v.new_arc
imported_arc v a h = ground arith

module _ (worlds : ℕ → World) (ctx : ImportContext) where
  row-IsApplied :
      (row : ParsedRow) (v : ValidatedRow) (p : Progress) (s : Store)
      → IsCurrent p.accounts s.accounts.row
      → validate_row row p.accounts ≡ passed v
      → let w = worlds row.row_number in
        IsApplied (preview v (start_of_day_utc v.effective_date)) s (apply_row w ctx v s).1
  row-IsApplied row v p s h e =
      let w = worlds row.row_number in
      let (c, a, f, q, r) = entry_there row p.accounts s.accounts.row v h e in
      let (b, live, terms) = validate_row-IsAdmissible row p.accounts v e in
      let (_, stored, left, oc, oa) = apply_row_lem w ctx v s a f in
      record {
        id = v.account.id;
        account = a;
        found = f;
        circuit = ground arith;
        live = ground arith;
        start = ground arith;
        terms = terms;
        after = imported_account v a;
        left = left;
        arc = imported_arc v a terms;
        status = ground arith;
        change = imported_change w ctx v;
        stored = stored;
        owner = refl;
        from_arc = refl;
        to_arc = refl;
        applied = refl;
        other_accounts = oa;
        other_changes = oc;
      }

  -- The store that a row leaves is reached by a row that is applied, or is the same.
  Reaches : Progress → Store → Progress → Store → Type 0
  Reaches p s q t =
      ((q.summary.applied_changes ≡ p.summary.applied_changes) × (t ≡ s))
      ⊎ ((x : BulkImportedRowPreview) × (q.summary.applied_changes
            ≡ p.summary.applied_changes ++ x ∷ [])
          × IsApplied x s t)

  import_row-refused :
      (row : ParsedRow) (p : Progress) (s : Store) (e : RowError)
      → validate_row row p.accounts ≡ refused e
      → import_row worlds ctx row p s ≡ (skip row e p, s)
  unfolding import_row
  import_row-refused row p s e h = ground arith

  -- Where the account is there, a row that passes never fails.
  import_row-passed :
      (row : ParsedRow) (p : Progress) (s : Store) (v : ValidatedRow) (a : Account)
      → validate_row row p.accounts ≡ passed v
      → s.accounts.row v.account.id ≡ some a
      → import_row worlds ctx row p s ≡ (
        accept v (start_of_day_utc v.effective_date) p,
        (apply_row (worlds row.row_number) ctx v s).1,
      )
  unfolding import_row
  import_row-passed row p s v a h f =
      let (r, _, _, _, _) = apply_row_lem (worlds row.row_number) ctx v s a f in ground arith

  import_row-moves :
      (row : ParsedRow) (p : Progress) (s : Store)
      → IsCurrent p.accounts s.accounts.row
      → let (q, t) = import_row worlds ctx row p s in
        IsCurrent q.accounts t.accounts.row × Reaches p s q t
  unfolding Reaches
  import_row-moves row p s h = elim (Check-cases (validate_row row p.accounts)) [
    | inl (v, e) ↦
        let w = worlds row.row_number in
        let (c, a, f, q, r) = entry_there row p.accounts s.accounts.row v h e in
        let (_, _, left, _, others) = apply_row_lem w ctx v s a f in
        rw (import_row-passed row p s v a e f) (
          chained-IsCurrent v c a p.accounts s.accounts.row (apply_row w ctx v s).1.accounts.row h f
              q r left others,
          inr (preview v (start_of_day_utc v.effective_date), refl, row-IsApplied row v p s h e),
        )
    | inr (x, e) ↦ rw (import_row-refused row p s x e) (h, inl (refl, refl))
  ]

  extend :
      {first : Store} (p : Progress) (s : Store) (q : Progress) (t : Store)
      → Reaches p s q t
      → Chain first p.summary.applied_changes s
      → Chain first q.summary.applied_changes t
  unfolding Reaches
  extend {first} p s q t (inl (e, f)) c =
      subst (λ xs. Chain first xs t) (sym e)
        (subst (λ u. Chain first p.summary.applied_changes u) (sym f) c)
  extend {first} p s q t (inr (x, e, a)) c = subst (λ xs. Chain first xs t) (sym e) (next x t c a)

  import_rows-Chain :
      {first : Store} (rows : List ParsedRow) (p : Progress) (s : Store)
      → IsCurrent p.accounts s.accounts.row
      → Chain first p.summary.applied_changes s
      → let (q, t) = import_rows worlds ctx rows p s in Chain first q.summary.applied_changes t
  unfolding import_rows
  import_rows-Chain [] p s h c = c
  import_rows-Chain (row ∷ rows) p s h c =
      let (q, t) = import_row worlds ctx row p s in
      let (k, r) = import_row-moves row p s h in import_rows-Chain rows q t k (extend p s q t r c)

  -- An import reaches its store by applying the rows of its summary, one after the other, each to
  -- the ARC that the rows before it left.
  pub import_workbook-Chain :
      (rows : List ParsedRow) (parse_errors : List ℕ) (s : Store)
      → HasAccounts s
      → let (r, t) = import_workbook worlds ctx rows parse_errors s in Chain s r.applied_changes t
  unfolding import_workbook
  import_workbook-Chain rows parse_errors s h =
      import_rows-Chain (ordered_rows rows) (started rows parse_errors s) s
        (accounts_by_circuit-IsCurrent rows s h) none_yet
