-- ===== src/Bulk/Import/Sorted.antt =====
-- An import applies its rows in the order of their effective dates
-- (src/modules/commercial-changes/bulk-import/bulk-import.service.ts).
use isp_sam_backend.Prelude.{
  ℕ, ◌≡◌, ◌≤◌, true, false, some, List, [], ◌∷◌, ◌++◌, All, arith, inl, inr, Bool-cases, ◌⊎◌,
}
use isp_sam_backend.Db.{Store, Result-cases}
use isp_sam_backend.Dates.{start_of_day_utc}
use isp_sam_backend.World.{World}
use isp_sam_backend.Bulk.Sheet.{ParsedRow}
use isp_sam_backend.Bulk.Validate.{validate_row}
use isp_sam_backend.Bulk.Validate.Laws.{Check-cases, validate_row-date}
use isp_sam_backend.Bulk.Apply.{ImportContext, apply_row}
use isp_sam_backend.Bulk.Apply.Laws.{apply_row-day}
use isp_sam_backend.Bulk.Import.{
  BulkImportedRowPreview, Progress, preview, in_date_order, insert_row, ordered_rows, import_row,
  import_rows, import_workbook, started,
}

-- Each row is no later than all that follow it.
abbrev IsSorted : List ParsedRow → Type 0
IsSorted [] = Unit
IsSorted (x ∷ xs) = All (λ y. in_date_order x y ≡ true) xs × IsSorted xs

in_date_order_total : (x y : ParsedRow) → in_date_order x y ≡ false → in_date_order y x ≡ true
in_date_order_total x y h = ground arith

in_date_order_trans :
    (x y z : ParsedRow)
    → in_date_order x y ≡ true
    → in_date_order y z ≡ true
    → in_date_order x z ≡ true
in_date_order_trans x y z h k = ground arith

All-in_date_order :
    (x y : ParsedRow) (zs : List ParsedRow)
    → in_date_order x y ≡ true
    → All (λ z. in_date_order y z ≡ true) zs
    → All (λ z. in_date_order x z ≡ true) zs
All-in_date_order x y [] h a = tt
All-in_date_order x y (z ∷ zs) h (b, a) =
    (in_date_order_trans x y z h b, All-in_date_order x y zs h a)

All-insert_row :
    (y x : ParsedRow) (zs : List ParsedRow)
    → in_date_order y x ≡ true
    → All (λ z. in_date_order y z ≡ true) zs
    → All (λ z. in_date_order y z ≡ true) (insert_row x zs)
unfolding insert_row
All-insert_row y x [] h a = (h, tt)
All-insert_row y x (z ∷ zs) h (b, a) = elim (Bool-cases (in_date_order x z)) [
  | inl e ↦ rw e (h, (b, a))
  | inr e ↦ rw e (b, All-insert_row y x zs h a)
]

insert_row-IsSorted :
    (x : ParsedRow) (ys : List ParsedRow) → IsSorted ys → IsSorted (insert_row x ys)
unfolding insert_row
insert_row-IsSorted x [] h = (tt, tt)
insert_row-IsSorted x (y ∷ ys) (a, h) = elim (Bool-cases (in_date_order x y)) [
  | inl e ↦ rw e ((e, All-in_date_order x y ys e a), (a, h))
  | inr e ↦ rw e (All-insert_row y x ys (in_date_order_total x y e) a, insert_row-IsSorted x ys h)
]

ordered_rows-IsSorted : (rows : List ParsedRow) → IsSorted (ordered_rows rows)
unfolding ordered_rows
ordered_rows-IsSorted [] = tt
ordered_rows-IsSorted (x ∷ xs) = insert_row-IsSorted x (ordered_rows xs) (ordered_rows-IsSorted xs)

-- No effective date after this one.
abbrev AtMost : ℕ → List BulkImportedRowPreview → Type 0
AtMost d xs = All (λ x. x.effective_date ≤ d) xs

-- The effective dates never fall.
abbrev pub IsAscending : List BulkImportedRowPreview → Type 0
IsAscending [] = Unit
IsAscending (x ∷ xs) = All (λ y. x.effective_date ≤ y.effective_date) xs × IsAscending xs

All-snoc :
    {A : Type 0} (P : A → Type 0) (xs : List A) (x : A) → All P xs → P x → All P (xs ++ x ∷ [])
All-snoc P [] x a p = (p, tt)
All-snoc P (y ∷ ys) x (q, a) p = (q, All-snoc P ys x a p)

IsAscending-snoc :
    (xs : List BulkImportedRowPreview) (x : BulkImportedRowPreview)
    → IsAscending xs
    → AtMost x.effective_date xs
    → IsAscending (xs ++ x ∷ [])
IsAscending-snoc [] x h a = (tt, tt)
IsAscending-snoc (y ∷ ys) x (b, h) (p, a) =
    (All-snoc (λ z. y.effective_date ≤ z.effective_date) ys x b p, IsAscending-snoc ys x h a)

AtMost-mono : (d e : ℕ) (xs : List BulkImportedRowPreview) → d ≤ e → AtMost d xs → AtMost e xs
AtMost-mono d e [] h a = tt
AtMost-mono d e (x ∷ xs) h (p, a) = (omega arith, AtMost-mono d e xs h a)

day_mono : (d e : ℕ) → d ≤ e → start_of_day_utc d ≤ start_of_day_utc e
unfolding start_of_day_utc
day_mono d e h = omega arith

-- What is applied is before the day of the row.
abbrev After : ParsedRow → List BulkImportedRowPreview → Type 0
After r xs = (d : ℕ) → r.effective_date ≡ some d → AtMost (start_of_day_utc d) xs

module _ (worlds : ℕ → World) (ctx : ImportContext) where
  import_row-appends :
      (row : ParsedRow) (p : Progress) (s : Store)
      → let q = (import_row worlds ctx row p s).0 in
        (q.summary.applied_changes ≡ p.summary.applied_changes)
        ⊎ ((x : BulkImportedRowPreview) × (d : ℕ) × (row.effective_date ≡ some d)
            × (x.effective_date ≡ start_of_day_utc d)
            × (q.summary.applied_changes ≡ p.summary.applied_changes ++ x ∷ []))
  unfolding import_row
  import_row-appends row p s = elim (Check-cases (validate_row row p.accounts)) [
    | inr (x, e) ↦ inl (ground arith)
    | inl (v, e) ↦ elim (Result-cases (apply_row (worlds row.row_number) ctx v s).0) [
      | inr (x, f) ↦ inl (ground arith)
      | inl (day, f) ↦ inr (
        preview v day,
        v.effective_date,
        validate_row-date row p.accounts v e,
        apply_row-day (worlds row.row_number) ctx v s day f,
        ground arith,
      )
    ]
  ]

  import_row-IsAscending :
      (row : ParsedRow) (p : Progress) (s : Store)
      → IsAscending p.summary.applied_changes
      → After row p.summary.applied_changes
      → let xs = (import_row worlds ctx row p s).0.summary.applied_changes in
        IsAscending xs
        × ((y : ParsedRow)
            → in_date_order row y ≡ true
            → After y p.summary.applied_changes
            → After y xs)
  import_row-IsAscending row p s h a = elim (import_row-appends row p s) [
    | inl e ↦ rw e (h, λ y l b. b)
    | inr (x, d, q, t, e) ↦ rw e (
      IsAscending-snoc p.summary.applied_changes x h (rw t (a d q)),
      λ y l b c r.
          All-snoc (λ z. z.effective_date ≤ start_of_day_utc c) p.summary.applied_changes x (b c r)
            (let m = day_mono d c (ground arith) in omega arith),
    )
  ]

  later_rows :
      (row : ParsedRow) (rows : List ParsedRow) (xs ys : List BulkImportedRowPreview)
      → ((y : ParsedRow) → in_date_order row y ≡ true → After y xs → After y ys)
      → All (λ y. in_date_order row y ≡ true) rows
      → All (λ y. After y xs) rows
      → All (λ y. After y ys) rows
  later_rows row [] xs ys f l a = tt
  later_rows row (y ∷ rows) xs ys f (l, ls) (a, as') = (f y l a, later_rows row rows xs ys f ls as')

  import_rows-IsAscending :
      (rows : List ParsedRow) (p : Progress) (s : Store)
      → IsSorted rows
      → IsAscending p.summary.applied_changes
      → All (λ y. After y p.summary.applied_changes) rows
      → IsAscending (import_rows worlds ctx rows p s).0.summary.applied_changes
  unfolding import_rows
  import_rows-IsAscending [] p s o h a = h
  import_rows-IsAscending (row ∷ rows) p s (l, o) h (a, rest) =
      let (q, t) = import_row worlds ctx row p s in
      let (k, f) = import_row-IsAscending row p s h a in
      import_rows-IsAscending rows q t o k
        (later_rows row rows p.summary.applied_changes q.summary.applied_changes f l rest)

  nothing-After : (rows : List ParsedRow) → All (λ y. After y []) rows
  nothing-After [] = tt
  nothing-After (y ∷ rows) = (λ d e. tt, nothing-After rows)

  -- The changes of an import stand in the order of their effective dates, whatever the order of the
  -- sheet is.
  pub import_workbook-IsAscending :
      (rows : List ParsedRow) (parse_errors : List ℕ) (s : Store)
      → IsAscending (import_workbook worlds ctx rows parse_errors s).0.applied_changes
  unfolding import_workbook
  import_workbook-IsAscending rows parse_errors s =
      import_rows-IsAscending (ordered_rows rows) (started rows parse_errors s) s
        (ordered_rows-IsSorted rows) tt (nothing-After (ordered_rows rows))
