-- ===== src/Changes/Apply/Sweep.antt =====
-- The lazy sweep leaves no termination overdue
-- (src/modules/commercial-changes/commercial-changes.service.ts).
use isp_sam_backend.Prelude.{
  ℕ, ◌≡◌, ◌≢◌, refl, Bool, false, none, some, List, [], ◌∷◌, arith, includes, is_some, map,
  Option-cases, Bool-cases, inl, inr, ◌==◌, if◌then◌else◌,
}
use isp_sam_backend.Db.{
  Change, Store, Result, ok, IsSound, Found, find_many-Found, includes-find_many, >>-ok, find_many,
}
use isp_sam_backend.Dates.{start_of_day_utc}
use isp_sam_backend.Changes.Apply.{
  mark_applied, is_due, apply_change_to_account, apply_each, sweep_due_terminations,
}

-- One call on a row that is there succeeds and keeps the store sound.
module _ (now k : ℕ) (s : Store) (h : IsSound s) (c : Change) (f : s.changes.row k ≡ some c) where
  applied_row : Change
  applied_row = if is_some c.account_applied_at then c else mark_applied now c

  succeeds : (apply_change_to_account now k s).0 ≡ ok applied_row
  unfolding apply_change_to_account applied_row
  succeeds = ground (arith, h.owned k c f)

  step_row :
      (j : ℕ)
      → (apply_change_to_account now k s).1.changes.row j
        ≡ (if k == j then some applied_row else s.changes.row j)
  unfolding apply_change_to_account applied_row
  step_row j = ground (arith, h.owned k c f)

  step-IsSound : IsSound (apply_change_to_account now k s).1
  unfolding apply_change_to_account
  step-IsSound = record {
    keyed = λ j d e. ground (arith, h.keyed k c f, h.keyed j d, h.owned k c f);
    listed = λ j d e. ground (arith, h.listed k c f, h.listed j d, h.owned k c f);
    owned = λ j d e. ground (arith, h.owned k c f, h.owned j d);
  }

abbrev Present : Store → List ℕ → Type 0
Present s [] = Unit
Present s (k ∷ ks) = (s.changes.row k ≢ none) × Present s ks

Present-step :
    (now k : ℕ) (s : Store) (h : IsSound s) (c : Change) (f : s.changes.row k ≡ some c)
    (ks : List ℕ)
    → Present s ks
    → Present (apply_change_to_account now k s).1 ks
Present-step now k s h c f [] p = tt
Present-step now k s h c f (j ∷ js) p =
    (ground (arith, step_row now k s h c f j), Present-step now k s h c f js p.1)

-- After the loop a row that is still unapplied was not among the ids, and is as it was.
record Swept (ks : List ℕ) (s : Store) (r : Result (Unit {0})) (s' : Store) : Type 0 where
  done : r ≡ ok tt
  sound : IsSound s'
  left :
      (j : ℕ) (d : Change)
      → s'.changes.row j ≡ some d
      → is_some d.account_applied_at ≡ false
      → (s.changes.row j ≡ some d) × (includes j ks ≡ false)

unapplied :
    (now k : ℕ) (s : Store) (h : IsSound s) (c : Change) (f : s.changes.row k ≡ some c)
    (ks : List ℕ) (j : ℕ) (d : Change)
    → (apply_change_to_account now k s).1.changes.row j ≡ some d
    → includes j ks ≡ false
    → is_some d.account_applied_at ≡ false
    → (s.changes.row j ≡ some d) × (includes j (k ∷ ks) ≡ false)
unfolding applied_row
unapplied now k s h c f ks j d e l u = ground (arith, step_row now k s h c f j)

apply_each-Swept :
    (now : ℕ) (ks : List ℕ) (s : Store)
    → IsSound s
    → Present s ks
    → Swept ks s (apply_each now ks s).0 (apply_each now ks s).1
unfolding apply_each
apply_each-Swept now [] s h p = record { done = refl; sound = h; left = λ j d e u. (e, refl) }
apply_each-Swept now (k ∷ ks) s h p = elim (Option-cases (s.changes.row k)) [
  | inl missing ↦ absurd (p.0 missing)
  | inr (c, f) ↦
      let s1 = (apply_change_to_account now k s).1 in
      let ih =
        apply_each-Swept now ks s1 (step-IsSound now k s h c f)
          (Present-step now k s h c f ks p.1) in
      rw (>>-ok (apply_change_to_account now k) (apply_each now ks) s (succeeds now k s h c f))
        (record {
          done = ih.done;
          sound = ih.sound;
          left = λ j d e u.
              let (kept, fresh) = ih.left j d e u in unapplied now k s h c f ks j d kept fresh u;
        })
]

Found-Present :
    (p : Change → Bool) (s : Store) (cs : List Change)
    → Found p s.changes.row cs
    → Present s (map (λ c. c.id) cs)
Found-Present p s [] f = tt
Found-Present p s (c ∷ cs) f = (ground arith, Found-Present p s cs f.2)

not_due :
    (s : Store) (p : Change → Bool)
    → IsSound s
    → (j : ℕ) (d : Change) → s.changes.row j ≡ some d
    → includes j (map (λ c. c.id) (find_many p s.changes)) ≡ false
    → p d ≡ false
not_due s p h j d e skipped = elim (Bool-cases (p d)) [
  | inr f ↦ f
  | inl t ↦
      cc
        (includes-find_many p s.changes.row s.changes.keys j d e (h.keyed j d e) t (h.listed j d e))
]

-- The sweep of a sound store succeeds and leaves it sound, and afterwards no termination is due. A
-- row that is still unapplied is as it was.
pub sweep_due_terminations_lem :
    (now : ℕ) (s : Store)
    → IsSound s
    → let (r, s') = sweep_due_terminations now s in
      (r ≡ ok tt)
      × IsSound s'
      × ((j : ℕ) (d : Change)
          → s'.changes.row j ≡ some d
          → is_some d.account_applied_at ≡ false
          → (s.changes.row j ≡ some d) × (is_due (start_of_day_utc now) d ≡ false))
unfolding sweep_due_terminations
sweep_due_terminations_lem now s h =
    let p : Change → Bool = is_due (start_of_day_utc now) in
    let due = find_many p s.changes in
    let found = find_many-Found p s.changes.row s.changes.keys h.keyed in
    let w = apply_each-Swept now (map (λ c. c.id) due) s h (Found-Present p s due found) in
    (
      w.done,
      w.sound,
      λ j d e u. let (kept, skipped) = w.left j d e u in (kept, not_due s p h j d kept skipped),
    )

-- Nothing is due after the sweep: what is still unapplied was not, and what is applied is not.
pub sweep-is_due :
    (now : ℕ) (s : Store)
    → IsSound s
    → (k : ℕ) (c : Change) → (sweep_due_terminations now s).1.changes.row k ≡ some c
    → is_due (start_of_day_utc now) c ≡ false
sweep-is_due now s h k c e =
    let (done, sound, left) = sweep_due_terminations_lem now s h in
    elim (Bool-cases (is_some c.account_applied_at)) [
      | inl a ↦ ground arith
      | inr u ↦ (left k c e u).1
    ]
