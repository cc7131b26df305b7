-- ===== src/Changes/Apply/Keeps.antt =====
-- Mirroring a change and the sweep keep the store consistent
-- (src/modules/commercial-changes/commercial-changes.service.ts).
use isp_sam_backend.Prelude.{ℕ, List, [], ◌∷◌, refl}
use isp_sam_backend.Db.{Change, is_consistent}
use isp_sam_backend.Db.Keeps.{IsFaithful, Keeps, Keeps-then, keeps_rules}
use isp_sam_backend.Changes.Apply.{
  mark_applied, apply_unapplied, apply_change_to_account, apply_each, sweep_due_terminations,
}

applied-IsFaithful : (now : ℕ) → IsFaithful (mark_applied now)
unfolding is_consistent
applied-IsFaithful now = record {
  same_id = λ c. refl;
  same_account = λ c. refl;
  consistent = λ c h. h;
}

Keeps-unapplied : (now k : ℕ) (c : Change) → Keeps (apply_unapplied now k c)
unfolding apply_unapplied
Keeps-unapplied now k c = search (keeps_rules, applied-IsFaithful) depth 9

pub Keeps-apply_change_to_account : (now k : ℕ) → Keeps (apply_change_to_account now k)
unfolding apply_change_to_account
Keeps-apply_change_to_account now k = search (keeps_rules, Keeps-unapplied) depth 9

Keeps-apply_each : (now : ℕ) (ks : List ℕ) → Keeps (apply_each now ks)
unfolding apply_each
Keeps-apply_each now [] = search keeps_rules
Keeps-apply_each now (k ∷ ks) =
    Keeps-then _ _ (Keeps-apply_change_to_account now k) (Keeps-apply_each now ks)

pub Keeps-sweep : (now : ℕ) → Keeps (sweep_due_terminations now)
unfolding sweep_due_terminations
Keeps-sweep now = search (keeps_rules, Keeps-apply_each)
