-- ===== src/Integrations/Status/Keeps.antt =====
-- The status webhook keeps the store consistent (src/modules/integrations/integrations.service.ts).
use isp_sam_backend.Prelude.{ℕ, Option, none, some, refl, arith, inl, inr}
use isp_sam_backend.Db.{Account, Change, ContractStatus, Action, Result-cases, is_consistent}
use isp_sam_backend.Db.Keeps.{
  Keeps, IsFaithful, moved, Keeps-bind, Keeps-then, Keeps-pure, Keeps-find_change_with_account,
  Keeps-create_audit, keeps_rules,
}
use isp_sam_backend.World.{World}
use isp_sam_backend.Integrations.Events.{duplicate_event}
use isp_sam_backend.Integrations.Keeps.{
  Keeps-ingest, Keeps-mark_processed, Keeps-reason, Keeps-update_event,
}
use isp_sam_backend.Integrations.Status.{
  StatusPayload, StatusKind, docs_review, in_flight, completed, stage_one_rejection,
  later_rejection, unknown, status_row, move_account, status_audit, apply_status, noting,
  handle_status, ingest_commercial_change_status_changed,
}

status_row-IsFaithful :
    (now : ℕ) (p : StatusPayload) (kind : StatusKind) → IsFaithful (status_row now p kind)
unfolding status_row is_consistent
status_row-IsFaithful now p docs_review = record {
  same_id = λ c. ground arith;
  same_account = λ c. ground arith;
  consistent = λ c h. ground arith;
}
status_row-IsFaithful now p stage_one_rejection = record {
  same_id = λ c. ground arith;
  same_account = λ c. ground arith;
  consistent = λ c h. ground arith;
}
status_row-IsFaithful now p completed = record {
  same_id = λ c. refl;
  same_account = λ c. refl;
  consistent = λ c h. h;
}
status_row-IsFaithful now p in_flight = record {
  same_id = λ c. refl;
  same_account = λ c. refl;
  consistent = λ c h. h;
}
status_row-IsFaithful now p later_rejection = record {
  same_id = λ c. refl;
  same_account = λ c. refl;
  consistent = λ c h. h;
}
status_row-IsFaithful now p unknown = record {
  same_id = λ c. refl;
  same_account = λ c. refl;
  consistent = λ c h. h;
}

Keeps-move_account : (k : ℕ) (m : Option ContractStatus) → Keeps (move_account k m)
unfolding move_account
Keeps-move_account k none = search keeps_rules
Keeps-move_account k (some st) = search keeps_rules

pub Keeps-noting : (k : ℕ) (m : Action (Unit {0})) → Keeps m → Keeps (noting k m)
Keeps-noting k m km = record {
  at = λ s h. elim (Result-cases (m s).0) [
    | inl (a, e) ↦ moved (km.at s h) (ground arith)
    | inr (e, q) ↦
        moved
          ((Keeps-update_event k (λ e. record e { status_reason = some "Apply failed" })).at (m s).1
            (km.at s h))
          (ground arith)
  ];
}

module _ (w : World) (p : StatusPayload) where
  Keeps-status_audit : (c : Change) → Keeps (status_audit p c)
  unfolding status_audit
  Keeps-status_audit c = Keeps-create_audit _

  Keeps-apply_status : (c : Change) (a : Account) → Keeps (apply_status w p c a)
  unfolding apply_status
  Keeps-apply_status c a = search (keeps_rules, status_row-IsFaithful, Keeps-move_account) depth 9

  Keeps-handle_status : (o : Option (Change × Account)) → Keeps (handle_status w p o)
  unfolding handle_status
  Keeps-handle_status none =
      Keeps-then _ _ (Keeps-reason w.fresh_id "Unknown commercialChangeId") (Keeps-pure _)
  Keeps-handle_status (some (c, a)) =
      Keeps-then _ _ (Keeps-noting w.fresh_id _ (Keeps-apply_status c a)) (
        Keeps-then _ _ (Keeps-mark_processed w.fresh_id c.account_id)
          (Keeps-then _ _ (Keeps-status_audit c) (Keeps-pure _)))

  pub Keeps-ingest_status : Keeps (ingest_commercial_change_status_changed w p)
  unfolding ingest_commercial_change_status_changed
  Keeps-ingest_status =
      Keeps-ingest w "commercialChange.statusChanged" p.event_id p.occurred_at _ _
        (λ e. Keeps-pure (duplicate_event e.id none))
        (λ k.
          Keeps-bind _ _ (Keeps-find_change_with_account p.commercial_change_id)
            Keeps-handle_status)
