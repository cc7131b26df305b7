-- ===== src/Integrations/Keeps.antt =====
-- The webhooks keep the store consistent (src/modules/integrations/integrations.service.ts).
use isp_sam_backend.Prelude.{ℕ, String, none, some, ◌≢◌, arith, Option-cases, inl, inr}
use isp_sam_backend.Db.{
  Account, Store, Action, ◌>>=◌, IntegrationEvent, IsConsistent, Table, put, add,
}
use isp_sam_backend.Db.Keeps.{Keeps, moved, Keeps-bind, Keeps-pure, Keeps-option_at}
use isp_sam_backend.World.{World}
use isp_sam_backend.Integrations.Events.{
  Reservation, reserved, seen, reserve, update_event, safe_update_status_reason, mark_processed,
  new_event, RejectionInput, record_rejection, rejected_event, seen_event,
}

-- The events and the audit trail are no part of what is kept.
module _ (s : Store) where
  pub with_events-IsConsistent :
      (t : Table IntegrationEvent) → IsConsistent s → IsConsistent (record s { events = t })
  with_events-IsConsistent t h = record {
    sound = record { keyed = h.sound.keyed; listed = h.sound.listed; owned = h.sound.owned };
    rows = h.rows;
  }

  pub with_accounts-IsConsistent :
      (t : Table Account)
      → ((k : ℕ) → s.accounts.row k ≢ none → t.row k ≢ none)
      → IsConsistent s
      → IsConsistent (record s { accounts = t })
  with_accounts-IsConsistent t p h = record {
    sound = record {
      keyed = h.sound.keyed;
      listed = h.sound.listed;
      owned = λ k c e. p c.account_id (h.sound.owned k c e);
    };
    rows = h.rows;
  }

pub Keeps-reserve : (w : World) (kind : String) (x at : ℕ) → Keeps (reserve w kind x at)
unfolding reserve
Keeps-reserve w kind x at = record {
  at = λ s h. elim (Option-cases (seen_event x s)) [
    | inl e ↦
        moved
          (with_events-IsConsistent s (add w.fresh_id (new_event w kind x (some at)) s.events) h)
          (ground arith)
    | inr (v, e) ↦ moved h (ground arith)
  ];
}

pub Keeps-update_event :
    (k : ℕ) (f : IntegrationEvent → IntegrationEvent) → Keeps (update_event k f)
Keeps-update_event k f = record {
  at = λ s h. elim (Option-cases (s.events.row k)) [
    | inl e ↦ moved h (ground arith)
    | inr (v, e) ↦ moved (with_events-IsConsistent s (put k (f v) s.events) h) (ground arith)
  ];
}

pub Keeps-record_rejection : (w : World) (i : RejectionInput) → Keeps (record_rejection w i)
unfolding record_rejection
Keeps-record_rejection w i = Keeps-option_at i.external_event_id _ _ (Keeps-pure tt) (λ x. record {
  at = λ s h. elim (Option-cases (seen_event x s)) [
    | inl e ↦
        moved (with_events-IsConsistent s (add w.fresh_id (rejected_event w i x) s.events) h)
          (ground arith)
    | inr (v, e) ↦ moved h (ground arith)
  ];
})

pub Keeps-reserved :
    {A : Type 0} (r : Reservation) (f : IntegrationEvent → Action A) (g : ℕ → Action A)
    → ((e : IntegrationEvent) → Keeps (f e))
    → ((k : ℕ) → Keeps (g k))
    → Keeps (elim r [ seen e ↦ f e | reserved k ↦ g k ])
Keeps-reserved (seen e) f g kf kg = kf e
Keeps-reserved (reserved k) f g kf kg = kg k

-- A webhook: the reservation, and what is done with a new event.
pub Keeps-ingest :
    {A : Type 0} (w : World) (kind : String) (x at : ℕ) (f : IntegrationEvent → Action A)
    (g : ℕ → Action A)
    → ((e : IntegrationEvent) → Keeps (f e))
    → ((k : ℕ) → Keeps (g k))
    → Keeps (reserve w kind x at >>= λ r. elim r [ seen e ↦ f e | reserved k ↦ g k ])
Keeps-ingest w kind x at f g kf kg =
    Keeps-bind (reserve w kind x at) (λ r. elim r [ seen e ↦ f e | reserved k ↦ g k ])
      (Keeps-reserve w kind x at) (λ r. Keeps-reserved r f g kf kg)

pub Keeps-mark_processed : (k account : ℕ) → Keeps (mark_processed k account)
Keeps-mark_processed k account = Keeps-update_event k _

pub Keeps-reason : (k : ℕ) (reason : String) → Keeps (safe_update_status_reason k reason)
Keeps-reason k reason = Keeps-update_event k _
