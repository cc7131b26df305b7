-- ===== src/Integrations/Events.antt =====
-- The rows of integration_events, and the reservation of an event id with which each webhook begins
-- (src/modules/integrations/integrations.service.ts). The headers and the raw payload are not kept,
-- and a reason does not repeat the id that it is about.
use isp_sam_backend.Prelude.{ℕ, String, Bool, Option, none, some, ◌==◌}
use isp_sam_backend.Db.{
  processed, event_rejected, failed, IntegrationEvent, Store, Action, ok, put, add, find_newest,
}
use isp_sam_backend.World.{World}

-- `SYSTEM_USER_ID`
abbrev pub system_user_id : ℕ
system_user_id = 0

abbrev pub has_external_id : ℕ → IntegrationEvent → Bool
has_external_id x e = e.external_event_id == x

abbrev pub seen_event : ℕ → Store → Option IntegrationEvent
seen_event x s = find_newest (has_external_id x) s.events

-- A new row; FAILED stands until the event is processed.
abbrev pub new_event : World → String → ℕ → Option ℕ → IntegrationEvent
new_event w kind x occurred = record {
  id = w.fresh_id;
  event_type = kind;
  external_event_id = x;
  occurred_at = occurred;
  status = failed;
  status_reason = none;
  account_id = none;
}

abbrev pub create_event : IntegrationEvent → Store → Store
create_event e s = record s { events = add e.id e s.events }

pub data Reservation : Type 0 where
  reserved : ℕ → Reservation
  seen : IntegrationEvent → Reservation

-- `integrationEvent.create` under the unique external id; the row that is there when it fails.
unfoldable pub reserve : World → String → ℕ → ℕ → Action Reservation
reserve w kind x occurred s = elim (seen_event x s) [
  | some e ↦ (ok (seen e), s)
  | none ↦ (ok (reserved w.fresh_id), create_event (new_event w kind x (some occurred)) s)
]

-- `integrationEvent.update`; the row has just been created.
abbrev pub update_event : ℕ → (IntegrationEvent → IntegrationEvent) → Action (Unit {0})
update_event k f s = elim (s.events.row k) [
  | none ↦ (ok tt, s)
  | some e ↦ (ok tt, record s { events = put k (f e) s.events })
]

-- `safeUpdateStatusReason`
abbrev pub safe_update_status_reason : ℕ → String → Action (Unit {0})
safe_update_status_reason k reason = update_event k (λ e. record e { status_reason = some reason })

abbrev pub mark_processed : ℕ → ℕ → Action (Unit {0})
mark_processed k account =
    update_event k
      (λ e. record e { status = processed; account_id = some account; status_reason = none })

pub data Ingested : Type 0 where
  processed_event : ℕ → ℕ → Ingested
  duplicate_event : ℕ → Option ℕ → Ingested
  not_found : ℕ → Ingested

-- The columns of `recordRejection`.
pub record RejectionInput : Type 0 where
  pub external_event_id : Option ℕ
  pub event_type : Option String
  pub occurred_at : Option ℕ
  pub reason : String

abbrev pub rejected_event : World → RejectionInput → ℕ → IntegrationEvent
rejected_event w i x = record {
  id = w.fresh_id;
  event_type = elim (i.event_type) [ none ↦ "unknown" | some t ↦ t ];
  external_event_id = x;
  occurred_at = i.occurred_at;
  status = event_rejected;
  status_reason = some i.reason;
  account_id = none;
}

-- A refused webhook is filed under its event id, unless that id has been seen.
unfoldable pub record_rejection : World → RejectionInput → Action (Unit {0})
record_rejection w i s = elim (i.external_event_id) [
  | none ↦ (ok tt, s)
  | some x ↦ elim (seen_event x s) [
    | some e ↦ (ok tt, s)
    | none ↦ (ok tt, create_event (rejected_event w i x) s)
  ]
]
