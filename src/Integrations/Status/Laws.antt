-- ===== src/Integrations/Status/Laws.antt =====
-- What a report of the CRM does to the change and to its account
-- (src/modules/integrations/integrations.service.ts).
use text.Mathlib.Text.{◌==◌ as str_eq}
use isp_sam_backend.Prelude.{
  ℕ, ◌≡◌, ◌≢◌, String, Option, none, some, List, [], ◌∷◌, get_or, or_else, if◌then◌else◌, arith,
  false,
}
use isp_sam_backend.Text.{bind_truthy}
use isp_sam_backend.Db.{
  ContractStatus, active, disconnecting, terminated, QuickDecision, quick_approved, quick_rejected,
  proceed, is_quick, Account, Change, Store, ok,
}
use isp_sam_backend.Dates.Laws.{midnight, days_later}
use isp_sam_backend.World.{World}
use isp_sam_backend.Changes.Apply.{is_due}
use isp_sam_backend.Changes.Retention.{put_status}
use isp_sam_backend.Integrations.Events.{reserve, seen_event, processed_event}
use isp_sam_backend.Integrations.Status.{
  StatusPayload, StatusKind, docs_review, in_flight, completed, stage_one_rejection,
  later_rejection, unknown, kind_of, status_row, status_move,
  ingest_commercial_change_status_changed,
}

abbrev moved : Option ContractStatus → Account → Account
moved none a = a
moved (some st) a = put_status st a

-- The steps of the CRM's workflow by their names.
abbrev steps : List (String × StatusKind)
steps =
    ("PENDING_DOCS_REVIEW", docs_review)
    ∷ ("DOCS", docs_review)
    ∷ ("PENDING_NOC", in_flight)
    ∷ ("NOC", in_flight)
    ∷ ("PENDING_ACCOUNTS", in_flight)
    ∷ ("ACCOUNTS", in_flight)
    ∷ ("COMPLETED", completed)
    ∷ ("REJECTED", stage_one_rejection)
    ∷ ("DOCS_REJECTED", later_rejection)
    ∷ ("NOC_REJECTED", later_rejection)
    ∷ ("CANCELLED", later_rejection)
    ∷ []

abbrev step_in : List (String × StatusKind) → String → StatusKind
step_in [] t = unknown
step_in ((name, kind) ∷ more) t = let rest = step_in more t in if str_eq t name then kind else rest

-- The step that a text names, or `unknown`.
abbrev pub step_of : String → StatusKind
step_of t = step_in steps t

-- Every report sets the four columns of the CRM's workflow; a number or an id that is missing or
-- empty leaves the one there.
abbrev reported : StatusPayload → Change → Change
reported p c = record c {
  crm_status = some p.to_status;
  crm_status_updated_at = some p.occurred_at;
  crm_service_order_id = or_else (bind_truthy p.service_order_id) c.crm_service_order_id;
  crm_order_number = or_else (bind_truthy p.service_order_number) c.crm_order_number;
}

-- The CRM's word on a quick disconnection.
abbrev decided_by_crm : QuickDecision → StatusPayload → Change → Change
decided_by_crm d p c = record c {
  quick_approval_decision = some d;
  quick_approval_decided_at = some p.occurred_at;
  quick_approval_decided_by = some p.changed_by;
  quick_approval_note = or_else (bind_truthy p.note) c.quick_approval_note;
}

abbrev proceeding : StatusPayload → Change → Change
proceeding p c = record c {
  retention_decision = some proceed;
  retention_decided_at = some p.occurred_at;
}

-- The change after a report of a step. The review of the documents approves and schedules a quick
-- disconnection, and the rejection at the first stage rejects it.
abbrev pub change_after : ℕ → StatusPayload → StatusKind → Change → Change
change_after now p docs_review c =
    if is_quick c.disconnection_mode
    then record (decided_by_crm quick_approved p (proceeding p (reported p c))) {
      scheduled_termination_at = some (days_later (get_or c.quick_requested_days 1) (midnight now));
    }
    else proceeding p (reported p c)
change_after now p completed c = record (reported p c) { account_applied_at = some p.occurred_at }
change_after now p stage_one_rejection c =
    if is_quick c.disconnection_mode
    then decided_by_crm quick_rejected p (reported p c)
    else reported p c
change_after now p in_flight c = reported p c
change_after now p later_rejection c = reported p c
change_after now p unknown c = reported p c

-- And the account.
abbrev pub account_after : StatusKind → Account → Account
account_after docs_review a = record a { contract_status = disconnecting }
account_after in_flight a = record a { contract_status = disconnecting }
account_after completed a = record a { contract_status = terminated }
account_after stage_one_rejection a = record a { contract_status = active }
account_after later_rejection a = record a { contract_status = active }
account_after unknown a = a

module _ (w : World) (p : StatusPayload) (s : Store) (c : Change) (a : Account)
    (unseen : seen_event p.event_id s ≡ none)
    (found : s.changes.row p.commercial_change_id ≡ some c) (keyed : c.id ≡ p.commercial_change_id)
    (owner : s.accounts.row c.account_id ≡ some a) where
  ingested :
      let (r, s') = ingest_commercial_change_status_changed w p s in
      (r ≡ ok (processed_event w.fresh_id c.account_id))
      × (s'.changes.row c.id ≡ some (status_row w.now p (kind_of p.to_status) c))
      × (s'.accounts.row c.account_id
          ≡ some (moved (status_move (kind_of p.to_status) a.contract_status) a))
      × ((j : ℕ) → j ≢ c.id → s'.changes.row j ≡ s.changes.row j)
      × ((j : ℕ) → j ≢ c.account_id → s'.accounts.row j ≡ s.accounts.row j)
  unfolding ingest_commercial_change_status_changed reserve
  ingested = (ground arith, ground arith, ground arith, λ j ne. ground arith, λ j ne. ground arith)

  -- A report of COMPLETED with a new event id terminates the account, whatever the type of the
  -- change, and leaves its ARC; the sweep will never take the change up.
  pub ingest_completed_keeps_arc :
      kind_of p.to_status ≡ completed
      → let s' = (ingest_commercial_change_status_changed w p s).1 in
        (c' : Change) × (a' : Account) × (s'.changes.row c.id ≡ some c')
        × (s'.accounts.row c.account_id ≡ some a')
        × (a'.contract_status ≡ terminated)
        × (a'.current_arc ≡ a.current_arc)
        × ((today : ℕ) → is_due today c' ≡ false)
  unfolding status_row status_move
  ingest_completed_keeps_arc h =
      let (_, f, g, _, _) = ingested in
      (
        status_row w.now p completed c,
        put_status terminated a,
        ground arith,
        ground arith,
        ground arith,
        ground arith,
        λ today. ground arith,
      )
