-- ===== src/System.antt =====
-- The backend as one state machine: the calls of its services that write to the shared store, in
-- any order, each with the world as it finds it, an import with one for each row (src/modules:
-- commercial-changes, integrations, meetings, accounts, notifications and users). Every step is one
-- whole call.
pub mod Invariant
use isp_sam_backend.Prelude.{ℕ, String, Bool, Option, List}
use isp_sam_backend.Db.{RetentionDecision, Store}
use isp_sam_backend.Scope.{Requester}
use isp_sam_backend.World.{World}
use isp_sam_backend.Approvals.Decide.{DecideInput, decide}
use isp_sam_backend.Changes.Apply.{sweep_due_terminations}
use isp_sam_backend.Changes.Retention.{retention_decision}
use isp_sam_backend.Changes.Quick.{QuickInput, sam_quick_decision}
use isp_sam_backend.Changes.Commit.{commit}
use isp_sam_backend.Changes.Commit.Guards.{CommitInput}
use isp_sam_backend.Changes.Backfill.{BackfillInput, backfill_disconnection}
use isp_sam_backend.Bulk.Sheet.{ParsedRow}
use isp_sam_backend.Bulk.Apply.{ImportContext}
use isp_sam_backend.Bulk.Import.{import_workbook}
use isp_sam_backend.Changes.Crm.{refresh_crm_status, set_activation_date}
use isp_sam_backend.Integrations.Events.{RejectionInput, record_rejection}
use isp_sam_backend.Integrations.Status.{StatusPayload, ingest_commercial_change_status_changed}
use isp_sam_backend.Integrations.Quick.{DecisionPayload, ingest_quick_disconnect_decision}
use isp_sam_backend.Integrations.Activation.{CustomerPayload, ingest_customer_activated}
use isp_sam_backend.Meetings.Log.{
  LogInput, log, MarkHeldInput, mark_held, SubmitMomInput, submit_mom,
}
use isp_sam_backend.Meetings.Mom.{
  SendMomEmailInput, send_mom_email, CompleteMeetingInput, complete_meeting,
}
use isp_sam_backend.Meetings.Remove.{remove}
use isp_sam_backend.Accounts.Assign.{assign}
use isp_sam_backend.Accounts.Edit.{UpdateContext, AccountUpdatePatch, update_account_fields}
use isp_sam_backend.Accounts.Import.Sheet.{ParsedRow as AccountRow}
use isp_sam_backend.Accounts.Import.Run.{import_workbook as import_accounts}
use isp_sam_backend.Users.Service.{CreateUserInput, UpdateOptions}
use isp_sam_backend.Users.Requests.{create_request, update_request, remove_request}
use isp_sam_backend.Feed.State.{mark_as_read, dismiss_notification, mark_all_as_read}

pub data Call : Type 0 where
  committing : CommitInput → Call
  deciding : DecideInput → Call
  deciding_quick : QuickInput → Call
  deciding_retention : ℕ → RetentionDecision → ℕ → Call
  backfilling : BackfillInput → Call
  importing_changes : (ℕ → World) → ImportContext → List ParsedRow → List ℕ → Call
  importing_accounts : (String → String) → (ℕ → World) → ℕ → List AccountRow → List ℕ → Call
  sweeping : Call
  refreshing : ℕ → Call
  activating : ℕ → ℕ → Call
  status_webhook : StatusPayload → Call
  decision_webhook : DecisionPayload → Call
  customer_webhook : CustomerPayload → Call
  rejected_webhook : RejectionInput → Call
  logging_meeting : LogInput → Call
  marking_held : MarkHeldInput → Call
  submitting_mom : SubmitMomInput → Call
  sending_mom : SendMomEmailInput → Call
  completing_meeting : CompleteMeetingInput → Call
  removing_meeting : ℕ → ℕ → Call
  assigning : ℕ → Option ℕ → Requester → Call
  editing : UpdateContext → ℕ → AccountUpdatePatch → Call
  reading : ℕ → ℕ → Call
  dismissing : ℕ → ℕ → Call
  reading_all : Requester → Call
  creating_user : (String → String) → CreateUserInput → Call
  updating_user : (String → String) → UpdateOptions → Call
  removing_user : (ℕ → Bool) → ℕ → ℕ → Call

-- The store after a call, whether it returns or throws.
unfoldable pub run : World → Call → Store → Store
run w (committing i) s = (commit w i s).1
run w (deciding o) s = (decide w.now o s).1
run w (deciding_quick o) s = (sam_quick_decision w.now o s).1
run w (deciding_retention k d by) s = (retention_decision w k d by s).1
run w (backfilling i) s = (backfill_disconnection w i s).1
run w (importing_changes worlds ctx rows errors) s = (import_workbook worlds ctx rows errors s).1
run w (importing_accounts lower worlds year rows errors) s =
    (import_accounts lower worlds year rows errors s).1
run w sweeping s = (sweep_due_terminations w.now s).1
run w (refreshing k) s = (refresh_crm_status w k s).1
run w (activating k date) s = (set_activation_date w k date s).1
run w (status_webhook p) s = (ingest_commercial_change_status_changed w p s).1
run w (decision_webhook p) s = (ingest_quick_disconnect_decision w p s).1
run w (customer_webhook p) s = (ingest_customer_activated w p s).1
run w (rejected_webhook i) s = (record_rejection w i s).1
run w (logging_meeting i) s = (log w i s).1
run w (marking_held i) s = (mark_held i s).1
run w (submitting_mom i) s = (submit_mom w i s).1
run w (sending_mom i) s = (send_mom_email w i s).1
run w (completing_meeting i) s = (complete_meeting w i s).1
run w (removing_meeting k by) s = (remove k by s).1
run w (assigning k owner r) s = (assign w k owner r s).1
run w (editing ctx k patch) s = (update_account_fields ctx k patch s).1
run w (reading user k) s = (mark_as_read w.now user k s).1
run w (dismissing user k) s = (dismiss_notification w.now user k s).1
run w (reading_all r) s = (mark_all_as_read w.now r s).1
run w (creating_user hash i) s = (create_request hash w i s).1
run w (updating_user hash o) s = (update_request hash o s).1
run w (removing_user is_referenced k by) s = (remove_request is_referenced k by s).1

-- The stores that calls lead to from a first one.
pub data Reach (first : Store) : Store → Type 0 where
  start : Reach first first
  call : {s : Store} (w : World) (c : Call) → Reach first s → Reach first (run w c s)
