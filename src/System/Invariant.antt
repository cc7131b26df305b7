-- ===== src/System/Invariant.antt =====
-- What holds of every store that the services lead to, whatever calls are made in whatever order
-- (src/modules: commercial-changes, integrations, meetings, accounts, notifications and
-- users).
use isp_sam_backend.Db.{Store, IsConsistent}
use isp_sam_backend.World.{World}
use isp_sam_backend.Approvals.Decide.Keeps.{Keeps-decide}
use isp_sam_backend.Changes.Apply.Keeps.{Keeps-sweep}
use isp_sam_backend.Changes.Retention.Keeps.{Keeps-retention_decision}
use isp_sam_backend.Changes.Quick.Keeps.{Keeps-sam_quick_decision}
use isp_sam_backend.Changes.Commit.Keeps.{Keeps-commit}
use isp_sam_backend.Changes.Backfill.Keeps.{Keeps-backfill}
use isp_sam_backend.Bulk.Import.Keeps.{import_workbook-IsConsistent}
use isp_sam_backend.Changes.Crm.Keeps.{Keeps-refresh_crm_status, Keeps-set_activation_date}
use isp_sam_backend.Integrations.Keeps.{Keeps-record_rejection}
use isp_sam_backend.Integrations.Status.Keeps.{Keeps-ingest_status}
use isp_sam_backend.Integrations.Quick.Keeps.{Keeps-ingest_decision}
use isp_sam_backend.Integrations.Activation.Keeps.{Keeps-ingest_activated}
use isp_sam_backend.Meetings.Log.Keeps.{Keeps-log, Keeps-mark_held, Keeps-submit_mom}
use isp_sam_backend.Meetings.Mom.Keeps.{Keeps-send_mom_email, Keeps-complete_meeting}
use isp_sam_backend.Meetings.Remove.Keeps.{Keeps-remove}
use isp_sam_backend.Accounts.Assign.Keeps.{Keeps-assign}
use isp_sam_backend.Accounts.Edit.Outcome.{update_account_fields-IsConsistent}
use isp_sam_backend.Accounts.Import.Run.Keeps.{
  import_workbook-IsConsistent as import_accounts-IsConsistent,
}
use isp_sam_backend.Users.Requests.Keeps.{
  create_request-IsConsistent, update_request-IsConsistent, remove_request-IsConsistent,
}
use isp_sam_backend.Feed.State.Keeps.{
  Keeps-mark_as_read, Keeps-dismiss_notification, Keeps-mark_all_as_read,
}
use isp_sam_backend.System.{
  Call, committing, deciding, deciding_quick, deciding_retention, backfilling, importing_changes,
  importing_accounts, sweeping, refreshing, activating, status_webhook, decision_webhook,
  customer_webhook, rejected_webhook, logging_meeting, marking_held, submitting_mom, sending_mom,
  completing_meeting, removing_meeting, assigning, editing, reading, dismissing, reading_all,
  creating_user, updating_user, removing_user, run, Reach, start, call,
}

run-IsConsistent : (w : World) (c : Call) (s : Store) → IsConsistent s → IsConsistent (run w c s)
unfolding run
run-IsConsistent w (committing i) s h = (Keeps-commit w i).at s h
run-IsConsistent w (deciding o) s h = (Keeps-decide w.now o).at s h
run-IsConsistent w (deciding_quick o) s h = (Keeps-sam_quick_decision w.now o).at s h
run-IsConsistent w (deciding_retention k d by) s h = (Keeps-retention_decision w k d by).at s h
run-IsConsistent w (backfilling i) s h = (Keeps-backfill w i).at s h
run-IsConsistent w (importing_changes worlds ctx rows errors) s h =
    import_workbook-IsConsistent worlds ctx rows errors s h
run-IsConsistent w (importing_accounts lower worlds year rows errors) s h =
    import_accounts-IsConsistent lower worlds year rows errors s h
run-IsConsistent w sweeping s h = (Keeps-sweep w.now).at s h
run-IsConsistent w (refreshing k) s h = (Keeps-refresh_crm_status w k).at s h
run-IsConsistent w (activating k date) s h = (Keeps-set_activation_date w k date).at s h
run-IsConsistent w (status_webhook p) s h = (Keeps-ingest_status w p).at s h
run-IsConsistent w (decision_webhook p) s h = (Keeps-ingest_decision w p).at s h
run-IsConsistent w (customer_webhook p) s h = (Keeps-ingest_activated w p).at s h
run-IsConsistent w (rejected_webhook i) s h = (Keeps-record_rejection w i).at s h
run-IsConsistent w (logging_meeting i) s h = (Keeps-log w i).at s h
run-IsConsistent w (marking_held i) s h = (Keeps-mark_held i).at s h
run-IsConsistent w (submitting_mom i) s h = (Keeps-submit_mom w i).at s h
run-IsConsistent w (sending_mom i) s h = (Keeps-send_mom_email w i).at s h
run-IsConsistent w (completing_meeting i) s h = (Keeps-complete_meeting w i).at s h
run-IsConsistent w (removing_meeting k by) s h = (Keeps-remove k by).at s h
run-IsConsistent w (assigning k owner r) s h = (Keeps-assign w k owner r).at s h
run-IsConsistent w (editing ctx k patch) s h = update_account_fields-IsConsistent ctx k patch s h
run-IsConsistent w (reading user k) s h = (Keeps-mark_as_read w.now user k).at s h
run-IsConsistent w (dismissing user k) s h = (Keeps-dismiss_notification w.now user k).at s h
run-IsConsistent w (reading_all r) s h = (Keeps-mark_all_as_read w.now r).at s h
run-IsConsistent w (creating_user hash i) s h = create_request-IsConsistent hash s h w i
run-IsConsistent w (updating_user hash o) s h = update_request-IsConsistent hash s h o
run-IsConsistent w (removing_user is_referenced k by) s h =
    remove_request-IsConsistent is_referenced k by s h

-- Whatever calls the services and webhooks make from a consistent store, and whether they return or
-- throw, the store stays consistent: each change stands under its own id, is listed and belongs to
-- an account that is there; a change has a disconnection mode exactly if it is a disconnection; a
-- retention or quick decision has its date; a termination is scheduled only with a decision; an
-- approved change says by whom and when, and a rejected one also why.
pub Reach-IsConsistent :
    {first : Store} → IsConsistent first → {s : Store} → Reach first s → IsConsistent s
Reach-IsConsistent h start = h
Reach-IsConsistent h (call {s} w c r) = run-IsConsistent w c s (Reach-IsConsistent h r)
