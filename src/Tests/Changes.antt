-- ===== src/Tests/Changes.antt =====
-- Disconnections, the retention prompt and the sweep at work
-- (src/modules/commercial-changes/commercial-changes.service.ts).
use isp_sam_backend.Prelude.{ℕ, ◌≡◌, ◌≢◌, ◌*◌, refl, true, false, none, some, is_some}
use isp_sam_backend.Db.{
  base, new, active, probable_churn, disconnecting, pending_quick_approval, disconnection, normal,
  quick, not_required, retain, proceed, sam_head, Account, Change, Store, ok, err, record_not_found,
  already_decided, IsSound,
}
use isp_sam_backend.Dates.{day_ms, start_of_day_utc}
use isp_sam_backend.Scope.{quick_approval_account_scope}
use isp_sam_backend.Changes.Apply.{
  apply_change_to_account, mark_applied, sweep_due_terminations, is_due,
}
use isp_sam_backend.Changes.Apply.Sweep.{sweep_due_terminations_lem}
use isp_sam_backend.Changes.Retention.{retention_decision}
use isp_sam_backend.Changes.Retention.Laws.{row_after, retention_decision_effect}
use isp_sam_backend.Changes.Quick.{
  QuickInput, approve, reject, sam_quick_decision, quick_approved_change, in_quick_queue,
}
use isp_sam_backend.Changes.Quick.Laws.{
  IsOpen, Writes, approved_row, rejected_row, sam_quick_decision_lem,
}
use isp_sam_backend.Tests.Data.{account_of, change_of, store_of, world_at, store_of-IsSound}

-- A customer in the retention window, whose prompt is due on day 41.
abbrev churning : Account
churning = account_of new probable_churn

abbrev windowed : Change
windowed = record (change_of disconnection (some normal) not_required) {
  retention_prompt_due_at = some (41 * day_ms);
}

retained :
    (retention_decision (world_at 1000) 7 retain 11 (store_of churning windowed)).0
    ≡ ok (row_after (world_at 1000) retain windowed churning)
unfolding retention_decision start_of_day_utc
retained = refl

retention_decision_effect_example :
    let r = row_after (world_at 1000) retain windowed churning in
    let s' = (retention_decision (world_at 1000) 7 retain 11 (store_of churning windowed)).1 in
    (r ≡ r)
    × (s'.changes.row 7 ≡ some r)
    × (retain ≡ retain → s'.accounts.row 1 ≡ some (record churning { contract_status = active }))
    × (retain ≡ proceed
        → s'.accounts.row 1 ≡ some (record churning { contract_status = disconnecting }))
    × ((j : ℕ) → j ≢ 7 → s'.changes.row j ≡ (store_of churning windowed).changes.row j)
    × ((j : ℕ) → j ≢ 1 → s'.accounts.row j ≡ (store_of churning windowed).accounts.row j)
retention_decision_effect_example =
    retention_decision_effect (world_at 1000) 7 11 retain (store_of churning windowed) windowed
      churning refl refl retained

-- A termination that is due on day 51.
abbrev leaving : Account
leaving = account_of new disconnecting

abbrev scheduled : Change
scheduled = record windowed {
  retention_decision = some proceed;
  scheduled_termination_at = some (51 * day_ms);
}

abbrev leaving_store : Store
leaving_store = store_of leaving scheduled

leaving-IsSound : IsSound leaving_store
leaving-IsSound = store_of-IsSound leaving scheduled refl refl

sweep_due_terminations_example :
    let (r, s') = sweep_due_terminations (60 * day_ms) leaving_store in
    (r ≡ ok tt)
    × IsSound s'
    × ((j : ℕ) (d : Change)
        → s'.changes.row j ≡ some d
        → is_some d.account_applied_at ≡ false
        → (leaving_store.changes.row j ≡ some d)
          × (is_due (start_of_day_utc (60 * day_ms)) d ≡ false))
sweep_due_terminations_example =
    sweep_due_terminations_lem (60 * day_ms) leaving_store leaving-IsSound

applied_once : (apply_change_to_account 100 7 leaving_store).0 ≡ ok (mark_applied 100 scheduled)
unfolding apply_change_to_account
applied_once = refl

-- A legacy quick disconnection of a BASE customer, and the head of the owner's team.
abbrev asked : Account
asked = account_of base pending_quick_approval

abbrev quick_row : Change
quick_row = change_of disconnection (some quick) not_required

abbrev by_head : QuickInput
by_head = record {
  commercial_change_id = 7;
  decision = approve;
  note = none;
  performed_by_user_id = 5;
  requester_role = sam_head;
  ip_address = none;
  user_agent = none;
  decided_by = "5";
}

quick-IsOpen : IsOpen by_head (store_of asked quick_row) quick_row asked
unfolding quick_approval_account_scope
quick-IsOpen = record {
  found = refl;
  keyed = refl;
  owner = refl;
  disconnects = refl;
  is_quick_mode = refl;
  undecided = refl;
  on_base = refl;
  scoped = refl;
}

sam_quick_decision_example :
    let s = store_of asked quick_row in
    (approve ≡ approve
      → ((sam_quick_decision 1000 by_head s).0
          ≡ ok (approved_row 1000 by_head quick_row, disconnecting))
        × Writes s
            (approved_row 1000 by_head quick_row)
            (record asked { contract_status = disconnecting })
            (sam_quick_decision 1000 by_head s).1)
    × (approve ≡ reject
        → pending_quick_approval ≡ pending_quick_approval
        → ((sam_quick_decision 1000 by_head s).0 ≡ ok (rejected_row 1000 by_head quick_row, active))
          × Writes s
              (rejected_row 1000 by_head quick_row)
              (record asked { contract_status = active })
              (sam_quick_decision 1000 by_head s).1)
    × (approve ≡ reject
        → pending_quick_approval ≢ pending_quick_approval
        → sam_quick_decision 1000 by_head s ≡ (err record_not_found, s))
sam_quick_decision_example =
    sam_quick_decision_lem 1000 by_head (store_of asked quick_row) quick_row asked quick-IsOpen

approved_by_head :
    (sam_quick_decision 1000 by_head (store_of asked quick_row)).0
    ≡ ok (quick_approved_change 1000 by_head quick_row, disconnecting)
unfolding sam_quick_decision quick_approval_account_scope
approved_by_head = refl

-- The decision on a change that was decided.
abbrev decided_quick_row : Change
decided_quick_row = quick_approved_change 500 by_head quick_row

refused_again :
    (sam_quick_decision 1000 by_head (store_of asked decided_quick_row)).0 ≡ err already_decided
unfolding sam_quick_decision quick_approval_account_scope
refused_again = refl

queued :
    in_quick_queue (record { id = 5; role = sam_head }) (store_of asked quick_row) quick_row ≡ true
unfolding in_quick_queue quick_approval_account_scope
queued = refl
