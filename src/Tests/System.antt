-- ===== src/Tests/System.antt =====
-- A run of several services, on which the theorems about all runs are applied
-- (src/modules/commercial-changes and src/modules/integrations).
use isp_sam_backend.Prelude.{◌*◌, false, none, some, arith}
use isp_sam_backend.Db.{new, active, disconnection, normal, proceed, sam_head, Store, IsConsistent}
use isp_sam_backend.Dates.{day_ms}
use isp_sam_backend.Changes.Commit.Guards.{CommitInput}
use isp_sam_backend.Scope.{Requester}
use isp_sam_backend.System.{committing, deciding_retention, run, Reach, start, call}
use isp_sam_backend.System.Invariant.{Reach-IsConsistent}
use isp_sam_backend.Tests.Data.{account_of, fresh_store, world_at}

abbrev customer_store : Store
customer_store = fresh_store (account_of new active)

abbrev leave_input : CommitInput
leave_input = record {
  account_id = 1;
  change_type = disconnection;
  new_arc = 0;
  new_bandwidth_mbps = none;
  effective_date = 20 * day_ms;
  mail_received_date = none;
  reason = none;
  approval_file = some "mail.pdf";
  po_file = none;
  performed_by_user_id = 11;
  disconnection_category_id = some "office-closed";
  disconnection_sub_category_id = some "office-closed";
  disconnection_reason = none;
  disconnection_mode = some normal;
  quick_requested_days = none;
  quick_approval_reason = none;
  notes = none;
  test_mode = false;
}

customer_store-IsConsistent : IsConsistent customer_store
customer_store-IsConsistent = record {
  sound = record {
    keyed = λ k c e. ground arith;
    listed = λ k c e. ground arith;
    owned = λ k c e. ground arith;
  };
  rows = λ k c e. ground arith;
}

-- A disconnection is entered on day 20, and the customer leaves on day 41.
abbrev left_store : Store
left_store =
    run (world_at (41 * day_ms)) (deciding_retention 7 proceed 11)
      (run (world_at (20 * day_ms)) (committing leave_input) customer_store)

left : Reach customer_store left_store
left =
    call (world_at (41 * day_ms)) (deciding_retention 7 proceed 11)
      (call (world_at (20 * day_ms)) (committing leave_input) start)

Reach-IsConsistent_example : IsConsistent left_store
Reach-IsConsistent_example = Reach-IsConsistent customer_store-IsConsistent left

-- A head looks at the list five days into the notice period.
abbrev head : Requester
head = record { id = 5; role = sam_head }
