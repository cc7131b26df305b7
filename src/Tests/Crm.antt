-- ===== src/Tests/Crm.antt =====
-- Refreshes, files and backfills at work (src/modules/commercial-changes/commercial-changes.service.ts).
use isp_sam_backend.Prelude.{◌*◌, ◌≢◌, none, some, [], ◌∷◌, arith}
use isp_sam_backend.Db.{new, active, terminated, upgrade, not_required, Account, Change}
use isp_sam_backend.Dates.{day_ms}
use isp_sam_backend.World.{World, answer}
use isp_sam_backend.Changes.Backfill.{BackfillInput}
use isp_sam_backend.Tests.Data.{account_of, change_of, world_at}

abbrev live : Account
live = account_of new active

-- An upgrade with an order, which the CRM has completed.
abbrev ordered : Change
ordered = record (change_of upgrade none not_required) { crm_service_order_id = some "so" }

abbrev crm_done : World
crm_done = record (world_at 1000) {
  list_service_orders = λ _. answer (
      record { id = "so"; order_number = "SO-1"; status = "COMPLETED"; activation_date = none }
      ∷ []);
}

-- The SAM 12 asks for a file of a customer of the SAM 11.
other_owner : live.sam_owner_id ≢ some 12
other_owner e = ground arith

abbrev gone : BackfillInput
gone = record {
  account_id = 1;
  effective_date = 5 * day_ms;
  reason = "moved";
  performed_by_user_id = 2;
  ip_address = none;
  user_agent = none;
}

still_live : active ≢ terminated
still_live e = ground arith
