-- ===== src/Tests/Commit.antt =====
-- A commit at work (src/modules/commercial-changes/commercial-changes.service.ts).
use isp_sam_backend.Changes.Commit.Terms.{commit_terms}
use isp_sam_backend.Changes.Commit.Window.{prompt_at, window_prompt, commit_window}
use isp_sam_backend.Prelude.{ℕ, ◌≡◌, ◌≢◌, ◌⊎◌, ◌*◌, refl, false, none, some, arith}
use isp_sam_backend.Db.{
  base, active, pending_approval, upgrade, pending_accounts, Account, Change, User, Error, ok, err,
  new, disconnection, probable_churn,
}
use isp_sam_backend.Dates.{day_ms}
use isp_sam_backend.Changes.Retention.{put_status, enter_probable_churn}
use isp_sam_backend.Changes.Commit.{commit, carry_out}
use isp_sam_backend.Changes.Commit.Guards.{CommitInput}
use isp_sam_backend.Changes.Commit.Record.{new_change}
use isp_sam_backend.Changes.Commit.Route.{
  pending_chain, enter_approval_chain, in_probable_churn, order_raised, build_service_order_input,
}
use isp_sam_backend.Changes.Commit.Laws.{IsAdmitted, commit-IsAdmitted}
use isp_sam_backend.Changes.Commit.Parking.{approval_at, commit_base}
use isp_sam_backend.Notifications.{send_commercial_change_alert}
use isp_sam_backend.Tests.Data.{account_of, fresh_store, world_at}

abbrev live : Account
live = account_of base active

abbrev upgrade_input : CommitInput
upgrade_input = record {
  account_id = 1;
  change_type = upgrade;
  new_arc = 1500000;
  new_bandwidth_mbps = some 200;
  effective_date = 20 * day_ms;
  mail_received_date = none;
  reason = none;
  approval_file = some "mail.pdf";
  po_file = none;
  performed_by_user_id = 11;
  disconnection_category_id = none;
  disconnection_sub_category_id = none;
  disconnection_reason = none;
  disconnection_mode = none;
  quick_requested_days = none;
  quick_approval_reason = none;
  notes = none;
  test_mode = false;
}

-- The row that the commit returns.
abbrev upgrade_row : Change
upgrade_row =
    new_change (world_at 1000) live upgrade_input
      (some (record { secure_url = "mail.pdf"; public_id = "p" })) none

committed :
    (commit (world_at 1000) upgrade_input (fresh_store live)).0
    ≡ ok (upgrade_row, pending_chain pending_accounts)
unfolding commit enter_approval_chain send_commercial_change_alert
committed = refl

commit_base_example :
    let s' = (commit (world_at 1000) upgrade_input (fresh_store live)).1 in
    (pending_chain pending_accounts ≡ pending_chain pending_accounts)
    × (s'.accounts.row 1 ≡ some (put_status pending_approval live))
    × (approval_at s' 7 ≡ some pending_accounts)
    × ((j : ℕ) → j ≢ 1 → s'.accounts.row j ≡ (fresh_store live).accounts.row j)
commit_base_example =
    commit_base (world_at 1000) upgrade_input (fresh_store live) live
      (upgrade_row, pending_chain pending_accounts) refl refl committed

commit-IsAdmitted_example :
    ((a : Account) × (u : User) × IsAdmitted (world_at 1000) upgrade_input (fresh_store live) a u
      × (commit (world_at 1000) upgrade_input (fresh_store live)
          ≡ carry_out (world_at 1000) upgrade_input a u (fresh_store live)))
    ⊎ ((e : Error) × (commit (world_at 1000) upgrade_input (fresh_store live)
          ≡ (err e, fresh_store live)))
commit-IsAdmitted_example = commit-IsAdmitted (world_at 1000) upgrade_input (fresh_store live)

-- A normal disconnection of a NEW customer.
abbrev synced : Account
synced = account_of new active

abbrev leaving_input : CommitInput
leaving_input = record upgrade_input {
  change_type = disconnection;
  new_arc = 0;
  new_bandwidth_mbps = none;
}

abbrev leaving_row : Change
leaving_row =
    new_change (world_at 1000) synced leaving_input
      (some (record { secure_url = "mail.pdf"; public_id = "p" })) none

window_opened :
    (commit (world_at 1000) leaving_input (fresh_store synced)).0
    ≡ ok (leaving_row, in_probable_churn)
unfolding commit enter_probable_churn send_commercial_change_alert
window_opened = refl

commit_window_example :
    let s' = (commit (world_at 1000) leaving_input (fresh_store synced)).1 in
    (in_probable_churn ≡ in_probable_churn)
    × (s'.accounts.row 1 ≡ some (put_status probable_churn synced))
    × (prompt_at s' 7 ≡ window_prompt false (20 * day_ms))
    × ((j : ℕ) → j ≢ 1 → s'.accounts.row j ≡ (fresh_store synced).accounts.row j)
commit_window_example =
    commit_window (world_at 1000) leaving_input (fresh_store synced) synced
      (leaving_row, in_probable_churn) refl refl refl window_opened

-- New terms for that customer, whom the CRM knows.
new_terms_ordered :
    (commit (world_at 1000) upgrade_input (fresh_store synced)).0
    ≡ ok (
      new_change
          (world_at 1000)
          synced
          upgrade_input
          (some (record { secure_url = "mail.pdf"; public_id = "p" }))
          none,
      order_raised "so" "SO-1" "PENDING_APPROVAL",
    )
unfolding commit build_service_order_input send_commercial_change_alert
new_terms_ordered = refl

still_active : active ≢ probable_churn
still_active e = ground arith

commit_terms_example :
    let s' = (commit (world_at 1000) upgrade_input (fresh_store synced)).1 in
    (s'.accounts.row 1 ≡ some synced)
    × ((1000000 ≡ synced.current_arc)
        × (upgrade_input.new_arc ≡ 1500000)
        × (upgrade_input.new_bandwidth_mbps ≡ some 200))
    × ((j : ℕ) → j ≢ 1 → s'.accounts.row j ≡ (fresh_store synced).accounts.row j)
commit_terms_example =
    commit_terms (world_at 1000) upgrade_input (fresh_store synced) synced
      (
        new_change (world_at 1000) synced upgrade_input
            (some (record { secure_url = "mail.pdf"; public_id = "p" })) none,
        order_raised "so" "SO-1" "PENDING_APPROVAL",
      )
      refl refl refl still_active new_terms_ordered
