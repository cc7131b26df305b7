-- ===== src/Tests/Approvals.antt =====
-- The approval chain at work (src/modules/commercial-changes/approvals.service.ts).
use isp_sam_backend.Prelude.{◌≡◌, ◌<◌, refl, inr, ◌⊎◌, none, some, arith, ◌↔◌, true}
use isp_sam_backend.Db.{
  base, pending_approval, active, probable_churn, upgrade, disconnection, normal, pending_accounts,
  pending_super_admin_2, approved, accounts_team, super_admin_2, Account, Change, ok, err,
  wrong_stage,
}
use isp_sam_backend.Approvals.Chain.{
  at_accounts, at_super_admin_2, PendingStage, pending_stage, next_stage,
}
use isp_sam_backend.Approvals.Decide.{
  DecideInput, approve, decide, assert_can_act, approved_change, approved_normal,
}
use isp_sam_backend.Approvals.Decide.Outcome.{IsDecidable, outcome, Realises, decide-outcome}
use isp_sam_backend.Approvals.Decide.Gate.{Accepted, decide_ok_decidable, decide_error_unchanged}
use isp_sam_backend.Approvals.Decide.Progress.{approvals_left, left_after, decide-approvals_left}
use isp_sam_backend.Approvals.Decide.Terms.{IsApplied, decide-terms}
use isp_sam_backend.Approvals.Queue.{in_queue}
use isp_sam_backend.Approvals.Queue.Laws.{in_queue_iff}
use isp_sam_backend.Tests.Data.{account_of, change_of, store_of, store_of-IsKeyed}

abbrev parked : Account
parked = account_of base pending_approval

-- An upgrade that waits for the accounts team, its last stage.
abbrev waiting_upgrade : Change
waiting_upgrade = change_of upgrade none pending_accounts

-- A normal disconnection at its last stage.
abbrev last_gate : Change
last_gate = change_of disconnection (some normal) pending_super_admin_2

abbrev approval_by_accounts : DecideInput
approval_by_accounts = record {
  commercial_change_id = 7;
  action = approve;
  reason = none;
  performed_by_user_id = 21;
  requester_role = accounts_team;
  ip_address = none;
  user_agent = none;
  material_recovered = none;
  material_recovery_notes = none;
}

abbrev approval_by_super_admin : DecideInput
approval_by_super_admin = record approval_by_accounts {
  requester_role = super_admin_2;
  material_recovered = some true;
}

waiting-IsDecidable :
    IsDecidable approval_by_accounts
      (store_of parked waiting_upgrade)
      waiting_upgrade
      parked
      at_accounts
waiting-IsDecidable = record {
  found = refl;
  keyed = refl;
  owner = refl;
  waiting = refl;
  authorised = inr (refl, λ e. ground arith);
}

decide-outcome_example :
    Realises
      (store_of parked waiting_upgrade)
      (outcome 5000 approval_by_accounts waiting_upgrade parked at_accounts approve)
      (decide 5000 approval_by_accounts (store_of parked waiting_upgrade))
decide-outcome_example =
    decide-outcome 5000 approval_by_accounts (store_of parked waiting_upgrade) waiting_upgrade
      parked at_accounts waiting-IsDecidable

-- The decision on the last stage of an upgrade runs.
upgrade_approved :
    (decide 5000 approval_by_accounts (store_of parked waiting_upgrade)).0
    ≡ ok (approved_change 5000 approval_by_accounts waiting_upgrade, active)
unfolding decide assert_can_act next_stage
upgrade_approved = refl

decide_ok_decidable_example : Accepted approval_by_accounts (store_of parked waiting_upgrade)
decide_ok_decidable_example =
    decide_ok_decidable 5000 approval_by_accounts (store_of parked waiting_upgrade)
      (store_of-IsKeyed parked waiting_upgrade refl) upgrade_approved

-- The accounts team may not sign the last stage of a disconnection.
not_their_stage : (decide 5000 approval_by_accounts (store_of parked last_gate)).0 ≡ err wrong_stage
unfolding decide assert_can_act next_stage
not_their_stage = refl

decide_error_unchanged_example :
    (decide 5000 approval_by_accounts (store_of parked last_gate)).1 ≡ store_of parked last_gate
decide_error_unchanged_example =
    decide_error_unchanged 5000 approval_by_accounts (store_of parked last_gate)
      (store_of-IsKeyed parked last_gate refl) not_their_stage

decide-approvals_left_example :
    (c : Change) × ((store_of parked waiting_upgrade).changes.row 7 ≡ some c)
    × (0 < approvals_left c.change_type c.approval_status)
    × (approvals_left upgrade approved
        ≡ left_after approve (approvals_left c.change_type c.approval_status))
decide-approvals_left_example =
    decide-approvals_left 5000 approval_by_accounts (store_of parked waiting_upgrade)
      (store_of-IsKeyed parked waiting_upgrade refl) upgrade_approved

last_gate-IsDecidable :
    IsDecidable approval_by_super_admin
      (store_of parked last_gate)
      last_gate
      parked
      at_super_admin_2
last_gate-IsDecidable = record {
  found = refl;
  keyed = refl;
  owner = refl;
  waiting = refl;
  authorised = inr (refl, λ e. ground arith);
}

disconnection_approved :
    (decide 5000 approval_by_super_admin (store_of parked last_gate)).0
    ≡ ok (approved_normal 5000 approval_by_super_admin last_gate, probable_churn)
unfolding decide assert_can_act next_stage
disconnection_approved = refl

decide-terms_example :
    ((a' : Account) × ((decide 5000 approval_by_super_admin
            (store_of parked last_gate)).1.accounts.row
          1
        ≡ some a')
      × (((a'.current_arc ≡ 1000000) × (a'.bandwidth_mbps ≡ some 100))
          ⊎ IsApplied 5000 last_gate
              (approved_normal 5000 approval_by_super_admin last_gate)
              parked
              a'))
    × (approved ≡ approved
        → disconnection ≡ disconnection
        → pending_super_admin_2 ≡ pending_super_admin_2)
decide-terms_example =
    decide-terms 5000 approval_by_super_admin (store_of parked last_gate) last_gate parked
      at_super_admin_2 last_gate-IsDecidable disconnection_approved

in_queue_iff_example :
    (in_queue (record { id = 21; role = super_admin_2 }) (store_of parked last_gate) last_gate
      ≡ true)
    ↔ ((stage : PendingStage) × (pending_stage pending_super_admin_2 ≡ some stage)
        × ((assert_can_act stage (some 11) super_admin_2 21 (store_of parked last_gate)).0 ≡ ok tt))
in_queue_iff_example =
    in_queue_iff (record { id = 21; role = super_admin_2 }) (store_of parked last_gate) last_gate
      parked refl
