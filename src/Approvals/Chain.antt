-- ===== src/Approvals/Chain.antt =====
-- The stages of the approval chain (src/modules/commercial-changes/approvals.service.ts): who acts
-- on each, and which stage follows.
use isp_sam_backend.Prelude.{Bool, Option, none, some, if◌then◌else◌}
use isp_sam_backend.Db.{
  UserRole, sam_head, accounts_team, super_admin_2, ApprovalStatus, pending_super_admin_2,
  pending_sam_head, pending_accounts,
}

-- `PENDING_STAGES`
pub data PendingStage : Type 0 where
  at_super_admin_2 at_sam_head at_accounts : PendingStage

abbrev pub status_of : PendingStage → ApprovalStatus
status_of at_super_admin_2 = pending_super_admin_2
status_of at_sam_head = pending_sam_head
status_of at_accounts = pending_accounts

-- `isPendingStage`, with the stage that it narrows to.
abbrev pub pending_stage : ApprovalStatus → Option PendingStage
pending_stage pending_super_admin_2 = some at_super_admin_2
pending_stage pending_sam_head = some at_sam_head
pending_stage pending_accounts = some at_accounts
pending_stage _ = none

-- `STAGE_ROLE`
abbrev pub stage_role : PendingStage → UserRole
stage_role at_super_admin_2 = super_admin_2
stage_role at_sam_head = sam_head
stage_role at_accounts = accounts_team

-- The stage after an approval; `none` is the terminal approval.
unfoldable pub next_stage : PendingStage → Bool → Option PendingStage
next_stage at_sam_head is_disconnection = some at_accounts
next_stage at_accounts is_disconnection = if is_disconnection then some at_super_admin_2 else none
next_stage at_super_admin_2 is_disconnection = none
