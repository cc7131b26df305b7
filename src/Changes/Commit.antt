-- ===== src/Changes/Commit.antt =====
-- `commit` of src/modules/commercial-changes/commercial-changes.service.ts. The email draft of its
-- result is not modelled.
pub mod Guards
pub mod Record
pub mod Route
pub mod Laws
pub mod Keeps
pub mod Parking
pub mod Window
pub mod Terms
use isp_sam_backend.Prelude.{ℕ, Option, none, some}
use isp_sam_backend.Db.{
  Change, Account, User, Action, pure, gets, or_throw, throw_if, ◌>>=◌, ◌>>◌, find_account,
  account_not_found, user_not_found, document_required,
}
use isp_sam_backend.World.{World, FileKind}
use isp_sam_backend.Notifications.{send_commercial_change_alert}
use isp_sam_backend.Changes.Commit.Guards.{
  CommitInput, check_lifecycle, check_quick, has_no_document,
}
use isp_sam_backend.Changes.Commit.Record.{upload_file, new_change, create_commit}
use isp_sam_backend.Changes.Commit.Route.{CrmOutcome, retain_if_churning, route}

-- What the checks let through: the account and the performing user.
unfoldable pub admit : World → CommitInput → Action (Account × User)
unfolding check_lifecycle check_quick
admit w i = do
  a ← (find_account i.account_id >>= λ found. or_throw found account_not_found)
  check_lifecycle a.contract_status i.change_type
  check_quick w a i
  u ← (gets (λ s. s.users.row i.performed_by_user_id) >>= λ found. or_throw found user_not_found)
  throw_if (has_no_document i) document_required
  pure (a, u)

-- The uploads and the new row.
unfoldable pub prepare : World → CommitInput → Account → Action Change
unfolding upload_file create_commit
prepare w i a = do
  approval ← upload_file w FileKind.approval i.approval_file
  po ← upload_file w FileKind.po i.po_file
  create_commit a i (new_change w a i approval po)

-- The part of `commit` that writes.
unfoldable pub carry_out : World → CommitInput → Account → User → Action (Change × CrmOutcome)
unfolding prepare retain_if_churning route
carry_out w i a u = do
  c ← prepare w i a
  retain_if_churning w a i
  outcome ← route w a u i c
  send_commercial_change_alert w c.id a.sam_owner_id i.performed_by_user_id
  pure (c, outcome)

unfoldable pub commit : World → CommitInput → Action (Change × CrmOutcome)
unfolding admit carry_out
commit w i = do (a, u) ← admit w i; carry_out w i a u
