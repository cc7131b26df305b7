-- ===== src/Changes/Commit/Guards.antt =====
-- The input of `commit` and the checks before it writes anything
-- (src/modules/commercial-changes/commercial-changes.service.ts).
use isp_sam_backend.Prelude.{
  ℕ, ℤ, pos, negsuc, String, Bool, false, not, ◌&&◌, Option, none, some, ltb, leb, if◌then◌else◌,
  is_some, get_or,
}
use isp_sam_backend.Text.{trim, text_length}
use isp_sam_backend.Db.{
  ChangeType, DisconnectionMode, ContractStatus, terminated, disconnecting, probable_churn,
  pending_quick_approval, pending_approval, is_disconnection, is_quick, is_base, Account, Action,
  pure, throw, throw_if, ◌>>◌, account_terminated, account_disconnecting, disconnection_in_flight,
  account_pending_quick_approval, account_pending_approval, quick_disconnect_disabled,
  quick_disconnect_invalid_days, quick_disconnect_reason_required,
}
use isp_sam_backend.Dates.{quick_disconnect_max_days}
use isp_sam_backend.World.{World}

-- `CommitInput`; a file is its original name, an amount is in hundredths of a rupee.
pub record CommitInput : Type 0 where
  pub account_id : ℕ
  pub change_type : ChangeType
  pub new_arc : ℕ
  pub new_bandwidth_mbps : Option ℕ
  pub effective_date : ℕ
  pub mail_received_date : Option ℕ
  pub reason : Option String
  pub approval_file : Option String
  pub po_file : Option String
  pub performed_by_user_id : ℕ
  pub disconnection_category_id : Option String
  pub disconnection_sub_category_id : Option String
  pub disconnection_reason : Option String
  pub disconnection_mode : Option DisconnectionMode
  pub quick_requested_days : Option ℤ
  pub quick_approval_reason : Option String
  pub notes : Option String
  pub test_mode : Bool

-- `isQuick`
abbrev pub is_quick_request : CommitInput → Bool
is_quick_request i = is_disconnection i.change_type && is_quick i.disconnection_mode

-- The lifecycle guard.
unfoldable pub check_lifecycle : ContractStatus → ChangeType → Action (Unit {0})
check_lifecycle terminated t = throw account_terminated
check_lifecycle disconnecting t = throw account_disconnecting
check_lifecycle probable_churn t = throw_if (is_disconnection t) disconnection_in_flight
check_lifecycle pending_quick_approval t = throw account_pending_quick_approval
check_lifecycle pending_approval t = throw account_pending_approval
check_lifecycle _ t = pure tt

-- An absent number of days counts as -1.
abbrev pub valid_days : Option ℤ → Bool
valid_days (some (pos n)) = leb n quick_disconnect_max_days
valid_days (some (negsuc n)) = false
valid_days none = false

abbrev reason_too_short : CommitInput → Bool
reason_too_short i = ltb (text_length (trim (get_or i.quick_approval_reason ""))) 10

unfoldable pub check_quick : World → Account → CommitInput → Action (Unit {0})
check_quick w a i = if not (is_quick_request i) then pure tt else do
  throw_if (not (is_base a.kitty_type) && not w.quick_disconnect_enabled) quick_disconnect_disabled
  throw_if (not (valid_days i.quick_requested_days)) quick_disconnect_invalid_days
  throw_if (reason_too_short i) quick_disconnect_reason_required

abbrev pub has_no_document : CommitInput → Bool
has_no_document i = not (is_some i.approval_file) && (not (is_some i.po_file) && not i.test_mode)
