-- ===== src/Accounts/Assign.antt =====
-- `assign` of src/modules/accounts/accounts.service.ts: a customer gets an owner or loses it.
pub mod Laws
pub mod Keeps
use isp_sam_backend.Prelude.{
  ℕ, String, Bool, ◌&&◌, not, Option, none, some, [], ◌∷◌, if◌then◌else◌, is_some,
}
use isp_sam_backend.Db.{
  sam_head, same_role, Account, User, Json, json_or_null, AuditEntry, Store, Action, Result, ok,
  err, pure, gets, or_throw, throw_if, transaction, ◌>>=◌, ◌>>◌, find_account, update_account,
  create_audit, account_not_found, reassign_forbidden, foreign_key_violation,
}
use isp_sam_backend.Scope.{Requester}
use isp_sam_backend.World.{World}
use isp_sam_backend.Notifications.Assigned.{send_customer_assigned_alert}

abbrev user_of : Option ℕ → Store → Option User
user_of none s = none
user_of (some u) s = s.users.row u

-- The foreign key of the owner column.
abbrev pub dangling : Option ℕ → Store → Bool
dangling o s = is_some o && not (is_some (user_of o s))

abbrev pub put_owner : Option ℕ → Account → Account
put_owner o a = record a { sam_owner_id = o }

abbrev action_of : Option ℕ → String
action_of none = "UNASSIGN"
action_of (some u) = "ASSIGN"

abbrev pub assign_audit : ℕ → Option ℕ → Option ℕ → ℕ → AuditEntry
assign_audit account before owner by = record {
  entity_type = "Account";
  entity_id = account;
  action = action_of owner;
  performed_by = some by;
  ip_address = none;
  user_agent = none;
  payload = ("from", json_or_null Json.ref before) ∷ ("to", json_or_null Json.ref owner) ∷ [];
}

-- A head may only hand out customers that no one owns.
abbrev pub is_forbidden : Requester → Account → Bool
is_forbidden r a = same_role r.role sam_head && is_some a.sam_owner_id

change_owner : ℕ → Option ℕ → Requester → Action Account
change_owner k owner r = transaction (do
  a ← (find_account k >>= λ found. or_throw found account_not_found)
  throw_if (is_forbidden r a) reassign_forbidden
  missing ← gets (dangling owner)
  throw_if missing foreign_key_violation
  update_account k (put_owner owner)
  create_audit (assign_audit k a.sam_owner_id owner r.id)
  pure (put_owner owner a))

tell_new_owner : World → ℕ → Requester → Option User → Option User → Action (Unit {0})
tell_new_owner w k r (some u) (some performer) = do
  send_customer_assigned_alert w k u performer.id
  pure tt
tell_new_owner w k r _ _ = pure tt

-- The alert goes out after the transaction, where there is a new owner and the requester is known.
unfoldable pub assign : World → ℕ → Option ℕ → Requester → Action Account
unfolding change_owner tell_new_owner
assign w k owner r = do
  a ← change_owner k owner r
  u ← gets (user_of owner)
  performer ← gets (λ s. s.users.row r.id)
  tell_new_owner w k r u performer
  pure a
