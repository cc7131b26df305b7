-- ===== src/Accounts/Assign/Keeps.antt =====
-- Changing an owner keeps the store consistent (src/modules/accounts/accounts.service.ts).
use isp_sam_backend.Prelude.{ℕ, Option, none, some}
use isp_sam_backend.Db.{User}
use isp_sam_backend.Db.Keeps.{Keeps, keeps_rules}
use isp_sam_backend.Scope.{Requester}
use isp_sam_backend.World.{World}
use isp_sam_backend.Notifications.Assigned.{Keeps-customer_assigned_alert}
use isp_sam_backend.Accounts.Assign.{assign, change_owner, tell_new_owner}

Keeps-change_owner : (k : ℕ) (owner : Option ℕ) (r : Requester) → Keeps (change_owner k owner r)
unfolding change_owner
Keeps-change_owner k owner r = search keeps_rules depth 16

Keeps-tell_new_owner :
    (w : World) (k : ℕ) (r : Requester) (u p : Option User) → Keeps (tell_new_owner w k r u p)
unfolding tell_new_owner
Keeps-tell_new_owner w k r none p = search keeps_rules
Keeps-tell_new_owner w k r (some u) none = search keeps_rules
Keeps-tell_new_owner w k r (some u) (some p) = search (keeps_rules, Keeps-customer_assigned_alert)

pub Keeps-assign :
    (w : World) (k : ℕ) (owner : Option ℕ) (r : Requester) → Keeps (assign w k owner r)
unfolding assign
Keeps-assign w k owner r = search (keeps_rules, Keeps-change_owner, Keeps-tell_new_owner) depth 12
