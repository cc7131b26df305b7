-- ===== src/Dashboard/Base.antt =====
-- `buildAccountScope` of src/modules/dashboard/dashboard.service.ts, and the accounts and the counts
-- of customers that `existingBase` and `computeNewBase` take from it.
pub mod Laws
use isp_sam_backend.Prelude.{
  ℕ, ◌+◌, Bool, true, false, ◌&&◌, ◌||◌, ◌==◌, Option, none, some, List, [], ◌∷◌, length, select,
  get_or, not, if◌then◌else◌,
}
use isp_sam_backend.Db.{
  UserRole, admin, sam, accounts_team, super_admin_2, same_role, KittyType, is_base, active,
  terminated, probable_churn, disconnecting, same_status, Account, Store, find_many,
}
use isp_sam_backend.Scope.{Requester, team_of, owned_within}

-- The roles that see every account.
abbrev pub is_org_wide : UserRole → Bool
is_org_wide role =
    same_role role admin || (same_role role accounts_team || same_role role super_admin_2)

-- The owners that the role lets through, or none for no filter.
unfoldable pub role_owners : Requester → Store → Option (List ℕ)
role_owners r s =
    if is_org_wide r.role
    then none
    else if same_role r.role sam
    then some (r.id ∷ [])
    else some (team_of r.id s)

abbrev pub lets_through : Option (List ℕ) → Option ℕ → Bool
lets_through none owner = true
lets_through (some owners) owner = owned_within owners owner

abbrev pub named_sam : Option ℕ → Option (List ℕ)
named_sam none = none
named_sam (some u) = some (u ∷ [])

-- `AND` of the scope of the role and the SAM of the dropdown.
unfoldable pub account_scope : Requester → Option ℕ → Store → Account → Bool
account_scope r sam_id s a =
    lets_through (role_owners r s) a.sam_owner_id && lets_through (named_sam sam_id) a.sam_owner_id

abbrev pub is_kitty : Bool → KittyType → Bool
is_kitty true k = is_base k
is_kitty false k = if is_base k then false else true

-- `baseAccounts`, and `newAccounts` but for their order.
unfoldable pub kitty_accounts : Bool → Requester → Option ℕ → Store → List Account
kitty_accounts of_base r sam_id s =
    find_many (λ a. is_kitty of_base a.kitty_type && account_scope r sam_id s a) s.accounts

abbrev pub is_active : Account → Bool
is_active a = same_status a.contract_status active

abbrev pub is_terminated : Account → Bool
is_terminated a = same_status a.contract_status terminated

abbrev pub is_churning : Account → Bool
is_churning a =
    same_status a.contract_status probable_churn || same_status a.contract_status disconnecting

abbrev pub sum_of : (Account → ℕ) → List Account → ℕ
sum_of f [] = 0
sum_of f (a ∷ more) = f a + sum_of f more

-- `startOfPeriodArc ?? currentArc`
abbrev pub start_arc : Account → ℕ
start_arc a = get_or a.start_of_period_arc a.current_arc

pub record Customers : Type 0 where
  pub total_customers : ℕ
  pub total_arc : ℕ
  pub current_customers : ℕ
  pub current_arc : ℕ
  pub terminated_count : ℕ
  pub churn_count : ℕ
  pub churn_arc : ℕ

-- The figures that both bases have; they differ in who is current.
customers : (Account → Bool) → List Account → Customers
customers is_current accounts = record {
  total_customers = length accounts;
  total_arc = sum_of start_arc accounts;
  current_customers = length (select is_current accounts);
  current_arc = sum_of (λ a. a.current_arc) (select is_current accounts);
  terminated_count = length (select is_terminated accounts);
  churn_count = length (select is_churning accounts);
  churn_arc = sum_of (λ a. a.current_arc) (select is_churning accounts);
}

-- `liveActive` of `existingBase`.
abbrev pub is_live : Account → Bool
is_live a = not (is_terminated a) && not (is_churning a)

-- `existingBase` without a quarter.
unfoldable pub base_customers : List Account → Customers
unfolding customers
base_customers accounts = customers is_live accounts

-- `computeNewBase`
unfoldable pub new_customers : List Account → Customers
unfolding customers
new_customers accounts = customers is_active accounts
