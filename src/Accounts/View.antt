-- ===== src/Accounts/View.antt =====
-- `list` and `getById` of src/modules/accounts/accounts.service.ts. The pages after the first one,
-- which a cursor asks for, are not modelled.
pub mod Laws
use isp_sam_backend.Prelude.{
  ℕ, suc, Bool, true, false, not, ◌&&◌, ◌||◌, Option, none, some, List, [], ◌∷◌, ◌++◌, map, select,
  length, ltb, ◌==◌, if◌then◌else◌, get_or, is_some, includes,
}
use isp_sam_backend.Db.{
  UserRole, sam, sam_head, same_role, KittyType, base, new, is_base, terminated, same_status,
  is_disconnection, Account, Change, Store, find_many,
}
use isp_sam_backend.Scope.{Requester, reports_to, owned_within}

pub data OwnerFilter : Type 0 where
  mine unassigned team all : OwnerFilter

-- A condition on the column `samOwnerId`.
pub data OwnerClause : Type 0 where
  any_owner no_owner : OwnerClause
  owner_is : ℕ → OwnerClause
  owner_in : List ℕ → OwnerClause

-- The keys of `where`: `or_owners` is its `OR`.
pub record AccountWhere : Type 0 where
  pub kitty_type : Option KittyType
  pub sam_owner : OwnerClause
  pub or_owners : Option (List OwnerClause)

-- `listReportIds`
abbrev pub report_ids : ℕ → Store → List ℕ
report_ids head s = map (λ u. u.id) (find_many (reports_to head) s.users)

-- The scope of the role.
unfoldable pub scoped_where : Option KittyType → Requester → Store → AccountWhere
scoped_where kitty r s =
    if same_role r.role sam
    then record { kitty_type = kitty; sam_owner = owner_is r.id; or_owners = none }
    else if same_role r.role sam_head
    then record {
      kitty_type = kitty;
      sam_owner = any_owner;
      or_owners = some (owner_is r.id ∷ owner_in (report_ids r.id s) ∷ no_owner ∷ []);
    }
    else record { kitty_type = kitty; sam_owner = any_owner; or_owners = none }

-- The owner filter takes the place of the clauses on the owner.
unfoldable pub narrowed_where : Option OwnerFilter → Requester → Store → AccountWhere → AccountWhere
narrowed_where (some mine) r s c = record c { sam_owner = owner_is r.id; or_owners = none }
narrowed_where (some unassigned) r s c = record c { sam_owner = no_owner; or_owners = none }
narrowed_where (some team) r s c =
    if same_role r.role sam_head
    then record c { sam_owner = owner_in (report_ids r.id s); or_owners = none }
    else c
narrowed_where _ r s c = c

abbrev pub owner_matches : OwnerClause → Option ℕ → Bool
owner_matches any_owner o = true
owner_matches no_owner o = not (is_some o)
owner_matches (owner_is u) none = false
owner_matches (owner_is u) (some o) = o == u
owner_matches (owner_in us) o = owned_within us o

abbrev some_match : List OwnerClause → Option ℕ → Bool
some_match [] o = false
some_match (c ∷ cs) o = owner_matches c o || some_match cs o

abbrev or_match : Option (List OwnerClause) → Option ℕ → Bool
or_match none o = true
or_match (some cs) o = some_match cs o

abbrev kitty_match : Option KittyType → KittyType → Bool
kitty_match none k = true
kitty_match (some base) k = is_base k
kitty_match (some new) k = not (is_base k)

abbrev pub account_matches : AccountWhere → Account → Bool
account_matches c a =
    kitty_match c.kitty_type a.kitty_type
    && (owner_matches c.sam_owner a.sam_owner_id && or_match c.or_owners a.sam_owner_id)

-- The accounts that `list` selects, oldest first.
unfoldable pub listed : Option KittyType → Option OwnerFilter → Requester → Store → List Account
listed kitty owner r s =
    find_many (account_matches (narrowed_where owner r s (scoped_where kitty r s))) s.accounts

-- The applied disconnection of an account with the latest date of application.
abbrev is_lost : ℕ → Change → Bool
is_lost account c =
    c.account_id == account && (is_disconnection c.change_type && is_some c.account_applied_at)

abbrev last_applied : List Change → Option Change
last_applied [] = none
last_applied (c ∷ cs) = elim (last_applied cs) [
  | none ↦ some c
  | some d ↦
      if ltb (get_or c.account_applied_at 0) (get_or d.account_applied_at 0) then some d else some c
]

-- `attachLastDisconnectionArc` for one row.
unfoldable pub last_disconnection_arc : Store → Account → Option ℕ
last_disconnection_arc s a =
    if same_status a.contract_status terminated
    then elim (last_applied (find_many (is_lost a.id) s.changes)) [
      | none ↦ none
      | some c ↦ some c.old_arc
    ]
    else none

abbrev is_owner : ℕ → Option ℕ → Bool
is_owner user none = false
is_owner user (some o) = o == user

-- An account of another SAM is answered as one that is not there.
unfoldable pub get_by_id : ℕ → Requester → Store → Option (Account × Option ℕ)
get_by_id k r s = elim (s.accounts.row k) [
  | none ↦ none
  | some a ↦
      if same_role r.role sam && not (is_owner r.id a.sam_owner_id)
      then none
      else some (a, last_disconnection_arc s a)
]
