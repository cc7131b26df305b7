-- ===== src/Users/Service.antt =====
-- `create`, `update`, `remove` and `isLastAdmin` of src/modules/users/users.service.ts.
pub mod Laws
pub mod Keeps
use text.Mathlib.Text.{◌==◌ as str_eq}
use isp_sam_backend.Prelude.{
  ℕ, String, Bool, true, false, not, ◌&&◌, ◌||◌, Option, none, some, List, [], ◌∷◌, length, leb,
  ◌==◌, get_or, is_some, if◌then◌else◌,
}
use isp_sam_backend.Text.{bind_truthy}
use isp_sam_backend.Db.{
  UserRole, admin, same_role, User, Account, Json, json_or_null, AuditEntry, Table, Store, Result,
  ok, err, Action, pure, throw_if, or_throw, gets, transaction, when, ◌>>=◌, ◌>>◌, add, put, delete,
  find_many, create_audit, user_not_found, record_not_found, unique_violation,
  foreign_key_violation,
}
use isp_sam_backend.World.{World}

abbrev pub is_admin : User → Bool
is_admin u = same_role u.role admin

abbrev pub has_email : String → User → Bool
has_email email u = str_eq u.email email

abbrev pub map_row : {V : Type 0} → (V → V) → Option V → Option V
map_row f none = none
map_row f (some v) = some (f v)

-- `onDelete: SetNull` over a table.
abbrev pub map_rows : {V : Type 0} → (V → V) → Table V → Table V
map_rows f t = record { keys = t.keys; row = λ j. map_row f (t.row j) }

abbrev unlinked : ℕ → Option ℕ → Option ℕ
unlinked k none = none
unlinked k (some j) = if j == k then none else some j

abbrev pub without_head : ℕ → User → User
without_head k u = record u { sam_head_id = unlinked k u.sam_head_id }

abbrev without_owner : ℕ → Account → Account
without_owner k a = record a { sam_owner_id = unlinked k a.sam_owner_id }

-- `user.create`: the email is unique.
abbrev pub create_user : User → Action User
create_user u s = elim (find_many (has_email u.email) s.users) [
  | [] ↦ (ok u, record s { users = add u.id u s.users })
  | _ ↦ (err unique_violation, s)
]

abbrev pub update_user : ℕ → (User → User) → Action User
update_user k f s = elim (s.users.row k) [
  | none ↦ (err record_not_found, s)
  | some u ↦ (ok (f u), record s { users = put k (f u) s.users })
]

-- `user.delete`, with what the foreign keys of prisma/schema.prisma do: a lead or a feedback that
-- refers to the user forbids it; those tables are not modelled, so `is_referenced` says it.
abbrev pub delete_user : (ℕ → Bool) → ℕ → Action (Unit {0})
delete_user is_referenced k s = if is_referenced k then (err foreign_key_violation, s) else (
  ok tt,
  record s {
    users = map_rows (without_head k) (delete k s.users);
    accounts = map_rows (without_owner k) s.accounts;
    notification_states = λ user row. if user == k then none else s.notification_states user row;
  },
)

pub record CreateUserInput : Type 0 where
  pub email : String
  pub name : String
  pub role : UserRole
  pub password : String
  pub sam_head_id : Option ℕ

-- `Decimal @default(7.00)`
abbrev pub created_user : World → (String → String) → CreateUserInput → User
created_user w hash i = record {
  id = w.fresh_id;
  email = i.email;
  name = i.name;
  role = i.role;
  sam_head_id = i.sam_head_id;
  password_hash = hash i.password;
  allowable_churn_percent = 700;
  created_at = w.now;
}

-- `samHeadId` is null to clear it, and absent to leave it.
pub record UserUpdatePatch : Type 0 where
  pub name : Option String
  pub role : Option UserRole
  pub sam_head_id : Option (Option ℕ)
  pub allowable_churn_percent : Option ℕ

pub record UpdateOptions : Type 0 where
  pub id : ℕ
  pub patch : UserUpdatePatch
  pub new_password : Option String
  pub performed_by_user_id : ℕ

abbrev new_hash : (String → String) → Option String → String → String
new_hash hash none old = old
new_hash hash (some password) old = hash password

abbrev pub updated_user : (String → String) → UpdateOptions → User → User
updated_user hash o u = record u {
  name = get_or o.patch.name u.name;
  role = get_or o.patch.role u.role;
  sam_head_id = get_or o.patch.sam_head_id u.sam_head_id;
  allowable_churn_percent = get_or o.patch.allowable_churn_percent u.allowable_churn_percent;
  password_hash = new_hash hash (bind_truthy o.new_password) u.password_hash;
}

abbrev same_id : Option ℕ → Option ℕ → Bool
same_id none none = true
same_id (some j) (some k) = j == k
same_id _ _ = false

-- `fieldChanged`
abbrev pub field_changed : User → User → Bool
field_changed u v =
    not (str_eq u.name v.name)
    || (not (same_role u.role v.role)
        || (not (same_id u.sam_head_id v.sam_head_id)
            || not (u.allowable_churn_percent == v.allowable_churn_percent)))

unfoldable pub user_audit : ℕ → String → ℕ → List (String × Json) → AuditEntry
user_audit k action by payload = record {
  entity_type = "User";
  entity_id = k;
  action = action;
  performed_by = some by;
  ip_address = none;
  user_agent = none;
  payload = payload;
}

-- `beforeSnap` and `afterSnap`, with the outer key in front of each of theirs.
abbrev before_snap : User → List (String × Json)
before_snap u =
    ("before.name", Json.text u.name)
    ∷ ("before.role", Json.role u.role)
    ∷ ("before.samHeadId", json_or_null Json.ref u.sam_head_id)
    ∷ ("before.allowableChurnPercent", Json.num u.allowable_churn_percent)
    ∷ []

abbrev change_snap : User → User → List (String × Json)
change_snap u v =
    ("after.name", Json.text v.name)
    ∷ ("after.role", Json.role v.role)
    ∷ ("after.samHeadId", json_or_null Json.ref v.sam_head_id)
    ∷ ("after.allowableChurnPercent", Json.num v.allowable_churn_percent)
    ∷ before_snap u

-- `connect` of a user who is not there fails.
abbrev pub misses_head : Option (Option ℕ) → Store → Bool
misses_head (some (some h)) s = not (is_some (s.users.row h))
misses_head _ s = false

-- The audit rows of an update.
unfoldable pub audit_update : UpdateOptions → User → User → Action User
unfolding user_audit
audit_update o before u = do
  when (field_changed before u)
      (create_audit (user_audit u.id "UPDATE" o.performed_by_user_id (change_snap before u)))
  when (is_some (bind_truthy o.new_password)) (
      create_audit (
        user_audit u.id "PASSWORD_RESET" o.performed_by_user_id (("byAdmin", Json.bool true) ∷ [])))
  pure u

unfoldable pub write_update : (String → String) → UpdateOptions → User → Action User
unfolding audit_update
write_update hash o before = transaction (do
  missing ← gets (misses_head o.patch.sam_head_id)
  throw_if missing record_not_found
  u ← update_user o.id (updated_user hash o)
  audit_update o before u)

unfoldable pub update : (String → String) → UpdateOptions → Action User
unfolding write_update
update hash o = do
  before ← (gets (λ s. s.users.row o.id) >>= λ found. or_throw found user_not_found)
  write_update hash o before

abbrev pub user_snapshot : User → List (String × Json)
user_snapshot u =
    ("email", Json.text u.email)
    ∷ ("name", Json.text u.name)
    ∷ ("role", Json.role u.role)
    ∷ ("samHeadId", json_or_null Json.ref u.sam_head_id)
    ∷ ("createdAt", Json.instant u.created_at)
    ∷ []

unfoldable pub remove_user : (ℕ → Bool) → ℕ → ℕ → Action (List (String × Json))
unfolding user_audit
remove_user is_referenced k by = do
  before ← (gets (λ s. s.users.row k) >>= λ found. or_throw found user_not_found)
  transaction (do
    create_audit (user_audit before.id "DELETE" by (user_snapshot before))
    delete_user is_referenced before.id
    pure (user_snapshot before))

-- `isLastAdmin`
unfoldable pub is_last_admin : ℕ → Store → Bool
is_last_admin k s = elim (s.users.row k) [
  | none ↦ false
  | some u ↦ is_admin u && leb (length (find_many is_admin s.users)) 1
]
