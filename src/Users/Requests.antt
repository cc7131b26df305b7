-- ===== src/Users/Requests.antt =====
-- `create`, `update` and `remove` of src/modules/users/users.controller.ts, on bodies that have the
-- types of their schemas, for a user who is logged in.
pub mod Admins
pub mod Hierarchy
pub mod Keeps
use isp_sam_backend.Prelude.{
  ℕ, String, Bool, true, false, not, ◌&&◌, ◌||◌, Option, none, some, leb, ◌==◌, get_or, is_some,
  if◌then◌else◌, List,
}
use isp_sam_backend.Text.{text_length}
use isp_sam_backend.Db.{
  UserRole, sam, sam_head, admin, same_role, User, Json, Store, Error, user_not_found,
  unique_violation, Result, ok, err,
}
use isp_sam_backend.World.{World}
use isp_sam_backend.Users.Service.{
  is_admin, CreateUserInput, created_user, create_user, UserUpdatePatch, UpdateOptions, update,
  remove_user, is_last_admin,
}

-- The answers, by status and message.
pub data Problem : Type 0 where
  invalid_body head_on_non_sam head_is_no_sam_head head_missing : Problem
  no_such_user last_admin own_user email_exists : Problem

pub data Reply (A : Type 0) : Type 0 where
  done : A → Reply A
  refused : Problem → Reply A
  -- An error that the controller does not answer.
  thrown : Error → Reply A

unfoldable pub response_status : Problem → ℕ
response_status no_such_user = 404
response_status email_exists = 409
response_status _ = 400

abbrev pub is_head : Option User → Bool
is_head none = false
is_head (some u) = same_role u.role sam_head

-- The samHeadId of a new user.
abbrev pub head_problem : UserRole → Option ℕ → Store → Option Problem
head_problem role none s = none
head_problem role (some h) s =
    if not (same_role role sam)
    then some head_on_non_sam
    else if is_head (s.users.row h)
    then none
    else some head_is_no_sam_head

abbrev answer_create : Result User → Reply User
answer_create (ok u) = done u
answer_create (err unique_violation) = refused email_exists
answer_create (err e) = thrown e

abbrev answer_other : {A : Type 0} → Result A → Reply A
answer_other (ok a) = done a
answer_other (err user_not_found) = refused no_such_user
answer_other (err e) = thrown e

abbrev replied : {A B : Type 0} → (Result A → Reply B) → Result A × Store → Reply B × Store
replied f (r, s) = (f r, s)

-- Names and passwords have a least length; the email is checked and put in lower case by the schema.
abbrev pub create_is_valid : CreateUserInput → Bool
create_is_valid i = leb 1 (text_length i.name) && leb 6 (text_length i.password)

-- The range of the allowable churn, in hundredths of a percent.
abbrev pub in_churn_range : ℕ → Bool
in_churn_range x = leb 600 x && leb x 800

abbrev absent_or : {A : Type 0} → (A → Bool) → Option A → Bool
absent_or p none = true
absent_or p (some a) = p a

abbrev pub update_is_valid : UpdateOptions → Bool
update_is_valid o =
    absent_or (λ t. leb 1 (text_length t)) o.patch.name
    && (absent_or (λ t. leb 6 (text_length t)) o.new_password
        && absent_or in_churn_range o.patch.allowable_churn_percent)

abbrev pub next_role : UpdateOptions → User → UserRole
next_role o u = get_or o.patch.role u.role

abbrev pub next_head : UpdateOptions → User → Option ℕ
next_head o u = get_or o.patch.sam_head_id u.sam_head_id

-- A SAM reports to a SAM_HEAD, and nobody else reports.
abbrev pub update_head_problem : UserRole → Option ℕ → Store → Option Problem
update_head_problem role head s =
    if same_role role sam
    then elim head [
      | none ↦ some head_missing
      | some h ↦ if is_head (s.users.row h) then none else some head_is_no_sam_head
    ]
    else if is_some head
    then some head_on_non_sam
    else none

abbrev pub demotes_last : UpdateOptions → User → Store → Bool
demotes_last o u s = is_admin u && (not (same_role (next_role o u) admin) && is_last_admin o.id s)

module _ (hash : String → String) where
  unfoldable pub create_request : World → CreateUserInput → Store → Reply User × Store
  create_request w i s =
      if not (create_is_valid i)
      then (refused invalid_body, s)
      else elim (head_problem i.role i.sam_head_id s) [
        | some p ↦ (refused p, s)
        | none ↦ replied answer_create (create_user (created_user w hash i) s)
      ]

  unfoldable pub update_found : UpdateOptions → User → Store → Reply User × Store
  unfolding update is_last_admin
  update_found o u s = elim (update_head_problem (next_role o u) (next_head o u) s) [
    | some p ↦ (refused p, s)
    | none ↦
        if demotes_last o u s
        then (refused last_admin, s)
        else replied answer_other (update hash o s)
  ]

  unfoldable pub update_request : UpdateOptions → Store → Reply User × Store
  unfolding update_found
  update_request o s =
      if not (update_is_valid o) then (refused invalid_body, s) else elim (s.users.row o.id) [
        | none ↦ (refused no_such_user, s)
        | some u ↦ update_found o u s
      ]

unfoldable pub remove_found :
    (ℕ → Bool) → ℕ → ℕ → User → Store → Reply (List (String × Json)) × Store
unfolding remove_user is_last_admin
remove_found is_referenced k by u s =
    if is_admin u && is_last_admin k s
    then (refused last_admin, s)
    else replied answer_other (remove_user is_referenced k by s)

unfoldable pub remove_request : (ℕ → Bool) → ℕ → ℕ → Store → Reply (List (String × Json)) × Store
unfolding remove_found
remove_request is_referenced k by s =
    if k == by then (refused own_user, s) else elim (s.users.row k) [
      | none ↦ (refused no_such_user, s)
      | some u ↦ remove_found is_referenced k by u s
    ]
