-- ===== src/Tests/Users.antt =====
-- An administrator at work on users (src/modules/users).
use isp_sam_backend.Prelude.{
  ℕ, String, ◌≡◌, ◌≢◌, ◌≤◌, ◌==◌, none, some, false, if◌then◌else◌, [], ◌∷◌, refl, arith,
}
use isp_sam_backend.Text.{text_length}
use isp_sam_backend.Db.{active, base, admin, sam, accounts_team, User, Store}
use isp_sam_backend.Users.Service.{CreateUserInput, UpdateOptions, is_last_admin, update}
use isp_sam_backend.Users.Admins.{IsAdministered, admins}
use isp_sam_backend.Users.Requests.{
  done, refused, last_admin, head_missing, head_is_no_sam_head, create_request, update_request,
  update_found, remove_request, remove_found, is_head,
}
use isp_sam_backend.Users.Requests.Admins.{requests-IsAdministered}
use isp_sam_backend.Users.Requests.Hierarchy.{IsPlaced, IsUpdated, update_request_lem}
use isp_sam_backend.Tests.Data.{account_of, fresh_store, world_at, users}

abbrev root : User
root = record {
  id = 1;
  email = "root@sam";
  name = "Root";
  role = admin;
  sam_head_id = none;
  password_hash = "h";
  allowable_churn_percent = 700;
  created_at = 0;
}

-- The administrator 1 beside the SAM 11 and its head 5.
abbrev office : Store
office = record (fresh_store (account_of base active)) {
  users = record { keys = 1 ∷ 5 ∷ 11 ∷ []; row = λ j. if j == 1 then some root else users.row j };
}

abbrev hash : String → String
hash t = "hashed"

abbrev nothing : ℕ → UpdateOptions
nothing k = record {
  id = k;
  patch = record { name = none; role = none; sam_head_id = none; allowable_churn_percent = none };
  new_password = none;
  performed_by_user_id = 1;
}

-- The only administrator is not demoted, and not deleted by another.
last_admin_stays :
    ((update_request hash
        (record (nothing 1) { patch = record (nothing 1).patch { role = some accounts_team } })
        office).0
      ≡ refused last_admin)
    × ((remove_request (λ _. false) 1 5 office).0 ≡ refused last_admin)
unfolding update_request update_found remove_request remove_found is_last_admin
last_admin_stays = (refl, refl)

abbrev new_sam : CreateUserInput
new_sam = record {
  email = "new@sam";
  name = "New";
  role = sam;
  password = "secret";
  sam_head_id = none;
}

-- A SAM without a head is created, and then no update of it passes that leaves out the head.
sam_without_head :
    let s = (create_request hash (world_at 9) new_sam office).1 in
    ((create_request hash (world_at 9) new_sam office).0
      ≡ done (record {
        id = 7;
        email = "new@sam";
        name = "New";
        role = sam;
        sam_head_id = none;
        password_hash = "hashed";
        allowable_churn_percent = 700;
        created_at = 9;
      }))
    × ((update_request hash (nothing 7) s).0 ≡ refused head_missing)
unfolding create_request update_request update_found text_length
sam_without_head = (refl, refl)

-- The head 5 becomes an accountant, and the SAM 11 still reports to 5.
head_leaves :
    let r =
      update_request hash
        (record (nothing 5) { patch = record (nothing 5).patch { role = some accounts_team } })
        office in
    (is_head (r.1.users.row 5) ≡ false)
    × (r.1.users.row 11 ≡ office.users.row 11)
    × ((update_request hash (nothing 11) r.1).0 ≡ refused head_is_no_sam_head)
unfolding update_request update_found update
head_leaves = (refl, refl, refl)

office-IsAdministered : IsAdministered office
unfolding admins
office-IsAdministered = record {
  keyed = λ k u e. ground arith;
  once = λ k. ground arith;
  administered = ground arith;
}

requests-IsAdministered_example :
    IsAdministered (create_request hash (world_at 9) new_sam office).1
    × IsAdministered (update_request hash (nothing 5) office).1
    × IsAdministered (remove_request (λ _. false) 11 1 office).1
requests-IsAdministered_example =
    requests-IsAdministered hash (λ _. false) (world_at 9) new_sam (nothing 5) 11 1 office
      office-IsAdministered refl refl

abbrev narrowed : UpdateOptions
narrowed = record (nothing 11) {
  patch = record (nothing 11).patch { allowable_churn_percent = some 650 };
}

abbrev narrowed_sam : User
narrowed_sam = record {
  id = 11;
  email = "sam@sam";
  name = "Sam";
  role = sam;
  sam_head_id = some 5;
  password_hash = "h";
  allowable_churn_percent = 650;
  created_at = 0;
}

narrowed-done : (update_request hash narrowed office).0 ≡ done narrowed_sam
unfolding update_request update_found update
narrowed-done = refl

update_request_lem_example :
    let t = (update_request hash narrowed office).1 in
    ((u : User) × (office.users.row 11 ≡ some u) × IsUpdated hash narrowed u narrowed_sam)
    × (t.users.row 11 ≡ some narrowed_sam)
    × ((j : ℕ) → j ≢ 11 → t.users.row j ≡ office.users.row j)
    × IsPlaced narrowed_sam office
    × ((x : ℕ) → narrowed.patch.allowable_churn_percent ≡ some x → (600 ≤ x) × (x ≤ 800))
update_request_lem_example = update_request_lem hash narrowed office narrowed_sam narrowed-done
