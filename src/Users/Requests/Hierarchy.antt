-- ===== src/Users/Requests/Hierarchy.antt =====
-- Who reports to whom after an update (src/modules/users/users.controller.ts).
use isp_sam_backend.Prelude.{
  ℕ, ◌≡◌, ◌≢◌, ◌≤◌, refl, get_or, String, true, false, none, some, arith, inl, inr, Option-cases,
}
use isp_sam_backend.Text.{bind_truthy}
use isp_sam_backend.Db.{User, Store, sam, same_role}
use isp_sam_backend.Users.Service.{UpdateOptions, updated_user}
use isp_sam_backend.Users.Requests.{
  done, update_request, is_head, update_head_problem, update_is_valid,
}
use isp_sam_backend.Users.Requests.Admins.{update_request-moves}

-- A SAM reports to a SAM_HEAD, and nobody else reports.
pub record IsPlaced (v : User) (s : Store) : Type 0 where
  pub reports :
      same_role v.role sam ≡ true
      → (h : ℕ) × (v.sam_head_id ≡ some h) × (is_head (s.users.row h) ≡ true)
  pub alone : same_role v.role sam ≡ false → v.sam_head_id ≡ none

-- The user with the fields that were given; a password that is missing or empty leaves the old one.
pub record IsUpdated (hash : String → String) (o : UpdateOptions) (u v : User) : Type 0 where
  pub name : v.name ≡ get_or o.patch.name u.name
  pub role : v.role ≡ get_or o.patch.role u.role
  pub head : v.sam_head_id ≡ get_or o.patch.sam_head_id u.sam_head_id
  pub churn :
      v.allowable_churn_percent ≡ get_or o.patch.allowable_churn_percent u.allowable_churn_percent
  pub given : (t : String) → bind_truthy o.new_password ≡ some t → v.password_hash ≡ hash t
  pub kept : bind_truthy o.new_password ≡ none → v.password_hash ≡ u.password_hash
  pub id : v.id ≡ u.id
  pub email : v.email ≡ u.email
  pub created : v.created_at ≡ u.created_at

updated_user-IsUpdated :
    (hash : String → String) (o : UpdateOptions) (u : User)
    → IsUpdated hash o u (updated_user hash o u)
updated_user-IsUpdated hash o u = record {
  name = refl;
  role = refl;
  head = refl;
  churn = refl;
  given = λ t e. ground arith;
  kept = λ e. ground arith;
  id = refl;
  email = refl;
  created = refl;
}

no_problem :
    (v : User) (s : Store) → update_head_problem v.role v.sam_head_id s ≡ none → IsPlaced v s
no_problem v s e = elim (Option-cases v.sam_head_id) [
  | inl n ↦ record { reports = λ r. ground arith; alone = λ r. n }
  | inr (h, n) ↦ record { reports = λ r. (h, n, ground arith); alone = λ r. ground arith }
]

in_range :
    (o : UpdateOptions) (x : ℕ)
    → update_is_valid o ≡ true
    → o.patch.allowable_churn_percent ≡ some x
    → (600 ≤ x) × (x ≤ 800)
in_range o x v e = ground arith

-- An update that is done stores the user with the fields that were given, the hash of a password that
-- was given, and all else as before, and no other user changes. The user then reports to somebody who was a SAM_HEAD before, if it is a SAM, and to nobody
-- otherwise; and an allowable churn that was given lies between 6 and 8 percent.
pub update_request_lem :
    (hash : String → String) (o : UpdateOptions) (s : Store) (v : User)
    → (update_request hash o s).0 ≡ done v
    → let t = (update_request hash o s).1 in
      ((u : User) × (s.users.row o.id ≡ some u) × IsUpdated hash o u v)
      × (t.users.row o.id ≡ some v)
      × ((j : ℕ) → j ≢ o.id → t.users.row j ≡ s.users.row j)
      × IsPlaced v s
      × ((x : ℕ) → o.patch.allowable_churn_percent ≡ some x → (600 ≤ x) × (x ≤ 800))
update_request_lem hash o s v e = elim (update_request-moves hash o s) [
  | inl (_, never) ↦ absurd (never v e)
  | inr (u, f, valid, q, _, d, w) ↦
      let same : v ≡ updated_user hash o u = ground arith in
      (
        (u, f, rw same (updated_user-IsUpdated hash o u)),
        ground arith,
        λ j ne. ground arith,
        rw same (no_problem (updated_user hash o u) s q),
        λ x g. in_range o x valid g,
      )
]
