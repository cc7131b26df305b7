-- ===== src/Users/Service/Laws.antt =====
-- What the calls write to the users (src/modules/users/users.service.ts).
use isp_sam_backend.Prelude.{
  is_some, ℕ, ◌≡◌, String, Bool, some, arith, ◌⊎◌, Bool-cases, List-cases, inl, inr,
}
use isp_sam_backend.Db.{User, Store, ok, err, record_not_found, put, add, delete, find_many}
use isp_sam_backend.Text.{bind_truthy}
use isp_sam_backend.Users.Service.{
  field_changed, audit_update, write_update, user_audit, map_rows, without_head, UpdateOptions,
  update, updated_user, remove_user, create_user, has_email, misses_head,
}

pub create_user-moves :
    (u : User) (s : Store)
    → ((create_user u s).1 ≡ s) ⊎ ((create_user u s).1.users ≡ add u.id u s.users)
create_user-moves u s = elim (List-cases (find_many (has_email u.email) s.users)) [
  | inl e ↦ inr (ground arith)
  | inr (y, ys, e) ↦ inl (ground arith)
]

audit_update-moves :
    (o : UpdateOptions) (before u : User) (s : Store)
    → ((audit_update o before u s).0 ≡ ok u) × ((audit_update o before u s).1.users ≡ s.users)
unfolding audit_update user_audit
audit_update-moves o before u s = elim (Bool-cases (field_changed before u)) [
  | inl e ↦ elim (Bool-cases (is_some (bind_truthy o.new_password))) [
    | inl f ↦ ground arith
    | inr f ↦ ground arith
  ]
  | inr e ↦ elim (Bool-cases (is_some (bind_truthy o.new_password))) [
    | inl f ↦ ground arith
    | inr f ↦ ground arith
  ]
]

pub update-moves :
    (hash : String → String) (o : UpdateOptions) (u : User) (s : Store)
    → s.users.row o.id ≡ some u
    → (((update hash o s).1 ≡ s) × ((update hash o s).0 ≡ err record_not_found))
      ⊎ (((update hash o s).0 ≡ ok (updated_user hash o u))
          × ((update hash o s).1.users ≡ put o.id (updated_user hash o u) s.users))
unfolding update write_update
update-moves hash o u s f = elim (Bool-cases (misses_head o.patch.sam_head_id s)) [
  | inl e ↦ inl (ground arith, ground arith)
  | inr e ↦
      let v = updated_user hash o u in
      let (r, t) = audit_update-moves o u v (record s { users = put o.id v s.users }) in
      inr (ground arith, ground arith)
]

pub remove_user-moves :
    (is_referenced : ℕ → Bool) (k by : ℕ) (u : User) (s : Store)
    → s.users.row k ≡ some u
    → u.id ≡ k
    → ((remove_user is_referenced k by s).1 ≡ s)
      ⊎ ((remove_user is_referenced k by s).1.users ≡ map_rows (without_head k) (delete k s.users))
unfolding remove_user
remove_user-moves is_referenced k by u s f i = elim (Bool-cases (is_referenced u.id)) [
  | inl e ↦ inl (ground arith)
  | inr e ↦ inr (ground arith)
]
