-- ===== src/Users/Requests/Admins.antt =====
-- An administrator always remains (src/modules/users/users.controller.ts).
use isp_sam_backend.Prelude.{
  ℕ, ◌==◌, ◌≡◌, ◌≢◌, ◌≤◌, String, Bool, true, false, ◌&&◌, none, some, arith, refl, sym, subst, ◌⊎◌,
  Bool-cases, Option-cases, inl, inr,
}
use isp_sam_backend.Db.{User, Store, put, add, delete}
use isp_sam_backend.World.{World}
use isp_sam_backend.Users.Service.{
  is_admin, map_rows, without_head, CreateUserInput, UpdateOptions, updated_user, is_last_admin,
  created_user,
}
use isp_sam_backend.Users.Service.Laws.{create_user-moves, update-moves, remove_user-moves}
use isp_sam_backend.Users.Admins.{
  IsAdministered, count, admins, put-IsAdministered, add-IsAdministered, delete-IsAdministered,
}
use isp_sam_backend.Users.Requests.{
  create_is_valid, head_problem, update_is_valid, update_head_problem, next_role, next_head,
  demotes_last, done, create_request, update_request, remove_request, update_found,
}

module _ (hash : String → String) where
  create_request-moves :
      (w : World) (i : CreateUserInput) (s : Store)
      → ((create_request hash w i s).1 ≡ s)
        ⊎ ((create_request hash w i s).1.users ≡ add w.fresh_id (created_user w hash i) s.users)
  unfolding create_request
  create_request-moves w i s = elim (Bool-cases (create_is_valid i)) [
    | inr bad ↦ inl (ground arith)
    | inl good ↦ elim (Option-cases (head_problem i.role i.sam_head_id s)) [
      | inr (p, e) ↦ inl (ground arith)
      | inl e ↦ elim (create_user-moves (created_user w hash i) s) [
        | inl same ↦ inl (ground arith)
        | inr added ↦ inr (ground arith)
      ]
    ]
  ]

  -- An update that is done passed the checks of the hierarchy and of the last administrator.
  pub update_request-moves :
      (o : UpdateOptions) (s : Store)
      → (((update_request hash o s).1 ≡ s) × ((v : User) → (update_request hash o s).0 ≢ done v))
        ⊎ ((u : User) × (s.users.row o.id ≡ some u)
            × (update_is_valid o ≡ true)
            × (update_head_problem (next_role o u) (next_head o u) s ≡ none)
            × (demotes_last o u s ≡ false)
            × ((update_request hash o s).0 ≡ done (updated_user hash o u))
            × ((update_request hash o s).1.users ≡ put o.id (updated_user hash o u) s.users))
  unfolding update_request update_found
  update_request-moves o s = elim (Bool-cases (update_is_valid o)) [
    | inr bad ↦ inl (ground arith, λ v x. ground arith)
    | inl good ↦ elim (Option-cases (s.users.row o.id)) [
      | inl e ↦ inl (ground arith, λ v x. ground arith)
      | inr (u, e) ↦ elim (Option-cases (update_head_problem (next_role o u) (next_head o u) s)) [
        | inr (p, q) ↦ inl (ground arith, λ v x. ground arith)
        | inl q ↦ elim (Bool-cases (demotes_last o u s)) [
          | inl d ↦ inl (ground arith, λ v x. ground arith)
          | inr d ↦ elim (update-moves hash o u s e) [
            | inl (same, failed) ↦ inl (ground arith, λ v x. ground arith)
            | inr (r, put_there) ↦ inr (u, e, good, q, d, ground arith, ground arith)
          ]
        ]
      ]
    ]
  ]

remove_request-moves :
    (is_referenced : ℕ → Bool) (k by : ℕ) (s : Store)
    → ((j : ℕ) (u : User) → s.users.row j ≡ some u → u.id ≡ j)
    → ((remove_request is_referenced k by s).1 ≡ s)
      ⊎ ((u : User) × (s.users.row k ≡ some u)
          × ((is_admin u && is_last_admin k s) ≡ false)
          × ((remove_request is_referenced k by s).1.users
              ≡ map_rows (without_head k) (delete k s.users)))
unfolding remove_request
remove_request-moves is_referenced k by s h = elim (Bool-cases (k == by)) [
  | inl own ↦ inl (ground arith)
  | inr other ↦ elim (Option-cases (s.users.row k)) [
    | inl e ↦ inl (ground arith)
    | inr (u, e) ↦ elim (Bool-cases (is_admin u && is_last_admin k s)) [
      | inl d ↦ inl (ground arith)
      | inr d ↦ elim (remove_user-moves is_referenced k by u s e (h k u e)) [
        | inl same ↦ inl (ground arith)
        | inr moved ↦ inr (u, e, d, ground arith)
      ]
    ]
  ]
]

-- An administrator who is not the last is one of two.
not_last :
    (k : ℕ) (u : User) (s : Store)
    → s.users.row k ≡ some u
    → is_last_admin k s ≡ false
    → is_admin u ≡ true
    → 2 ≤ admins s.users.row s.users.keys
unfolding is_last_admin admins
not_last k u s f h a = ground arith

moved : {s t : Store} → IsAdministered s → t ≡ s → IsAdministered t
moved h e = subst IsAdministered (sym e) h

-- Whatever an administrator asks for, a new user under a fresh id, other fields for a user or that a
-- user be removed, and whether it is done or refused: where some user was an administrator, some
-- user still is, and users still stand under their ids, each listed once.
pub requests-IsAdministered :
    (hash : String → String) (is_referenced : ℕ → Bool) (w : World) (i : CreateUserInput)
    (o : UpdateOptions) (k by : ℕ) (s : Store)
    → IsAdministered s
    → s.users.row w.fresh_id ≡ none
    → count w.fresh_id s.users.keys ≡ 0
    → IsAdministered (create_request hash w i s).1
      × IsAdministered (update_request hash o s).1
      × IsAdministered (remove_request is_referenced k by s).1
requests-IsAdministered hash is_referenced w i o k by s h f z = (
  elim (create_request-moves hash w i s) [
    | inl same ↦ moved h same
    | inr e ↦ add-IsAdministered (created_user w hash i) s (create_request hash w i s).1 h f z e
  ],
  elim (update_request-moves hash o s) [
    | inl (same, _) ↦ moved h same
    | inr (u, f, _, _, d, _, e) ↦
        put-IsAdministered o.id u (updated_user hash o u) s (update_request hash o s).1 h f e refl
          (λ a b. not_last o.id u s f (ground arith) a)
  ],
  elim (remove_request-moves is_referenced k by s h.keyed) [
    | inl same ↦ moved h same
    | inr (u, f, d, e) ↦
        delete-IsAdministered k u s (remove_request is_referenced k by s).1 h f e
          (λ a. not_last k u s f (ground arith) a)
  ],
)
