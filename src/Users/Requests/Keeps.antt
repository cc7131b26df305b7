-- ===== src/Users/Requests/Keeps.antt =====
-- The requests about users keep the store consistent (src/modules/users).
use isp_sam_backend.Prelude.{ℕ, ◌==◌, ◌&&◌, String, Bool, arith, Bool-cases, Option-cases, inl, inr}
use isp_sam_backend.Db.{Store, IsConsistent}
use isp_sam_backend.Db.Keeps.{moved}
use isp_sam_backend.World.{World}
use isp_sam_backend.Users.Service.{
  CreateUserInput, UpdateOptions, created_user, is_last_admin, is_admin,
}
use isp_sam_backend.Users.Service.Keeps.{Keeps-create_user, Keeps-update, Keeps-remove_user}
use isp_sam_backend.Users.Requests.{
  create_request, update_request, update_found, remove_request, remove_found, create_is_valid,
  head_problem, update_is_valid, update_head_problem, next_role, next_head, demotes_last,
}

module _ (hash : String → String) (s : Store) (h : IsConsistent s) where
  pub create_request-IsConsistent :
      (w : World) (i : CreateUserInput) → IsConsistent (create_request hash w i s).1
  unfolding create_request
  create_request-IsConsistent w i = elim (Bool-cases (create_is_valid i)) [
    | inr bad ↦ moved h (ground arith)
    | inl good ↦ elim (Option-cases (head_problem i.role i.sam_head_id s)) [
      | inr (p, e) ↦ moved h (ground arith)
      | inl e ↦ moved ((Keeps-create_user (created_user w hash i)).at s h) (ground arith)
    ]
  ]

  pub update_request-IsConsistent : (o : UpdateOptions) → IsConsistent (update_request hash o s).1
  unfolding update_request update_found
  update_request-IsConsistent o = elim (Bool-cases (update_is_valid o)) [
    | inr bad ↦ moved h (ground arith)
    | inl good ↦ elim (Option-cases (s.users.row o.id)) [
      | inl e ↦ moved h (ground arith)
      | inr (u, e) ↦ elim (Option-cases (update_head_problem (next_role o u) (next_head o u) s)) [
        | inr (p, q) ↦ moved h (ground arith)
        | inl q ↦ elim (Bool-cases (demotes_last o u s)) [
          | inl d ↦ moved h (ground arith)
          | inr d ↦ moved ((Keeps-update hash o).at s h) (ground arith)
        ]
      ]
    ]
  ]

pub remove_request-IsConsistent :
    (is_referenced : ℕ → Bool) (k by : ℕ) (s : Store)
    → IsConsistent s
    → IsConsistent (remove_request is_referenced k by s).1
unfolding remove_request remove_found
remove_request-IsConsistent is_referenced k by s h = elim (Bool-cases (k == by)) [
  | inl own ↦ moved h (ground arith)
  | inr other ↦ elim (Option-cases (s.users.row k)) [
    | inl e ↦ moved h (ground arith)
    | inr (u, e) ↦ elim (Bool-cases (is_admin u && is_last_admin k s)) [
      | inl d ↦ moved h (ground arith)
      | inr d ↦ moved ((Keeps-remove_user is_referenced k by).at s h) (ground arith)
    ]
  ]
]
