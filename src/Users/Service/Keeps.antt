-- ===== src/Users/Service/Keeps.antt =====
-- The calls that write users keep the store consistent (src/modules/users/users.service.ts).
use isp_sam_backend.Prelude.{
  ℕ, ◌≡◌, ◌≢◌, String, Bool, none, arith, Bool-cases, List-cases, Option-cases, inl, inr,
}
use isp_sam_backend.Db.{User, Store, find_many, IsConsistent}
use isp_sam_backend.Db.Keeps.{Keeps, keeps_rules, moved}
use isp_sam_backend.Users.Service.{
  UpdateOptions, create_user, update_user, delete_user, update, write_update, audit_update,
  user_audit, remove_user, has_email,
}

-- Consistency is about the changes and about which accounts are there.
same_changes :
    {s : Store} (t : Store)
    → IsConsistent s
    → t.changes ≡ s.changes
    → ((k : ℕ) → s.accounts.row k ≢ none → t.accounts.row k ≢ none)
    → IsConsistent t
same_changes t h e a = record {
  sound = record {
    keyed = rw e h.sound.keyed;
    listed = rw e h.sound.listed;
    owned = rw e (λ k c q. a c.account_id (h.sound.owned k c q));
  };
  rows = rw e h.rows;
}

pub Keeps-create_user : (u : User) → Keeps (create_user u)
Keeps-create_user u = record {
  at = λ s h. elim (List-cases (find_many (has_email u.email) s.users)) [
    | inl e ↦ same_changes (create_user u s).1 h (ground arith) (λ k n. ground arith)
    | inr (y, ys, e) ↦ moved h (ground arith)
  ];
}

Keeps-update_user : (k : ℕ) (f : User → User) → Keeps (update_user k f)
Keeps-update_user k f = record {
  at = λ s h. elim (Option-cases (s.users.row k)) [
    | inl e ↦ moved h (ground arith)
    | inr (u, e) ↦ same_changes (update_user k f s).1 h (ground arith) (λ j n. ground arith)
  ];
}

Keeps-delete_user : (is_referenced : ℕ → Bool) (k : ℕ) → Keeps (delete_user is_referenced k)
Keeps-delete_user is_referenced k = record {
  at = λ s h. elim (Bool-cases (is_referenced k)) [
    | inl e ↦ moved h (ground arith)
    | inr e ↦ same_changes (delete_user is_referenced k s).1 h (ground arith) (λ j n. ground arith)
  ];
}

ruleset user_rules = (keeps_rules, Keeps-update_user, Keeps-delete_user)

pub Keeps-update : (hash : String → String) (o : UpdateOptions) → Keeps (update hash o)
unfolding update write_update audit_update user_audit
Keeps-update hash o = search user_rules depth 14

pub Keeps-remove_user :
    (is_referenced : ℕ → Bool) (k by : ℕ) → Keeps (remove_user is_referenced k by)
unfolding remove_user user_audit
Keeps-remove_user is_referenced k by = search user_rules depth 14
