-- ===== src/Changes/Commit/Keeps.antt =====
-- `commit` keeps the store consistent
-- (src/modules/commercial-changes/commercial-changes.service.ts).
use isp_sam_backend.Prelude.{◌≡◌, true, Option, String, some, arith}
use isp_sam_backend.Db.{
  Change, Account, User, Store, ok, ◌>>=◌, ◌>>◌, is_consistent, IsConsistent, Action, pure,
}
use isp_sam_backend.Db.Keeps.{
  Keeps, Keeps-then, Keeps-bind, Keeps-create_audit, bind-IsConsistent, reading-IsConsistent,
  Keeps-pure, create_change-IsConsistent,
}
use isp_sam_backend.World.{World, FileKind, approval, po, Upload}
use isp_sam_backend.Notifications.{send_commercial_change_alert}
use isp_sam_backend.Notifications.Keeps.{Keeps-commercial_change_alert}
use isp_sam_backend.Changes.Commit.{admit, prepare, carry_out, commit}
use isp_sam_backend.Changes.Commit.Guards.{CommitInput}
use isp_sam_backend.Changes.Commit.Record.{upload_file, new_change, create_commit}
use isp_sam_backend.Changes.Commit.Route.{CrmOutcome, retain_if_churning, route}
use isp_sam_backend.Changes.Commit.Route.Keeps.{Keeps-route, Keeps-retain_if_churning}

module _ (w : World) (i : CommitInput) (a : Account) (u : User) where
  new_change-is_consistent : (x y : Option Upload) → is_consistent (new_change w a i x y) ≡ true
  unfolding is_consistent
  new_change-is_consistent x y = ground arith

  upload_same : (k : FileKind) (f : Option String) (s : Store) → (upload_file w k f s).1 ≡ s
  unfolding upload_file
  upload_same k f s = ground arith

  create_commit-IsConsistent :
      (s : Store)
      → IsConsistent s
      → s.accounts.row i.account_id ≡ some a
      → (x y : Option Upload) → IsConsistent (create_commit a i (new_change w a i x y) s).1
  unfolding create_commit
  create_commit-IsConsistent s h e x y = (Keeps-create_audit _).at _ (
      create_change-IsConsistent (new_change w a i x y) s h (ground arith)
        (new_change-is_consistent x y))

  prepare-IsConsistent :
      (s : Store)
      → IsConsistent s
      → s.accounts.row i.account_id ≡ some a
      → IsConsistent (prepare w i a s).1
  unfolding prepare
  prepare-IsConsistent s h e =
      let create : Option Upload → Option Upload → Action Change =
        λ x y. create_commit a i (new_change w a i x y) in
      let upload_po : Action (Option Upload) = upload_file w po i.po_file in
      reading-IsConsistent (upload_file w approval i.approval_file) (λ x. upload_po >>= create x) s
        h (upload_same approval i.approval_file s)
        (λ x p.
          reading-IsConsistent upload_po (create x) s h (upload_same po i.po_file s)
            (λ y q. create_commit-IsConsistent s h e x y))

  after_prepare : Change → Action (Change × CrmOutcome)
  after_prepare c = do
    retain_if_churning w a i
    outcome ← route w a u i c
    send_commercial_change_alert w c.id a.sam_owner_id i.performed_by_user_id
    pure (c, outcome)

  Keeps-after_prepare : (c : Change) → Keeps (after_prepare c)
  unfolding after_prepare
  Keeps-after_prepare c = Keeps-then _ _ (Keeps-retain_if_churning w i a u) (
      Keeps-bind _ _ (Keeps-route w i a u c) (λ outcome.
        Keeps-then _ _ (Keeps-commercial_change_alert w c.id a.sam_owner_id i.performed_by_user_id)
          (Keeps-pure (c, outcome))))

  carry_out-IsConsistent :
      (s : Store)
      → IsConsistent s
      → s.accounts.row i.account_id ≡ some a
      → IsConsistent (carry_out w i a u s).1
  unfolding carry_out after_prepare
  carry_out-IsConsistent s h e =
      bind-IsConsistent (prepare w i a) after_prepare s (prepare-IsConsistent s h e)
        Keeps-after_prepare

admitted :
    (w : World) (i : CommitInput) (s : Store) (v : Account × User)
    → (admit w i s).0 ≡ ok v
    → s.accounts.row i.account_id ≡ some v.0
unfolding admit
admitted w i s v e = ground arith

admit_same : (w : World) (i : CommitInput) (s : Store) → (admit w i s).1 ≡ s
unfolding admit
admit_same w i s = ground arith

pub Keeps-commit : (w : World) (i : CommitInput) → Keeps (commit w i)
unfolding commit
Keeps-commit w i = record {
  at = λ s h.
      reading-IsConsistent (admit w i) (λ (a, u). carry_out w i a u) s h (admit_same w i s)
        (λ (a, u) e. carry_out-IsConsistent w i a u s h (admitted w i s (a, u) e));
}
