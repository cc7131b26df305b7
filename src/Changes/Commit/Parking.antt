-- ===== src/Changes/Commit/Parking.antt =====
-- Where a commit leaves the account (src/modules/commercial-changes/commercial-changes.service.ts).
use isp_sam_backend.Prelude.{
  ℕ, ◌≡◌, ◌≢◌, ap, ◌∙◌, sym, ◌⊎◌, true, Option, none, some, arith, Option-cases, refl, inl, inr,
}
use isp_sam_backend.Db.{
  ApprovalStatus, ChangeType, DisconnectionMode, disconnection, quick, pending_sam_head,
  pending_accounts, active, pending_approval, is_base, Account, User, Change, Store, ok, Action,
  ◌>>=◌, ◌>>◌, pure, >>=-returns,
}
use isp_sam_backend.World.{World}
use isp_sam_backend.Approvals.Chain.{status_of}
use isp_sam_backend.Changes.Retention.{put_status, auto_retain_pending_disconnection}
use isp_sam_backend.Changes.Commit.{prepare, carry_out, commit}
use isp_sam_backend.Changes.Commit.Laws.{commit-IsAdmitted}
use isp_sam_backend.Changes.Commit.Guards.{CommitInput}
use isp_sam_backend.Changes.Commit.Route.{
  CrmOutcome, pending_chain, initial_stage, route, retain_if_churning, enter_approval_chain,
}
use isp_sam_backend.Notifications.{send_commercial_change_alert}
use isp_sam_backend.Notifications.Laws.{send_commercial_change_alert_lem}

-- Auto-retention touches the status of the account only, and no row but decided disconnections.
module _ (w : World) (i : CommitInput) (a : Account) (s : Store) where
  retain_accounts :
      s.accounts.row i.account_id ≡ some a
      → let s' = (retain_if_churning w a i s).1 in
        ((s'.accounts.row i.account_id ≡ some a)
          ⊎ (s'.accounts.row i.account_id ≡ some (put_status active a)))
        × ((j : ℕ) → j ≢ i.account_id → s'.accounts.row j ≡ s.accounts.row j)
  unfolding retain_if_churning auto_retain_pending_disconnection
  retain_accounts f = (ground arith, λ j ne. ground arith)

abbrev pub approval_at : Store → ℕ → Option ApprovalStatus
approval_at s k = elim (s.changes.row k) [ none ↦ none | some c ↦ some c.approval_status ]

module _ (w : World) (i : CommitInput) (a : Account) (u : User) (s : Store) where
  -- The chain parks an account whatever its status is.
  route_base :
      (c : Change) (d : Change) (b : Account)
      → is_base a.kitty_type ≡ true
      → s.changes.row c.id ≡ some d
      → s.accounts.row d.account_id ≡ some b
      → let (r, s') = route w a u i c s in
        (r ≡ ok (pending_chain (status_of (initial_stage i))))
        × (s'.accounts.row d.account_id ≡ some (put_status pending_approval b))
        × (approval_at s' c.id ≡ some (status_of (initial_stage i)))
        × ((j : ℕ) → j ≢ d.account_id → s'.accounts.row j ≡ s.accounts.row j)
  unfolding route enter_approval_chain
  route_base c d b base f g = (ground arith, ground arith, ground arith, λ j ne. ground arith)

module _ (w : World) (i : CommitInput) (a : Account) (s : Store) where
  pub prepare_lem :
      (c : Change)
      → (prepare w i a s).0 ≡ ok c
      → let s' = (prepare w i a s).1 in
        (c.id ≡ w.fresh_id)
        × (c.account_id ≡ i.account_id)
        × (c.change_type ≡ i.change_type)
        × (c.account_applied_at ≡ none)
        × (c.effective_date ≡ i.effective_date)
        × (s'.changes.row w.fresh_id ≡ some c)
        × (s'.accounts ≡ s.accounts)
        × ((j : ℕ) → j ≢ w.fresh_id → s'.changes.row j ≡ s.changes.row j)
  unfolding prepare
  prepare_lem c h = (
    ground arith,
    ground arith,
    ground arith,
    ground arith,
    ground arith,
    ground arith,
    ground arith,
    λ j ne. ground arith,
  )

-- Auto-retention leaves every change in place, with its account.
retain_keeps :
    (w : World) (i : CommitInput) (a : Account) (s : Store) (k : ℕ) (c : Change)
    → s.changes.row k ≡ some c
    → (d : Change) × ((retain_if_churning w a i s).1.changes.row k ≡ some d)
      × (d.account_id ≡ c.account_id)
unfolding retain_if_churning auto_retain_pending_disconnection
retain_keeps w i a s k c f = elim (Option-cases ((retain_if_churning w a i s).1.changes.row k)) [
  | inl e ↦ ground arith
  | inr (d, e) ↦ (d, e, ground arith)
]

abbrev pub kept : World → CommitInput → Account → Store → Store
kept w i a s = (retain_if_churning w a i (prepare w i a s).1).1

-- The steps of `carry_out` after the first, the second and the third.
alert_for : World → CommitInput → Account → Change → CrmOutcome → Action (Change × CrmOutcome)
alert_for w i a c o = do
  send_commercial_change_alert w c.id a.sam_owner_id i.performed_by_user_id
  pure (c, o)

alert_for_lem :
    (w : World) (i : CommitInput) (a : Account) (c : Change) (o : CrmOutcome) (s : Store)
    (v : Change × CrmOutcome)
    → (alert_for w i a c o s).0 ≡ ok v
    → (v ≡ (c, o))
      × ((alert_for w i a c o s).1
          ≡ (send_commercial_change_alert w c.id a.sam_owner_id i.performed_by_user_id s).1)
unfolding alert_for
alert_for_lem w i a c o s v h = (ground arith, ground arith)

-- A commit that returns has gone through each of its steps.
pub carry_out_steps :
    (w : World) (i : CommitInput) (a : Account) (u : User) (s : Store) (v : Change × CrmOutcome)
    → (carry_out w i a u s).0 ≡ ok v
    → let s2 = kept w i a s in
      (c : Change) × (o : CrmOutcome) × (v ≡ (c, o))
      × ((prepare w i a s).0 ≡ ok c)
      × ((route w a u i c s2).0 ≡ ok o)
      × ((carry_out w i a u s).1
          ≡ (send_commercial_change_alert w c.id a.sam_owner_id i.performed_by_user_id
              (route w a u i c s2).1).1)
unfolding carry_out alert_for
carry_out_steps w i a u s v h =
    let (c, e1, q1, h1) =
      >>=-returns (prepare w i a)
        (λ c. retain_if_churning w a i >> (route w a u i c >>= alert_for w i a c)) s h in
    let (x, e2, q2, h2) =
      >>=-returns (retain_if_churning w a i) (λ _. route w a u i c >>= alert_for w i a c)
        (prepare w i a s).1 h1 in
    let (o, e3, q3, h3) = >>=-returns (route w a u i c) (alert_for w i a c) (kept w i a s) h2 in
    let (e4, q4) = alert_for_lem w i a c o (route w a u i c (kept w i a s)).1 v h3 in
    (c, o, e4, e1, e3, ap (λ x. x.1) (q1 ∙ q2 ∙ q3) ∙ q4)

-- An alert leaves the accounts and the stage of the change.
alert_same :
    (w : World) (k : ℕ) (owner : Option ℕ) (by : ℕ) (s : Store) (st : ApprovalStatus)
    → approval_at s k ≡ some st
    → let s' = (send_commercial_change_alert w k owner by s).1 in
      (approval_at s' k ≡ some st) × (s'.accounts ≡ s.accounts)
alert_same w k owner by s st h = elim (Option-cases (s.changes.row k)) [
  | inl e ↦ ground arith
  | inr (c, e) ↦
      let (_, q, _, _, r, _) = send_commercial_change_alert_lem w k owner by s c e in
      (ground arith, q)
]

-- The account after auto-retention is the one before it but for its status.
pub kept_account :
    (w : World) (i : CommitInput) (a : Account) (s : Store) (c : Change)
    → s.accounts.row i.account_id ≡ some a
    → (prepare w i a s).0 ≡ ok c
    → ((b : Account) × ((kept w i a s).accounts.row i.account_id ≡ some b)
        × (put_status pending_approval b ≡ put_status pending_approval a))
      × ((j : ℕ) → j ≢ i.account_id → (kept w i a s).accounts.row j ≡ s.accounts.row j)
      × ((d : Change) × ((kept w i a s).changes.row c.id ≡ some d) × (d.account_id ≡ i.account_id))
kept_account w i a s c row e1 =
    let (id, acc, _, _, _, crow, accs, _) = prepare_lem w i a s c e1 in
    let s1 = (prepare w i a s).1 in
    let (ka, ko) = retain_accounts w i a s1 (ap (λ t. t.row i.account_id) accs ∙ row) in
    let (d, dr, da) = retain_keeps w i a s1 c.id c (ap (λ k. s1.changes.row k) id ∙ crow) in
    (
      elim ka [ inl e ↦ (a, e, refl) | inr e ↦ (put_status active a, e, refl) ],
      (λ j ne. ko j ne ∙ ap (λ t. t.row j) accs),
      (d, dr, da ∙ acc),
    )

module _ (w : World) (i : CommitInput) (a : Account) (u : User) (s : Store)
    (v : Change × CrmOutcome) (row : s.accounts.row i.account_id ≡ some a)
    (base : is_base a.kitty_type ≡ true) (h : (carry_out w i a u s).0 ≡ ok v) where
  carry_out_base :
      let s' = (carry_out w i a u s).1 in
      (v.1 ≡ pending_chain (status_of (initial_stage i)))
      × (s'.accounts.row i.account_id ≡ some (put_status pending_approval a))
      × (approval_at s' v.0.id ≡ some (status_of (initial_stage i)))
      × ((j : ℕ) → j ≢ i.account_id → s'.accounts.row j ≡ s.accounts.row j)
  carry_out_base =
      let (c, o, e, e1, e3, q) = carry_out_steps w i a u s v h in
      let ((b, kb, kp), ko, (d, dr, da)) = kept_account w i a s c row e1 in
      let (ro, ra, rs, rj) =
        route_base w i a u (kept w i a s) c d b base dr
          (ap (λ k. (kept w i a s).accounts.row k) da ∙ kb) in
      let (al, aa) =
        alert_same w c.id a.sam_owner_id i.performed_by_user_id (route w a u i c (kept w i a s)).1
          (status_of (initial_stage i)) rs in
      (
        cc,
        cc,
        cc,
        λ j ne.
            ap (λ t. t.accounts.row j) q ∙ ap (λ t. t.row j) aa ∙ rj j (λ z. ne (z ∙ da)) ∙ ko j ne,
      )

-- The first stage of the chain: the head of SAM for a quick disconnection, accounts for all else.
abbrev pub first_stage : ChangeType → Option DisconnectionMode → ApprovalStatus
first_stage disconnection (some quick) = pending_sam_head
first_stage _ _ = pending_accounts

initial_stage-first_stage :
    (i : CommitInput) → status_of (initial_stage i) ≡ first_stage i.change_type i.disconnection_mode
initial_stage-first_stage i = ground arith

pub some_inj : {x y : Account} → some x ≡ some y → x ≡ y
some_inj e = cc

-- A commit on a BASE account that returns has parked the account: whatever the type of the change,
-- the account awaits approval and is otherwise as it was, the change stands at the first stage of
-- the chain (the head of SAM for a quick disconnection, accounts for all else), no other account is
-- touched, and the outcome names that stage.
pub commit_base :
    (w : World) (i : CommitInput) (s : Store) (a : Account) (v : Change × CrmOutcome)
    → s.accounts.row i.account_id ≡ some a
    → is_base a.kitty_type ≡ true
    → (commit w i s).0 ≡ ok v
    → let s' = (commit w i s).1 in
      let stage = first_stage i.change_type i.disconnection_mode in
      (v.1 ≡ pending_chain stage)
      × (s'.accounts.row i.account_id ≡ some (record a { contract_status = pending_approval }))
      × (approval_at s' v.0.id ≡ some stage)
      × ((j : ℕ) → j ≢ i.account_id → s'.accounts.row j ≡ s.accounts.row j)
commit_base w i s a v row base h = elim (commit-IsAdmitted w i s) [
  | inl (b, u, adm, q) ↦
      let e = some_inj (sym row ∙ adm.account) in
      let (r, p, k, o) =
        carry_out_base w i b u s v adm.account (ap (λ x. is_base x.kitty_type) (sym e) ∙ base)
          (ap (λ x. x.0) (sym q) ∙ h) in
      let first = initial_stage-first_stage i in
      (
        r ∙ ap (λ x. pending_chain x) first,
        ap (λ x. x.1.accounts.row i.account_id) q
            ∙ p
            ∙ ap (λ x. some (put_status pending_approval x)) (sym e),
        ap (λ x. approval_at x.1 v.0.id) q ∙ k ∙ ap (λ x. some x) first,
        λ j ne. ap (λ x. x.1.accounts.row j) q ∙ o j ne,
      )
  | inr (e, q) ↦ cc
]
