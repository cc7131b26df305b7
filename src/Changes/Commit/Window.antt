-- ===== src/Changes/Commit/Window.antt =====
-- Where the commit of a disconnection leaves a NEW account
-- (src/modules/commercial-changes/commercial-changes.service.ts).
use isp_sam_backend.Prelude.{
  ℕ, ◌≡◌, ◌≢◌, ap, sym, ◌∙◌, Bool, true, false, none, some, Option, arith, inl, inr, Option-cases,
}
use isp_sam_backend.Db.{
  ContractStatus, probable_churn, pending_quick_approval, is_base, Account, User, Change, Store, ok,
  disconnection,
}
use isp_sam_backend.Dates.{start_of_day_utc, add_days}
use isp_sam_backend.World.{World}
use isp_sam_backend.Changes.Retention.{put_status, enter_probable_churn}
use isp_sam_backend.Changes.Quick.{
  enter_pending_quick_approval, notify_crm_quick_disconnect_requested,
}
use isp_sam_backend.Changes.Commit.{prepare, carry_out, commit}
use isp_sam_backend.Changes.Commit.Guards.{CommitInput, is_quick_request}
use isp_sam_backend.Changes.Commit.Laws.{commit-IsAdmitted}
use isp_sam_backend.Changes.Commit.Parking.{kept, carry_out_steps, prepare_lem, some_inj}
use isp_sam_backend.Changes.Commit.Route.{
  CrmOutcome, in_probable_churn, pending_quick, route, retain_if_churning,
}
use isp_sam_backend.Notifications.{send_commercial_change_alert}
use isp_sam_backend.Notifications.Laws.{send_commercial_change_alert_lem}

-- The date of the retention prompt of a change.
abbrev pub prompt_at : Store → ℕ → Option ℕ
prompt_at s k = elim (s.changes.row k) [ none ↦ none | some c ↦ c.retention_prompt_due_at ]

-- What becomes of a disconnection: the CRM's quick queue, or the retention window.
abbrev pub window_outcome : Bool → CrmOutcome
window_outcome true = pending_quick
window_outcome false = in_probable_churn

abbrev pub window_status : Bool → ContractStatus
window_status true = pending_quick_approval
window_status false = probable_churn

-- The prompt comes 21 days after the day of the effective date; a quick request has none.
abbrev pub window_prompt : Bool → ℕ → Option ℕ
window_prompt true effective = none
window_prompt false effective = some (add_days (start_of_day_utc effective) 21)

module _ (w : World) (i : CommitInput) (a : Account) (u : User) (s : Store) (c : Change)
    (b : Account) (new_account : is_base a.kitty_type ≡ false)
    (leaves : i.change_type ≡ disconnection) (row : s.changes.row c.id ≡ some c)
    (owner : s.accounts.row c.account_id ≡ some b) (blank : c.retention_prompt_due_at ≡ none) where
  route_window :
      let (r, s') = route w a u i c s in
      let q = is_quick_request i in
      (r ≡ ok (window_outcome q))
      × (s'.accounts.row c.account_id ≡ some (put_status (window_status q) b))
      × (prompt_at s' c.id ≡ window_prompt q c.effective_date)
      × (s'.changes.row c.id ≢ none)
      × ((j : ℕ) → j ≢ c.account_id → s'.accounts.row j ≡ s.accounts.row j)
  unfolding route enter_probable_churn enter_pending_quick_approval
      notify_crm_quick_disconnect_requested
  route_window = (ground arith, ground arith, ground arith, ground arith, λ j ne. ground arith)

-- An alert keeps the prompt date and the accounts.
pub alert_keeps_prompt :
    (w : World) (k : ℕ) (to : Option ℕ) (by : ℕ) (s : Store)
    → s.changes.row k ≢ none
    → let s' = (send_commercial_change_alert w k to by s).1 in
      (prompt_at s' k ≡ prompt_at s k) × (s'.accounts ≡ s.accounts)
alert_keeps_prompt w k to by s there = elim (Option-cases (s.changes.row k)) [
  | inl e ↦ absurd (there e)
  | inr (c, e) ↦
      let (_, q, _, _, r, _) = send_commercial_change_alert_lem w k to by s c e in (ground arith, q)
]

module _ (w : World) (i : CommitInput) (a : Account) (s : Store) where
  prepared_blank : (c : Change) → (prepare w i a s).0 ≡ ok c → c.retention_prompt_due_at ≡ none
  unfolding prepare
  prepared_blank c h = ground arith

  -- A disconnection retains nobody.
  kept_same : i.change_type ≡ disconnection → kept w i a s ≡ (prepare w i a s).1
  unfolding retain_if_churning
  kept_same t = ground arith

module _ (w : World) (i : CommitInput) (a : Account) (u : User) (s : Store)
    (v : Change × CrmOutcome) (row : s.accounts.row i.account_id ≡ some a)
    (new_account : is_base a.kitty_type ≡ false) (leaves : i.change_type ≡ disconnection)
    (h : (carry_out w i a u s).0 ≡ ok v) where
  carry_out_window :
      let s' = (carry_out w i a u s).1 in
      let q = is_quick_request i in
      (v.1 ≡ window_outcome q)
      × (s'.accounts.row i.account_id ≡ some (put_status (window_status q) a))
      × (prompt_at s' v.0.id ≡ window_prompt q i.effective_date)
      × ((j : ℕ) → j ≢ i.account_id → s'.accounts.row j ≡ s.accounts.row j)
  carry_out_window =
      let (c, o, e, e1, e3, q) = carry_out_steps w i a u s v h in
      let (id, acc, _, _, day, crow, accs, _) = prepare_lem w i a s c e1 in
      let same = kept_same w i a s leaves in
      let there =
        ap (λ t. t.changes.row c.id) same ∙ ap (λ k. (prepare w i a s).1.changes.row k) id ∙ crow in
      let owner =
        ap (λ t. t.accounts.row c.account_id) same
        ∙ ap (λ t. t.row c.account_id) accs
        ∙ ap (λ k. s.accounts.row k) acc
        ∙ row in
      let (r1, r2, r3, r4, r5) =
        route_window w i a u (kept w i a s) c a new_account leaves there owner
          (prepared_blank w i a s c e1) in
      let (p1, p2) =
        alert_keeps_prompt w c.id a.sam_owner_id i.performed_by_user_id
          (route w a u i c (kept w i a s)).1 r4 in
      (
        cc,
        ap (λ t. t.accounts.row i.account_id) q
            ∙ ap (λ t. t.row i.account_id) p2
            ∙ ap (λ k. (route w a u i c (kept w i a s)).1.accounts.row k) (sym acc)
            ∙ r2,
        ap (λ x. prompt_at (carry_out w i a u s).1 x.0.id) e
            ∙ ap (λ t. prompt_at t c.id) q
            ∙ p1
            ∙ r3
            ∙ ap (window_prompt (is_quick_request i)) day,
        λ j ne.
            ap (λ t. t.accounts.row j) q
            ∙ ap (λ t. t.row j) p2
            ∙ r5 j (λ z. ne (z ∙ acc))
            ∙ ap (λ t. t.accounts.row j) same
            ∙ ap (λ t. t.row j) accs,
      )

-- A commit of a disconnection on a NEW account that returns: a quick request waits for the CRM,
-- with the account in PENDING_QUICK_APPROVAL and no prompt; any other opens the retention window,
-- with the account in PROBABLE_CHURN and the prompt 21 days after the day of the effective date.
-- The account is otherwise as it was, and no other account is touched.
pub commit_window :
    (w : World) (i : CommitInput) (s : Store) (a : Account) (v : Change × CrmOutcome)
    → s.accounts.row i.account_id ≡ some a
    → is_base a.kitty_type ≡ false
    → i.change_type ≡ disconnection
    → (commit w i s).0 ≡ ok v
    → let s' = (commit w i s).1 in
      let q = is_quick_request i in
      (v.1 ≡ window_outcome q)
      × (s'.accounts.row i.account_id ≡ some (put_status (window_status q) a))
      × (prompt_at s' v.0.id ≡ window_prompt q i.effective_date)
      × ((j : ℕ) → j ≢ i.account_id → s'.accounts.row j ≡ s.accounts.row j)
commit_window w i s a v row base leaves h = elim (commit-IsAdmitted w i s) [
  | inl (b, u, adm, q) ↦
      let e = some_inj (sym row ∙ adm.account) in
      let (r, p, k, o) =
        carry_out_window w i b u s v adm.account (ap (λ x. is_base x.kitty_type) (sym e) ∙ base)
          leaves (ap (λ x. x.0) (sym q) ∙ h) in
      (
        r,
        ap (λ x. x.1.accounts.row i.account_id) q
            ∙ p
            ∙ ap (λ x. some (put_status (window_status (is_quick_request i)) x)) (sym e),
        ap (λ x. prompt_at x.1 v.0.id) q ∙ k,
        λ j ne. ap (λ x. x.1.accounts.row j) q ∙ o j ne,
      )
  | inr (e, q) ↦ cc
]
