-- ===== src/Changes/Commit/Terms.antt =====
-- When the commit of new terms changes a NEW account
-- (src/modules/commercial-changes/commercial-changes.service.ts).
use isp_sam_backend.Prelude.{
  ℕ, ◌≡◌, ◌≢◌, ap, subst, sym, ◌∙◌, false, Option, none, some, arith, inl, inr, or_else,
}
use isp_sam_backend.Text.{bind_truthy}
use isp_sam_backend.Db.{probable_churn, is_base, is_disconnection, Account, User, Change, Store, ok}
use isp_sam_backend.World.{World}
use isp_sam_backend.Changes.Apply.{apply_change_to_account}
use isp_sam_backend.Changes.Commit.{prepare, carry_out, commit}
use isp_sam_backend.Changes.Commit.Guards.{CommitInput}
use isp_sam_backend.Changes.Commit.Laws.{commit-IsAdmitted}
use isp_sam_backend.Changes.Commit.Parking.{kept, carry_out_steps, prepare_lem, some_inj}
use isp_sam_backend.Changes.Commit.Window.{alert_keeps_prompt}
use isp_sam_backend.Changes.Commit.Route.{CrmOutcome, route, retain_if_churning}

-- The account after the commit: without a CRM id it has the ARC that was entered, and the bandwidth
-- where one was; with a CRM id it is as it was.
abbrev pub terms_after : ℕ → Option ℕ → Account → Account
terms_after arc bandwidth a = elim (bind_truthy a.external_crm_id) [
  | none ↦ record a { current_arc = arc; bandwidth_mbps = or_else bandwidth a.bandwidth_mbps }
  | some customer ↦ a
]

-- The row that a commit creates has the terms before and after.
HasTerms : CommitInput → Account → Change → Type 0
HasTerms i a c =
    (c.old_arc ≡ a.current_arc)
    × (c.new_arc ≡ i.new_arc)
    × (c.new_bandwidth_mbps ≡ i.new_bandwidth_mbps)

prepare-HasTerms :
    (w : World) (i : CommitInput) (a : Account) (s : Store) (c : Change)
    → (prepare w i a s).0 ≡ ok c
    → HasTerms i a c
unfolding prepare HasTerms
prepare-HasTerms w i a s c h = (ground arith, ground arith, ground arith)

module _ (w : World) (i : CommitInput) (a : Account) (u : User) (s : Store) (c : Change)
    (new_account : is_base a.kitty_type ≡ false) (stays : is_disconnection i.change_type ≡ false)
    (same : c.change_type ≡ i.change_type) (row : s.changes.row c.id ≡ some c)
    (owner : s.accounts.row c.account_id ≡ some a) (blank : c.account_applied_at ≡ none) where
  route_terms :
      let s' = (route w a u i c s).1 in
      (s'.accounts.row c.account_id ≡ some (terms_after c.new_arc c.new_bandwidth_mbps a))
      × (s'.changes.row c.id ≢ none)
      × ((j : ℕ) → j ≢ c.account_id → s'.accounts.row j ≡ s.accounts.row j)
  unfolding route apply_change_to_account
  route_terms = (ground arith, ground arith, λ j ne. ground arith)

module _ (w : World) (i : CommitInput) (a : Account) (s : Store) where
  -- Only an account in the retention window is retained.
  kept_live : a.contract_status ≢ probable_churn → kept w i a s ≡ (prepare w i a s).1
  unfolding retain_if_churning
  kept_live t = ground arith

module _ (w : World) (i : CommitInput) (a : Account) (u : User) (s : Store)
    (v : Change × CrmOutcome) (row : s.accounts.row i.account_id ≡ some a)
    (new_account : is_base a.kitty_type ≡ false) (stays : is_disconnection i.change_type ≡ false)
    (live : a.contract_status ≢ probable_churn) (h : (carry_out w i a u s).0 ≡ ok v) where
  carry_out_terms :
      let s' = (carry_out w i a u s).1 in
      (s'.accounts.row i.account_id ≡ some (terms_after i.new_arc i.new_bandwidth_mbps a))
      × HasTerms i a v.0
      × ((j : ℕ) → j ≢ i.account_id → s'.accounts.row j ≡ s.accounts.row j)
  unfolding HasTerms
  carry_out_terms =
      let (c, o, e, e1, e3, q) = carry_out_steps w i a u s v h in
      let (id, acc, kind, blank, _, crow, accs, _) = prepare_lem w i a s c e1 in
      let terms = prepare-HasTerms w i a s c e1 in
      let (_, arc, bandwidth) = terms in
      let same = kept_live w i a s live in
      let there =
        ap (λ t. t.changes.row c.id) same ∙ ap (λ k. (prepare w i a s).1.changes.row k) id ∙ crow in
      let owner =
        ap (λ t. t.accounts.row c.account_id) same
        ∙ ap (λ t. t.row c.account_id) accs
        ∙ ap (λ k. s.accounts.row k) acc
        ∙ row in
      let (r1, r2, r3) =
        route_terms w i a u (kept w i a s) c new_account stays kind there owner blank in
      let (p1, p2) =
        alert_keeps_prompt w c.id a.sam_owner_id i.performed_by_user_id
          (route w a u i c (kept w i a s)).1 r2 in
      (
        ap (λ t. t.accounts.row i.account_id) q
            ∙ ap (λ t. t.row i.account_id) p2
            ∙ ap (λ k. (route w a u i c (kept w i a s)).1.accounts.row k) (sym acc)
            ∙ r1
            ∙ ap (λ x. some (terms_after x c.new_bandwidth_mbps a)) arc
            ∙ ap (λ x. some (terms_after i.new_arc x a)) bandwidth,
        subst (HasTerms i a) (ap (λ x. x.0) (sym e)) terms,
        λ j ne.
            ap (λ t. t.accounts.row j) q
            ∙ ap (λ t. t.row j) p2
            ∙ r3 j (λ z. ne (z ∙ acc))
            ∙ ap (λ t. t.accounts.row j) same
            ∙ ap (λ t. t.row j) accs,
      )

-- A commit of new terms on a NEW account outside the retention window that returns gives the
-- account the ARC that was entered, and the bandwidth where one was, at once where it has no CRM id,
-- and leaves the account as it was where it has one, whatever the CRM answered. The change that it
-- returns has the ARC of the account before and the terms that were entered. No other account is
-- touched.
pub commit_terms :
    (w : World) (i : CommitInput) (s : Store) (a : Account) (v : Change × CrmOutcome)
    → s.accounts.row i.account_id ≡ some a
    → is_base a.kitty_type ≡ false
    → is_disconnection i.change_type ≡ false
    → a.contract_status ≢ probable_churn
    → (commit w i s).0 ≡ ok v
    → let s' = (commit w i s).1 in
      (s'.accounts.row i.account_id ≡ some (terms_after i.new_arc i.new_bandwidth_mbps a))
      × ((v.0.old_arc ≡ a.current_arc)
          × (v.0.new_arc ≡ i.new_arc)
          × (v.0.new_bandwidth_mbps ≡ i.new_bandwidth_mbps))
      × ((j : ℕ) → j ≢ i.account_id → s'.accounts.row j ≡ s.accounts.row j)
unfolding HasTerms
commit_terms w i s a v row base stays live h = elim (commit-IsAdmitted w i s) [
  | inl (b, u, adm, q) ↦
      let e = some_inj (sym row ∙ adm.account) in
      let (p, t, o) =
        carry_out_terms w i b u s v adm.account (ap (λ x. is_base x.kitty_type) (sym e) ∙ base)
          stays (λ z. live (ap (λ x. x.contract_status) e ∙ z)) (ap (λ x. x.0) (sym q) ∙ h) in
      (
        ap (λ x. x.1.accounts.row i.account_id) q
            ∙ p
            ∙ ap (λ x. some (terms_after i.new_arc i.new_bandwidth_mbps x)) (sym e),
        subst (λ x. HasTerms i x v.0) (sym e) t,
        λ j ne. ap (λ x. x.1.accounts.row j) q ∙ o j ne,
      )
  | inr (e, q) ↦ cc
]
