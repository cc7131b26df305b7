-- ===== src/Dashboard/Waterfall/Laws.antt =====
-- What the row of pending settlements is made of (src/modules/dashboard/dashboard.service.ts).
use mathlib.Core.Path.{fun_ext}
use isp_sam_backend.Prelude.{
  ℕ, ℤ, pos, ◌+ℤ◌, ◌-ℤ◌, int_laws, ◌+◌, ◌≡◌, Bool, true, false, Option, none, some, List, [], ◌∷◌,
  select, gather, if◌then◌else◌, All, ◌&&◌, ◌||◌, not, ◌==◌, is_some, includes, arith, refl, sym,
  ◌∙◌, Bool-cases, inl, inr,
}
use isp_sam_backend.Db.{
  Account, Change, Store, find_many, is_disconnection, terminated, same_status,
}
use isp_sam_backend.Scope.{Requester}
use isp_sam_backend.Dashboard.Calendar.{UtcDate}
use isp_sam_backend.Dashboard.Fiscal.{FyQuarter, Range, fy_quarter_range}
use isp_sam_backend.Dashboard.Base.{
  kitty_accounts, is_active, is_live, is_churning, sum_of, start_arc,
}
use isp_sam_backend.Dashboard.Waterfall.{
  Buckets, count_type, tally, no_buckets, is_imported_terminated, is_of, waterfall,
  quarter_waterfall, base_changes, existing_base, new_base, churning_arc, is_settled, is_within,
}
use isp_sam_backend.Dashboard.Waterfall.Sums.{
  sum_ℤ, gain, net, net-tally, IsDistinct, gains, sum-gains,
}

-- A part of a sum that the test `p` selects.
abbrev part : (Account → Bool) → (Account → ℕ) → Account → ℕ
part p f a = if p a then f a else 0

-- One of the changes is an applied disconnection of the account `k`.
abbrev pub was_disconnected : List Change → ℕ → Bool
was_disconnected [] k = false
was_disconnected (c ∷ cs) k =
    (is_disconnection c.change_type && (is_some c.account_applied_at && c.account_id == k))
    || was_disconnected cs k

-- The account came into the system as a terminated one: none of its changes terminated it.
abbrev pub came_terminated : List Change → Account → Bool
came_terminated cs a = same_status a.contract_status terminated && not (was_disconnected cs a.id)

-- What the figures of an account leave unexplained: the ARC that it has now, as a current or a
-- leaving one, beyond the ARC that it started with and what its changes add. An account that came
-- as terminated has lost what it started with.
unfoldable pub gap : (Account → Bool) → List Change → Account → ℤ
gap is_current cs a =
    pos (part is_current (λ x. x.current_arc) a)
    +ℤ pos (part is_churning (λ x. x.current_arc) a)
    -ℤ (pos (start_arc a) +ℤ gains cs a -ℤ pos (part (came_terminated cs) start_arc a))

-- The tally lists an account exactly if one of the changes disconnected it.
includes-tally :
    (cs : List Change) (b : Buckets) (k : ℕ)
    → includes k (tally cs b).disconnected_via_txn
      ≡ (was_disconnected cs k || includes k b.disconnected_via_txn)
unfolding tally
includes-tally [] b k = refl
includes-tally (c ∷ cs) b k = includes-tally cs (count_type c.change_type c b) k ∙ ground arith

is_imported_terminated-came_terminated :
    (cs : List Change)
    → is_imported_terminated (tally cs no_buckets).disconnected_via_txn ≡ came_terminated cs
is_imported_terminated-came_terminated cs =
    fun_ext (λ a. ground (arith, includes-tally cs no_buckets a.id))

sum_of-select :
    (p : Account → Bool) (f : Account → ℕ) (a : Account) (more : List Account)
    → sum_of f (select p (a ∷ more)) ≡ part p f a + sum_of f (select p more)
sum_of-select p f a more = ground arith

module _ (is_current : Account → Bool) (cs : List Change) where
  arc : (Account → Bool) → List Account → ℕ
  arc p accounts = sum_of (λ a. a.current_arc) (select p accounts)

  sum-gap :
      (accounts : List Account)
      → sum_ℤ (gap is_current cs) accounts
        ≡ pos (arc is_current accounts)
          +ℤ pos (arc is_churning accounts)
          -ℤ (pos (sum_of start_arc accounts)
              +ℤ sum_ℤ (gains cs) accounts
              -ℤ pos (sum_of start_arc (select (came_terminated cs) accounts)))
  unfolding gap arc
  sum-gap [] = omega int_laws
  sum-gap (a ∷ more) = rw (sum-gap more) (
      omega (
        int_laws,
        sum_of-select is_current (λ x. x.current_arc) a more,
        sum_of-select is_churning (λ x. x.current_arc) a more,
        sum_of-select (came_terminated cs) start_arc a more,
      ))

  -- The pending ARC is the sum of what each account leaves unexplained.
  waterfall-gap :
      (accounts : List Account)
      → IsDistinct accounts
      → All (λ c. is_of accounts c ≡ true) cs
      → (waterfall accounts cs is_current).pending_net_arc ≡ sum_ℤ (gap is_current cs) accounts
  unfolding waterfall churning_arc net arc
  waterfall-gap accounts d h =
      let zero_net : net no_buckets +ℤ sum_ℤ gain cs ≡ sum_ℤ gain cs = omega int_laws in
      let g : sum_ℤ gain cs ≡ net (tally cs no_buckets) =
        sym (net-tally cs no_buckets ∙ zero_net) in
      rw (sum-gap accounts, sum-gains accounts cs d h, g, is_imported_terminated-came_terminated cs)
        (omega int_laws)

All-select : (p : Change → Bool) (cs : List Change) → All (λ c. p c ≡ true) (select p cs)
All-select p [] = tt
All-select p (c ∷ cs) = elim (Bool-cases (p c)) [
  | inl e ↦ rw e (e, All-select p cs)
  | inr e ↦ rw e (All-select p cs)
]

All-select_and :
    (p q : Change → Bool) (cs : List Change) → All (λ c. p c ≡ true) (select (λ c. p c && q c) cs)
All-select_and p q [] = tt
All-select_and p q (c ∷ cs) = elim (Bool-cases (p c && q c)) [
  | inl e ↦ rw e (ground arith, All-select_and p q cs)
  | inr e ↦ rw e (All-select_and p q cs)
]

quarter_waterfall-settled :
    (accounts : List Account) (cs : List Change)
    → (quarter_waterfall accounts cs).pending_net_arc ≡ pos 0
unfolding quarter_waterfall
quarter_waterfall-settled accounts cs = omega int_laws

settled :
    (is_current : Account → Bool) (cs : List Change) (accounts : List Account)
    → All (λ a. gap is_current cs a ≡ pos 0) accounts
    → sum_ℤ (gap is_current cs) accounts ≡ pos 0
settled is_current cs [] h = refl
settled is_current cs (a ∷ more) (e, h) = rw (e, settled is_current cs more h) (omega int_laws)

base_changes-is_of :
    (accounts : List Account) (range : Option Range) (s : Store)
    → All (λ c. is_of accounts c ≡ true) (base_changes accounts range s)
unfolding base_changes
base_changes-is_of accounts range s =
    All-select_and (is_of accounts)
      (λ c. is_settled c.approval_status && is_within range c.effective_date)
      (gather s.changes.row s.changes.keys)

module _ (r : Requester) (sam_id : Option ℕ) (s : Store) where
  -- The row of pending settlements is the sum, over the accounts, of the ARC that the account has now,
  -- as a current or a leaving one, beyond what it started with and what its own changes add; of an
  -- account that is terminated although none of its changes is an applied disconnection, what it
  -- started with is taken as lost. So it is for the existing base without a quarter and for the new
  -- base; and it is 0 where no account leaves anything unexplained. With a quarter it is always 0.
  pub pending_net-gap :
      (now : UtcDate) (quarter : FyQuarter)
      → let old = kitty_accounts true r sam_id s in
        let young = kitty_accounts false r sam_id s in
        let old_changes = base_changes old none s in
        let young_changes = find_many (is_of young) s.changes in
        IsDistinct old
        → IsDistinct young
        → ((existing_base none now r sam_id s).pending_net_arc
            ≡ sum_ℤ (gap is_live old_changes) old)
          × ((new_base r sam_id s).pending_net_arc ≡ sum_ℤ (gap is_active young_changes) young)
          × (All (λ a. gap is_live old_changes a ≡ pos 0) old
              → (existing_base none now r sam_id s).pending_net_arc ≡ pos 0)
          × (All (λ a. gap is_active young_changes a ≡ pos 0) young
              → (new_base r sam_id s).pending_net_arc ≡ pos 0)
          × ((existing_base (some quarter) now r sam_id s).pending_net_arc ≡ pos 0)
  unfolding existing_base new_base
  pending_net-gap now quarter d e =
      let old = kitty_accounts true r sam_id s in
      let young = kitty_accounts false r sam_id s in
      let old_changes = base_changes old none s in
      let young_changes = find_many (is_of young) s.changes in
      let x = waterfall-gap is_live old_changes old d (base_changes-is_of old none s) in
      let y =
        waterfall-gap is_active young_changes young e
          (All-select (is_of young) (gather s.changes.row s.changes.keys)) in
      (
        x,
        y,
        λ h. x ∙ settled is_live old_changes old h,
        λ h. y ∙ settled is_active young_changes young h,
        quarter_waterfall-settled old (base_changes old (some (fy_quarter_range quarter now)) s),
      )
