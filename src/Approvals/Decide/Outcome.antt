-- ===== src/Approvals/Decide/Outcome.antt =====
-- A decision described without the database: what becomes of the change and of its account
-- (src/modules/commercial-changes/approvals.service.ts), and that `decide` brings it about.
use isp_sam_backend.Prelude.{
  ℕ, ◌≡◌, ◌≢◌, refl, ap, subst, none, some, arith, get_or, or_else, ltb, if◌then◌else◌, String,
  Option,
}
use isp_sam_backend.Text
use isp_sam_backend.Text.{trim, text_length}
use isp_sam_backend.Db.{
  active, probable_churn, disconnecting, pending_approval, is_disconnection, is_quick, same_status,
  Account, Change, Store, Result, ok, err, Error, record_not_found, rejection_reason_required,
  ContractStatus, ApprovalStatus, pending_accounts, pending_super_admin_2, proceed,
}
use isp_sam_backend.Dates.{start_of_day_utc, add_days}
use isp_sam_backend.Dates.Laws.{midnight, days_later}
use isp_sam_backend.Approvals.Chain.{
  PendingStage, at_sam_head, at_accounts, at_super_admin_2, pending_stage, next_stage,
}
use isp_sam_backend.Approvals.Decide.{
  approve, reject, Decision, DecideInput, decide, assert_can_act, trimmed,
}
use isp_sam_backend.Approvals.Decide.Authority.{MayAct, assert_can_act_complete}

-- The end of the chain for new terms: they go live.
abbrev live_rows : ℕ → DecideInput → Change → Account → Change × Account
live_rows now o c a = (
  record c {
    approval_status = ApprovalStatus.approved;
    approved_by = some o.performed_by_user_id;
    approved_at = some now;
    account_applied_at = some now;
  },
  record a {
    current_arc = c.new_arc;
    bandwidth_mbps = or_else c.new_bandwidth_mbps a.bandwidth_mbps;
    contract_status = active;
  },
)

-- The end of the chain for a quick disconnection: the customer leaves at the midnight that begins the
-- day as many days ahead as were asked for, 1 if none were.
abbrev quick_rows : ℕ → DecideInput → Change → Account → Change × Account
quick_rows now o c a = (
  record c {
    approval_status = ApprovalStatus.approved;
    approved_by = some o.performed_by_user_id;
    approved_at = some now;
    material_recovered = o.material_recovered;
    material_recovery_notes = Text.trimmed o.material_recovery_notes;
    scheduled_termination_at = some (midnight (days_later (get_or c.quick_requested_days 1) now));
    retention_decision = some proceed;
    retention_decided_at = some now;
  },
  record a { contract_status = disconnecting },
)

-- The end of the chain for any other disconnection: the retention prompt is due in 21 days.
abbrev window_rows : ℕ → DecideInput → Change → Account → Change × Account
window_rows now o c a = (
  record c {
    approval_status = ApprovalStatus.approved;
    approved_by = some o.performed_by_user_id;
    approved_at = some now;
    material_recovered = o.material_recovered;
    material_recovery_notes = Text.trimmed o.material_recovery_notes;
    retention_prompt_due_at = some (days_later 21 (midnight now));
  },
  record a { contract_status = probable_churn },
)

abbrev final_rows : ℕ → DecideInput → Change → Account → Change × Account
final_rows now o c a =
    if is_disconnection c.change_type
    then (if is_quick c.disconnection_mode then quick_rows now o c a else window_rows now o c a)
    else live_rows now o c a

-- The rows after a decision at a stage, or why it is refused: the head of SAM passes a change on to
-- the accounts team, which ends the chain of new terms and passes a disconnection on to
-- SUPER_ADMIN_2, who ends it; a rejection needs a reason of three characters and an account that
-- still awaits the approval, and makes the account ACTIVE.
abbrev pub outcome :
    ℕ → DecideInput → Change → Account → PendingStage → Decision → Result (Change × Account)
outcome now o c a at_sam_head approve = ok (record c { approval_status = pending_accounts }, a)
outcome now o c a at_accounts approve =
    if is_disconnection c.change_type
    then ok (record c { approval_status = pending_super_admin_2 }, a)
    else ok (final_rows now o c a)
outcome now o c a at_super_admin_2 approve = ok (final_rows now o c a)
outcome now o c a stage reject =
    let reason = trim (get_or o.reason "") in
    if ltb (text_length reason) 3
    then err rejection_reason_required
    else if same_status a.contract_status pending_approval
    then ok (
      record c {
        approval_status = ApprovalStatus.rejected;
        rejection_reason = some reason;
        rejected_by = some o.performed_by_user_id;
        rejected_at = some now;
      },
      record a { contract_status = active },
    )
    else err record_not_found

-- A change that waits at a stage, its account, and a user who may act on that stage.
pub record IsDecidable (o : DecideInput) (s : Store) (c : Change) (a : Account)
    (stage : PendingStage) : Type 0 where
  pub found : s.changes.row o.commercial_change_id ≡ some c
  pub keyed : c.id ≡ o.commercial_change_id
  pub owner : s.accounts.row c.account_id ≡ some a
  pub waiting : pending_stage c.approval_status ≡ some stage
  pub authorised : MayAct stage a.sam_owner_id o.requester_role o.performed_by_user_id s

-- The rows `c` and `a` are in the store, and every other row is as it was.
abbrev pub Writes : Store → Change → Account → Store → Type 0
Writes s c a s' =
    (s'.changes.row c.id ≡ some c)
    × (s'.accounts.row c.account_id ≡ some a)
    × ((j : ℕ) → j ≢ c.id → s'.changes.row j ≡ s.changes.row j)
    × ((j : ℕ) → j ≢ c.account_id → s'.accounts.row j ≡ s.accounts.row j)

-- The call came back with the rows of `expected`, which the store holds, or it failed as `expected`
-- does, and the store is as it was.
abbrev pub Realises :
    Store → Result (Change × Account) → Result (Change × ContractStatus) × Store → Type 0
Realises s (ok (c, a)) (r, s') = (r ≡ ok (c, a.contract_status)) × Writes s c a s'
Realises s (err e) (r, s') = (r ≡ err e) × (s' ≡ s)

Realises-of_cases :
    (s : Store) (x : Result (Change × Account)) (y : Result (Change × ContractStatus) × Store)
    → ((c : Change) (a : Account)
        → x ≡ ok (c, a)
        → (y.0 ≡ ok (c, a.contract_status)) × Writes s c a y.1)
    → ((e : Error) → x ≡ err e → (y.0 ≡ err e) × (y.1 ≡ s))
    → Realises s x y
Realises-of_cases s (ok (c, a)) y f g = f c a refl
Realises-of_cases s (err e) y f g = g e refl

pub Realises-error :
    (s : Store) (x : Result (Change × Account)) (y : Result (Change × ContractStatus) × Store)
    {e : Error}
    → Realises s x y
    → y.0 ≡ err e
    → y.1 ≡ s
Realises-error s (ok (c, a)) y h p = cc (h.0)
Realises-error s (err e) y h p = h.1

pub Realises-ok :
    (s : Store) (x : Result (Change × Account)) (y : Result (Change × ContractStatus) × Store)
    {c : Change} {st : ContractStatus}
    → Realises s x y
    → y.0 ≡ ok (c, st)
    → (a : Account) × (x ≡ ok (c, a)) × Writes s c a y.1
Realises-ok s (ok (c, a)) y {c = c'} h p =
    let same : c ≡ c' = ground arith in
    (a, ap (λ x. ok (x, a)) same, subst (λ (x : Change). Writes s x a y.1) same h.1)
Realises-ok s (err e) y h p = cc (h.0)

trimmed_same : (n : Option String) → trimmed n ≡ Text.trimmed n
trimmed_same none = refl
trimmed_same (some t) = refl

module _ (now : ℕ) (o : DecideInput) (s : Store) (c : Change) (a : Account) (stage : PendingStage)
    (d : IsDecidable o s c a stage) where
  may : assert_can_act stage a.sam_owner_id o.requester_role o.performed_by_user_id s ≡ (ok tt, s)
  may =
      assert_can_act_complete stage a.sam_owner_id o.requester_role o.performed_by_user_id s
        d.authorised

  module _ (c' : Change) (a' : Account) (e : outcome now o c a stage o.action ≡ ok (c', a')) where
    returned : (decide now o s).0 ≡ ok (c', a'.contract_status)
    unfolding decide next_stage start_of_day_utc add_days
    returned = ground (arith, may, trimmed_same o.material_recovery_notes)

    change_written : (decide now o s).1.changes.row c'.id ≡ some c'
    unfolding decide next_stage start_of_day_utc add_days
    change_written = ground (arith, may, trimmed_same o.material_recovery_notes)

    account_written : (decide now o s).1.accounts.row c'.account_id ≡ some a'
    unfolding decide next_stage start_of_day_utc add_days
    account_written = ground (arith, may, trimmed_same o.material_recovery_notes)

    changes_kept : (j : ℕ) → j ≢ c'.id → (decide now o s).1.changes.row j ≡ s.changes.row j
    unfolding decide next_stage start_of_day_utc add_days
    changes_kept j ne = ground (arith, may, trimmed_same o.material_recovery_notes)

    accounts_kept :
        (j : ℕ) → j ≢ c'.account_id → (decide now o s).1.accounts.row j ≡ s.accounts.row j
    unfolding decide next_stage start_of_day_utc add_days
    accounts_kept j ne = ground (arith, may, trimmed_same o.material_recovery_notes)

  refused : (e : Error) → outcome now o c a stage o.action ≡ err e → decide now o s ≡ (err e, s)
  unfolding decide next_stage start_of_day_utc add_days
  refused e h = ground (arith, may, trimmed_same o.material_recovery_notes)

  -- A decision about a waiting change by a user who may act on its stage leaves exactly the two rows
  -- that `outcome` describes column by column, or is refused as `outcome` says and writes nothing. An
  -- approval passes the change on to the next stage, or ends the chain: new terms go live on the
  -- account, a quick disconnection is scheduled, and any other disconnection opens the window of 21
  -- days. A rejection is marked with its reason and makes the account ACTIVE.
  pub decide-outcome : Realises s (outcome now o c a stage o.action) (decide now o s)
  decide-outcome =
      Realises-of_cases s (outcome now o c a stage o.action) (decide now o s)
        (λ c' a' e. (
          returned c' a' e,
          (
            change_written c' a' e,
            account_written c' a' e,
            changes_kept c' a' e,
            accounts_kept c' a' e,
          ),
        ))
        (λ e h. (ap (λ r. r.0) (refused e h), ap (λ r. r.1) (refused e h)))
