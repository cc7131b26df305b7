-- ===== src/Changes/Quick/Laws.antt =====
-- The decision on a quick disconnection that stays in SAM
-- (src/modules/commercial-changes/commercial-changes.service.ts).
use isp_sam_backend.Prelude.{
  ℕ, ◌≡◌, ◌≢◌, true, false, Option, none, some, String, get_or, refl, arith,
}
use isp_sam_backend.Text.{trimmed}
use isp_sam_backend.Db.{
  base, disconnection, quick, active, disconnecting, pending_quick_approval, ContractStatus,
  Account, Change, Store, ok, err, Error, record_not_found, quick_approved, quick_rejected, proceed,
  retain,
}
use isp_sam_backend.Dates.{start_of_day_utc, add_days}
use isp_sam_backend.Dates.Laws.{midnight, days_later}
use isp_sam_backend.Scope.{quick_approval_account_scope, in_scope, Requester}
use isp_sam_backend.Changes.Quick
use isp_sam_backend.Changes.Quick.{approve, reject, QuickInput, sam_quick_decision, in_quick_queue}
use isp_sam_backend.Approvals.Queue.{in_queue}

-- A quick disconnection of a BASE account that is not decided, and a user in whose scope it is.
pub record IsOpen (o : QuickInput) (s : Store) (c : Change) (a : Account) : Type 0 where
  pub found : s.changes.row o.commercial_change_id ≡ some c
  pub keyed : c.id ≡ o.commercial_change_id
  pub owner : s.accounts.row c.account_id ≡ some a
  pub disconnects : c.change_type ≡ disconnection
  pub is_quick_mode : c.disconnection_mode ≡ some quick
  pub undecided : c.quick_approval_decision ≡ none
  pub on_base : a.kitty_type ≡ base
  pub scoped :
      in_scope
        (quick_approval_account_scope
          (record { id = o.performed_by_user_id; role = o.requester_role })
          s)
        a.sam_owner_id
      ≡ true

-- The columns of the change after an approval: the customer leaves at the midnight that begins the day
-- as many days ahead as were asked for, 1 if none were.
abbrev pub approved_row : ℕ → QuickInput → Change → Change
approved_row now o c = record c {
  quick_approval_decision = some quick_approved;
  quick_approval_decided_at = some now;
  quick_approval_decided_by = some o.decided_by;
  quick_approval_note = trimmed o.note;
  scheduled_termination_at = some (midnight (days_later (get_or c.quick_requested_days 1) now));
  retention_decision = some proceed;
  retention_decided_at = some now;
  crm_status = some "SAM_LOCAL_APPROVED";
  crm_status_updated_at = some now;
}

-- And after a rejection, which keeps the customer and schedules nothing.
abbrev pub rejected_row : ℕ → QuickInput → Change → Change
rejected_row now o c = record c {
  quick_approval_decision = some quick_rejected;
  quick_approval_decided_at = some now;
  quick_approval_decided_by = some o.decided_by;
  quick_approval_note = trimmed o.note;
  retention_decision = some retain;
  retention_decided_at = some now;
  crm_status = some "SAM_LOCAL_REJECTED";
  crm_status_updated_at = some now;
}

trimmed_same : (n : Option String) → Quick.trimmed n ≡ trimmed n
trimmed_same none = refl
trimmed_same (some t) = refl

abbrev pub Writes : Store → Change → Account → Store → Type 0
Writes s c a s' =
    (s'.changes.row c.id ≡ some c)
    × (s'.accounts.row c.account_id ≡ some a)
    × ((j : ℕ) → j ≢ c.id → s'.changes.row j ≡ s.changes.row j)
    × ((j : ℕ) → j ≢ c.account_id → s'.accounts.row j ≡ s.accounts.row j)

module _ (now : ℕ) (o : QuickInput) (s : Store) (c : Change) (a : Account)
    (h : IsOpen o s c a) where
  approved :
      o.decision ≡ approve
      → let (r, s') = sam_quick_decision now o s in
        (r ≡ ok (approved_row now o c, disconnecting))
        × Writes s (approved_row now o c) (record a { contract_status = disconnecting }) s'
  unfolding sam_quick_decision start_of_day_utc add_days
  approved e =
      let n = trimmed_same o.note in
      (ground arith, (ground arith, ground arith, λ j ne. ground arith, λ j ne. ground arith))

  rejected :
      o.decision ≡ reject
      → a.contract_status ≡ pending_quick_approval
      → let (r, s') = sam_quick_decision now o s in
        (r ≡ ok (rejected_row now o c, active))
        × Writes s (rejected_row now o c) (record a { contract_status = active }) s'
  unfolding sam_quick_decision start_of_day_utc add_days
  rejected e p =
      let n = trimmed_same o.note in
      (ground arith, (ground arith, ground arith, λ j ne. ground arith, λ j ne. ground arith))

  drifted :
      o.decision ≡ reject
      → a.contract_status ≢ pending_quick_approval
      → sam_quick_decision now o s ≡ (err record_not_found, s)
  unfolding sam_quick_decision start_of_day_utc add_days
  drifted e p = ground arith

  -- An open quick disconnection can be decided by a user in whose scope it is. Approval marks the
  -- change as approved by that user, schedules the termination for the start of the day that lies the
  -- requested days (1 if none was given) ahead and makes the account DISCONNECTING; rejection marks
  -- the change as rejected and retained and makes the account ACTIVE, unless it no longer waits for
  -- the decision, when nothing is written. All else of the two stays, and no other change or account
  -- is touched.
  pub sam_quick_decision_lem :
      (o.decision ≡ approve
        → ((sam_quick_decision now o s).0 ≡ ok (approved_row now o c, disconnecting))
          × Writes s
              (approved_row now o c)
              (record a { contract_status = disconnecting })
              (sam_quick_decision now o s).1)
      × (o.decision ≡ reject
          → a.contract_status ≡ pending_quick_approval
          → ((sam_quick_decision now o s).0 ≡ ok (rejected_row now o c, active))
            × Writes s
                (rejected_row now o c)
                (record a { contract_status = active })
                (sam_quick_decision now o s).1)
      × (o.decision ≡ reject
          → a.contract_status ≢ pending_quick_approval
          → sam_quick_decision now o s ≡ (err record_not_found, s))
  sam_quick_decision_lem = (approved, rejected, drifted)

module _ (now : ℕ) (o : QuickInput) (s : Store) (c : Change) (a : Account)
    (found : s.changes.row o.commercial_change_id ≡ some c) (keyed : c.id ≡ o.commercial_change_id)
    (owner : s.accounts.row c.account_id ≡ some a) where
  -- Only an undecided quick disconnection of a BASE account is decided, and only by a user in whose
  -- scope the account is.
  pub sam_quick_decision_needs :
      {r : Change × ContractStatus} → (sam_quick_decision now o s).0 ≡ ok r → IsOpen o s c a
  unfolding sam_quick_decision
  sam_quick_decision_needs h = record {
    found = found;
    keyed = keyed;
    owner = owner;
    disconnects = ground arith;
    is_quick_mode = ground arith;
    undecided = ground arith;
    on_base = ground arith;
    scoped = ground arith;
  }

  -- A decision that is refused writes nothing.
  pub sam_quick_decision_error :
      {e : Error} → (sam_quick_decision now o s).0 ≡ err e → (sam_quick_decision now o s).1 ≡ s
  unfolding sam_quick_decision
  sam_quick_decision_error h = ground arith

-- No change stands both in the queue of quick disconnections and in that of the approval chain.
pub in_quick_queue-disjoint :
    (r r' : Requester) (s : Store) (c : Change)
    → in_quick_queue r s c ≡ true
    → in_queue r' s c ≡ false
unfolding in_quick_queue in_queue quick_approval_account_scope
in_quick_queue-disjoint r r' s c h = ground arith
