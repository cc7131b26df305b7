-- ===== src/Changes/Retention/Laws.antt =====
-- The retention prompt: when a decision is taken, what it does, and that it is taken once
-- (src/modules/commercial-changes/commercial-changes.service.ts).
use isp_sam_backend.Prelude.{
  ℕ, ◌+◌, ◌*◌, ◌≡◌, ap, ◌≢◌, ◌↔◌, ◌≤◌, refl, true, false, none, some, arith, is_some, ◌∙◌,
}
use isp_sam_backend.Db.{
  active, disconnecting, disconnection, retention_already_decided, retain, proceed,
  RetentionDecision, ContractStatus, Account, Change, Store, ok, err,
}
use isp_sam_backend.Dates.{day_ms, start_of_day_utc, add_days}
use isp_sam_backend.Dates.Laws.{midnight, days_later}
use isp_sam_backend.World.{World}
use isp_sam_backend.Changes.Apply.{is_due}
use isp_sam_backend.Changes.Orders.{raise_disconnection_order, link_order}
use isp_sam_backend.Changes.Orders.Laws.{with_order, link_order-with_order}
use isp_sam_backend.Changes.Retention.{
  put_status, decided, proceeded, too_early, retention_decision,
}

-- The change and its account after a decision.
abbrev pub decided_row : World → RetentionDecision → Change → Account → Change
decided_row w retain c a = decided retain w.now c
decided_row w proceed c a = proceeded w.now (raise_disconnection_order w c a.external_crm_id none) c

abbrev pub decided_status : RetentionDecision → ContractStatus
decided_status retain = active
decided_status proceed = disconnecting

-- The columns of the change after a decision. PROCEED has the termination fall on the midnight ten days
-- ahead, and fills in the order that the CRM was asked for.
abbrev pub row_after : World → RetentionDecision → Change → Account → Change
row_after w retain c a = record c {
  retention_decision = some retain;
  retention_decided_at = some w.now;
}
row_after w proceed c a =
    with_order w.now (raise_disconnection_order w c a.external_crm_id none) (record c {
      retention_decision = some proceed;
      retention_decided_at = some w.now;
      scheduled_termination_at = some (days_later 10 (midnight w.now));
    })

decided_row-row_after :
    (w : World) (d : RetentionDecision) (c : Change) (a : Account)
    → decided_row w d c a ≡ row_after w d c a
unfolding start_of_day_utc add_days
decided_row-row_after w retain c a = refl
decided_row-row_after w proceed c a =
    link_order-with_order w.now (raise_disconnection_order w c a.external_crm_id none) (record c {
      retention_decision = some proceed;
      retention_decided_at = some w.now;
      scheduled_termination_at = some (days_later 10 (midnight w.now));
    })

-- The window is over: the prompt date, if there is one, is today or earlier.
abbrev pub WindowElapsed : ℕ → Change → Type 0
WindowElapsed now c = (due : ℕ) → c.retention_prompt_due_at ≡ some due → due ≤ start_of_day_utc now

module _ (w : World) (k by : ℕ) (d : RetentionDecision) (s : Store) (c : Change) (a : Account)
    (found : s.changes.row k ≡ some c) (owner : s.accounts.row c.account_id ≡ some a) where
  needed :
      {r : Change}
      → (retention_decision w k d by s).0 ≡ ok r
      → (c.change_type ≡ disconnection)
        × (c.retention_decision ≡ none)
        × (too_early w.now d c ≡ false)
  unfolding retention_decision
  needed h = ground arith

  effect :
      {r : Change}
      → (retention_decision w k d by s).0 ≡ ok r
      → let s' = (retention_decision w k d by s).1 in
        (r ≡ decided_row w d c a)
        × (s'.changes.row k ≡ some r)
        × (s'.accounts.row c.account_id ≡ some (put_status (decided_status d) a))
        × ((j : ℕ) → j ≢ k → s'.changes.row j ≡ s.changes.row j)
        × ((j : ℕ) → j ≢ c.account_id → s'.accounts.row j ≡ s.accounts.row j)
  unfolding retention_decision
  effect h = (ground arith, ground arith, ground arith, λ j ne. ground arith, λ j ne. ground arith)

  -- A decision that is accepted is marked on the change with its instant; RETAIN makes the account
  -- ACTIVE, and PROCEED makes it DISCONNECTING, schedules the termination for the midnight ten days
  -- ahead and fills in the order that the CRM was asked for, whatever the account's status and the
  -- change's approval status were. All else of the two stays, and no other change or account is
  -- touched.
  pub retention_decision_effect :
      {r : Change}
      → (retention_decision w k d by s).0 ≡ ok r
      → let s' = (retention_decision w k d by s).1 in
        (r ≡ row_after w d c a)
        × (s'.changes.row k ≡ some r)
        × (d ≡ retain → s'.accounts.row c.account_id ≡ some (record a { contract_status = active }))
        × (d ≡ proceed
            → s'.accounts.row c.account_id ≡ some (record a { contract_status = disconnecting }))
        × ((j : ℕ) → j ≢ k → s'.changes.row j ≡ s.changes.row j)
        × ((j : ℕ) → j ≢ c.account_id → s'.accounts.row j ≡ s.accounts.row j)
  retention_decision_effect h =
      let (same, row, account, others, rest) = effect h in
      (
        same ∙ decided_row-row_after w d c a,
        row,
        λ e. account ∙ ap (λ x. some (put_status (decided_status x) a)) e,
        λ e. account ∙ ap (λ x. some (put_status (decided_status x) a)) e,
        others,
        rest,
      )

refused_when_decided :
    (w : World) (k by : ℕ) (d : RetentionDecision) (s : Store) (c : Change) (a : Account)
    → s.changes.row k ≡ some c
    → s.accounts.row c.account_id ≡ some a
    → c.change_type ≡ disconnection
    → is_some c.retention_decision ≡ true
    → retention_decision w k d by s ≡ (err retention_already_decided, s)
unfolding retention_decision
refused_when_decided w k by d s c a f g t u = ground arith

decided_row_lem :
    (w : World) (d : RetentionDecision) (c : Change) (a : Account)
    → let r = decided_row w d c a in
      (r.change_type ≡ c.change_type)
      × (r.account_id ≡ c.account_id)
      × (is_some r.retention_decision ≡ true)
unfolding link_order
decided_row_lem w d c a = ground arith

-- A decision that was taken is final: whatever is decided later, at any instant, is refused and
-- writes nothing.
pub retention_decision_final :
    (w later : World) (k by by' : ℕ) (d d' : RetentionDecision) (s : Store) (c : Change)
    (a : Account)
    → s.changes.row k ≡ some c
    → s.accounts.row c.account_id ≡ some a
    → {r : Change} → (retention_decision w k d by s).0 ≡ ok r
    → let s' = (retention_decision w k d by s).1 in
      retention_decision later k d' by' s' ≡ (err retention_already_decided, s')
retention_decision_final w later k by by' d d' s c a f g {r} h =
    let (t, _, _) = needed w k by d s c a f g h in
    let (same, row, account, _, _) = effect w k by d s c a f g h in
    let (t', i, u) = decided_row_lem w d c a in
    refused_when_decided later k by' d' _ r (put_status (decided_status d) a) row
      (rw (same, i) account) (rw (same, t') t) (rw same u)

-- After PROCEED on a disconnection that is not applied, the sweep takes the termination up from
-- the start of the day ten days later, and not before.
pub proceed-is_due_iff :
    (w : World) (later : ℕ) (c : Change) (a : Account)
    → c.change_type ≡ disconnection
    → c.account_applied_at ≡ none
    → (is_due (start_of_day_utc later) (decided_row w proceed c a) ≡ true)
      ↔ (start_of_day_utc w.now + 10 * day_ms ≤ later)
unfolding link_order start_of_day_utc add_days
proceed-is_due_iff w later c a t u = (λ h. ground arith, λ h. ground arith)
