-- ===== src/Integrations/Quick/Laws.antt =====
-- What the CRM's decision does, and that it schedules as the decision inside SAM does
-- (src/modules/integrations/integrations.service.ts).
use isp_sam_backend.Prelude.{get_or, ◌≡◌, some, arith}
use isp_sam_backend.Db.{
  active, disconnecting, quick_approved, quick_rejected, retain, proceed, Account, Change,
}
use isp_sam_backend.Dates.Laws.{midnight, days_later, start_of_day_utc-add_days}
use isp_sam_backend.World.{World}
use isp_sam_backend.Changes.Orders.{OrderSummary, link_order}
use isp_sam_backend.Changes.Orders.Laws.{with_order}
use isp_sam_backend.Changes.Quick.{QuickInput, quick_approved_change}
use isp_sam_backend.Integrations.Quick.{
  CrmDecision, approve, reject, DecisionPayload, crm_approved, crm_rejected, approval_order,
}

-- The rows after a decision.
abbrev decided_change : World → DecisionPayload → Change → Account → CrmDecision → Change
decided_change w p c a approve = crm_approved w p (approval_order w c a) c
decided_change w p c a reject = crm_rejected p c

-- The change after a decision, column by column. An approval lets the customer leave at the midnight
-- that lies as many days ahead as were asked for, 1 if none were, and fills in the order that the CRM
-- was asked for; a rejection keeps the customer.
abbrev pub change_after : World → DecisionPayload → Change → Account → CrmDecision → Change
change_after w p c a approve = with_order p.occurred_at (approval_order w c a) (record c {
  quick_approval_decision = some quick_approved;
  quick_approval_decided_at = some p.occurred_at;
  quick_approval_decided_by = some p.decided_by;
  quick_approval_note = p.note;
  scheduled_termination_at = some (days_later (get_or c.quick_requested_days 1) (midnight w.now));
  retention_decision = some proceed;
  retention_decided_at = some p.occurred_at;
})
change_after w p c a reject = record c {
  quick_approval_decision = some quick_rejected;
  quick_approval_decided_at = some p.occurred_at;
  quick_approval_decided_by = some p.decided_by;
  quick_approval_note = p.note;
  retention_decision = some retain;
  retention_decided_at = some p.occurred_at;
}

abbrev pub account_after : CrmDecision → Account → Account
account_after approve a = record a { contract_status = disconnecting }
account_after reject a = record a { contract_status = active }

-- An approval by the CRM and one inside SAM at the same instant schedule the same termination.
pub approvals_agree :
    (w : World) (p : DecisionPayload) (o : QuickInput) (order : OrderSummary) (c : Change)
    → (crm_approved w p order c).scheduled_termination_at
      ≡ (quick_approved_change w.now o c).scheduled_termination_at
unfolding link_order
approvals_agree w p o order c =
    ground (arith, start_of_day_utc-add_days w.now (get_or c.quick_requested_days 1))
