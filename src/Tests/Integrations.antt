-- ===== src/Tests/Integrations.antt =====
-- The webhooks at work (src/modules/integrations/integrations.service.ts).
use isp_sam_backend.Prelude.{ℕ, ◌≡◌, refl, Option, none, some}
use isp_sam_backend.Db.{
  new, active, pending_quick_approval, upgrade, disconnection, quick, sam_head, not_required,
  Account, Change, ok, err, unique_violation, failed, IntegrationEvent,
}
use isp_sam_backend.Changes.Quick.{QuickInput, approve as sam_approve}
use isp_sam_backend.Integrations.Events.{duplicate_event, new_event, reserve}
use isp_sam_backend.Accounts.Import.Write.{is_in_use}
use isp_sam_backend.Integrations.Status.{StatusPayload, completed, kind_of}
use isp_sam_backend.Integrations.Status.Laws.{change_after}
use isp_sam_backend.Integrations.Quick.{DecisionPayload, approve}
use isp_sam_backend.Integrations.Quick.Laws.{change_after as decided_row}
use isp_sam_backend.Integrations.Activation.{CustomerPayload, ingest_customer_activated}
use isp_sam_backend.Integrations.Once.{status_changed, quick_decided, ingest, ingest_once}
use isp_sam_backend.Tests.Data.{account_of, change_of, store_of, fresh_store, world_at}

abbrev live : Account
live = account_of new active

-- An upgrade whose order the CRM reports completed.
abbrev ordered : Change
ordered = change_of upgrade none not_required

abbrev report : StatusPayload
report = record {
  event_id = 90;
  occurred_at = 500;
  commercial_change_id = 7;
  from_status = none;
  to_status = "COMPLETED";
  changed_by = "crm";
  note = none;
  service_order_id = none;
  service_order_number = none;
}

reported_completed : kind_of "COMPLETED" ≡ completed
unfolding kind_of
reported_completed = refl

-- A quick disconnection that the CRM approves.
abbrev waiting : Account
waiting = account_of new pending_quick_approval

abbrev quick_row : Change
quick_row = change_of disconnection (some quick) not_required

abbrev approval : DecisionPayload
approval = record {
  event_id = 90;
  occurred_at = 500;
  commercial_change_id = 7;
  decision = approve;
  decided_by = "admin";
  note = none;
}

abbrev in_sam : QuickInput
in_sam = record {
  commercial_change_id = 7;
  decision = sam_approve;
  note = none;
  performed_by_user_id = 5;
  requester_role = sam_head;
  ip_address = none;
  user_agent = none;
  decided_by = "5";
}

-- The report comes twice; the second time it is about an approval with the same event id.
ingest_once_example :
    let s' = (ingest (world_at 1000) (status_changed report) (store_of live ordered)).1 in
    (k : ℕ) × (account : Option ℕ) × (ingest (world_at 2000) (quick_decided approval) s'
      ≡ (ok (duplicate_event k account), s'))
ingest_once_example =
    ingest_once (world_at 1000) (world_at 2000) (status_changed report) (quick_decided approval)
      (store_of live ordered) refl

abbrev handed_over : CustomerPayload
handed_over = record {
  event_id = 91;
  occurred_at = 500;
  external_id = "crm-1";
  company_name = "Acme";
  contact_name = none;
  email = none;
  phone = none;
  circuit_id = none;
  bandwidth_mbps = some 100;
  current_plan = none;
  current_arc = none;
  current_mrr = some 100000;
  onboarding_date = 0;
}

-- An activation with the circuit of another customer is refused, and its event says so.
abbrev on_circuit : Account
on_circuit = record live {
  company_name = some "Acme";
  circuit_id = some "c-9";
  external_crm_id = some "crm-0";
}

abbrev same_circuit : CustomerPayload
same_circuit = record handed_over { circuit_id = some "c-9" }

circuit_refused :
    let (x, s') = ingest_customer_activated (world_at 1000) same_circuit (fresh_store on_circuit) in
    (x ≡ err unique_violation)
    × ((e : IntegrationEvent) × (s'.events.row 7 ≡ some e)
        × (e.status ≡ failed)
        × (e.status_reason
            ≡ some
                "P2002: duplicate circuit_id 'c-9'. Already owned by account 1 (externalCrmId=crm-0, name='Acme'). Fix the data on CRM side — two accounts cannot share a circuit ID."))
unfolding ingest_customer_activated is_in_use reserve
circuit_refused = (
  refl,
  (
    record (new_event (world_at 1000) "customer.activated" 91 (some 500)) {
      status_reason =
          some
            "P2002: duplicate circuit_id 'c-9'. Already owned by account 1 (externalCrmId=crm-0, name='Acme'). Fix the data on CRM side — two accounts cannot share a circuit ID.";
    },
    refl,
    refl,
    refl,
  ),
)
