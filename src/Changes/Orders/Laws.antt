-- ===== src/Changes/Orders/Laws.antt =====
-- The columns that a raised order fills, one by one
-- (src/modules/commercial-changes/commercial-changes.service.ts).
use isp_sam_backend.Prelude.{
  ℕ, ◌≡◌, ◌||◌, Option-cases, inl, inr, some, if◌then◌else◌, is_some, or_else, arith,
}
use isp_sam_backend.Text.{bind_truthy}
use isp_sam_backend.Db.{Change}
use isp_sam_backend.Changes.Orders.{OrderSummary, link_order}

-- The id of the order if it has one, then with its number and status; a status alone otherwise; and
-- the instant where either was filled.
abbrev pub with_order : ℕ → OrderSummary → Change → Change
with_order now o c =
    let ordered = is_some (bind_truthy o.crm_service_order_id) in
    record c {
      crm_service_order_id = or_else (bind_truthy o.crm_service_order_id) c.crm_service_order_id;
      crm_order_number = if ordered then o.crm_order_number else c.crm_order_number;
      crm_status =
          if ordered then o.crm_status else or_else (bind_truthy o.crm_status) c.crm_status;
      crm_status_updated_at =
          if ordered || is_some (bind_truthy o.crm_status)
          then some now
          else c.crm_status_updated_at;
    }

pub link_order-with_order :
    (now : ℕ) (o : OrderSummary) (c : Change) → link_order now o c ≡ with_order now o c
unfolding link_order
link_order-with_order now o c = elim (Option-cases (bind_truthy o.crm_service_order_id)) [
  | inr (k, e) ↦ ground arith
  | inl e ↦ elim (Option-cases (bind_truthy o.crm_status)) [
    | inr (t, f) ↦ ground arith
    | inl f ↦ ground arith
  ]
]
