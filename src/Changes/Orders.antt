-- ===== src/Changes/Orders.antt =====
-- The CRM service orders that SAM raises: `buildServiceOrderInput` and the disconnection order of
-- `retentionDecision` (src/modules/commercial-changes/commercial-changes.service.ts), the latter
-- also as `raiseDisconnectionServiceOrder` (src/modules/integrations/integrations.service.ts).
pub mod Laws
use Prim.Native.String
use isp_sam_backend.Prelude.{ℕ, String, not, Option, none, some, List, [], ◌∷◌, ◌++◌, if◌then◌else◌}
use isp_sam_backend.Text.{bind_truthy}
use isp_sam_backend.Db.{disconnection, Change}
use isp_sam_backend.World.{
  World, CreateServiceOrderInput, ServiceOrder, CrmReply, answer, http_error, other_error,
}
use isp_sam_backend.Reasons.{Labels, lookup_disconnection_labels}

infixr 65 ◌<>◌
abbrev pub ◌<>◌ : String → String → String
a <> b = String.◌++◌ a b

-- `SAM-XXXXXXXX`
abbrev pub sam_ref : World → ℕ → String
sam_ref w k = "SAM-" <> w.short_id_text k

-- `parts.join(' | ')`
abbrev join_notes : String → List String → String
join_notes first [] = first
join_notes first (p ∷ ps) = first <> (" | " <> join_notes p ps)

abbrev reason_part : Labels → List String
reason_part l = elim (l.category) [
  | none ↦ []
  | some category ↦ elim (l.sub_category) [
    | none ↦ ("Reason: " <> category) ∷ []
    | some sub ↦ ("Reason: " <> (category <> (" — " <> sub))) ∷ []
  ]
]

abbrev details_part : Option String → List String
details_part none = []
details_part (some reason) = ("Details: " <> reason) ∷ []

abbrev listed : Option String → List String
listed none = []
listed (some s) = s ∷ []

-- `lead` is the note that the quick path puts after the reference.
unfoldable pub disconnection_order_input :
    World → Change → String → Option String → CreateServiceOrderInput
disconnection_order_input w c customer lead = record {
  customer_id = customer;
  order_type = disconnection;
  new_bandwidth = none;
  new_arc = none;
  effective_date = none;
  mail_received_date = c.mail_received_date;
  notes = some (
      join_notes (sam_ref w c.id) (
        listed lead
        ++ (reason_part (
              lookup_disconnection_labels c.disconnection_category_id
                c.disconnection_sub_category_id)
            ++ details_part (bind_truthy c.disconnection_reason))));
  approval_file_url = c.approval_file_url;
  po_file_url = c.po_file_url;
  disconnection_category_id = c.disconnection_category_id;
  disconnection_sub_category_id = c.disconnection_sub_category_id;
  disconnection_reason = c.disconnection_reason;
}

pub record OrderSummary : Type 0 where
  pub crm_service_order_id : Option String
  pub crm_order_number : Option String
  pub crm_status : Option String
  pub crm_error : Option String

abbrev pub no_order : OrderSummary
no_order = record {
  crm_service_order_id = none;
  crm_order_number = none;
  crm_status = none;
  crm_error = none;
}

abbrev failed_order : String → OrderSummary
failed_order message = record {
  crm_service_order_id = none;
  crm_order_number = none;
  crm_status = some "FAILED";
  crm_error = some message;
}

abbrev summary_of : World → CrmReply ServiceOrder → OrderSummary
summary_of w (answer order) = record {
  crm_service_order_id = some order.id;
  crm_order_number = some order.order_number;
  crm_status = some order.status;
  crm_error = none;
}
summary_of w (http_error code message) =
    failed_order ("CRM " <> (w.number_text code <> (": " <> message)))
summary_of w (other_error message) = failed_order message

-- Nothing is raised when the kill switch is off or the account has no CRM id. It never throws.
unfoldable pub raise_disconnection_order :
    World → Change → Option String → Option String → OrderSummary
raise_disconnection_order w c crm_id lead =
    if not w.crm_service_orders_enabled then no_order else elim (bind_truthy crm_id) [
      | none ↦ no_order
      | some customer ↦
          summary_of w (w.create_service_order (disconnection_order_input w c customer lead))
    ]

-- The columns of the change that an order fills: all of them with an order id, the status alone
-- where there is none.
unfoldable pub link_order : ℕ → OrderSummary → Change → Change
link_order now o c = elim (bind_truthy o.crm_service_order_id) [
  | some order_id ↦ record c {
    crm_service_order_id = some order_id;
    crm_order_number = o.crm_order_number;
    crm_status = o.crm_status;
    crm_status_updated_at = some now;
  }
  | none ↦ elim (bind_truthy o.crm_status) [
    | some status ↦ record c { crm_status = some status; crm_status_updated_at = some now }
    | none ↦ c
  ]
]
