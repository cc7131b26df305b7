-- ===== src/World.antt =====
-- What the services read of the world outside the database: the clock, fresh ids, the environment
-- variables, and the calls of the CRM, the file store and the mail transport. They are fields of one
-- record, which every operation that uses them takes.
use isp_sam_backend.Prelude.{ℕ, String, Bool, Option, List}
use isp_sam_backend.Db.{ChangeType}

-- `CreateServiceOrderInput` of src/services/integrations/crm/crm-client.ts. ARC in whole rupees.
pub record CreateServiceOrderInput : Type 0 where
  pub customer_id : String
  pub order_type : ChangeType
  pub new_bandwidth : Option ℕ
  pub new_arc : Option ℕ
  pub effective_date : Option ℕ
  pub mail_received_date : Option ℕ
  pub notes : Option String
  pub approval_file_url : Option String
  pub po_file_url : Option String
  pub disconnection_category_id : Option String
  pub disconnection_sub_category_id : Option String
  pub disconnection_reason : Option String

-- `ServiceOrder`, the fields that SAM reads.
pub record ServiceOrder : Type 0 where
  pub id : String
  pub order_number : String
  pub status : String
  pub activation_date : Option ℕ

-- A CRM call: its answer, a `CrmHttpError`, or another error.
pub data CrmReply (A : Type 0) : Type 0 where
  answer : A → CrmReply A
  http_error : ℕ → String → CrmReply A
  other_error : String → CrmReply A

-- `uploadApprovalFile`
pub data FileKind : Type 0 where
  approval po : FileKind

pub record Upload : Type 0 where
  pub secure_url : String
  pub public_id : String

-- The request of `pushQuickDisconnectRequest`, and its result.
pub record PushInput : Type 0 where
  pub commercial_change_id : ℕ
  pub external_crm_id : String
  pub raised_by_id : ℕ
  pub raised_by_email : String
  pub reason : String
  pub disconnection_category_id : String
  pub disconnection_sub_category_id : String
  pub requested_arc : ℕ
  pub requested_plan_name : Option String
  pub requested_bandwidth : Option ℕ
  pub requested_days : Option ℕ

pub record PushResult : Type 0 where
  pub ok : Bool
  pub status : ℕ
  pub event_id : String
  pub deduped : Option Bool
  pub error : String
  pub retriable : Bool

-- An email without its subject and body; `about` is the change, the account or the meeting that it
-- is about. Without `from` the default sender is meant.
pub record EmailMessage : Type 0 where
  pub to : String
  pub cc : List String
  pub bcc : List String
  pub from : Option String
  pub about : ℕ

pub data SendResult : Type 0 where
  sent : String → SendResult
  send_failed : String → SendResult

pub record World : Type 0 where
  pub now : ℕ
  -- `crypto.randomUUID()`, and the first eight characters of an id's text in upper case.
  pub fresh_id : ℕ
  pub short_id_text : ℕ → String
  -- An id's text, and the columns that the database names when a unique one is violated.
  pub id_text : ℕ → String
  pub violated_columns : List String
  -- A number in decimal.
  pub number_text : ℕ → String
  pub quick_disconnect_enabled : Bool
  pub crm_service_orders_enabled : Bool
  pub accounts_notifications_enabled : Bool
  -- NOTIFY_MOM_TO_CUSTOMER_ENABLED, where it is 'true' or 'false'.
  pub notify_mom_to_customer_enabled : Option Bool
  pub sales_director_email : Option String
  pub accounts_team_email : Option String
  pub admin_notify_email : Option String
  -- The addresses of ACCOUNTS_TEAM_CC_EMAILS.
  pub accounts_team_cc_emails : List String
  -- `none` is a failed upload, which throws.
  pub upload_approval_file : ℕ → FileKind → String → Option Upload
  pub create_service_order : CreateServiceOrderInput → CrmReply ServiceOrder
  pub list_service_orders : String → CrmReply (List ServiceOrder)
  pub set_activation_date : String → ℕ → CrmReply ServiceOrder
  pub push_quick_disconnect_request : PushInput → PushResult
  pub send_email : EmailMessage → SendResult
