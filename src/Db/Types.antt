-- ===== src/Db/Types.antt =====
-- The enumerations of prisma/schema.prisma and the columns that the modelled services read or
-- write. Ids are only compared and handed on, so they are numbers; an instant is its number of
-- milliseconds since 1970; an amount of money is in hundredths of a rupee, as `Decimal(12, 2)` is.
use isp_sam_backend.Prelude.{ℕ, String, Bool, true, false, Option, none, some, List}

pub data KittyType : Type 0 where
  base new : KittyType

pub data ContractStatus : Type 0 where
  active expired terminated pending probable_churn disconnecting pending_quick_approval :
      ContractStatus
  pending_approval : ContractStatus

pub data ChangeType : Type 0 where
  upgrade downgrade rate_revision disconnection : ChangeType

pub data UserRole : Type 0 where
  admin sam_head sam accounts_team super_admin_2 : UserRole

pub data ApprovalStatus : Type 0 where
  pending_super_admin_2 pending_sam_head pending_accounts approved rejected not_required :
      ApprovalStatus

pub data RetentionDecision : Type 0 where
  retain proceed : RetentionDecision

-- `disconnection_mode` is a text column; the code writes these two values only.
pub data DisconnectionMode : Type 0 where
  normal quick : DisconnectionMode

-- `quick_approval_decision` is a text column; the code writes these two values only.
pub data QuickDecision : Type 0 where
  quick_approved quick_rejected : QuickDecision

abbrev pub is_base : KittyType → Bool
is_base base = true
is_base new = false

abbrev pub is_disconnection : ChangeType → Bool
is_disconnection disconnection = true
is_disconnection _ = false

abbrev pub is_quick : Option DisconnectionMode → Bool
is_quick (some quick) = true
is_quick _ = false

abbrev pub is_not_required : ApprovalStatus → Bool
is_not_required not_required = true
is_not_required _ = false

abbrev pub is_proceed : Option RetentionDecision → Bool
is_proceed (some proceed) = true
is_proceed _ = false

abbrev pub same_type : ChangeType → ChangeType → Bool
same_type upgrade upgrade = true
same_type downgrade downgrade = true
same_type rate_revision rate_revision = true
same_type disconnection disconnection = true
same_type _ _ = false

abbrev pub same_role : UserRole → UserRole → Bool
same_role admin admin = true
same_role sam_head sam_head = true
same_role sam sam = true
same_role accounts_team accounts_team = true
same_role super_admin_2 super_admin_2 = true
same_role _ _ = false

abbrev pub same_status : ContractStatus → ContractStatus → Bool
same_status active active = true
same_status expired expired = true
same_status terminated terminated = true
same_status pending pending = true
same_status probable_churn probable_churn = true
same_status disconnecting disconnecting = true
same_status pending_quick_approval pending_quick_approval = true
same_status pending_approval pending_approval = true
same_status _ _ = false

abbrev pub same_approval : ApprovalStatus → ApprovalStatus → Bool
same_approval pending_super_admin_2 pending_super_admin_2 = true
same_approval pending_sam_head pending_sam_head = true
same_approval pending_accounts pending_accounts = true
same_approval approved approved = true
same_approval rejected rejected = true
same_approval not_required not_required = true
same_approval _ _ = false

pub record Account : Type 0 where
  pub id : ℕ
  pub client_name : String
  pub kitty_type : KittyType
  pub sam_owner_id : Option ℕ
  pub current_arc : ℕ
  pub contract_status : ContractStatus
  pub onboarding_date : ℕ
  pub external_crm_id : Option String
  pub company_name : Option String
  pub email : Option String
  pub mobile_number : Option String
  pub current_plan : Option String
  pub circuit_id : Option String
  pub bandwidth_mbps : Option ℕ
  pub start_of_period_arc : Option ℕ
  pub last_meeting_date : Option ℕ
  pub last_mom_date : Option ℕ
  pub lead_id : Option String
  pub customer_code : Option String
  pub address : Option String
  pub gst_number : Option String
  pub contact_person_name : Option String
  pub industry_type : Option String
  pub circle : Option String
  pub account_manager : Option String
  pub user_name : Option String
  pub ip_details : Option String
  pub metadata : Option (List (String × String))

pub record Change : Type 0 where
  pub id : ℕ
  pub account_id : ℕ
  pub change_type : ChangeType
  pub old_arc : ℕ
  pub new_arc : ℕ
  pub effective_date : ℕ
  pub client_approval_attached : Bool
  pub approval_file_url : Option String
  pub approval_file_public_id : Option String
  pub po_file_url : Option String
  pub po_file_public_id : Option String
  pub accounts_notified_date : Option ℕ
  pub created_by : ℕ
  pub reason : Option String
  pub old_bandwidth_mbps : Option ℕ
  pub new_bandwidth_mbps : Option ℕ
  pub mail_received_date : Option ℕ
  pub crm_service_order_id : Option String
  pub crm_order_number : Option String
  pub crm_status : Option String
  pub crm_status_updated_at : Option ℕ
  pub activation_date : Option ℕ
  pub account_applied_at : Option ℕ
  pub disconnection_category_id : Option String
  pub disconnection_sub_category_id : Option String
  pub disconnection_reason : Option String
  pub disconnection_mode : Option DisconnectionMode
  pub quick_requested_days : Option ℕ
  pub quick_approval_reason : Option String
  pub quick_approval_decision : Option QuickDecision
  pub quick_approval_decided_at : Option ℕ
  pub quick_approval_decided_by : Option String
  pub quick_approval_note : Option String
  pub retention_prompt_due_at : Option ℕ
  pub retention_decision : Option RetentionDecision
  pub retention_decided_at : Option ℕ
  pub scheduled_termination_at : Option ℕ
  pub approval_status : ApprovalStatus
  pub rejection_reason : Option String
  pub rejected_by : Option ℕ
  pub rejected_at : Option ℕ
  pub approved_by : Option ℕ
  pub approved_at : Option ℕ
  pub material_recovered : Option Bool
  pub material_recovery_notes : Option String

pub record User : Type 0 where
  pub id : ℕ
  pub email : String
  pub name : String
  pub role : UserRole
  pub sam_head_id : Option ℕ
  pub password_hash : String
  -- In hundredths of a percent.
  pub allowable_churn_percent : ℕ
  pub created_at : ℕ

pub data MeetingType : Type 0 where
  online physical : MeetingType

pub data ItemStatus : Type 0 where
  item_open in_progress item_closed : ItemStatus

pub record ActionItem : Type 0 where
  pub sr_no : ℕ
  pub discussion_description : String
  pub action_owner : String
  pub plan_of_action : String
  pub closure_date : Option String
  pub current_status : ItemStatus

pub record Meeting : Type 0 where
  pub id : ℕ
  pub account_id : ℕ
  pub scheduled_at : ℕ
  pub held_at : Option ℕ
  pub agenda : Option String
  pub mom_content : Option String
  pub mom_sent_at : Option ℕ
  pub meeting_type : MeetingType
  pub location : Option String
  pub client_participants : Option String
  pub gazon_participants : Option String
  pub action_items : Option (List ActionItem)
  pub created_by : ℕ
  pub created_at : ℕ

-- A user's state of one audit row; the two together are the key.
pub record NotificationState : Type 0 where
  pub read_at : Option ℕ
  pub dismissed_at : Option ℕ

-- The values that an audit payload holds: `instant` is `toISOString()`, `day` its first ten
-- characters.
pub data Json : Type 0 where
  null : Json
  bool : Bool → Json
  num : ℕ → Json
  text : String → Json
  ref : ℕ → Json
  instant : ℕ → Json
  day : ℕ → Json
  change_type : ChangeType → Json
  stage : ApprovalStatus → Json
  status : ContractStatus → Json
  mode : DisconnectionMode → Json
  meeting_type : MeetingType → Json
  items : List ActionItem → Json
  role : UserRole → Json

abbrev pub json_or_null {ℓ} : {A : Type ℓ} → (A → Json) → Option A → Json
json_or_null f none = null
json_or_null f (some a) = f a

pub record AuditEntry : Type 0 where
  pub entity_type : String
  pub entity_id : ℕ
  pub action : String
  pub performed_by : Option ℕ
  pub ip_address : Option String
  pub user_agent : Option String
  pub payload : List (String × Json)

pub data EventStatus : Type 0 where
  processed duplicate event_rejected failed : EventStatus

-- An inbound webhook, keyed by its own id; `external_event_id` is unique.
pub record IntegrationEvent : Type 0 where
  pub id : ℕ
  pub event_type : String
  pub external_event_id : ℕ
  pub occurred_at : Option ℕ
  pub status : EventStatus
  pub status_reason : Option String
  pub account_id : Option ℕ
