-- ===== src/Accounts/Import/Sheet.antt =====
-- The rows that src/modules/accounts/import/parse-workbook.ts gives. It reads the workbook by a
-- library; its result is an input. A cell that is absent has no value, and an amount below zero is
-- not modelled.
use isp_sam_backend.Prelude.{ℕ, String, Option, List}
use isp_sam_backend.Db.{KittyType}

-- `CanonicalRow` of src/modules/accounts/import/header-map.ts.
pub record CanonicalRow : Type 0 where
  pub client_name : Option String
  pub company_name : Option String
  pub mobile_number : Option String
  pub email : Option String
  pub current_arc : Option ℕ
  pub contract_status : Option String
  pub onboarding_date : Option ℕ
  pub lead_id : Option String
  pub external_crm_id : Option String
  pub current_plan : Option String
  pub bandwidth_mbps : Option ℕ
  pub circuit_id : Option String
  pub customer_code : Option String
  pub address : Option String
  pub sam_email : Option String
  pub sam_name : Option String
  pub gst_number : Option String
  pub contact_person_name : Option String
  pub industry_type : Option String
  pub circle : Option String
  pub account_manager : Option String
  pub user_name : Option String
  pub ip_details : Option String
  pub kitty_type : Option KittyType

pub record ParsedRow : Type 0 where
  pub row_number : ℕ
  pub canonical : CanonicalRow
  -- The columns that have no other place, under their headers.
  pub metadata : List (String × String)
