-- ===== src/Tests/Imports.antt =====
-- A sheet of accounts at work (src/modules/accounts/import/import.service.ts).
use isp_sam_backend.Prelude.{
  ℕ, String, true, ◌+◌, ◌≡◌, ◌≤◌, ◌⊎◌, none, some, List, [], ◌∷◌, map, length, refl, arith,
}
use isp_sam_backend.Text.{trim, is_space}
use isp_sam_backend.Db.{
  active, terminated, probable_churn, base, new, User, Account, Store, find_many,
}
use isp_sam_backend.World.{World}
use isp_sam_backend.Accounts.Import.Sheet.{CanonicalRow, ParsedRow}
use isp_sam_backend.Accounts.Import.Directory.{
  owned_by, resolve_sam, load_sam_directory, enter_users, first_word, has_space, find_by_first_name,
}
use isp_sam_backend.Accounts.Import.Directory.Laws.{IsAmong, IsMeant, resolve_sam_lem}
use isp_sam_backend.Accounts.Import.Validate.{
  validate, alias_of, letters, derive_kitty_type, current_fiscal_cutoff,
}
use isp_sam_backend.Dates.{start_of_day_utc}
use isp_sam_backend.Dashboard.Calendar.{date_utc, days_before_year, leap_day, days_in_year}
use isp_sam_backend.Accounts.Import.Write.{write_data, save_account, create_account, is_in_use}
use isp_sam_backend.Accounts.Import.Write.Unique.{IsIndexed}
use isp_sam_backend.Accounts.Import.Run.{import_workbook, import_rows, import_row}
use isp_sam_backend.Accounts.Import.Run.Counts.{import_workbook-numbers}
use isp_sam_backend.Accounts.Import.Run.Keeps.{import_workbook-IsIndexed}
use isp_sam_backend.Tests.Data.{account_of, fresh_store, world_at}

-- The examples have small letters only.
abbrev lower : String → String
lower s = s

abbrev empty_row : CanonicalRow
empty_row = record {
  client_name = none;
  company_name = none;
  mobile_number = none;
  email = none;
  current_arc = none;
  contract_status = none;
  onboarding_date = none;
  lead_id = none;
  external_crm_id = none;
  current_plan = none;
  bandwidth_mbps = none;
  circuit_id = none;
  customer_code = none;
  address = none;
  sam_email = none;
  sam_name = none;
  gst_number = none;
  contact_person_name = none;
  industry_type = none;
  circle = none;
  account_manager = none;
  user_name = none;
  ip_details = none;
  kitty_type = none;
}

abbrev cells : List ParsedRow
cells =
    record {
      row_number = 2;
      canonical = record empty_row { client_name = some " acme "; lead_id = some "L-1" };
      metadata = [];
    }
    ∷ record {
      row_number = 3;
      canonical = record empty_row {
        company_name = some "orbit";
        circuit_id = some "CKT-9";
        sam_email = some "sam@sam ";
        contract_status = some "De-active";
        current_arc = some 500;
      };
      metadata = [];
    }
    ∷ record {
      row_number = 4;
      canonical = record empty_row { circuit_id = some "CKT-9"; sam_name = some "nobody" };
      metadata = [];
    }
    ∷ record {
      row_number = 5;
      canonical = record empty_row { contract_status = some "gone" };
      metadata = [];
    }
    ∷ []

-- The account of the lead, in its retention window, of the SAM 11.
abbrev leaving : Account
leaving = record (account_of base probable_churn) { lead_id = some "L-1" }

abbrev before_import : Store
before_import = fresh_store leaving

abbrev worlds : ℕ → World
worlds n = record (world_at 1700000000000) { fresh_id = 100 + n }

-- The first row updates the account, the second one makes one, the third one shares its circuit, and
-- the status of the fourth is unknown.
import_cells :
    let m = (import_workbook lower worlds 2023 cells (9 ∷ []) before_import).0 in
    (m.imported ≡ 1)
    × (m.updated ≡ 1)
    × (m.skipped ≡ 2)
    × (map (λ x. x.row_number) m.errors ≡ 9 ∷ 4 ∷ 4 ∷ 5 ∷ [])
    × (map (λ x. x.contract_status) m.created_accounts ≡ terminated ∷ [])
    × (map (λ x. x.sam_owner_name) m.created_accounts ≡ some "Sam" ∷ [])
unfolding import_workbook trim is_space first_word validate write_data resolve_sam
    load_sam_directory find_by_first_name has_space alias_of letters save_account create_account
    is_in_use import_rows import_row enter_users derive_kitty_type current_fiscal_cutoff date_utc
    start_of_day_utc days_before_year leap_day days_in_year
import_cells = (refl, refl, refl, refl, refl, refl)

-- The update takes the owner from the account, ends its retention window, and moves it to the new
-- base, since the sheet has neither an owner nor a status nor a date.
import_overwrites :
    (import_workbook lower worlds 2023 cells (9 ∷ []) before_import).1.accounts.row 1
    ≡ some (record leaving {
      client_name = "acme";
      lead_id = some "L-1";
      sam_owner_id = none;
      current_arc = 0;
      contract_status = active;
      kitty_type = new;
      onboarding_date = 1699920000000;
      external_crm_id = none;
      current_plan = none;
      bandwidth_mbps = none;
    })
unfolding import_workbook trim is_space first_word validate write_data resolve_sam
    load_sam_directory find_by_first_name has_space alias_of letters save_account create_account
    is_in_use import_rows import_row enter_users derive_kitty_type current_fiscal_cutoff date_utc
    start_of_day_utc days_before_year leap_day days_in_year
import_overwrites = refl

before_import-IsIndexed : IsIndexed before_import.accounts
before_import-IsIndexed = record {
  keyed = λ k a e. ground arith;
  listed = λ k a e. ground arith;
  unique = λ c j k a b x e f p q. ground arith;
}

import_workbook-IsIndexed_example :
    let t = (import_workbook lower worlds 2023 cells (9 ∷ []) before_import).1 in
    IsIndexed t.accounts
    × ((k : ℕ) (a : Account)
        → before_import.accounts.row k ≡ some a
        → (b : Account) × (t.accounts.row k ≡ some b)
          × (b.start_of_period_arc ≡ a.start_of_period_arc)
          × (b.last_meeting_date ≡ a.last_meeting_date)
          × (b.last_mom_date ≡ a.last_mom_date))
    × (t ≡ record before_import { accounts = t.accounts })
import_workbook-IsIndexed_example =
    import_workbook-IsIndexed lower worlds 2023 cells (9 ∷ []) before_import before_import-IsIndexed

import_workbook-numbers_example :
    let m = (import_workbook lower worlds 2023 cells (9 ∷ []) before_import).0 in
    (m.imported ≡ length m.created_accounts)
    × (m.updated ≡ length m.updated_accounts)
    × (m.imported + m.updated + m.skipped ≡ 4)
    × (1 + m.skipped ≤ length m.errors)
    × (length m.errors ≤ 5 + m.skipped)
import_workbook-numbers_example =
    import_workbook-numbers lower worlds 2023 cells (9 ∷ []) before_import

abbrev staff : List User
staff = find_many (λ _. true) before_import.users

abbrev named_row : CanonicalRow
named_row = record empty_row { sam_name = some "Sam" }

-- Nobody else is called so.
named_row-owner : resolve_sam lower named_row (load_sam_directory lower staff) ≡ owned_by 11 "Sam"
unfolding resolve_sam load_sam_directory enter_users trim is_space
named_row-owner = refl

resolve_sam_lem_example :
    let m = resolve_sam lower named_row (load_sam_directory lower staff) in
    ((m.sam_owner_id ≡ none) × (m.sam_owner_name ≡ none))
    ⊎ ((u : User) × IsAmong u staff × (m ≡ owned_by u.id u.name) × IsMeant lower staff named_row u)
resolve_sam_lem_example = resolve_sam_lem lower staff named_row
