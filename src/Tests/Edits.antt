-- ===== src/Tests/Edits.antt =====
-- An edit of an account (src/modules/accounts/accounts.service.ts).
use isp_sam_backend.Prelude.{
  ℕ, String, ◌≡◌, ◌≢◌, Option, none, some, List, [], ◌∷◌, ◌++◌, map, refl,
}
use isp_sam_backend.Text.{trim, is_space}
use isp_sam_backend.Db.{active, terminated, base, sam, Json, Account, err, ok, validation_failed}
use isp_sam_backend.Dates.{start_of_day_utc}
use isp_sam_backend.Accounts.Import.Write.{is_in_use}
use isp_sam_backend.Accounts.Edit.{
  TextField, client_name_field, address_field, circuit_id_field, AccountUpdatePatch, UpdateContext,
  Diff, update_data, diffs_of, update_field_audit, write_edit, edit_found, update_account_fields,
}
use isp_sam_backend.Accounts.Edit.Laws.{IsEdited}
use isp_sam_backend.Accounts.Edit.Outcome.{update_account_fields_lem}
use isp_sam_backend.Tests.Data.{account_of, fresh_store}

abbrev texts : TextField → Option (Option String)
texts address_field = some (some " Pune ")
texts circuit_id_field = some none
texts _ = none

-- The circuit is null already, the ARC is the old one.
abbrev patch : AccountUpdatePatch
patch = record {
  text = texts;
  bandwidth_mbps = none;
  current_arc = some 1000000;
  start_of_period_arc = none;
  contract_status = some terminated;
  onboarding_date = some 5;
}

abbrev context : UpdateContext
context = record {
  requester = record { id = 11; role = sam };
  ip_address = none;
  user_agent = none;
}

abbrev edited : Account
edited = record (account_of base active) { address = some "Pune"; contract_status = terminated }

abbrev changes : List Diff
changes =
    record { field = "address"; from = Json.null; to = Json.text "Pune" }
    ∷ record { field = "contractStatus"; from = Json.status active; to = Json.status terminated }
    ∷ []

edited_there :
    (update_account_fields context 1 patch (fresh_store (account_of base active))).0
    ≡ ok (edited, changes)
unfolding update_account_fields edit_found write_edit update_data diffs_of is_in_use trim is_space
    start_of_day_utc
edited_there = refl

-- A name that is blank after the trim is refused by the database.
blank_name :
    (update_account_fields context 1
      (record patch { text = λ f. elim f [ client_name_field ↦ some (some "  ") | _ ↦ none ] })
      (fresh_store (account_of base active))).0
    ≡ err validation_failed
unfolding update_account_fields edit_found write_edit update_data diffs_of is_in_use trim is_space
    start_of_day_utc
blank_name = refl

update_account_fields_lem_example :
    let s = fresh_store (account_of base active) in
    let t = (update_account_fields context 1 patch s).1 in
    ((a : Account) × (s.accounts.row 1 ≡ some a) × IsEdited patch a edited)
    × (t.accounts.row 1 ≡ some edited)
    × ((j : ℕ) → j ≢ 1 → t.accounts.row j ≡ s.accounts.row j)
    × (t.audit ≡ s.audit ++ map (update_field_audit context 1) changes)
update_account_fields_lem_example =
    update_account_fields_lem context 1 patch (fresh_store (account_of base active)) edited changes
      edited_there
