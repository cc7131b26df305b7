-- ===== src/Accounts/Import.antt =====
-- The import of accounts from a sheet (src/modules/accounts/import/import.service.ts): its rows
-- (Import/Sheet), the users that own accounts (Import/Directory), the check of a row
-- (Import/Validate) and the loop over the rows (Import/Run).
pub mod Sheet
pub mod Directory
pub mod Validate
pub mod Write
pub mod Run
