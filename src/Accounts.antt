-- ===== src/Accounts.antt =====
-- src/modules/accounts/accounts.service.ts: `assign`, `list` and `getById`. Import is
-- src/modules/accounts/import. The journey of a customer is not
-- modelled.
pub mod Assign
pub mod Edit
pub mod View
pub mod Import
