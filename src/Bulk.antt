-- ===== src/Bulk.antt =====
-- src/modules/commercial-changes/bulk-import/bulk-import.service.ts: changes from a spreadsheet,
-- entered as if their whole workflow had been gone through.
pub mod Sheet
pub mod Validate
pub mod Apply
pub mod Import
