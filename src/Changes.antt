-- ===== src/Changes.antt =====
-- src/modules/commercial-changes/commercial-changes.service.ts: the life of a commercial change.
pub mod Apply
pub mod Orders
pub mod Retention
pub mod Quick
pub mod Commit
pub mod Backfill
pub mod Crm
