-- ===== src/Approvals.antt =====
-- src/modules/commercial-changes/approvals.service.ts: the internal approval chain of commercial
-- changes on BASE accounts.
pub mod Chain
pub mod Decide
pub mod Queue
