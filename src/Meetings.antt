-- ===== src/Meetings.antt =====
-- src/modules/meetings/meetings.service.ts: the calls that write. The lists and the preview of the
-- minutes are not modelled.
pub mod Table
pub mod Latest
pub mod Keeps
pub mod Log
pub mod Mom
pub mod Remove
