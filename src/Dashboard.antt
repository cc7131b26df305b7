-- ===== src/Dashboard.antt =====
-- The windows of src/modules/dashboard/dashboard.service.ts: the quarters of the Indian financial
-- year, which starts on 1 April, and what was added to the new base since a date. Whose accounts it
-- sums, and the customers that it counts.
pub mod Calendar
pub mod Fiscal
pub mod Added
pub mod Base
pub mod Waterfall
