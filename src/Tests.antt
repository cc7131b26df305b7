-- ===== src/Tests.antt =====
-- Examples, on which the theorems are applied and the operations of src/modules run.
mod Data
mod Approvals
mod Changes
mod Commit
mod Integrations
mod Crm
mod System
mod Meetings
mod Feed
mod Dashboard
mod Bulk
mod Users
mod Imports
mod Edits
mod Sidebar
mod Waterfall
mod Accounts
