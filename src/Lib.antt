-- ===== src/Lib.antt =====
-- The backend of the SAM team of an internet provider: a verification of the life of a commercial
-- change (an upgrade, downgrade, rate revision or disconnection of a customer's contract), from its
-- commit over its approvals and its retention window to its effect on the account, and of the
-- webhooks by which the CRM takes part in it.
--
-- The parts of the program and the files that model them, with paths from the repository's root:
--
--   Db            prisma/schema.prisma: the enumerations and the columns that the services below
--                 read or write (Db/Types), the tables and the calls of Prisma (Db/Tables), and
--                 what the schema guarantees of a store (Db/Integrity).
--   World         the clock, fresh ids, the environment variables and the calls of the CRM client,
--                 the file store and the mail transport (src/services), as functions of a record.
--   Dates, Scope  startOfDayUTC, addDays and quickApprovalAccountScope.
--   Approvals     src/modules/commercial-changes/approvals.service.ts: the chain of stages
--                 (Approvals/Chain), decide and all it calls (Approvals/Decide), and the queue and
--                 tab counts (Approvals/Queue).
--   Reasons       src/modules/commercial-changes/disconnection-reasons.ts.
--   Notifications src/services/email/notifications.service.ts: the alerts that the services send.
--   Changes       src/modules/commercial-changes/commercial-changes.service.ts: commit in its steps
--                 (Changes/Commit), applyChangeToAccount and sweepDueTerminations (Changes/Apply),
--                 the retention window (Changes/Retention), the quick disconnections that SAM
--                 decides (Changes/Quick), the CRM order of a disconnection (Changes/Orders),
--                 refreshCrmStatus, setActivationDate and getFileUrl (Changes/Crm) and
--                 backfillDisconnection (Changes/Backfill).
--   Integrations  src/modules/integrations/integrations.service.ts: the three webhooks.
--   Meetings      src/modules/meetings/meetings.service.ts: the calls that write (Meetings/Log,
--                 Meetings/Mom, Meetings/Remove), and what the dates on an account mean
--                 (Meetings/Latest).
--   Feed          src/modules/notifications/notifications.service.ts: the feed of a user, its pages
--                 (Feed/Paging), and reading and dismissing (Feed/State).
--   Accounts      src/modules/accounts/accounts.service.ts: assign, list, getById and
--                 update (Accounts/Edit).
--   Accounts/Import  src/modules/accounts/import/import.service.ts: the rows of a sheet as the
--                 parser gives them (Import/Sheet), the owner of a row (Import/Directory), validate
--                 (Import/Validate, with src/lib/kitty.ts), the write of a row (Import/Write) and
--                 the loop (Import/Run). toLowerCase, as far as names and emails go, is a parameter,
--                 and so is the year of the clock.
--   Churn         src/modules/probable-churn/probable-churn.service.ts: the retention queue.
--   Sidebar       src/modules/sidebar/sidebar.service.ts: the counts on the badges.
--   Dashboard     src/modules/dashboard/dashboard.service.ts: the windows of the financial year
--                 (Dashboard/Fiscal) on the calendar (Dashboard/Calendar), and what was added to
--                 the new base in each (Dashboard/Added); whose accounts are summed, and the
--                 customers of the two bases (Dashboard/Base); the ARC waterfall
--                 (Dashboard/Waterfall).
--   Bulk          src/modules/commercial-changes/bulk-import/bulk-import.service.ts: the rows of a
--                 sheet as the parser gives them (Bulk/Sheet), validateRow (Bulk/Validate), applyRow
--                 (Bulk/Apply) and the import (Bulk/Import).
--   Users         src/modules/users: users.service.ts (Users/Service), the requests of
--                 users.controller.ts (Users/Requests) and the count of administrators
--                 (Users/Admins). The hash of a password is a parameter, and so is whether a
--                 feedback or a lead dispatch refers to a user. In an audit row the payloads before and
--                 after the update are one list, with the outer key in front of each field's.
--   System        the calls of all these services as one state machine, and what holds of every
--                 store that it reaches. Db/Keeps and the modules named Keeps carry its invariant.
--   Tests         examples, on which the operations run and the theorems are applied.
--
-- The services share the database. An operation is an action on a store: it takes the store and
-- gives a result, a value or the error thrown, with the store after it. What was written before an
-- error stays written, except inside a transaction, which rolls back. A table is its rows by id
-- with the list of its ids in the order of creation; an update of a row that is not there throws.
-- A function and its model have the same name, in the other spelling: commit is `commit`,
-- applyChangeToAccount is `apply_change_to_account`.
--
-- Ids are only compared and handed on, so they are numbers; an instant is its milliseconds since
-- 1970, and the columns of the last meeting and the last minutes keep its day; the other columns
-- that the schema has as dates keep the instant. An amount is in hundredths of a rupee. One call
-- reads the clock once. Strings are compared and trimmed as the source does, with lengths in UTF-16
-- code units. An audit row is known by its place in the trail. No loop needs fuel: the sweep goes
-- over the list of the rows that are due, and an import over the rows of its sheet.
--
-- Not modelled: HTTP and the parsing of requests, signatures and logins, what the lists print, the
-- texts of emails and of notifications, the email draft, the other figures of the dashboard, the
-- parsers of the imports, leads, feedback, the journey of an account and the concurrency of two
-- calls. A call of the CRM, of the mail transport or of the file store is an arbitrary function of
-- its input. The error texts are constructors, and a reason filed on an event does not repeat the
-- id that it is about, but for the owner of a circuit that is taken. The upsert of an activation fails
-- by a unique column only.
pub mod Prelude
pub mod Text
pub mod Db
pub mod Dates
pub mod Scope
pub mod Approvals
pub mod Reasons
pub mod World
pub mod Notifications
pub mod Changes
pub mod Integrations
pub mod Meetings
pub mod Feed
pub mod Accounts
pub mod Churn
pub mod Dashboard
pub mod Bulk
pub mod Users
pub mod Sidebar
pub mod System
pub mod Tests
