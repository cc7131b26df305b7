-- ===== src/Users.antt =====
-- src/modules/users: the users, and the requests of an administrator about them.
pub mod Service
pub mod Admins
pub mod Requests
