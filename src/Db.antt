-- ===== src/Db.antt =====
-- prisma/schema.prisma and the calls of Prisma.
mod Types
mod Tables
mod Integrity
mod Invariant
pub mod Keeps
pub use Types.*
unfoldable pub use Tables.*
pub use Integrity.*
unfoldable pub use Invariant.*
