-- ===== src/Schema.antt =====
-- The data model of prisma/schema.prisma: its enums, the rows of its tables, and the store that
-- the services read and write.
mod Enums
mod Rows
pub use Enums.*
pub use Rows.*
