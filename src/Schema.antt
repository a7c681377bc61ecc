-- ===== src/Schema.antt =====
-- The rows of prisma/schema.prisma, as the services read and write them. Ids and the texts that
-- the code only compares are numbers, 0 being the empty text; instants are milliseconds; amounts of
-- money and distances are whole numbers of the smallest unit. `createdAt` and `updatedAt`, which
-- the database maintains, stand only where a service reads them.
pub mod Enums
pub mod People
pub mod Fleet
pub mod Money
pub mod Notices
pub use Enums.*
pub use People.*
pub use Fleet.*
pub use Money.*
pub use Notices.*
