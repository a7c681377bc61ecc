-- ===== src/Database.antt =====
-- The database behind src/database/prisma.service.ts. Prisma and PostgreSQL are not the repository's
-- code: what the services rely on is the interface `Client`, with its documented behaviour as laws.
-- `Db` is the state of the tables, and a service method is an `Action` on it.
pub mod Client
pub mod Errors
pub mod Groups
pub mod GroupLists
pub mod Action
pub mod Lookup
pub mod Lists
pub mod Pairs
pub mod Aggregates
