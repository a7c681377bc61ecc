-- ===== src/Lib.antt =====
-- Node-vms, a fleet management platform for several tenants (a NestJS application over PostgreSQL
-- by Prisma, with Redis and JWT sessions). Paths are from the repository's root.
--
-- A request first passes the four guards of src/common/guards, in the order of src/app.module.ts:
-- the token, the role, the account with its tenant, and the tenant's modules. Its handler then calls
-- a method of a service, which reads and writes the tables and may throw one of Nest's exceptions.
-- Bookings ask src/scheduling/scheduling.service.ts whether a vehicle or a driver is free over a
-- period; trips move the status of vehicles and drivers; the applications of tenant administrators
-- decide who may log in, and both the guards and src/auth/auth.service.ts read those decisions.
--
-- - Prelude: the library's names that the files share, Boolean tests, lists, sums, and signed integers
--   (Prelude/Int) over the native numbers.
-- - Schema: the rows and enums of prisma/schema.prisma (Enums, People, Fleet, Money, Notices), as far
--   as the services below read or write them. A text, a cuid key, an instant and an amount are natural
--   numbers; the empty text is 0. A relation that a query only adds to its answer (`include`,
--   `select`) is left out.
-- - Database: what stands behind src/database/prisma.service.ts. Database/Client is the interface
--   to Prisma's queries, with their documented behaviour as laws; Database/Lists fills it with
--   lists. Database/Action is the shape of a service method: a function from the tables to a result
--   or an exception, and the tables afterwards. Writes stay when a later step throws, unless
--   `transaction` encloses them. Errors has the exceptions; Lookup and Pairs are the lemmas on
--   tables. Order, pagination and row locks are not modelled: the choice of `findFirst` is the
--   client's.
-- - Scheduling: src/scheduling/scheduling.service.ts, `check_vehicle_availability` and
--   `check_driver_availability` with their `where` clauses; Instants reads the clauses as statements
--   about instants, and Sound the answers.
-- - Bookings: src/bookings/bookings.service.ts, `create`, `find_all`, `find_one`, `confirm`, `cancel`
--   and `assign`. `create` is the composition of `create_checks` and `create_write`, which lets
--   Outcomes interleave two requests; Conflicts, Status and Reassign are about double booking,
--   History about sequences of requests.
-- - Assignments: src/assignments/assignments.service.ts, `create`, `find_all`, `find_one`, `update`
--   and `remove`; Exclusive and Updates are about overlapping assignments.
-- - EntityValidator: src/common/helpers/entity-validator.helper.ts, one action per assertion.
-- - Drivers: src/drivers/drivers.service.ts, `create`, `find_all`, `find_one`, `update` and `remove`, with
--   the unique columns and foreign keys in `create_row` and `update_driver_row`; Distinct and
--   Edits are about the unique columns, Outcomes about the answers to a new driver and what a
--   request cannot touch.
-- - Trips: src/trips/trips.service.ts, `start_trip`, `end_trip`, `update_trip`, `list_trips` and
--   `get_trip`, with the transactions `start_writes` and `end_writes`; Fleet, Start, End and
--   History relate trips to the status of vehicles, Outcomes says what is accepted.
-- - AdminApplications: src/admin-applications/admin-applications.service.ts, one action per method,
--   `decide` being the shared transaction; Transitions has the state machine that they follow.
-- - Auth: src/auth/auth.service.ts, `login`, `register_tenant`, `seed_super_admin`, `refresh`,
--   `logout` and `is_token_blacklisted`. Auth/Crypto has the interfaces to bcrypt, to the JWT library
--   and to Redis, which may not be reached; secrets, salts, new keys and the clock are arguments.
--   History takes in the requests of every service that writes the table of users.
-- - Guards: auth_guard, roles_guard, tenant_guard and feature_guard of src/common/guards, and
--   `admit`, their composition. A route is its `@Public`, `@Roles` and `@Feature` metadata.
-- - Features: src/feature-access/feature-access.service.ts; `switch` is the body that `enable` and
--   `disable` share, and Switching relates it to the feature guard.
-- - Tenants: src/tenants/tenants.service.ts; Removal relates `remove` to the guards.
-- - Profile: src/profile/profile.service.ts; Password is about `change_password`.
-- - Vehicles: src/vehicles/vehicles.service.ts, `create`, `find_all`, `find_one`, `update` and `remove`;
--   `create_sourced` is the transaction that adds a vehicle with its contract. Plates is about the
--   unique column, Sources about contracts, Status about what Trips keeps.
-- - Contracts: src/contracts/contracts.service.ts, one action per method; Sound and Edits are about the
--   period and the vehicle of a contract, History about sequences of requests, those of Vehicles
--   included.
-- - Branches: src/branches/branches.service.ts, one action per method; `unlinked` is what `remove`
--   writes to the tables that point to a branch. Names and Removal.
-- - Users: src/users/users.service.ts, with its DTOs and rows in Requests; `update_checks` and
--   `update_writes` are the two halves of `update`. BranchIds is about the cleaned and counted list of
--   branches, Writes and Changes say what the requests write to the table of users, Privileged and
--   Self which accounts they cannot touch.
-- - Workshop: src/workshop/workshop.service.ts; `charge` is the transaction of `add_item`. Bills and
--   Outcomes relate a job to its items.
-- - Maintenance: src/maintenance/maintenance.service.ts; Itemised relates a log to its items.
-- - Accounting: src/accounting/accounting.service.ts; Ledger compares `get_profit_loss` with a list of
--   signed entries, Periods the answers for adjacent periods. Sums in the database are the interface
--   Database/Aggregates, which Database/GroupLists fills with lists.
-- - Reports: src/reports/reports.service.ts, one action per report; Database/Groups reads the rows of
--   `groupBy`. Mileage is about the tables that two reports summarise, Usage about Accounting.
-- - Alerts: src/alerts/alerts.service.ts, one action per method, and `runDailyAlertsScan` of
--   src/jobs/jobs.service.ts. A Notice is what a message is written from. Due says what a tenant is to
--   be told of, Scan and Daily relate it to the alerts that one scan and the daily job add.
-- - Tests: example tables, concrete instances of the interfaces, and runs of the theorems on them.
--
-- No recursion here needs fuel: lists are walked structurally, also in the loop over the tenants.
-- Days all have one length, and the scans of one daily job read the same clock. Amounts are exact
-- natural numbers, where the code has doubles.
--
-- Not modelled: the services of documents, subscriptions and tracking under src, those that enter
-- income, expenses and fuel, and offline detection of the scheduled jobs; controllers, modules and
-- gateways, which declare routes or only do input and output; interceptors and the exception filter;
-- and class-validator's checks of a request, so that the theorems hold of every request.
-- `decodePayload` of the auth service only calls the JWT library.
mod Prelude
pub mod Schema
pub mod Database
pub mod Scheduling
pub mod Bookings
pub mod Accounting
pub mod Assignments
pub mod Branches
pub mod Contracts
pub mod Trips
pub mod Users
pub mod Vehicles
pub mod Workshop
pub mod Maintenance
pub mod AdminApplications
pub mod Alerts
pub mod Auth
pub mod Guards
pub mod EntityValidator
pub mod Drivers
pub mod Features
pub mod Profile
pub mod Reports
pub mod Tenants
pub mod Tests
