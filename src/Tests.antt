-- ===== src/Tests.antt =====
-- Example tables and interfaces, and the theorems applied to them.
mod Data
mod Sessions
mod Scheduling
mod Bookings
mod Assignments
mod Drivers
mod Platform
mod Staff
mod Workshop
mod Fleet
mod Money
mod Trips
mod Accounts
mod Guards
mod Alerts
