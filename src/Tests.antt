-- ===== src/Tests.antt =====
-- Runs of the model at concrete inputs.
pub mod Back
pub mod Common
pub mod Database
pub mod Deletion
pub mod Delivery
pub mod Front
pub mod Inserted
pub mod Kept
pub mod Postgres
pub mod Programs
pub mod Redis
pub mod Requests
pub mod Server
pub mod Sessions
pub mod Steady
pub mod Table
pub mod Through
pub mod Stopping
pub mod Stored
pub mod Writers
