-- ===== src/Examples.antt =====
-- The theorems at concrete inputs, and the data of these.
pub mod States
pub mod Jobs
pub mod Rows
pub mod Runs
pub mod Ants
pub mod Supervision
pub mod Votes
pub mod Caches
pub mod Access
pub mod Clients
pub mod Schedules
pub mod Counts
