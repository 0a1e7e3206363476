-- ===== src/Definitions.antt =====
-- queen/types: the definitions of jobs and tasks.
pub mod Tasks
pub mod Jobs
