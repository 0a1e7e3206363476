-- ===== src/Repository.antt =====
-- queen/repository: the rows of a job request and of its executions.
pub mod Store
