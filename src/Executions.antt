-- ===== src/Executions.antt =====
-- queen/types/task_execution.go and job_execution.go: the executions of a job and of its tasks.
pub mod Contexts
pub mod Tasks
