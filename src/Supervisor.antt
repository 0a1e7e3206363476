-- ===== src/Supervisor.antt =====
-- queen/fsm and queen/supervisor: the run of one task, the moves of a job at its end, and the run of
-- a job over its tasks.
pub mod Launch
pub mod TaskRun
pub mod JobRun
pub mod JobLoop
