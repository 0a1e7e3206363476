-- ===== src/Lib.antt =====
-- Formicary is a server that runs jobs: a job definition has tasks, which remote ant workers carry
-- out. A job request waits in the database until it is scheduled; an execution of it is made, its
-- tasks run one after another as the exit codes of the definition lead, and the request and the
-- execution are finalized together. This library models the core of the server.
--
-- Common: the shared names; lists and association lists over the native numbers, texts, integers.
-- A Go map with string keys is an association list, with `none` for a missing key.
--
-- Types: internal/types. Types/RequestState has the states of requests and executions with their
-- tests and CanTransitionTo (request_state.go); Transitions has what its transitions lead to and Texts
-- the texts of the states. Types/TaskMethod and Types/ErrorCode are task_method.go and error_code.go.
--
-- Definitions: queen/types/task_definition.go and job_definition.go. `validate` is Validate of a
-- task; `validate_task_exit_codes`, `validate_reachable_tasks` and `first_task_loop` are the checks of
-- a job by the same names, `get_next_task` is GetNextTask. Results are `ok` or a reason of refusal.
--
-- Repository: queen/repository/job_request_repository_impl.go and job_execution_repository_impl.go.
-- The store is one request row and its execution rows; each statement that changes a state is a
-- function from the store to an error and a store, and a driver says whether a statement fails. The
-- statements as steps are `Statement` and `run` of Repository/Store/Terminal.
--
-- Executions: queen/types/task_execution.go and job_execution.go, the tasks and the variables of an
-- execution in memory.
--
-- Supervisor: queen/fsm and queen/supervisor. Supervisor/TaskRun has the state of a task after a
-- response and the retry loop of tryExecuteTask, TaskRun/Execute the rest of the run with the block
-- that Execute defers. Supervisor/JobRun is how a job leaves its run, over the store, with the two
-- functions of queen/manager/job_manager.go in between.
--
-- Supervisor/Launch is how a job gets to its run: Validate, CreateJobExecution, PrepareLaunch and
-- RevertRequestToPendingPaused of the same state machine, over the store and the ants.
--
-- Scheduler: queen/scheduler/job_scheduler.go and queen/launcher/job_launcher.go. `schedule_job` is one
-- attempt of scheduleJob and `launch_job` is launchJob; Scheduler/Quota is CheckSubscriptionQuota of
-- queen/manager/job_manager.go. In Scheduler/Attempts one request is tried again and again.
--
-- Supervisor/JobLoop is queen/supervisor/job_supervisor.go over these: the chain of executeNextTask
-- with the constructor of a task's state machine, the retry loop of tryExecuteJob, the events that
-- arrive in between and the way the job ends. How a submitted task ends is given.
--
-- Approvals: queen/approval and the records of votes, policies and deadlines of queen/types. The rows
-- of one task that awaits approval are the state, and a record of faults says which statement fails.
--
-- Resources: queen/resource/resource_manager_state.go with Supports of internal/types/ant_registration.go
-- and MatchTagsArray of internal/utils/string_helper.go. The state maps are association lists, whose
-- order is the order of the iteration over a Go map; Release is what a release frees, Choice which ant
-- a reservation is for. Texts are compared over ASCII.
--
-- Resources/Jobs is queen/resource/resource_manager.go: the ants for the methods and the tags of a job,
-- and the reservations for all of its tasks.
--
-- Resources/Registry adds how ants register and leave, and the operations of the state as steps.
--
-- Acl: internal/acl/permission.go. Permissions with their text and their table; Acl/Decimal is what
-- strconv does with integers of 64 bits.
--
-- Gateway: queen/gateway/lease_registry.go and lease.go. The registry of the subscriptions of the web
-- clients, with its table of leases and the two tables of their keys; Leases/Reached follows one lease
-- through the changes.
--
-- Manager: queen/manager/job_manager.go. How requests are paused and cancelled, with the rows, the counts
-- and the events for the supervisors as the state; `cascade_cancel_to_children` cancels the children.
--
-- Stats: queen/stats. The registry of what the server counts of its jobs, its calls as events.
--
-- Utils: internal/utils/lru.go. Utils/Lru is the cache with its linked list and its map; Lru/Recency is
-- the plain list that it stands for. Utils/Rolling is rolling_average.go and rolling_min_max.go of
-- internal/math.
--
-- Fuel: the retry loop of a task has the calls up to the last response that says EXECUTING, one for
-- each attempt that the definition allows, and one more. The chain of a job's tasks has one for each
-- rank of an order that its routes go down, and the loop over the chain one for each retry left and
-- one more. The cascade has one for each id that a request can be found under, and two more.
--
-- Parameters: the responses of the ants, the driver of the database, the clock, fresh identifiers,
-- the match of an error code, whether a text mentions a deadline, and the scheduling of the next run
-- of a cron job. Numbers that the source keeps as int are natural where they
-- count, without a bound; the count of the executing jobs and the total of a rolling average wrap around
-- as in the source.
--
-- Not modelled: transport, storage, executors, web handlers and generated code, which do I/O; the
-- columns that no modelled statement reads; times on executions, audits, metrics and events. The
-- containers of ants, roles and cron schedules are not covered yet.
pub mod Common
pub mod Types
pub mod Definitions
pub mod Acl
pub mod Approvals
pub mod Examples
pub mod Executions
pub mod Gateway
pub mod Manager
pub mod Repository
pub mod Resources
pub mod Scheduler
pub mod Stats
pub mod Supervisor
pub mod Utils
