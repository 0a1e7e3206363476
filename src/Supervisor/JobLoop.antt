-- ===== src/Supervisor/JobLoop.antt =====
-- queen/supervisor/job_supervisor.go: the run of a job over its tasks, with the constructor of a task's
-- state machine of queen/fsm/task_execution_state.go. How one task ends, the expansion of its
-- templates and the fresh identifiers are given; the job's context and its timer are left out. The
-- texts of the errors are shortened.
pub mod Retries
pub mod Order
pub mod Kept
use formicary.Common.{
  String, ℕ, zero, suc, ◌+◌, ◌==◌, Bool, true, false, not, ◌&&◌, ◌||◌, Option, none, some, is_some,
  str_eq, List, [], ◌∷◌, map, if◌then◌else◌, length,
}
use formicary.Types.RequestState.{
  RequestState, ◌is◌, completed, executing, failed, fatal, paused, manual_approval_required,
  restart_job, wait_for_approval, restart_task, is_terminal, is_completed, new_request_state, text,
}
use formicary.Types.RequestState
use formicary.Types.ErrorCode.{
  error_fatal, error_restart_job, error_pause_job, error_manual_approval_required,
  error_restart_task, error_invalid_next_task, error_job_cancelled,
}
use formicary.Definitions.Tasks.{TaskDefinition, Result, ok, err, get_text}
use formicary.Definitions.Jobs
use formicary.Definitions.Jobs.{
  JobDefinition, get_next_task, get_first_task, status_target, get_last_always_run_tasks,
}
use formicary.Executions.Tasks
use formicary.Executions.Tasks.{TaskExecution, JobExecution, delete_task, get_failed_task_error}
use formicary.Repository.Store.{update_request_and_execution_state}
use formicary.Supervisor.JobRun
use formicary.Supervisor.JobRun.{
  World, Execution, JobMachine, Problem, execution_completed, requires_manual_approval,
  restart_job_back_to_pending_paused, execution_cancelled, execution_failed, can_retry,
  set_job_status_to_executing, launch_failed,
}

-- The request in memory and its rows, with the tasks of the execution and the number of tasks that
-- were submitted.
pub record JobState : Type 0 where
  pub machine : JobMachine
  pub execution : JobExecution
  pub submitted : ℕ

-- `JobExecutionLifecycleEvent`
pub record LifecycleEvent : Type 0 where
  pub job_request_id : String
  pub job_state : RequestState

-- How the n-th submitted task ends: the error of `Execute`, and the execution it leaves.
pub record Runner : Type 0 where
  pub definition : JobDefinition
  pub expand : TaskDefinition → Option TaskDefinition
  pub fresh_id : ℕ → String
  pub delete_fails : ℕ → Bool
  pub save_fails : ℕ → Bool
  pub execute : ℕ → TaskDefinition → TaskExecution → Option String × TaskExecution
  pub events : ℕ → List LifecycleEvent
  pub world : World

abbrev pub is_over : JobMachine → Bool
is_over m = elim m.execution [ none ↦ false | some e ↦ is_terminal e.job_state ]

abbrev or_else : String → String → String
or_else s default = if str_eq s "" then default else s

-- The moves of `UpdateFromJobLifecycleEvent`, with the execution that has the reasons.
unfoldable pub follow_event : World → LifecycleEvent → Execution → JobMachine → JobMachine
follow_event w event e m =
    let code = or_else e.error_code error_job_cancelled in
    let message = or_else e.error_message "job cancelled by user" in
    if not (str_eq event.job_request_id m.request_id)
    then m
    else if is_terminal event.job_state
    then (execution_cancelled w code message m).1
    else if event.job_state is paused
    then (JobRun.pause_job w m).1
    else m

-- `UpdateFromJobLifecycleEvent`; an error of the operations is only reported.
unfoldable pub update_from_job_lifecycle_event : World → LifecycleEvent → JobMachine → JobMachine
update_from_job_lifecycle_event w event m = elim m.execution [
  | none ↦ m
  | some e ↦ follow_event w event e m
]

unfoldable pub update_all : World → List LifecycleEvent → JobMachine → JobMachine
update_all w [] m = m
update_all w (event ∷ events) m = update_all w events (update_from_job_lifecycle_event w event m)

-- The definition and the execution of a task's state machine, and the tasks of the job.
abbrev pub Created : Type 0
Created = Option (TaskDefinition × TaskExecution) × Option String × JobExecution

-- The execution is in the list, which shares it with the state machine.
unfoldable pub write_back : TaskExecution → List TaskExecution → List TaskExecution
write_back e [] = []
write_back e (t ∷ ts) =
    let rest = write_back e ts in if str_eq t.task_type e.task_type then e ∷ ts else t ∷ rest

-- The new execution of a task in `NewTaskExecutionStateMachine`.
unfoldable pub new_execution : Runner → ℕ → TaskDefinition → JobExecution → Created
new_execution c n definition je =
    let (added, kept) = Tasks.add_task definition je in
    let saved = record added { id = c.fresh_id n } in
    let lost = record added { task_state = failed; error_message = "failed to save task" } in
    if c.save_fails n
    then (none, some "failed to save task", record kept { tasks = write_back lost kept.tasks })
    else (some (definition, saved), none, record kept { tasks = write_back saved kept.tasks })

-- The execution with which the state machine goes on, in place of one that did not complete.
unfoldable pub next_execution :
    Runner → ℕ → TaskDefinition → JobExecution → Option (ℕ × TaskExecution) → Created
next_execution c n definition je none = new_execution c n definition je
next_execution c n definition je (some (_, e)) =
    let left = (delete_task e.id je).1 in
    if is_completed e.task_state
    then (some (definition, e), none, je)
    else if c.delete_fails n
    then (none, some "failed to delete old task", left)
    else new_execution c n definition left

abbrev pub expanded : Runner → Option TaskDefinition → Option TaskDefinition
expanded c none = none
expanded c (some t) = c.expand t

-- `NewTaskExecutionStateMachine`
unfoldable pub new_task_execution_state_machine : Runner → ℕ → String → JobExecution → Created
new_task_execution_state_machine c n task_type je =
    elim (expanded c (Jobs.get_task c.definition task_type)) [
      | none ↦ (none, some "failed to find task", je)
      | some definition ↦ next_execution c n definition je (Tasks.get_task "" task_type je.tasks)
    ]

-- `submitTask`: the error of an optional task is dropped. A completed execution is not run again.
unfoldable pub submit_task : Runner → ℕ → String → JobExecution → Created
submit_task c n task_type je =
    let (made, problem, left) = new_task_execution_state_machine c n task_type je in
    elim made [
      | none ↦ (none, problem, left)
      | some (definition, e) ↦
          let (failure, ended) = c.execute n definition e in
          let shown = if definition.allow_failure then none else failure in
          if is_completed e.task_state then (some (definition, e), none, left) else (
            some (definition, ended),
            shown,
            record left { tasks = write_back ended left.tasks },
          )
    ]

-- The error code and the error with which a chain of tasks ends.
abbrev pub Ending : Type 0
Ending = String × Option String

-- The entry of `OnExitCode` for the status, as an action of the supervisor.
unfoldable pub action_of : RequestState → Ending
action_of s =
    if s is restart_job
    then (error_restart_job, some "restarting job")
    else if s is RequestState.pause_job || s is paused
    then (error_pause_job, some "pausing job")
    else if s is fatal
    then (error_fatal, some "fatal error in task")
    else if s is wait_for_approval
    then (error_manual_approval_required, some "approval required")
    else if s is restart_task
    then (error_restart_task, some "restarting task")
    else (error_invalid_next_task, some "cannot find next task")

-- The end of the chain, when there is no next task.
unfoldable pub last_task : TaskDefinition → TaskExecution → Ending
last_task definition e =
    if e.task_state is failed && not definition.allow_failure
    then (e.error_code, some e.error_message)
    else if e.task_state is paused
    then (error_pause_job, some e.error_message)
    else if not (length definition.on_exit_code == 0)
    then action_of (new_request_state (get_text (text e.task_state) definition.on_exit_code))
    else if e.task_state is completed || definition.allow_failure
    then ("", none)
    else (e.error_code, some "last task failed")

-- What one step of the chain gives: the end of it, or the next task.
pub data Step : Type 0 where
  ends : Ending → Step
  goes_to : TaskDefinition → Step

abbrev code_of_created : Option (TaskDefinition × TaskExecution) → String
code_of_created none = ""
code_of_created (some (_, e)) = e.error_code

-- The end of the chain when a task awaits approval.
unfoldable pub await_approval :
    Runner → TaskDefinition → TaskExecution → Option Execution → JobState → Ending × JobState
await_approval c definition e none s =
    ((e.error_code, some "failed to set job to manual approval state"), s)
await_approval c definition e (some x) s =
    let (problem, saved) =
      update_request_and_execution_state c.world.first x.id executing manual_approval_required
        definition.task_type s.machine.store in
    (
      if is_some problem
          then (e.error_code, some "failed to set job to manual approval state")
          else (error_manual_approval_required, some "job paused for manual approval"),
      record s { machine = record s.machine { store = saved } },
    )

-- The part of `executeNextTask` after the task was run without an error.
unfoldable pub after_task : Runner → TaskDefinition → TaskExecution → JobState → Step × JobState
after_task c definition e s =
    let (ending, awaiting) = await_approval c definition e s.machine.execution s in
    if e.task_state is manual_approval_required
    then (ends ending, awaiting)
    else elim (get_next_task c.definition definition e.task_state e.exit_code).0 [
      | some next ↦ (goes_to next, s)
      | none ↦ (ends (last_task definition e), s)
    ]

-- One step of `executeNextTask`, after the events that arrived before it.
unfoldable pub task_step : Runner → String → JobState → Step × JobState
task_step c task_type s0 =
    let m = update_all c.world (c.events s0.submitted) s0.machine in
    let (made, problem, je) = submit_task c s0.submitted task_type s0.execution in
    let s = record s0 { machine = m; execution = je; submitted = s0.submitted + 1 } in
    if is_over m then (ends ("", none), record s0 { machine = m }) else elim problem [
      | some message ↦ (ends (code_of_created made, some message), s)
      | none ↦ elim made [
        | none ↦ (ends ("", none), s)
        | some (definition, e) ↦ after_task c definition e s
      ]
    ]

-- `executeNextTask`
unfoldable pub execute_next_task : Runner → ℕ → String → JobState → Option (Ending × JobState)
execute_next_task c zero task_type s = none
execute_next_task c (suc fuel) task_type s =
    let (step, next) = task_step c task_type s in
    elim step [
      | ends ending ↦ some (ending, next)
      | goes_to t ↦ execute_next_task c fuel t.task_type next
    ]

abbrev pub ends_job : String → Bool
ends_job code =
    str_eq code error_fatal
    || str_eq code error_restart_job
    || str_eq code error_pause_job
    || str_eq code error_manual_approval_required

-- A failed task overrides a chain that ended without an error.
unfoldable pub failed_task_ending : Ending → List TaskExecution → Ending
failed_task_ending (code, some message) ts = (code, some message)
failed_task_ending (code, none) ts = elim (get_failed_task_error ts) [
  | none ↦ ("", none)
  | some (_, failed_code, message) ↦ (failed_code, some message)
]

-- The task that a round of the loop starts with: the one to resume, else the one before, else the
-- first.
unfoldable pub start_task : Runner → String → Option TaskDefinition → Option TaskDefinition
start_task c start task =
    let given = if str_eq start "" then task else Jobs.get_task c.definition start in
    elim given [
      | some t ↦ some t
      | none ↦ elim (get_first_task c.definition) [ ok t ↦ some t | err _ ↦ none ]
    ]

abbrev pub retry_job : JobState → JobState
retry_job s = record s { machine = record s.machine { retried = s.machine.retried + 1 } }

-- The retry loop of `tryExecuteJob`, with the number of rounds. `chain` is the fuel of a round.
unfoldable pub job_loop :
    Runner → ℕ → ℕ → ℕ → String → Option TaskDefinition → JobState → Option (Ending × JobState × ℕ)
job_loop c chain zero rounds start task s = none
job_loop c chain (suc fuel) rounds start task s = elim (start_task c start task) [
  | none ↦ some (("", some "no first task"), s, rounds)
  | some t ↦ elim (execute_next_task c chain t.task_type s) [
    | none ↦ none
    | some (ending, next) ↦
        let (code, problem) = failed_task_ending ending next.execution.tasks in
        let stops =
          not (is_some problem) || ends_job code || next.machine.retried == next.machine.retry in
        elim (stops || not (can_retry (retry_job next).machine)) [
          | true ↦ some ((code, problem), if stops then next else retry_job next, rounds + 1)
          | false ↦ job_loop c chain fuel (rounds + 1) "" (some t) (retry_job next)
        ]
  ]
]

-- The tasks to run always that have not run, of `tryExecuteJob`.
unfoldable pub always_run : Runner → List TaskDefinition → JobState → JobState
always_run c [] s = s
always_run c (t ∷ ts) s =
    let je = (submit_task c s.submitted t.task_type s.execution).2 in
    always_run c ts (
      if is_some (Tasks.get_task "" t.task_type s.execution.tasks)
      then s
      else record s { execution = je; submitted = s.submitted + 1 })

-- What `tryExecuteJob` does after the loop: the error of the operation that ends the job, and the
-- state.
unfoldable pub end_job : Runner → Ending → JobState → Option Problem × JobState
end_job c (code, none) s =
    let (problem, m) = execution_completed c.world s.machine in (problem, record s { machine = m })
end_job c (code, some message) s0 =
    let s =
      if is_terminal s0.machine.request_state
      then always_run c (get_last_always_run_tasks c.definition) s0
      else s0 in
    let (problem, m) =
      if str_eq code error_restart_job
      then restart_job_back_to_pending_paused c.world message s.machine
      else if str_eq code error_pause_job
      then JobRun.pause_job c.world s.machine
      else if str_eq code error_manual_approval_required
      then (none, s.machine)
      else execution_failed c.world code message s.machine in
    (problem, record s { machine = m })

-- `tryExecuteJob`; `current_task` is the task to resume with.
unfoldable pub try_execute_job :
    Runner → ℕ → ℕ → String → JobState → Option (Option Problem × JobState)
try_execute_job c chain fuel current_task s =
    let (problem, m) = set_job_status_to_executing c.world s.machine in
    elim problem [
      | some _ ↦
          let (saved, failed_machine) =
            launch_failed c.world "failed to set state to EXECUTING" m in
          some (saved, record s { machine = failed_machine })
      | none ↦ elim (job_loop c chain fuel 0 current_task none (record s { machine = m })) [
        | none ↦ none
        | some (ending, next, _) ↦ some (end_job c ending next)
      ]
    ]
