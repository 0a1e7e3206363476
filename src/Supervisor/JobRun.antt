-- ===== src/Supervisor/JobRun.antt =====
-- queen/fsm/job_execution_state.go, with what it calls of queen/manager/job_manager.go: how a job
-- leaves its run. The machine has the request and the execution in memory and the stored rows. The
-- ends' times, the ants' reservations, the statistics, the audits, the metrics and the events are
-- left out.
pub mod Saved
use formicary.Common.{
  String, ℕ, zero, suc, ◌+◌, ◌%◌, ◌==◌, Bool, true, false, not, ◌&&◌, ◌||◌, Option, none, some,
  is_some, str_eq, if◌then◌else◌, ltb,
}
use formicary.Types.RequestState.{
  RequestState, ◌is◌, ◌is_not◌, pending, completed, executing, failed, cancelled, paused, ready,
  manual_approval_required, is_terminal,
}
use formicary.Types.ErrorCode.{
  error_job_execute, error_job_cancelled, error_pause_job, error_manual_approval_required,
}
use formicary.Repository.Store.{
  Store, Driver, DbError, Outcome, finalize, update_job_state, update_request_and_execution_state,
}

pub record Execution : Type 0 where
  pub id : String
  pub job_state : RequestState
  pub error_code : String
  pub error_message : String

-- `JobExecutionStateMachine`: `retry_rule` is the number of retries of the matched error code when
-- its action is to retry the job.
pub record JobMachine : Type 0 where
  pub request_id : String
  pub request_state : RequestState
  pub request_error_code : String
  pub request_error_message : String
  pub retried : ℕ
  pub paused_count : ℕ
  pub cron_triggered : Bool
  pub hard_restart : Bool
  pub execution : Option Execution
  pub revert_state : RequestState
  pub retry : ℕ
  pub hard_reset_after_retries : ℕ
  pub retry_rule : Option ℕ
  pub store : Store

-- What an operation is given: the driver at the first and at the second transaction, the delays of
-- the definition, the costs, and what scheduling the next run of a cron job reports.
pub record World : Type 0 where
  pub first : Driver
  pub second : Driver
  pub retry_delay : ℕ
  pub pause_time : ℕ
  pub cost_secs : ℕ
  pub next_cron : Option DbError

pub data Problem : Type 0 where
  already_terminal not_executing no_execution : Problem
  stored : DbError → Problem

-- The error of an operation, and the machine that it leaves.
abbrev pub Ended : Type 0
Ended = Option Problem × JobMachine

abbrev pub stored_error : Option DbError → Option Problem
stored_error none = none
stored_error (some e) = some (stored e)

-- `Validate` on the state to go back to.
unfoldable pub revert_state_of : RequestState → RequestState
revert_state_of s = if s is_not paused && s is_not manual_approval_required then pending else s

-- `CanRetry`
unfoldable pub can_retry : JobMachine → Bool
can_retry m =
    ltb m.retried (m.retry + 1)
    || elim m.retry_rule [ none ↦ false | some retry ↦ ltb m.retried (retry + 1) ]

-- `DoesRequireFullRestart`
unfoldable pub does_require_full_restart : JobMachine → Bool
does_require_full_restart m =
    m.hard_restart
    || (ltb 0 m.hard_reset_after_retries
        && ltb 0 m.retried
        && (m.retried % (m.hard_reset_after_retries + 1)) == 0)

-- `FinalizeJobRequestAndExecutionState` of the manager; scheduling the next run can fail after the
-- rows were saved.
unfoldable pub finalize_states : World → Execution → RequestState → ℕ → JobMachine → Outcome
finalize_states w e old_state delay m =
    let (problem, saved) =
      finalize w.first e.id old_state e.job_state e.error_message e.error_code w.cost_secs delay
        m.retried m.paused_count m.store in
    (
      if not (is_some problem) && is_terminal e.job_state && m.cron_triggered
          then w.next_cron
          else problem,
      saved,
    )

-- `UpdateJobRequestState` of the manager; for a terminal state of a cron job the error is that of
-- scheduling the next run.
unfoldable pub update_request_state :
    World → RequestState → RequestState → String → String → ℕ → ℕ → JobMachine → Outcome
update_request_state w old_state new_state message code delay retried m =
    let (problem, saved) =
      update_job_state w.second m.request_id old_state new_state message code delay retried
        m.paused_count m.store in
    (
      if not (new_state is pending) && is_terminal new_state && m.cron_triggered
          then w.next_cron
          else problem,
      saved,
    )

-- `SetJobStatusToExecuting`; the definition's versions in the contexts are left out.
unfoldable pub set_job_status_to_executing : World → JobMachine → Ended
set_job_status_to_executing w m = elim m.execution [
  | none ↦ (some no_execution, m)
  | some e ↦
      let (problem, saved) =
        update_request_and_execution_state w.first e.id ready executing "" m.store in
      elim problem [
        | some p ↦ (some (stored p), record m { store = saved })
        | none ↦ (
          none,
          record m {
            store = saved;
            request_state = executing;
            execution = some (record e { job_state = executing });
          },
        )
      ]
]

-- `ExecutionCompleted`
unfoldable pub execution_completed : World → JobMachine → Ended
execution_completed w m = elim m.execution [
  | none ↦ (some no_execution, m)
  | some e ↦
      let ended = record e { job_state = completed; error_code = ""; error_message = "" } in
      let (problem, saved) = finalize_states w ended executing 0 m in
      (
        stored_error problem,
        record m { request_state = completed; execution = some ended; store = saved },
      )
]

-- `PauseJob`
unfoldable pub pause_job : World → JobMachine → Ended
pause_job w m = elim m.execution [
  | none ↦ (some no_execution, m)
  | some e ↦
      let ended = record e { job_state = paused; error_code = error_pause_job } in
      let counted = record m {
        request_state = paused;
        execution = some ended;
        paused_count = m.paused_count + 1;
        retried = m.retried + 1;
      } in
      let (problem, saved) = finalize_states w ended executing w.pause_time counted in
      if e.job_state is_not executing
      then (some not_executing, m)
      else (stored_error problem, record counted { store = saved })
]

-- `RequiresManualApproval`
unfoldable pub requires_manual_approval : World → JobMachine → Ended
requires_manual_approval w m = elim m.execution [
  | none ↦ (some no_execution, m)
  | some e ↦
      let ended = record e {
        job_state = manual_approval_required;
        error_code = error_manual_approval_required;
      } in
      let counted = record m {
        request_state = manual_approval_required;
        execution = some ended;
        retried = m.retried + 1;
      } in
      let (problem, saved) = finalize_states w ended executing w.pause_time counted in
      if e.job_state is_not executing
      then (some not_executing, m)
      else (stored_error problem, record counted { store = saved })
]

-- `RestartJobBackToPendingPaused`
unfoldable pub restart_job_back_to_pending_paused : World → String → JobMachine → Ended
restart_job_back_to_pending_paused w message m =
    let counted = record m { paused_count = m.paused_count + 1; retried = m.retried + 1 } in
    let (problem, saved) =
      update_request_state w executing m.revert_state message "" w.retry_delay counted.retried
        counted in
    (stored_error problem, record counted { request_state = m.revert_state; store = saved })

-- The update of the request alone, in `failed`.
unfoldable pub fail_request :
    World → RequestState → RequestState → String → String → JobMachine → Ended
fail_request w old_state new_state message code m =
    let (problem, saved) =
      update_request_state w old_state new_state message code w.retry_delay 0 m in
    (stored_error problem, record m { request_state = new_state; store = saved })

-- The end of `failed`: the request alone is updated when the rows could not be finalized.
abbrev pub after_finalize :
    World → RequestState → RequestState → String → String → JobMachine → Outcome → Ended
after_finalize w old_state new_state message code m (none, saved) =
    (none, record m { store = saved })
after_finalize w old_state new_state message code m (some _, saved) =
    fail_request w old_state new_state message code (record m { store = saved })

-- `failed`
unfoldable pub fail_job : World → RequestState → Bool → String → String → JobMachine → Ended
fail_job w old_state cancels message code m =
    let given = if str_eq code "" then error_job_execute else code in
    let new_state = if cancels then cancelled else failed in
    let kept = if cancels then error_job_cancelled else given in
    let noted = record m {
      request_state = failed;
      request_error_code = given;
      request_error_message = message;
    } in
    elim m.execution [
      | none ↦ fail_request w old_state new_state message kept noted
      | some e ↦
          let ended = record e {
            job_state = new_state;
            error_message = message;
            error_code = kept;
          } in
          let marked = record noted { execution = some ended } in
          after_finalize w old_state new_state message kept marked
            (finalize_states w ended old_state w.retry_delay marked)
    ]

-- `ScheduleFailed`, `LaunchFailed`, and `ExecutionCancelled` and `ExecutionFailed`.
unfoldable pub schedule_failed : World → String → String → JobMachine → Ended
schedule_failed w message code m = fail_job w m.revert_state false message code m

unfoldable pub launch_failed : World → String → JobMachine → Ended
launch_failed w message m = fail_job w ready false message "" m

unfoldable pub execution_cancelled : World → String → String → JobMachine → Ended
execution_cancelled w code message m =
    let given = if str_eq code "" then error_job_cancelled else code in
    elim m.execution [
      | none ↦ (some no_execution, m)
      | some e ↦
          let noted = record m {
            execution = some (record e { error_code = given; error_message = message });
          } in
          let ended = fail_job w executing true message given noted in
          if is_terminal e.job_state then (some already_terminal, m) else ended
    ]

unfoldable pub execution_failed : World → String → String → JobMachine → Ended
execution_failed w code message m =
    let given = if str_eq code "" then error_job_execute else code in
    elim m.execution [
      | none ↦ (some no_execution, m)
      | some e ↦
          let noted = record m {
            execution = some (record e { error_code = given; error_message = message });
          } in
          let ended = fail_job w executing false message given noted in
          if is_terminal e.job_state then (some already_terminal, m) else ended
    ]
