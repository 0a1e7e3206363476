-- ===== src/Supervisor/Launch/Creation.antt =====
-- queen/fsm/job_execution_state.go: how the scheduler makes the execution of a job, and gives it up
-- when the job cannot be launched.
use formicary.Common.{String, not, ◌&&◌, ◌||◌, Option, none, some, is_some, if◌then◌else◌}
use formicary.Types.RequestState.{
  RequestState, ◌is_not◌, pending, ready, paused, deleted, is_terminal,
}
use formicary.Repository.Store.{
  Store, DbError, Outcome, is_empty, reset_state_to_ready, set_ready_to_execute,
}
use formicary.Repository.Store.Lifetimes.{get_execution, create_execution, delete_execution}
use formicary.Resources.{release_job}
use formicary.Supervisor.JobRun.{
  Execution, Problem, stored_error, update_request_state, launch_failed,
}
use formicary.Supervisor.Launch.{Services, Launching, in_memory}

pub data CreateProblem : Type 0 where
  already_exists : CreateProblem
  invalid_state : RequestState → CreateProblem
  not_saved not_set_ready : DbError → CreateProblem

pub data EventProblem : Type 0 where
  not_sent : EventProblem
  launch_unsaved : Problem → EventProblem

-- The errors of `CreateJobExecution`, and the machine that it leaves.
abbrev pub Created : Type 0
Created = (Option CreateProblem × Option EventProblem) × Launching

-- `NewJobExecution`
unfoldable pub new_job_execution : String → Execution
new_job_execution id = record { id = id; job_state = ready; error_code = ""; error_message = "" }

-- The execution of an earlier attempt; an error looking it up counts as none.
unfoldable pub old_execution : Services → Launching → Option Execution
unfolding get_execution
old_execution v l =
    if is_empty l.job_execution_id || v.lookup_fails
    then none
    else elim (get_execution l.job_execution_id l.machine.store) [
      | none ↦ none
      | some e ↦ some (in_memory l.job_execution_id e)
    ]

-- How obtaining an execution ends: the machine has a new one also when saving it fails.
pub data Obtained : Type 0 where
  obtained : Execution → Store → Obtained
  not_obtained : DbError → Option Execution → Store → Obtained

abbrev pub obtained_from : Outcome → Execution → Option Execution → Obtained
obtained_from (none, saved) e left = obtained e saved
obtained_from (some p, saved) e left = not_obtained p left saved

abbrev pub save_new : Services → Store → Obtained
save_new v s =
    let e = new_job_execution v.create.ulid in
    obtained_from (create_execution v.create ready s) e (some e)

-- An execution that is ready in the store, new unless there is an old one that has not ended.
unfoldable pub obtain_execution : Services → Launching → Obtained
unfolding old_execution new_job_execution create_execution reset_state_to_ready
obtain_execution v l =
    let s = l.machine.store in
    elim (old_execution v l) [
      | none ↦ save_new v s
      | some e ↦
          if is_terminal e.job_state
          then save_new v s
          else obtained_from (reset_state_to_ready v.create e.id s) e none
    ]

-- `sendLaunchJobEvent`: an event that cannot be made fails the job.
unfoldable pub send_launch_job_event : Services → Launching → Option EventProblem × Launching
unfolding launch_failed
send_launch_job_event v l =
    let (problem, failing) = launch_failed v.world "failed to marshal launch event" l.machine in
    let unsaved : Option EventProblem = elim problem [
      | none ↦ none
      | some p ↦ some (launch_unsaved p)
    ] in
    if not v.marshals
    then (unsaved, record l { machine = failing })
    else if v.sends
    then (none, l)
    else (some not_sent, l)

-- The request is set to READY with the execution, and the launch event is sent.
unfoldable pub set_ready_and_send : Services → Execution → Launching → Created
unfolding send_launch_job_event set_ready_to_execute
set_ready_and_send v e l =
    let m = l.machine in
    let (problem, saved) =
      set_ready_to_execute v.set_ready m.request_id e.id l.last_job_execution_id m.store in
    elim problem [
      | some p ↦ ((some (not_set_ready p), none), record l { machine = record m { store = saved } })
      | none ↦
          let (event, sent) = send_launch_job_event v (record l {
            job_execution_id = e.id;
            machine = record m { request_state = ready; store = saved };
          }) in
          ((none, event), sent)
    ]

-- `CreateJobExecution`
unfoldable pub create_job_execution : Services → Launching → Created
unfolding obtain_execution set_ready_and_send
create_job_execution v l =
    let m = l.machine in
    if is_some m.execution
    then ((some already_exists, none), l)
    else if m.request_state is_not pending && m.request_state is_not paused
    then ((some (invalid_state m.request_state), none), l)
    else elim (obtain_execution v l) [
      | not_obtained p left saved ↦ (
        (some (not_saved p), none),
        record l { machine = record m { execution = left; store = saved } },
      )
      | obtained e saved ↦
          set_ready_and_send v e
            (record l { machine = record m { execution = some e; store = saved } })
    ]

-- `RevertRequestToPendingPaused`
unfoldable pub revert_request_to_pending_paused :
    Services → String → Launching → Option Problem × Launching
revert_request_to_pending_paused v message l =
    let m = l.machine in
    let (problem, saved) =
      update_request_state v.world ready m.revert_state message "" v.world.retry_delay 0 m in
    let reverted = record m { request_state = m.revert_state; store = saved } in
    let freed = record l { ants = release_job m.request_id l.ants; machine = reverted } in
    elim m.execution [
      | none ↦ (stored_error problem, freed)
      | some e ↦
          let (undeleted, left) = delete_execution v.delete e.id saved in
          (
            stored_error (elim undeleted [ none ↦ problem | some p ↦ some p ]),
            record freed {
              machine = record reverted {
                execution = some (record e { job_state = deleted });
                store = left;
              };
            },
          )
    ]
