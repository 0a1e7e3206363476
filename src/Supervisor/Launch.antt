-- ===== src/Supervisor/Launch.antt =====
-- queen/fsm/job_execution_state.go: how a job gets to its run. The machine is that of
-- Supervisor/JobRun, with the ids of the request in memory, the reservations and the ants. What
-- `Validate` looks up in other tables is given.
pub mod Creation
pub mod Started
pub mod Reverted
use formicary.Common.{
  String, ℕ, Bool, true, false, not, ◌&&◌, ◌||◌, ◌==◌, Option, none, some, is_some, List, [], ◌∷◌,
  Map, get, length, any, str_eq, if◌then◌else◌,
}
use formicary.Types.RequestState.{
  RequestState, ◌is◌, ◌is_not◌, pending, ready, paused, deleted, is_terminal,
}
use formicary.Definitions.Tasks.{TaskDefinition}
use formicary.Repository.Store.{
  Store, ExecutionRow, Driver, DbError, Outcome, not_found, is_empty, reset_state_to_ready,
  set_ready_to_execute,
}
use formicary.Repository.Store.Lifetimes.{get_execution, create_execution, delete_execution}
use formicary.Resources.{State, Reservation, release_job}
use formicary.Supervisor.JobRun.{
  World, Execution, JobMachine, Problem, Ended, stored, stored_error, revert_state_of,
  update_request_state, launch_failed,
}

-- What the machine is given: whether looking up the old execution fails, the driver at each
-- transaction, and whether the launch event is made and sent.
pub record Services : Type 0 where
  pub lookup_fails : Bool
  pub create : Driver
  pub set_ready : Driver
  pub delete : Driver
  pub marshals : Bool
  pub sends : Bool
  pub world : World

-- What `Validate` looks up: the error of a missing user, parameters or definition, or of an invalid
-- definition, the tasks, the required parameters, and the names of the merged configuration and of
-- the request's parameters.
pub record Looked : Type 0 where
  pub invalid : Option String
  pub tasks : List TaskDefinition
  pub required_params : List String
  pub configured : List String
  pub given : List String

pub record Launching : Type 0 where
  pub machine : JobMachine
  pub job_execution_id : String
  pub last_job_execution_id : String
  pub reservations : Map Reservation
  pub ants : State

abbrev named : List String → String → Bool
named names n = any (λ m. str_eq m n) names

-- The required parameters that no configuration and no parameter of the request has.
unfoldable pub missing_params : List String → List String → List String → List String
missing_params configured given [] = []
missing_params configured given (n ∷ ns) =
    let rest = missing_params configured given ns in
    if named configured n || named given n then rest else n ∷ rest

pub data Refused : Type 0 where
  looked_up : String → Refused
  params_missing : List String → Refused
  no_execution_id : Refused
  reservations_mismatch : ℕ → ℕ → Refused
  no_reservation : String → Refused
  unknown_execution : Refused
  mismatched_execution : Refused
  expected_ready : RequestState → RequestState → Refused

abbrev missing_error : List String → Option Refused
missing_error [] = none
missing_error (n ∷ ns) = some (params_missing (n ∷ ns))

-- `Validate`, which notes the state to go back to.
unfoldable pub validate_request : Looked → Launching → Option Refused × Launching
unfolding missing_params revert_state_of
validate_request k l =
    let m = l.machine in
    let noted = record l {
      machine = record m { revert_state = revert_state_of m.request_state };
    } in
    elim k.invalid [
      | some message ↦ (some (looked_up message), noted)
      | none ↦ (missing_error (missing_params k.configured k.given k.required_params), noted)
    ]

-- The first task that has no reservation.
unfoldable pub unreserved : Map Reservation → List TaskDefinition → Option String
unfolding get
unreserved got [] = none
unreserved got (t ∷ ts) =
    let rest = unreserved got ts in
    elim (get t.task_type got) [ none ↦ some t.task_type | some _ ↦ rest ]

-- An execution row in memory.
abbrev pub in_memory : String → ExecutionRow → Execution
in_memory id e = record {
  id = id;
  job_state = e.job_state;
  error_code = e.error_code;
  error_message = e.error_message;
}

-- The end of `PrepareLaunch`, with the execution.
unfoldable pub check_execution : String → ExecutionRow → Launching → Option Refused × Launching
check_execution id e l =
    let m = l.machine in
    let loaded = record l { machine = record m { execution = some (in_memory id e) } } in
    if not (str_eq id l.job_execution_id)
    then (some mismatched_execution, loaded)
    else if m.request_state is_not ready || e.job_state is_not ready
    then (some (expected_ready m.request_state e.job_state), loaded)
    else (none, loaded)

-- `PrepareLaunch`
unfoldable pub prepare_launch : Bool → Looked → String → Launching → Option Refused × Launching
unfolding validate_request unreserved check_execution get_execution
prepare_launch lookup_fails k id l =
    let (refused, noted) = validate_request k l in
    elim refused [
      | some why ↦ (some why, noted)
      | none ↦
          if is_empty id
          then (some no_execution_id, noted)
          else if not (length l.reservations == length k.tasks)
          then (some (reservations_mismatch (length l.reservations) (length k.tasks)), noted)
          else elim (unreserved l.reservations k.tasks) [
            | some task ↦ (some (no_reservation task), noted)
            | none ↦
                if lookup_fails
                then (some unknown_execution, noted)
                else elim (get_execution id l.machine.store) [
                  | none ↦ (some unknown_execution, noted)
                  | some e ↦ check_execution id e noted
                ]
          ]
    ]
