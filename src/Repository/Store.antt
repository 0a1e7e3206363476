-- ===== src/Repository/Store.antt =====
-- queen/repository/job_request_repository_impl.go and job_execution_repository_impl.go: the
-- statements that change the state of a request or an execution. The store is the row of one
-- request and the rows of its executions. An UPDATE changes a row that meets its WHERE conditions,
-- and reports as RowsAffected whether one did; a transaction that fails leaves the store as it was.
pub mod Terminal
pub mod Atomic
pub mod Checked
pub mod Lifetimes
use formicary.Common.{
  ℤ, pos, minus, ℕ, ◌+◌, ◌-◌, ◌==◌, String, Bool, true, false, not, ◌&&◌, ◌||◌, str_eq, ltb, List,
  [], ◌∷◌, Option, none, some, if◌then◌else◌, Map, get, put, any,
}
use formicary.Types.RequestState.{
  RequestState, ◌is◌, ◌is_not◌, pending, ready, completed, failed, executing, started, cancelled,
  paused, other, is_terminal, can_finalize, can_transition_to, text,
}
use formicary.Types.ErrorCode.{error_job_cancelled}

-- The columns that these statements read or write; a NULL text is the empty text.
pub record RequestRow : Type 0 where
  pub id : String
  pub job_state : RequestState
  pub job_execution_id : String
  pub last_job_execution_id : String
  pub job_definition_id : String
  pub current_task : String
  pub error_code : String
  pub error_message : String
  pub user_key : String
  pub retried : ℕ
  pub paused_count : ℕ
  pub schedule_attempts : ℕ
  pub scheduled_at : ℕ
  pub updated_at : ℕ
  pub hard_restart : Bool
  pub cron_triggered : Bool

pub record ExecutionRow : Type 0 where
  pub job_state : RequestState
  pub current_task : String
  pub error_code : String
  pub error_message : String
  pub ended_at : Option ℕ
  pub cpu_secs : ℤ
  pub updated_at : ℕ
  pub active : Bool

pub record Store : Type 0 where
  pub request : RequestRow
  pub executions : Map ExecutionRow

pub data DbError : Type 0 where
  not_found validation conflict unsaved : DbError
  transition : RequestState → RequestState → DbError

-- Whether the driver fails at the first and at the second statement, the time, and a fresh ULID.
pub record Driver : Type 0 where
  pub first_fails : Bool
  pub second_fails : Bool
  pub now : ℕ
  pub ulid : String

abbrev pub is_empty : String → Bool
is_empty s = str_eq s ""

-- The result of an operation: its error, and the store that it leaves.
abbrev pub Outcome : Type 0
Outcome = Option DbError × Store

abbrev pub in_states : List RequestState → RequestState → Bool
in_states states s = any (λ t. s is t) states

abbrev pub terminal_states : List RequestState
terminal_states = completed ∷ failed ∷ cancelled ∷ []

abbrev not_restartable_states : List RequestState
not_restartable_states = pending ∷ ready ∷ completed ∷ []

abbrev running_states : List RequestState
running_states = executing ∷ started ∷ []

-- One UPDATE of the request row that must affect a row.
abbrev pub update_request : Store → Bool → Bool → RequestRow → Outcome
update_request s fails matches row =
    if fails
    then (some not_found, s)
    else if matches
    then (none, record s { request = row })
    else (some not_found, s)

-- `UpdateJobState`; `other ""` as the old state means that it is not checked.
unfoldable pub update_job_state :
    Driver → String → RequestState → RequestState → String → String → ℕ → ℕ → ℕ → Store → Outcome
unfolding can_transition_to is_terminal
update_job_state d id old_state new_state error_message error_code delay retried paused_count s =
    let r = s.request in
    let checked = old_state is_not other "" in
    let reports = not (is_empty error_message) || new_state is completed in
    let waits = new_state is pending || new_state is paused in
    if checked && not (can_transition_to old_state new_state)
    then (some (transition old_state new_state), s)
    else update_request s d.first_fails
        (str_eq r.id id && (not checked || r.job_state is old_state))
        (record r {
          job_state = new_state;
          updated_at = d.now;
          error_message = if reports then error_message else r.error_message;
          error_code = if reports then error_code else r.error_code;
          user_key = if is_terminal new_state then d.ulid else r.user_key;
          hard_restart = if new_state is executing then false else r.hard_restart;
          scheduled_at = if waits && ltb 0 delay then d.now + delay else r.scheduled_at;
          retried = if waits && ltb 0 retried then retried else r.retried;
          paused_count = if waits && ltb 0 paused_count then paused_count else r.paused_count;
        })

-- `UpdateRunningTimestamp`.
unfoldable pub update_running_timestamp : Driver → String → Store → Outcome
update_running_timestamp d id s =
    let r = s.request in
    update_request s d.first_fails (str_eq r.id id && in_states running_states r.job_state)
      (record r { updated_at = d.now })

-- `SetReadyToExecute`: the first statement counts the executions with the id.
unfoldable pub set_ready_to_execute : Driver → String → String → String → Store → Outcome
unfolding get
set_ready_to_execute d id job_execution_id last_job_execution_id s =
    let r = s.request in
    if is_empty id || is_empty job_execution_id
    then (some validation, s)
    else if d.first_fails
    then (some not_found, s)
    else elim (get job_execution_id s.executions) [
      | none ↦ (some not_found, s)
      | some _ ↦
          update_request s d.second_fails
            (str_eq r.id id && in_states (pending ∷ paused ∷ []) r.job_state)
            (record r {
              job_state = ready;
              job_execution_id = job_execution_id;
              last_job_execution_id = last_job_execution_id;
              updated_at = d.now;
            })
    ]

-- `Cancel`. `visible` says whether the query context may see the rows. A request that is not found
-- is no error.
unfoldable pub cancel : Driver → Bool → String → Store → Outcome
unfolding is_terminal get put
cancel d visible id s =
    let r = s.request in
    let q = record r {
      job_state = cancelled;
      error_code = error_job_cancelled;
      error_message = "cancelled by job request";
      updated_at = d.now;
    } in
    if not (visible && str_eq r.id id)
    then (none, s)
    else if is_terminal r.job_state
    then (some conflict, s)
    else if d.first_fails || in_states terminal_states r.job_state
    then (some not_found, s)
    else if is_empty r.job_execution_id
    then (none, record s { request = q })
    else if d.second_fails
    then (some not_found, s)
    else elim (get r.job_execution_id s.executions) [
      | none ↦ (none, record s { request = q })
      | some e ↦ (
        none,
        record s {
          request = q;
          executions =
              put r.job_execution_id
                (record e {
                  job_state = cancelled;
                  error_message = "job request cancelled";
                  error_code = error_job_cancelled;
                  updated_at = d.now;
                  cpu_secs = minus d.now r.scheduled_at;
                  ended_at = some d.now;
                })
                s.executions;
        },
      )
    ]

-- `Restart`.
unfoldable pub restart : Driver → Bool → String → Bool → String → Store → Outcome
restart d visible id hard new_job_definition_id s =
    let r = s.request in
    update_request s d.first_fails
      (visible && str_eq r.id id && not (in_states not_restartable_states r.job_state))
      (record r {
        job_state = pending;
        last_job_execution_id = r.job_execution_id;
        job_execution_id = "";
        error_code = "";
        error_message = "";
        schedule_attempts = 0;
        retried = r.retried + 1;
        hard_restart = hard;
        scheduled_at = d.now;
        updated_at = d.now;
        job_definition_id =
            if is_empty new_job_definition_id then r.job_definition_id else new_job_definition_id;
      })

-- `Trigger`, which does not look at RowsAffected.
unfoldable pub trigger : Driver → Bool → String → Store → Outcome
trigger d visible id s =
    let r = s.request in
    if d.first_fails
    then (some not_found, s)
    else if visible && str_eq r.id id && r.cron_triggered && r.job_state is pending
    then (
      none,
      record s {
        request = record r { scheduled_at = d.now; updated_at = d.now; user_key = d.ulid };
      },
    )
    else (none, s)

-- `IncrementScheduleAttempts`; the priority is left out.
unfoldable pub increment_schedule_attempts : Driver → String → ℕ → String → Store → Outcome
increment_schedule_attempts d id schedule_secs error_message s =
    let r = s.request in
    update_request s d.first_fails (str_eq r.id id) (record r {
      schedule_attempts = r.schedule_attempts + 1;
      scheduled_at = d.now + schedule_secs;
      error_message = error_message;
      updated_at = d.now;
    })

-- `RequeueOrphanRequests`, with the number of rows; `stale` is the time since the last update.
unfoldable pub requeue_orphan_requests : Driver → ℕ → Store → Outcome × ℕ
requeue_orphan_requests d stale s =
    let r = s.request in
    if d.first_fails
    then ((some not_found, s), 0)
    else if in_states (started ∷ ready ∷ executing ∷ []) r.job_state
        && ltb (r.updated_at + stale) d.now
    then (
      (
        none,
        record s {
          request = record r { job_state = pending; scheduled_at = d.now; updated_at = d.now };
        },
      ),
      1,
    )
    else ((none, s), 0)

-- An UPDATE of an execution row that is in the old state and not terminal.
abbrev update_execution :
    Store → Bool → String → RequestState → (ExecutionRow → ExecutionRow) → Outcome → Outcome
update_execution s fails id old_state f back = if fails then back else elim (get id s.executions) [
  | none ↦ back
  | some e ↦
      if e.job_state is old_state && not (in_states terminal_states e.job_state)
      then (none, record s { executions = put id (f e) s.executions })
      else back
]

-- `ResetStateToReady`.
unfoldable pub reset_state_to_ready : Driver → String → Store → Outcome
unfolding get put
reset_state_to_ready d id s =
    if d.first_fails then (some not_found, s) else elim (get id s.executions) [
      | none ↦ (some not_found, s)
      | some e ↦ if in_states terminal_states e.job_state then (some not_found, s) else (
        none,
        record s {
          executions = put id (record e { job_state = ready; updated_at = d.now }) s.executions;
        },
      )
    ]

-- `FinalizeJobRequestAndExecutionState`, one transaction over both rows.
unfoldable pub finalize :
    Driver
    → String
    → RequestState
    → RequestState
    → String
    → String
    → ℕ
    → ℕ
    → ℕ
    → ℕ
    → Store
    → Outcome
unfolding can_finalize is_terminal get put
finalize d id old_state new_state error_message error_code cpu_secs delay retried paused_count s =
    let r = s.request in
    let q = record r {
      job_state = new_state;
      error_message = error_message;
      error_code = error_code;
      retried = retried;
      updated_at = d.now;
      paused_count = if ltb 0 paused_count then paused_count else r.paused_count;
      user_key = if is_terminal new_state then d.ulid else r.user_key;
      scheduled_at = if new_state is paused && ltb 0 delay then d.now + delay else r.scheduled_at;
    } in
    if not (can_finalize new_state)
    then (some validation, s)
    else if d.first_fails || not (str_eq r.job_execution_id id && r.job_state is old_state)
    then (some not_found, s)
    else update_execution (record s { request = q }) d.second_fails id old_state
        (λ e. record e {
          job_state = new_state;
          error_message = error_message;
          error_code = error_code;
          ended_at = some d.now;
          cpu_secs = pos cpu_secs;
          updated_at = d.now;
        })
        (some not_found, s)

-- `UpdateJobRequestAndExecutionState`, one transaction over both rows.
unfoldable pub update_request_and_execution_state :
    Driver → String → RequestState → RequestState → String → Store → Outcome
unfolding is_terminal get put
update_request_and_execution_state d id old_state new_state current_task s =
    let r = s.request in
    let q = record r {
      job_state = new_state;
      updated_at = d.now;
      current_task = if is_empty current_task then r.current_task else current_task;
    } in
    if is_terminal new_state
    then (some validation, s)
    else if d.first_fails || not (str_eq r.job_execution_id id && r.job_state is old_state)
    then (some not_found, s)
    else update_execution (record s { request = q }) d.second_fails id old_state
        (λ e. record e {
          job_state = new_state;
          updated_at = d.now;
          current_task = if is_empty current_task then e.current_task else current_task;
        })
        (some not_found, s)
