-- ===== src/Repository/Store/Terminal.antt =====
-- The statements as steps: which rows a sequence of them can change.
use formicary.Common.{Option, String, ℕ, All, ◌≡◌, Bool, true, false, some, get, not, List, [], ◌∷◌}
use formicary.Types.RequestState.{RequestState, ◌is_not◌, other}
use formicary.Repository.Store.{
  Store, ExecutionRow, Driver, in_states, terminal_states, update_job_state,
  update_running_timestamp, set_ready_to_execute, cancel, restart, trigger,
  increment_schedule_attempts, requeue_orphan_requests, reset_state_to_ready, finalize,
  update_request_and_execution_state,
}
use formicary.Repository.Store.Lifetimes.{create_execution, delete_execution}

-- A statement with its arguments, as the server issues it; the saves of a whole row that is already
-- there are left out.
pub data Statement : Type 0 where
  update_state_of : String → RequestState → RequestState → String → String → ℕ → ℕ → ℕ → Statement
  touch : String → Statement
  set_ready : String → String → String → Statement
  cancel_of : Bool → String → Statement
  restart_of : Bool → String → Bool → String → Statement
  trigger_of : Bool → String → Statement
  reschedule : String → ℕ → String → Statement
  requeue : ℕ → Statement
  reset_ready : String → Statement
  finalize_of : String → RequestState → RequestState → String → String → ℕ → ℕ → ℕ → ℕ → Statement
  update_both : String → RequestState → RequestState → String → Statement
  create_in : RequestState → Statement
  delete_of : String → Statement

-- The store after a statement, whatever it reports.
unfoldable pub run : Driver → Statement → Store → Store
run d (update_state_of id old_state new_state message code delay retried paused) s =
    (update_job_state d id old_state new_state message code delay retried paused s).1
run d (touch id) s = (update_running_timestamp d id s).1
run d (set_ready id execution last) s = (set_ready_to_execute d id execution last s).1
run d (cancel_of visible id) s = (cancel d visible id s).1
run d (restart_of visible id hard definition) s = (restart d visible id hard definition s).1
run d (trigger_of visible id) s = (trigger d visible id s).1
run d (reschedule id secs message) s = (increment_schedule_attempts d id secs message s).1
run d (requeue stale) s = (requeue_orphan_requests d stale s).0.1
run d (reset_ready id) s = (reset_state_to_ready d id s).1
run d (finalize_of id old_state new_state message code cpu delay retried paused) s =
    (finalize d id old_state new_state message code cpu delay retried paused s).1
run d (update_both id old_state new_state task) s =
    (update_request_and_execution_state d id old_state new_state task s).1
run d (create_in state) s = (create_execution d state s).1
run d (delete_of id) s = (delete_execution d id s).1

unfoldable pub run_all : List (Driver × Statement) → Store → Store
run_all [] s = s
run_all ((d, t) ∷ rest) s = run_all rest (run d t s)

abbrev is_cancel : Statement → Bool
is_cancel (cancel_of visible id) = true
is_cancel _ = false

abbrev is_unchecked : Statement → Bool
is_unchecked (update_state_of id old_state _ _ _ _ _ _) = not (old_state is_not other "")
is_unchecked _ = false

-- The execution with the id has ended, with this row.
abbrev pub Ended : String → ExecutionRow → Store → Type 0
Ended id e s = (get id s.executions ≡ some e) × (in_states terminal_states e.job_state ≡ true)

-- The row is as it was, but for whether it is active and when it was updated.
abbrev pub IsSame : ExecutionRow → ExecutionRow → Type 0
IsSame e f = f ≡ record e { active = f.active; updated_at = f.updated_at }

abbrev pub Keeps : ExecutionRow → Option ExecutionRow → Type 0
Keeps e found = (f : ExecutionRow) × (found ≡ some f) × IsSame e f

abbrev CancelsNone : List (Driver × Statement) → Type 0
CancelsNone steps = All (λ p. is_cancel p.1 ≡ false) steps
