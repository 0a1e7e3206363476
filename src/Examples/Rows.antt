-- ===== src/Examples/Rows.antt =====
-- A request with one execution, at which the theorems on the stored rows are applied.
use formicary.Common.{pos, ◌≡◌, ◌⊎◌, refl, true, false, List, [], ◌∷◌, none, is_some}
use formicary.Types.RequestState.{RequestState, ◌is◌, ready, executing, completed, failed}
use formicary.Types.RequestState.Transitions.{◌⟶◌}
use formicary.Repository.Store.{Store, RequestRow, ExecutionRow, Driver, finalize, update_job_state}
use formicary.Repository.Store.Atomic.{Atomic, finalize-Atomic}
use formicary.Repository.Store.Checked.{update_job_state-⟶}
use formicary.Repository.Store.Terminal.{Statement, requeue, restart_of, finalize_of, delete_of}

abbrev pub driver : Driver
driver = record { first_fails = false; second_fails = false; now = 100; ulid = "U" }

abbrev pub row_in : RequestState → RequestRow
row_in s = record {
  id = "r1";
  job_state = s;
  job_execution_id = "e1";
  last_job_execution_id = "";
  job_definition_id = "d1";
  current_task = "";
  error_code = "";
  error_message = "";
  user_key = "";
  retried = 0;
  paused_count = 0;
  schedule_attempts = 0;
  scheduled_at = 10;
  updated_at = 10;
  hard_restart = false;
  cron_triggered = false;
}

abbrev pub execution_in : RequestState → ExecutionRow
execution_in s = record {
  job_state = s;
  current_task = "";
  error_code = "";
  error_message = "";
  ended_at = none;
  cpu_secs = pos 0;
  updated_at = 10;
  active = true;
}

abbrev pub both_in : RequestState → Store
both_in s = record { request = row_in s; executions = ("e1", execution_in s) ∷ [] }

finalize-Atomic_example :
    Atomic "e1" executing completed
      (both_in executing)
      (finalize driver "e1" executing completed "" "" 5 0 0 0 (both_in executing))
finalize-Atomic_example =
    finalize-Atomic driver "e1" executing completed "" "" 5 0 0 0 (both_in executing)

update_job_state-⟶_example :
    let o = update_job_state driver "r1" ready failed "no ants" "" 0 0 0 (both_in ready) in
    ((is_some o.0 ≡ true) × (o.1 ≡ both_in ready))
    ⊎ ((o.0 ≡ none)
        × ((both_in ready).request.id ≡ "r1")
        × ((ready is ready) ≡ true)
        × (ready ⟶ failed)
        × (o.1.request.job_state ≡ failed)
        × (o.1.executions ≡ (both_in ready).executions))
update_job_state-⟶_example =
    update_job_state-⟶ driver "r1" ready failed "no ants" "" 0 0 0 (both_in ready) refl

-- A restart, a requeue of orphans, a second finalization and the deletion of the ended execution.
abbrev steps : List (Driver × Statement)
steps =
    (driver, restart_of true "r1" true "")
    ∷ (driver, requeue 30)
    ∷ (driver, finalize_of "e1" completed failed "late" "" 1 0 0 0)
    ∷ (driver, delete_of "e1")
    ∷ []
