-- ===== src/Examples/Schedules.antt =====
-- A request of two tasks with two idle ants, at which the theorems on its schedule are applied.
use formicary.Common.{
  ◌≡◌, refl, arith, true, false, List, [], ◌∷◌, none, Map, length, get, pos, put, del, str_eq,
  Bool-cases, inl, inr,
}
use formicary.Types.RequestState.{ready, pending}
use formicary.Repository.Store.{ExecutionRow, Store, set_ready_to_execute}
use formicary.Resources.Jobs.Rollback.{IsTracked, LeavesFree, reserve_job_resources-LeavesFree}
use formicary.Supervisor.Launch.Creation.{
  create_job_execution, obtain_execution, old_execution, set_ready_and_send, send_launch_job_event,
}
use formicary.Examples.Rows.{execution_in, driver, row_in}
use formicary.Definitions.Tasks.{TaskDefinition}
use formicary.Repository.Store.Lifetimes.{get_execution, create_execution}
use formicary.Resources.{
  State, Reservation, reserve, candidates, supports, match_tags_array, chosen, least, missing_tag,
  add_allocations_by_ant, add_ants_by_request, calculate_load, has_each_tag, release_job,
  release_ants,
}
use formicary.Resources.Jobs.{
  Reserved, crashes, all_reserved, not_reserved, reserve_job_resources, reserve_tasks, do_reserve,
  no_live_ant, has_ants_for_job_tags, check_methods, check_tags, lives_for_method,
}
use formicary.Supervisor.Launch.{Services, Looked, Launching}
use formicary.Supervisor.Launch.Started.{Starts, create_job_execution-Starts}
use formicary.Scheduler.{
  Settings, Attempt, Candidate, supervised, launch_job, short_of, check_ant_resources, owner_limit,
}
use formicary.Scheduler.Attempts.{FindsNone, schedule_all, reread}
use formicary.Scheduler.Attempts.Limit.{Tried, schedule_all-Tried}
use formicary.Scheduler.Unreserved.{store_of, ReservesNone, schedule_all-uncounted}
use formicary.Scheduler.Launches.{Runs, launch_job-supervised}
use formicary.Examples.Jobs.{build, test}
use formicary.Examples.Runs.{world, job_machine}
use formicary.Examples.Ants.{ant_of, clock}

abbrev idle_ants : State
idle_ants = record {
  registrations = ("a1", ant_of "a1") ∷ ("a2", ant_of "a2") ∷ [];
  ants_by_tag = [];
  ants_by_method = ("SHELL", (("a1", tt) ∷ ("a2", tt) ∷ [])) ∷ [];
  ants_by_request = [];
  allocations_by_ant = ("a1", []) ∷ ("a2", []) ∷ [];
}

abbrev image : TaskDefinition
image = record build { task_type = "image"; method = "DOCKER" }

abbrev pending_store : Store
pending_store = record {
  request = record (row_in pending) { job_execution_id = "" };
  executions = [];
}

abbrev waiting_job : Launching
waiting_job = record {
  machine = record job_machine {
    request_id = "r1";
    request_state = pending;
    execution = none;
    store = pending_store;
  };
  job_execution_id = "";
  last_job_execution_id = "";
  reservations = [];
  ants = idle_ants;
}

abbrev services : Services
services = record {
  lookup_fails = false;
  create = record driver { ulid = "e2" };
  set_ready = driver;
  delete = driver;
  marshals = true;
  sends = true;
  world = world;
}

abbrev looked_with : List TaskDefinition → Looked
looked_with tasks = record {
  invalid = none;
  tasks = tasks;
  required_params = [];
  configured = [];
  given = [];
}

idle_ants-IsTracked : IsTracked "r1" idle_ants
unfolding get
idle_ants-IsTracked ant h = elim (Bool-cases (str_eq "a1" ant)) [
  | inl first ↦ absurd (cc (rw (get, first) at h))
  | inr other ↦ elim (Bool-cases (str_eq "a2" ant)) [
    | inl second ↦ absurd (cc (rw (get, other, second) at h))
    | inr none_else ↦ absurd (cc (rw (get, other, none_else) at h))
  ]
]

-- The job of a task that has an ant and a task that has none.
reserve_job_resources-LeavesFree_example :
    LeavesFree "r1" (reserve_job_resources clock "r1" (build ∷ image ∷ []) idle_ants)
reserve_job_resources-LeavesFree_example =
    reserve_job_resources-LeavesFree "r1" clock (build ∷ image ∷ []) idle_ants idle_ants-IsTracked

create_job_execution-Starts_example :
    Starts pending_store.request (create_job_execution services waiting_job)
create_job_execution-Starts_example = create_job_execution-Starts services waiting_job refl

-- What reserving the ants of both tasks gives.
abbrev parts : Reserved → Map Reservation × State
parts (all_reserved got ants) = (got, ants)
parts (not_reserved got ants) = (got, ants)
parts crashes = ([], idle_ants)

abbrev both_reserved : Map Reservation × State
both_reserved = parts (reserve_job_resources clock "r1" (build ∷ test ∷ []) idle_ants)

abbrev made_ready : Launching
made_ready =
    (create_job_execution services
      (record waiting_job { ants = both_reserved.1; reservations = both_reserved.0 })).1

reserves_both :
    reserve_job_resources clock "r1" (build ∷ test ∷ []) idle_ants
    ≡ all_reserved both_reserved.0 both_reserved.1
unfolding reserve_job_resources reserve_tasks do_reserve reserve candidates supports
    match_tags_array chosen least missing_tag add_allocations_by_ant add_ants_by_request
    calculate_load get put has_each_tag
reserves_both = refl

makes_ready :
    create_job_execution services
      (record waiting_job { ants = both_reserved.1; reservations = both_reserved.0 })
    ≡ ((none, none), made_ready)
unfolding create_job_execution obtain_execution old_execution create_execution set_ready_and_send
    set_ready_to_execute send_launch_job_event get put get_execution
makes_ready = refl

launch_job-supervised_example :
    (run : Launching) × (launch_job services
        (looked_with (build ∷ test ∷ []))
        made_ready.machine.store.request.job_execution_id
        (reread made_ready)
      ≡ supervised run)
    × Runs both_reserved.0 made_ready.machine.store.request.job_execution_id run
launch_job-supervised_example =
    launch_job-supervised services services (looked_with (build ∷ test ∷ [])) clock waiting_job
      made_ready both_reserved.0 both_reserved.1 refl refl (refl, (refl, tt)) reserves_both refl
      refl makes_ready

abbrev settings : Settings
settings = record {
  max_schedule_attempts = 2;
  not_ready_max_wait = 30;
  quotas_enabled = false;
  job_max_concurrency = 1;
  owned = false;
  methods = "SHELL" ∷ "DOCKER" ∷ [];
  tags = [];
}

abbrev attempt : Attempt
attempt = record {
  settings = settings;
  looked = looked_with (build ∷ image ∷ []);
  filtered = false;
  user = none;
  cpu_usage = none;
  disk_usage = none;
  executing = pos 0;
  executing_user = 0;
  executing_org = 0;
  clock = clock;
  increment = driver;
  services = services;
}

abbrev candidate : Candidate
candidate = record {
  launching = waiting_job;
  schedule_attempts = 0;
  job_priority = 7;
  scheduled_at = 10;
}

attempt-FindsNone : FindsNone 2 (idle_ants, attempt)
unfolding check_ant_resources has_ants_for_job_tags check_methods lives_for_method owner_limit
    supports get match_tags_array
attempt-FindsNone =
    (refl, refl, refl, refl, refl, refl, refl, (short_of (no_live_ant "DOCKER"), refl))

abbrev three_rounds : List (State × Attempt)
three_rounds = (idle_ants, attempt) ∷ (idle_ants, attempt) ∷ (idle_ants, attempt) ∷ []

schedule_all-Tried_example :
    Tried 2 (length three_rounds) candidate (schedule_all three_rounds candidate)
schedule_all-Tried_example =
    schedule_all-Tried 2 three_rounds candidate refl (omega arith)
      (attempt-FindsNone, (attempt-FindsNone, (attempt-FindsNone, tt)))

-- The definition does not name the method of its second task.
abbrev unnamed : Attempt
unnamed = record attempt { settings = record settings { methods = "SHELL" ∷ [] } }

unnamed-ReservesNone : ReservesNone (store_of candidate) (idle_ants, unnamed)
unfolding check_ant_resources has_ants_for_job_tags check_methods check_tags lives_for_method
    owner_limit supports get match_tags_array reserve_job_resources reserve_tasks do_reserve reserve
    candidates chosen least missing_tag add_allocations_by_ant add_ants_by_request calculate_load
    put release_job release_ants del has_each_tag
unnamed-ReservesNone = (refl, refl, refl, refl, refl, omega arith, (_, _, refl))

schedule_all-uncounted_example :
    store_of (schedule_all ((idle_ants, unnamed) ∷ (idle_ants, unnamed) ∷ []) candidate)
    ≡ store_of candidate
schedule_all-uncounted_example =
    schedule_all-uncounted ((idle_ants, unnamed) ∷ (idle_ants, unnamed) ∷ []) candidate
      (unnamed-ReservesNone, (unnamed-ReservesNone, tt))

-- The row of the new execution.
abbrev made_execution : ExecutionRow
made_execution = record (execution_in ready) { updated_at = 100 }
