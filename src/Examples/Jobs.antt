-- ===== src/Examples/Jobs.antt =====
-- A job of two tasks, at which the theorems on definitions are applied.
use formicary.Common.{
  String, ◌≡◌, ◌↔◌, refl, true, false, List, [], ◌∷◌, none, some, Map, KeySet, get, put, All,
}
use formicary.Types.RequestState.{completed, failed, text}
use formicary.Types.TaskMethod.{is_valid}
use formicary.Definitions.Tasks.{TaskDefinition, ok, get_text, is_empty}
use formicary.Definitions.Jobs.{
  JobDefinition, validate_task_exit_codes, validate_reachable_tasks, first_task_loop, get_next_task,
  set_on_exit, exit_entry, reserved_target, targets_loop, targets_of,
}
use formicary.Definitions.Jobs.FirstTask.{IsFirst, first_task_loop_iff}
use formicary.Definitions.Jobs.Targets.{Resolved, validate_reachable_tasks-Resolved}
use formicary.Definitions.Jobs.Routing.{
  Among, validate_task_exit_codes-Indexes, get_next_task-optional,
}

abbrev task_of : String → String → TaskDefinition
task_of task_type on_completed = record {
  task_type = task_type;
  method = "SHELL";
  description = "";
  host_network = "";
  allow_failure = false;
  always_run = false;
  retry = 0;
  on_exit_code = [];
  on_completed = on_completed;
  on_failed = "";
  task_order = 0;
  tags = [];
  dependencies = [];
  fan_out = none;
}

abbrev pub build : TaskDefinition
build = task_of "build" "test"

abbrev pub build_linked : TaskDefinition
build_linked = record build { on_exit_code = ("COMPLETED", "test") ∷ [] }

abbrev lint : TaskDefinition
lint = record build { allow_failure = true }

abbrev pub test : TaskDefinition
test = task_of "test" ""

abbrev job_of : List TaskDefinition → Map TaskDefinition → JobDefinition
job_of tasks table = record {
  job_type = "ci";
  tasks = tasks;
  lookup_tasks = table;
  retry = 1;
  hard_reset_after_retries = 0;
  max_concurrency = 1;
  retention_days_for_failed = 0;
  retention_days_for_completed = 0;
  retention_days_for_cancelled = 0;
}

abbrev job : JobDefinition
job = job_of (build ∷ test ∷ []) []

abbrev pub job_linked : JobDefinition
job_linked = job_of (build_linked ∷ test ∷ []) (("build", build_linked) ∷ ("test", test) ∷ [])

abbrev seen_test : KeySet
seen_test = ("test", tt) ∷ []

job-links : validate_task_exit_codes job ≡ ok job_linked
unfolding validate_task_exit_codes is_valid text
job-links = refl

validate_task_exit_codes-Indexes_example :
    (get "test" job_linked.lookup_tasks ≡ some test)
    ↔ Among test job_linked.tasks × (test.task_type ≡ "test")
validate_task_exit_codes-Indexes_example =
    validate_task_exit_codes-Indexes job job_linked job-links "test" test

job_linked-reaches : validate_reachable_tasks job_linked ≡ ok seen_test
unfolding validate_reachable_tasks targets_loop targets_of reserved_target get put
job_linked-reaches = refl

validate_reachable_tasks-Resolved_example :
    All (Resolved job_linked.lookup_tasks seen_test) job_linked.tasks
validate_reachable_tasks-Resolved_example =
    validate_reachable_tasks-Resolved job_linked seen_test job_linked-reaches

first_task_loop_iff_example :
    (first_task_loop false seen_test job_linked.tasks none ≡ ok build_linked)
    ↔ IsFirst false seen_test job_linked.tasks build_linked
first_task_loop_iff_example = first_task_loop_iff false seen_test job_linked.tasks build_linked

lint-no_entry : is_empty (exit_entry lint failed) ≡ true
unfolding exit_entry get_text text get
lint-no_entry = refl

get_next_task-optional_example :
    get_next_task job_linked (set_on_exit lint) failed ""
    ≡ get_next_task job_linked (set_on_exit lint) completed ""
get_next_task-optional_example = get_next_task-optional job_linked lint "" refl refl lint-no_entry
