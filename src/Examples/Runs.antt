-- ===== src/Examples/Runs.antt =====
-- The runs of a task and of a job, at which the theorems on executions are applied.
use formicary.Common.{
  String, ℕ, ◌≡◌, ◌≤◌, ◌+◌, ◌-◌, ◌⊎◌, ◌↔◌, refl, true, false, List, [], ◌∷◌, none, some, get,
  str_eq, if◌then◌else◌, some-injective, All, subst,
}
use formicary.Types.RequestState.{
  RequestState, ◌is◌, executing, completed, failed, cancelled, pending, can_finalize, is_failed,
}
use formicary.Executions.Contexts.{
  Context, text_context, entry_after, Contexts, IsValid, add_context, add_context-IsValid,
}
use formicary.Executions.Tasks.{
  TaskExecution, JobExecution, get_task, index_where, get_last_executed_task, get_failed_task_error,
}
use formicary.Executions.Tasks.Latest.{
  IsLatest, get_last_executed_task-IsLatest, get_failed_task_error_iff,
}
use formicary.Repository.Store.{transition}
use formicary.Repository.Store.Atomic.{MovedBoth}
use formicary.Supervisor.TaskRun.{TaskResponse, Machine, Calls, retry_loop}
use formicary.Supervisor.TaskRun.Retries.{SettlesAt, left, retry_loop-calls}
use formicary.Supervisor.TaskRun.Execute.{Run, execute, execute-can_finalize}
use formicary.Supervisor.JobRun.{
  World, Execution, JobMachine, stored, fail_job, restart_job_back_to_pending_paused,
}
use formicary.Supervisor.JobRun.Saved.{
  restart_job_back_to_pending_paused-pending, fail_job-cancelled,
}
use formicary.Examples.Jobs.{build}
use formicary.Examples.Rows.{driver, both_in}

abbrev two_values : Contexts
two_values = record {
  entries = ("a", text_context "1") ∷ ("b", text_context "2") ∷ [];
  lookup = ("a", text_context "1") ∷ ("b", text_context "2") ∷ [];
}

two_values-IsValid : IsValid two_values
unfolding get
two_values-IsValid = ((refl, (refl, tt)), λ n. refl)

abbrev number : Context
number = record { kind = "int64"; value = "3" }

add_context-IsValid_example :
    IsValid (add_context "a" number two_values)
    × ((m : String)
        → get m (add_context "a" number two_values).lookup
          ≡ (if str_eq "a" m then some number else get m two_values.lookup))
    × ((m : String)
        → get m (add_context "a" number two_values).entries
          ≡ entry_after "a" number two_values.entries m)
add_context-IsValid_example = add_context-IsValid "a" number two_values two_values-IsValid

abbrev no_values : Contexts
no_values = record { entries = []; lookup = [] }

abbrev pub task_in : String → RequestState → ℕ → TaskExecution
task_in task_type state order = record {
  id = "t1";
  job_execution_id = "e1";
  task_type = task_type;
  method = "SHELL";
  allow_failure = false;
  task_state = state;
  task_order = order;
  retried = 0;
  error_code = "";
  error_message = "";
  exit_code = "";
  exit_message = "";
  ant_id = "";
  ant_host = "";
  failed_command = "";
  stdout = [];
  count_services = 0;
  contexts = no_values;
}

abbrev pub one_task : JobExecution
one_task = record {
  id = "e1";
  job_state = executing;
  error_code = "";
  error_message = "";
  contexts = no_values;
  tasks = task_in "build" completed 1 ∷ [];
}

one_task-misses : get_task "" "test" one_task.tasks ≡ none
unfolding get_task index_where
one_task-misses = refl

abbrev three_tasks : List TaskExecution
three_tasks =
    task_in "build" completed 1 ∷ task_in "lint" failed 2 ∷ task_in "test" executing 3 ∷ []

get_last_executed_task-IsLatest_example :
    IsLatest none three_tasks (get_last_executed_task three_tasks)
get_last_executed_task-IsLatest_example = get_last_executed_task-IsLatest three_tasks

get_failed_task_error_iff_example :
    (get_failed_task_error three_tasks ≡ none)
    ↔ All (λ t. (is_failed t.task_state ≡ true) → t.allow_failure ≡ true) three_tasks
get_failed_task_error_iff_example = get_failed_task_error_iff three_tasks

abbrev answer : RequestState → TaskResponse
answer status = record {
  status = status;
  host = "h";
  failed_command = "";
  exit_code = "1";
  exit_message = "";
  error_code = "";
  error_message = "no space";
  stdout = [];
  task_context = ("node", text_context "n1") ∷ [];
  job_context = [];
  warnings = none;
  timings = "";
}

-- Every call fails, and the matched error code asks for nine retries.
abbrev failing : Calls
failing = record {
  matching = record {
    find_rule = λ message command.
        some (record { error_code = "ERR_DISK"; retries_task = true; retry = 9 });
    mentions_deadline = λ message. false;
  };
  services = [];
  response = λ n. some (answer failed);
}

answer-settled :
    {r : TaskResponse} → some (answer failed) ≡ some r → (r.status is executing) ≡ false
answer-settled e =
    subst (λ r. (r.status is executing) ≡ false) (some-injective (answer failed) _ e) refl

failing-SettlesAt : SettlesAt 0 failing
failing-SettlesAt n r le e = answer-settled e

abbrev machine : Machine
machine = record {
  definition = record build { retry = 2 };
  execution = task_in "build" executing 1;
  job_contexts = no_values;
  error_rule = none;
  ant_id = "ant";
}

retry_loop-calls_example :
    (out : Machine × ℕ) × (retry_loop failing (0 + left machine + 1) 0 true machine ≡ some out)
    × (out.1 ≤ machine.definition.retry - machine.execution.retried + 1)
retry_loop-calls_example = retry_loop-calls failing machine failing-SettlesAt

abbrev run : Run
run = record {
  calls = failing;
  except = "";
  is_except = false;
  invalid = none;
  tasks = [];
  full_restart = false;
  last = none;
  timings = "";
}

execute-can_finalize_example :
    (out : Machine) × (execute run none none (0 + left machine + 1) machine ≡ some out)
    × (can_finalize out.execution.task_state ≡ true)
execute-can_finalize_example = execute-can_finalize run none none 0 machine failing-SettlesAt

abbrev pub world : World
world = record {
  first = driver;
  second = driver;
  retry_delay = 1;
  pause_time = 30;
  cost_secs = 5;
  next_cron = none;
}

abbrev running_execution : Execution
running_execution = record { id = "e1"; job_state = executing; error_code = ""; error_message = "" }

abbrev pub job_machine : JobMachine
job_machine = record {
  request_id = "r1";
  request_state = executing;
  request_error_code = "";
  request_error_message = "";
  retried = 0;
  paused_count = 0;
  cron_triggered = false;
  hard_restart = false;
  execution = some running_execution;
  revert_state = pending;
  retry = 1;
  hard_reset_after_retries = 0;
  retry_rule = none;
  store = both_in executing;
}

restart_job_back_to_pending_paused-pending_example :
    let (problem, next) = restart_job_back_to_pending_paused world "restart" job_machine in
    (problem ≡ some (stored (transition executing pending)))
    × (next.store ≡ both_in executing)
    × (next.request_state ≡ pending)
    × (next.retried ≡ job_machine.retried + 1)
restart_job_back_to_pending_paused-pending_example =
    restart_job_back_to_pending_paused-pending world "restart" job_machine refl

fail_job-cancelled_example :
    let next = (fail_job world executing true "by user" "" job_machine).1 in
    (next.store ≡ job_machine.store)
    ⊎ MovedBoth "e1" executing cancelled job_machine.store next.store
fail_job-cancelled_example =
    fail_job-cancelled world "by user" "" job_machine running_execution refl
