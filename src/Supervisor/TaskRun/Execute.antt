-- ===== src/Supervisor/TaskRun/Execute.antt =====
-- queen/fsm/task_execution_state.go and queen/supervisor/task_supervisor.go: the run of a task that
-- was marked executing, and the block that `Execute` defers.
use formicary.Common.{
  String, ℕ, ◌≡◌, ◌+◌, inl, inr, refl, Bool, true, false, Option, List, [], ◌∷◌, none, some,
  is_some, str_eq, if◌then◌else◌, not, ◌&&◌, Option-cases, Bool-cases, any,
}
use formicary.Types.RequestState.{is_completed, completed, can_finalize}
use formicary.Executions.Contexts.{add_context, text_context}
use formicary.Executions.Tasks.{TaskExecution}
use formicary.Supervisor.TaskRun.{
  Machine, Calls, TaskResponse, retry_loop, update_task_from_response, set_failed,
}
use formicary.Supervisor.TaskRun.Retries.{SettlesAt, left, retry_loop-ends}

-- The first dependency of which no task of the execution has the type; `BuildTaskRequest` fails on it.
unfoldable pub unmatched_dependency : List TaskExecution → List String → Option String
unmatched_dependency ts [] = none
unmatched_dependency ts (dep ∷ deps) =
    let rest = unmatched_dependency ts deps in
    if any (λ t. str_eq dep t.task_type) ts then rest else some dep

-- `CanReusePreviousResult`; `full_restart` is the answer of `DoesRequireFullRestart`.
unfoldable pub can_reuse_previous_result : Bool → Option TaskExecution → Bool
unfolding is_completed
can_reuse_previous_result full_restart none = false
can_reuse_previous_result full_restart (some last) =
    not full_restart && is_completed last.task_state

-- `BuildTaskResponseFromPreviousResult`, after its call of `BuildTaskRequest`.
unfoldable pub previous_response : TaskExecution → String → TaskResponse
previous_response last timings = record {
  status = last.task_state;
  host = last.ant_host;
  failed_command = last.failed_command;
  exit_code = last.exit_code;
  exit_message = last.exit_message;
  error_code = "";
  error_message = "";
  stdout = [];
  task_context = last.contexts.entries;
  job_context = [];
  warnings = none;
  timings = timings;
}

-- What the run of a task is given besides the calls; `invalid` is the error of `Validate` of the task
-- request that `BuildTaskRequest` has built.
pub record Run : Type 0 where
  pub calls : Calls
  pub except : String
  pub is_except : Bool
  pub tasks : List TaskExecution
  pub invalid : Option String
  pub full_restart : Bool
  pub last : Option (TaskExecution × String)
  pub timings : String

abbrev reused : Bool → Option (TaskExecution × String) → Option (TaskExecution × String)
reused full_restart none = none
reused full_restart (some (last, id)) =
    if can_reuse_previous_result full_restart (some last) then some (last, id) else none

-- `tryExecuteTask`: the error that it returns, and the machine. The loop's own error shadows the one
-- that is returned.
unfoldable pub try_execute_task : Run → ℕ → Machine → Option (Option String × Machine)
try_execute_task r fuel m =
    let e = m.execution in
    if r.is_except
    then some (
      none,
      record m {
        execution = record e {
          contexts = add_context "Except" (text_context r.except) e.contexts;
          task_state = completed;
          exit_code = "SKIPPED";
          exit_message = "Skipped task due to except flag";
        };
      },
    )
    else elim (unmatched_dependency r.tasks m.definition.dependencies) [
      | some dep ↦ some (some dep, m)
      | none ↦
          if is_some r.invalid then some (r.invalid, m) else elim (reused r.full_restart r.last) [
            | some (old, id) ↦
                let kept = record m {
                  execution = record e {
                    contexts =
                        add_context "ReusedPreviousResultFromTaskExecution" (text_context id)
                          e.contexts;
                  };
                } in
                some (
                  update_task_from_response r.calls.matching r.calls.services
                    (previous_response old r.timings) kept)
            | none ↦ elim (retry_loop r.calls fuel 0 true m) [
              | none ↦ none
              | some (next, _) ↦ some (none, next)
            ]
          ]
    ]

-- The error that the deferred block of `Execute` reports: the run's own, else the context's, else
-- that the error is unknown. The times in the texts are left out.
abbrev final_error : Option String → Option String → String
final_error (some e) expired = e
final_error none (some e) = e
final_error none none = "unknown error executing task"

-- The block that `Execute` defers, up to the save: a state that is not final becomes FAILED.
unfoldable pub finish : Run → Option String → Option String → Machine → Machine
finish r problem expired m =
    let message = final_error problem expired in
    if can_finalize m.execution.task_state
    then m
    else set_failed message (r.calls.matching.mentions_deadline message) m

-- `Execute` from `SetTaskToExecuting` on, with the answer of that; `expired` is the context's error
-- at the end.
unfoldable pub execute : Run → Option String → Option String → ℕ → Machine → Option Machine
execute r (some problem) expired fuel m = some (finish r (some problem) expired m)
execute r none expired fuel m = elim (try_execute_task r fuel m) [
  | none ↦ none
  | some (problem, next) ↦ some (finish r problem expired next)
]

set_failed-can_finalize :
    (message : String) (timed_out : Bool) (m : Machine)
    → can_finalize (set_failed message timed_out m).execution.task_state ≡ true
unfolding set_failed can_finalize
set_failed-can_finalize message timed_out m = refl

finish-can_finalize :
    (r : Run) (problem expired : Option String) (m : Machine)
    → can_finalize (finish r problem expired m).execution.task_state ≡ true
unfolding finish
finish-can_finalize r problem expired m = elim (Bool-cases (can_finalize m.execution.task_state)) [
  | inl final ↦ rw (final) final
  | inr unfinished ↦ rw (unfinished) (set_failed-can_finalize _ _ m)
]

try_execute_task-ends :
    (r : Run) (k : ℕ) (m : Machine)
    → SettlesAt k r.calls
    → is_some (try_execute_task r (k + left m + 1) m) ≡ true
unfolding try_execute_task
try_execute_task-ends r k m settles = elim (Bool-cases r.is_except) [
  | inl skip ↦ rw (skip) refl
  | inr runs ↦
      rw (runs) (elim (Option-cases (unmatched_dependency r.tasks m.definition.dependencies)) [
        | inr (dep, lacks) ↦ rw (try_execute_task, lacks) refl
        | inl matched ↦ elim (Bool-cases (is_some r.invalid)) [
          | inl refused ↦ rw (try_execute_task, matched, refused) refl
          | inr valid ↦ elim (Option-cases (reused r.full_restart r.last)) [
            | inr (old, again) ↦ rw (try_execute_task, matched, valid, again) refl
            | inl fresh ↦ elim (Option-cases (retry_loop r.calls (k + left m + 1) 0 true m)) [
              | inr (out, done) ↦ rw (try_execute_task, matched, valid, fresh, done) refl
              | inl stuck ↦ absurd (cc (rw (stuck) at (retry_loop-ends r.calls k m settles)))
            ]
          ]
        ]
      ])
]

-- `Execute`, from where it marks the task executing, ends when from some call on no response says
-- that the task is still executing, and leaves the task in a state that can be finalized,
-- whatever else the ants answered and whichever error was met.
pub execute-can_finalize :
    (r : Run) (started expired : Option String) (k : ℕ) (m : Machine)
    → SettlesAt k r.calls
    → (out : Machine) × (execute r started expired (k + left m + 1) m ≡ some out)
      × (can_finalize out.execution.task_state ≡ true)
unfolding execute
execute-can_finalize r (some problem) expired k m settles =
    (_, refl, finish-can_finalize r (some problem) expired m)
execute-can_finalize r none expired k m settles =
    elim (Option-cases (try_execute_task r (k + left m + 1) m)) [
      | inl stuck ↦ absurd (cc (rw (stuck) at (try_execute_task-ends r k m settles)))
      | inr ((problem, next), done) ↦ (
        finish r problem expired next,
        rw (execute, done) refl,
        finish-can_finalize r problem expired next,
      )
    ]
