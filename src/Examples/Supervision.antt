-- ===== src/Examples/Supervision.antt =====
-- The run of a job of two tasks, at which the theorems on the loop of the job supervisor are applied.
use formicary.Common.{
  All, String, ℕ, ◌≡◌, ◌≤◌, ◌<◌, ◌+◌, ◌-◌, ◌⊎◌, inl, inr, refl, sym, subst, ◌∙◌, true, false, [],
  ◌∷◌, none, some, get, arith, is_some, str_eq, if◌then◌else◌, some-injective, put, to_upper,
  Bool-cases, Option-cases, str_eq_iff,
}
use formicary.Types.RequestState.{
  RequestState, new_request_state, text, completed, is_terminal, is_completed, is_failed, of_text,
}
use formicary.Definitions.Tasks.{TaskDefinition, get_text, has_next}
use formicary.Definitions.Jobs.{
  get_task, get_next_task, route, exit_entry, code_target, runs_again, status_target,
  get_first_task, first_task_loop, reserved_target, targets_loop, targets_of,
  validate_reachable_tasks,
}
use formicary.Executions.Tasks
use formicary.Executions.Tasks.{TaskExecution, get_failed_task_error, index_where, max_task_order}
use formicary.Supervisor.JobLoop.{
  Runner, JobState, Ending, execute_next_task, job_loop, submit_task, start_task, task_step,
  update_all, new_task_execution_state_machine, next_execution, new_execution, after_task,
  action_of, await_approval, failed_task_ending, last_task, write_back,
}
use formicary.Supervisor.JobRun.{can_retry}
use formicary.Repository.Store.{update_request_and_execution_state}
use formicary.Supervisor.JobLoop.Order.{IsRanked, execute_next_task-ends}
use formicary.Supervisor.JobLoop.Retries.{limit, job_loop-rounds, job_loop-none}
use formicary.Examples.Jobs.{build_linked, test, job_linked}
use formicary.Examples.Runs.{one_task, task_in, job_machine, world}

-- Every task completes.
abbrev runner : Runner
runner = record {
  definition = job_linked;
  expand = some;
  fresh_id = λ n. "t";
  delete_fails = λ n. false;
  save_fails = λ n. false;
  execute = λ n definition e. (none, record e { task_state = completed });
  events = λ n. [];
  world = world;
}

abbrev job_state : JobState
job_state = record {
  machine = job_machine;
  execution = record one_task { tasks = [] };
  submitted = 0;
}

abbrev rank : String → ℕ
rank k = if str_eq k "build" then 1 else 0

abbrev Two : String → Type 0
Two s = (s ≡ "test") ⊎ (s ≡ "")

exit_entry-Two : (s : RequestState) → Two (exit_entry build_linked s)
unfolding exit_entry get_text get
exit_entry-Two s = elim (Bool-cases (str_eq "COMPLETED" (text s))) [
  | inl e ↦ rw (exit_entry, get_text, e) (inl refl)
  | inr e ↦ rw (exit_entry, get_text, e) (inr refl)
]

code_target-Two : (exit_code : String) → Two (code_target build_linked exit_code)
unfolding code_target new_request_state
code_target-Two exit_code = elim (exit_entry-Two (new_request_state exit_code)) [
  | inl e ↦ rw e (inl refl)
  | inr e ↦ rw e (inr refl)
]

Two-test :
    (s : String) (next : TaskDefinition) → Two s → get_task job_linked s ≡ some next → test ≡ next
unfolding get_task get
Two-test s next (inl e) h = some-injective test next (rw e at h)
Two-test s next (inr e) h = absurd (cc (rw e at h))

build-runs_once : (exit_code : String) → runs_again build_linked exit_code ≡ false
unfolding runs_again new_request_state
build-runs_once exit_code = elim (exit_entry-Two (new_request_state exit_code)) [
  | inl e ↦ rw e refl
  | inr e ↦ rw e refl
]

status_target-Two : (s : RequestState) → Two (status_target build_linked s)
unfolding status_target
status_target-Two s = exit_entry-Two (new_request_state (text s))

build-leads_to_test :
    (s : RequestState) (exit_code : String) (next : TaskDefinition)
    → (get_next_task job_linked build_linked s exit_code).0 ≡ some next
    → test ≡ next
unfolding get_next_task route
build-leads_to_test s exit_code next h =
    let once = build-runs_once exit_code in
    elim (Option-cases (get_task job_linked (code_target build_linked exit_code))) [
      | inr (t, e) ↦
          Two-test _ next (code_target-Two exit_code)
            (e ∙ (rw (get_next_task, route, once, e) at h))
      | inl e ↦ elim (Option-cases (get_task job_linked (status_target build_linked s))) [
        | inr (t, e') ↦
            Two-test _ next (status_target-Two s)
              (e' ∙ (rw (get_next_task, route, once, e, e') at h))
        | inl e' ↦ absurd (cc (rw (get_next_task, route, once, e, e') at h))
      ]
    ]

test-ends :
    (s : RequestState) (exit_code : String) → (get_next_task job_linked test s exit_code).0 ≡ none
unfolding get_next_task route
test-ends s exit_code = refl

listed :
    (k : String) (t : TaskDefinition)
    → get_task job_linked k ≡ some t
    → (k ≡ "build") × (build_linked ≡ t) ⊎ (test ≡ t)
unfolding get_task get
listed k t h = elim (Bool-cases (str_eq "build" k)) [
  | inl e ↦ inl (sym ((str_eq_iff "build" k).0 e), some-injective build_linked t (rw (e) at h))
  | inr e ↦ elim (Bool-cases (str_eq "test" k)) [
    | inl e' ↦ inr (some-injective test t (rw (e, e') at h))
    | inr e' ↦ absurd (cc (rw (e, e') at h))
  ]
]

runner-IsRanked : IsRanked runner rank
runner-IsRanked = record {
  descends = λ k t u next s exit_code found built goes. elim (listed k t found) [
    | inl (here, e) ↦
        let from_build : (get_next_task job_linked build_linked s exit_code).0 ≡ some next =
          subst (λ d. (get_next_task job_linked d s exit_code).0 ≡ some next)
            (sym (e ∙ some-injective t u built)) goes in
        let target = build-leads_to_test s exit_code next from_build in
        rw (here, sym target) (omega arith)
    | inr e ↦
        let from_test : (get_next_task job_linked test s exit_code).0 ≡ some next =
          subst (λ d. (get_next_task job_linked d s exit_code).0 ≡ some next)
            (sym (e ∙ some-injective t u built)) goes in
        absurd (cc (sym (test-ends s exit_code) ∙ from_test))
  ];
}

rank-short : (k : String) → rank k < 2
rank-short k = ground arith

execute_next_task-ends_example : is_some (execute_next_task runner 2 "build" job_state) ≡ true
execute_next_task-ends_example =
    execute_next_task-ends runner rank runner-IsRanked 2 "build" job_state (omega arith)

job_loop-rounds_example :
    (out : Ending × JobState × ℕ) × (job_loop runner 2
        (limit job_machine - job_machine.retried + 1)
        0
        ""
        none
        job_state
      ≡ some out)
    × (out.2 ≤ limit job_machine - job_machine.retried + 1)
job_loop-rounds_example = job_loop-rounds runner rank runner-IsRanked 2 rank-short "" job_state

-- What the loop leaves: both tasks completed, in one round.
abbrev ended_state : JobState
ended_state = record {
  machine = job_machine;
  execution = record one_task {
    tasks =
        record (task_in "build" completed 1) { id = "t" }
        ∷ record (task_in "test" completed 2) { id = "t" }
        ∷ [];
  };
  submitted = 2;
}

loop_ends : job_loop runner 2 2 0 "" none job_state ≡ some (("", none), ended_state, 1)
unfolding job_loop start_task get_first_task execute_next_task task_step update_all is_terminal
    submit_task new_task_execution_state_machine get_task next_execution Tasks.get_task
    new_execution is_completed Tasks.add_task Tasks.new_task_execution after_task get put to_upper
    code_target exit_entry first_task_loop get_next_task reserved_target route runs_again
    status_target targets_loop targets_of validate_reachable_tasks get_text has_next
    get_failed_task_error index_where max_task_order action_of await_approval failed_task_ending
    last_task write_back can_retry is_failed new_request_state of_text text
    update_request_and_execution_state
loop_ends = refl

job_loop-none_example :
    All (λ t. (is_failed t.task_state ≡ true) → t.allow_failure ≡ true) ended_state.execution.tasks
job_loop-none_example =
    job_loop-none runner 2 2 0 "" none job_state (("", none), ended_state, 1) loop_ends refl
