-- ===== src/Supervisor/JobLoop/Kept.antt =====
-- What the run of a job keeps of its machine: the limits of the retries, and the retries counted.
use formicary.Common.{
  String, ℕ, zero, suc, ◌≡◌, ◌≤◌, refl, subst, ap, ◌∙◌, Bool, true, arith, Option, none, some, List,
  [], ◌∷◌, if◌then◌else◌, Option-cases, Bool-cases, inl, inr, str_eq,
}
use formicary.Types.RequestState.{
  RequestState, ◌is◌, ◌is_not◌, manual_approval_required, is_terminal, paused, executing, failed,
  cancelled,
}
use formicary.Types.ErrorCode.{error_job_execute, error_job_cancelled}
use formicary.Definitions.Tasks.{TaskDefinition}
use formicary.Definitions.Jobs.{get_next_task}
use formicary.Executions.Tasks.{TaskExecution}
use formicary.Repository.Store.{Outcome}
use formicary.Supervisor.JobRun
use formicary.Supervisor.JobRun.{
  World, Execution, JobMachine, execution_cancelled, fail_job, fail_request, after_finalize,
  finalize_states,
}
use formicary.Supervisor.JobLoop.{
  Runner, JobState, Ending, LifecycleEvent, update_from_job_lifecycle_event, update_all,
  follow_event, is_over, task_step, after_task, await_approval, submit_task, execute_next_task,
}
use formicary.Supervisor.JobLoop.Order.{Step-cases}

-- The limits are the same, and the retries counted are no fewer.
pub record Keeps (m m' : JobMachine) : Type 0 where
  pub same_retry : m'.retry ≡ m.retry
  pub same_rule : m'.retry_rule ≡ m.retry_rule
  pub counted : m.retried ≤ m'.retried

Keeps-refl : (m : JobMachine) → Keeps m m
Keeps-refl m = record { same_retry = refl; same_rule = refl; counted = omega arith }

Keeps-trans : {a b c : JobMachine} → Keeps a b → Keeps b c → Keeps a c
Keeps-trans p q = record {
  same_retry = q.same_retry ∙ p.same_retry;
  same_rule = q.same_rule ∙ p.same_rule;
  counted = omega arith;
}

abbrev limits : JobMachine → ℕ × Option ℕ × ℕ
limits m = (m.retry, m.retry_rule, m.retried)

Keeps-limits : (m m' : JobMachine) → limits m' ≡ limits m → Keeps m m'
Keeps-limits m m' h =
    let same : m'.retried ≡ m.retried = ap (λ l. l.2) h in
    record { same_retry = ap (λ l. l.0) h; same_rule = ap (λ l. l.1) h; counted = omega arith }

after_finalize-limits :
    (w : World) (old_state new_state : RequestState) (message code : String) (m : JobMachine)
    (o : Outcome)
    → limits (after_finalize w old_state new_state message code m o).1 ≡ limits m
unfolding fail_request
after_finalize-limits w old_state new_state message code m (none, s) = refl
after_finalize-limits w old_state new_state message code m (some p, s) = refl

fail_job-limits :
    (w : World) (s : RequestState) (b : Bool) (message code : String) (m : JobMachine)
    → limits (fail_job w s b message code m).1 ≡ limits m
unfolding fail_job fail_request
fail_job-limits w s b message code m = elim (Option-cases m.execution) [
  | inl gone ↦ rw (fail_job, gone) refl
  | inr (e, has) ↦ rw (fail_job, has) (after_finalize-limits w s _ message _ (marked e) _)
]
  where
    given : String
    given = if str_eq code "" then error_job_execute else code

    marked : Execution → JobMachine
    marked e = record m {
      request_state = failed;
      request_error_code = given;
      request_error_message = message;
      execution = some (record e {
        job_state = if b then cancelled else failed;
        error_message = message;
        error_code = if b then error_job_cancelled else given;
      });
    }

execution_cancelled-limits :
    (w : World) (code message : String) (m : JobMachine)
    → limits (execution_cancelled w code message m).1 ≡ limits m
unfolding execution_cancelled
execution_cancelled-limits w code message m = elim (Option-cases m.execution) [
  | inl gone ↦ rw (execution_cancelled, gone) refl
  | inr (e, has) ↦ elim (Bool-cases (is_terminal e.job_state)) [
    | inl over ↦ rw (execution_cancelled, has, over) refl
    | inr live ↦ rw (execution_cancelled, has, live) (fail_job-limits w executing true message _ _)
  ]
]

pause_job-Keeps : (w : World) (m : JobMachine) → Keeps m (JobRun.pause_job w m).1
unfolding JobRun.pause_job
pause_job-Keeps w m = record {
  same_retry = elim (Option-cases m.execution) [
    | inl gone ↦ rw (JobRun.pause_job, gone) refl
    | inr (e, has) ↦ elim (Bool-cases (e.job_state is_not executing)) [
      | inl idle ↦ rw (JobRun.pause_job, has, idle) refl
      | inr busy ↦ rw (JobRun.pause_job, has, busy) refl
    ]
  ];
  same_rule = elim (Option-cases m.execution) [
    | inl gone ↦ rw (JobRun.pause_job, gone) refl
    | inr (e, has) ↦ elim (Bool-cases (e.job_state is_not executing)) [
      | inl idle ↦ rw (JobRun.pause_job, has, idle) refl
      | inr busy ↦ rw (JobRun.pause_job, has, busy) refl
    ]
  ];
  counted = elim (Option-cases m.execution) [
    | inl gone ↦ rw (JobRun.pause_job, gone) (omega arith)
    | inr (e, has) ↦ elim (Bool-cases (e.job_state is_not executing)) [
      | inl idle ↦ rw (JobRun.pause_job, has, idle) (omega arith)
      | inr busy ↦ rw (JobRun.pause_job, has, busy) (omega arith)
    ]
  ];
}

follow_event-Keeps :
    (w : World) (event : LifecycleEvent) (e : Execution) (m : JobMachine)
    → Keeps m (follow_event w event e m)
unfolding follow_event
follow_event-Keeps w event e m = elim (Bool-cases (str_eq event.job_request_id m.request_id)) [
  | inr other ↦ rw (other) (Keeps-refl m)
  | inl mine ↦ elim (Bool-cases (is_terminal event.job_state)) [
    | inl over ↦ rw (mine, over) (Keeps-limits m _ (execution_cancelled-limits w _ _ m))
    | inr live ↦ elim (Bool-cases (event.job_state is paused)) [
      | inl pauses ↦ rw (mine, live, pauses) (pause_job-Keeps w m)
      | inr goes_on ↦ rw (mine, live, goes_on) (Keeps-refl m)
    ]
  ]
]

update_from_job_lifecycle_event-Keeps :
    (w : World) (event : LifecycleEvent) (m : JobMachine)
    → Keeps m (update_from_job_lifecycle_event w event m)
unfolding update_from_job_lifecycle_event
update_from_job_lifecycle_event-Keeps w event m = go m.execution
  where
    go : (o : Option Execution) → Keeps m (elim o [ none ↦ m | some e ↦ follow_event w event e m ])
    go none = Keeps-refl m
    go (some e) = follow_event-Keeps w event e m

update_all-Keeps :
    (w : World) (events : List LifecycleEvent) (m : JobMachine) → Keeps m (update_all w events m)
unfolding update_all
update_all-Keeps w [] m = Keeps-refl m
update_all-Keeps w (event ∷ events) m =
    Keeps-trans (update_from_job_lifecycle_event-Keeps w event m) (update_all-Keeps w events _)

await_approval-limits :
    (c : Runner) (d : TaskDefinition) (e : TaskExecution) (o : Option Execution) (s : JobState)
    → limits (await_approval c d e o s).1.machine ≡ limits s.machine
unfolding await_approval
await_approval-limits c d e none s = refl
await_approval-limits c d e (some x) s = refl

after_task-limits :
    (c : Runner) (d : TaskDefinition) (e : TaskExecution) (s : JobState)
    → limits (after_task c d e s).1.machine ≡ limits s.machine
unfolding after_task
after_task-limits c d e s = elim (Bool-cases (e.task_state is manual_approval_required)) [
  | inl waits ↦ rw (waits) (await_approval-limits c d e s.machine.execution s)
  | inr runs ↦ elim (Option-cases (get_next_task c.definition d e.task_state e.exit_code).0) [
    | inl last ↦ rw (after_task, runs, last) refl
    | inr (t, found) ↦ rw (after_task, runs, found) refl
  ]
]

task_step-Keeps :
    (c : Runner) (task_type : String) (s : JobState)
    → Keeps s.machine (task_step c task_type s).1.machine
unfolding task_step
task_step-Keeps c task_type s =
    let updated = update_all-Keeps c.world (c.events s.submitted) s.machine in
    elim (Bool-cases (is_over (update_all c.world (c.events s.submitted) s.machine))) [
      | inl over ↦ rw (task_step, over) updated
      | inr live ↦ elim (Option-cases (submit_task c s.submitted task_type s.execution).1) [
        | inr (message, bad) ↦ rw (task_step, live, bad) updated
        | inl good ↦ elim (Option-cases (submit_task c s.submitted task_type s.execution).0) [
          | inl gone ↦ rw (task_step, live, good, gone) updated
          | inr ((d, e), found) ↦
              rw (task_step, live, good, found)
                (Keeps-trans updated (Keeps-limits _ _ (after_task-limits c d e _)))
        ]
      ]
    ]

pub execute_next_task-Keeps :
    (c : Runner) (fuel : ℕ) (task_type : String) (s : JobState) (out : Ending × JobState)
    → execute_next_task c fuel task_type s ≡ some out
    → Keeps s.machine out.1.machine
unfolding execute_next_task
execute_next_task-Keeps c zero task_type s out h = absurd (cc h)
execute_next_task-Keeps c (suc fuel) task_type s out h =
    elim (Step-cases (task_step c task_type s).0) [
      | inl (ending, at_end) ↦
          let same : (ending, (task_step c task_type s).1) ≡ out =
            cc (rw (execute_next_task, at_end) at h) in
          subst (λ o. Keeps s.machine o.1.machine) same (task_step-Keeps c task_type s)
      | inr (t, goes) ↦
          Keeps-trans (task_step-Keeps c task_type s)
            (execute_next_task-Keeps c fuel t.task_type _ out (rw (execute_next_task, goes) at h))
    ]
