-- ===== src/Supervisor/JobLoop/Order.antt =====
-- The chain of tasks of `executeNextTask` in a job whose routes go down an order.
use formicary.Common.{
  String, ℕ, zero, suc, ◌≡◌, ◌<◌, ◌⊎◌, refl, sym, subst, ap, ◌∙◌, true, arith, Option, none, some,
  is_some, Option-cases, Bool-cases, inl, inr,
}
use formicary.Types.RequestState.{RequestState, ◌is◌, manual_approval_required, is_completed}
use formicary.Definitions.Tasks.{TaskDefinition}
use formicary.Definitions.Jobs
use formicary.Definitions.Jobs.{JobDefinition, get_next_task}
use formicary.Executions.Tasks
use formicary.Executions.Tasks.{TaskExecution, JobExecution, delete_task}
use formicary.Supervisor.JobLoop.{
  Runner, JobState, Step, Ending, ends, goes_to, new_execution, next_execution,
  new_task_execution_state_machine, submit_task, after_task, task_step, execute_next_task,
  update_all, is_over,
}

pub Step-cases :
    (s : Step) → ((e : Ending) × (s ≡ ends e)) ⊎ ((t : TaskDefinition) × (s ≡ goes_to t))
Step-cases (ends e) = inl (e, refl)
Step-cases (goes_to t) = inr (t, refl)

abbrev made : TaskDefinition → TaskExecution → Option (TaskDefinition × TaskExecution)
made d e = some (d, e)

same_definition : {d d' : TaskDefinition} {e e' : TaskExecution} → made d e ≡ made d' e' → d' ≡ d
same_definition h = cc

-- The task type names a task of the job whose templates give the definition.
abbrev Listed : Runner → String → TaskDefinition → Type 0
Listed c task_type d =
    (t : TaskDefinition) × (Jobs.get_task c.definition task_type ≡ some t) × (c.expand t ≡ some d)

-- `GetNextTask` leads from a task of the job, its templates expanded, to a task of a lower rank.
pub record IsRanked (c : Runner) (rank : String → ℕ) : Type 0 where
  pub descends :
      (k : String) (t u next : TaskDefinition) (s : RequestState) (exit_code : String)
      → Jobs.get_task c.definition k ≡ some t
      → c.expand t ≡ some u
      → (get_next_task c.definition u s exit_code).0 ≡ some next
      → rank next.task_type < rank k

new_execution-definition :
    (c : Runner) (n : ℕ) (d d' : TaskDefinition) (je : JobExecution) (e : TaskExecution)
    → (new_execution c n d je).0 ≡ some (d', e)
    → d' ≡ d
unfolding new_execution
new_execution-definition c n d d' je e h = elim (Bool-cases (c.save_fails n)) [
  | inl fails ↦ absurd (cc (rw (fails) at h))
  | inr works ↦ same_definition (rw (works) at h)
]

next_execution-definition :
    (c : Runner) (n : ℕ) (d d' : TaskDefinition) (je : JobExecution)
    (old : Option (ℕ × TaskExecution)) (e : TaskExecution)
    → (next_execution c n d je old).0 ≡ some (d', e)
    → d' ≡ d
unfolding next_execution
next_execution-definition c n d d' je none e h = new_execution-definition c n d d' je e h
next_execution-definition c n d d' je (some (i, o)) e h =
    elim (Bool-cases (is_completed o.task_state)) [
      | inl done ↦ same_definition (rw (done) at h)
      | inr open_task ↦ elim (Bool-cases (c.delete_fails n)) [
        | inl fails ↦ absurd (cc (rw (open_task, fails) at h))
        | inr works ↦ new_execution-definition c n d d' _ e (rw (open_task, works) at h)
      ]
    ]

created-Listed :
    (c : Runner) (n : ℕ) (task_type : String) (je : JobExecution) (d : TaskDefinition)
    (e : TaskExecution)
    → (new_task_execution_state_machine c n task_type je).0 ≡ some (d, e)
    → Listed c task_type d
unfolding new_task_execution_state_machine
created-Listed c n task_type je d e h = elim (Option-cases (Jobs.get_task c.definition task_type)) [
  | inl gone ↦ absurd (cc (rw (new_task_execution_state_machine, gone) at h))
  | inr (t, listed) ↦ elim (Option-cases (c.expand t)) [
    | inl broken ↦ absurd (cc (rw (new_task_execution_state_machine, listed, broken) at h))
    | inr (u, built) ↦
        let same =
          next_execution-definition c n u d je (Tasks.get_task "" task_type je.tasks) e
            (rw (new_task_execution_state_machine, listed, built) at h) in
        (t, listed, subst (λ x. c.expand t ≡ some x) (sym same) built)
  ]
]

submit_task-Listed :
    (c : Runner) (n : ℕ) (task_type : String) (je : JobExecution) (d : TaskDefinition)
    (e : TaskExecution)
    → (submit_task c n task_type je).0 ≡ some (d, e)
    → Listed c task_type d
unfolding submit_task
submit_task-Listed c n task_type je d e h =
    elim (Option-cases (new_task_execution_state_machine c n task_type je).0) [
      | inl gone ↦ absurd (cc (rw (submit_task, gone) at h))
      | inr ((d', e'), found) ↦
          let listed = created-Listed c n task_type je d' e' found in
          elim (Bool-cases (is_completed e'.task_state)) [
            | inl done ↦
                subst (Listed c task_type)
                  (sym (same_definition (rw (submit_task, found, done) at h))) listed
            | inr ran ↦
                subst (Listed c task_type)
                  (sym (same_definition (rw (submit_task, found, ran) at h))) listed
          ]
    ]

module _ (c : Runner) (rank : String → ℕ) (ranked : IsRanked c rank) where
  after_task-descends :
      (k : String) (d next : TaskDefinition) (e : TaskExecution) (s : JobState)
      → Listed c k d
      → (after_task c d e s).0 ≡ goes_to next
      → rank next.task_type < rank k
  unfolding after_task
  after_task-descends k d next e s (t, listed, built) h =
      elim (Bool-cases (e.task_state is manual_approval_required)) [
        | inl waits ↦ absurd (cc (rw (waits) at h))
        | inr runs ↦ elim (Option-cases (get_next_task c.definition d e.task_state e.exit_code).0) [
          | inl last ↦ absurd (cc (rw (after_task, runs, last) at h))
          | inr (u, found) ↦
              let same : u ≡ next = cc (rw (after_task, runs, found) at h) in
              ranked.descends k t d next e.task_state e.exit_code listed built
                (found ∙ ap some same)
        ]
      ]

  task_step-descends :
      (task_type : String) (next : TaskDefinition) (s : JobState)
      → (task_step c task_type s).0 ≡ goes_to next
      → rank next.task_type < rank task_type
  unfolding task_step
  task_step-descends task_type next s h =
      elim (Bool-cases (is_over (update_all c.world (c.events s.submitted) s.machine))) [
        | inl over ↦ absurd (cc (rw (task_step, over) at h))
        | inr live ↦ elim (Option-cases (submit_task c s.submitted task_type s.execution).1) [
          | inr (message, bad) ↦ absurd (cc (rw (task_step, live, bad) at h))
          | inl good ↦ elim (Option-cases (submit_task c s.submitted task_type s.execution).0) [
            | inl gone ↦ absurd (cc (rw (task_step, live, good, gone) at h))
            | inr ((d, e), found) ↦
                after_task-descends task_type d next e _
                  (submit_task-Listed c s.submitted task_type s.execution d e found)
                  (rw (task_step, live, good, found) at h)
          ]
        ]
      ]

  -- `executeNextTask` ends after at most as many tasks as the rank of the first one and one more, when
  -- `GetNextTask` leads to tasks of a lower rank only.
  pub execute_next_task-ends :
      (fuel : ℕ) (task_type : String) (s : JobState)
      → rank task_type < fuel
      → is_some (execute_next_task c fuel task_type s) ≡ true
  unfolding execute_next_task
  execute_next_task-ends zero task_type s enough = absurd (omega arith)
  execute_next_task-ends (suc fuel) task_type s enough =
      elim (Step-cases (task_step c task_type s).0) [
        | inl (ending, h) ↦ rw (execute_next_task, h) refl
        | inr (t, h) ↦
            let down = task_step-descends task_type t s h in
            rw (execute_next_task, h) (execute_next_task-ends fuel t.task_type _ (omega arith))
      ]
