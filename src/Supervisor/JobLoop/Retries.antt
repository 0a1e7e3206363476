-- ===== src/Supervisor/JobLoop/Retries.antt =====
-- The rounds of the retry loop of `tryExecuteJob`, and what its end says of the tasks.
use formicary.Common.{
  All, String, ℕ, zero, suc, ◌≡◌, ◌+◌, ◌-◌, ◌≤◌, ◌<◌, refl, sym, subst, ap, ap₂, ◌∙◌,
  some-injective, Bool, true, false, arith, Option, none, some, is_some, List, if◌then◌else◌, not,
  ◌||◌, Option-cases, Bool-cases, inl, inr, ◌==◌, ltb,
}
use formicary.Definitions.Tasks.{TaskDefinition}
use formicary.Executions.Tasks.{TaskExecution, get_failed_task_error}
use formicary.Executions.Tasks.Latest.{get_failed_task_error_iff}
use formicary.Types.RequestState.{is_failed}
use formicary.Supervisor.JobRun.{JobMachine, can_retry}
use formicary.Supervisor.JobLoop.{
  Runner, JobState, Ending, execute_next_task, failed_task_ending, start_task, retry_job, ends_job,
  job_loop,
}
use formicary.Supervisor.JobLoop.Order.{IsRanked, execute_next_task-ends}
use formicary.Supervisor.JobLoop.Kept.{Keeps, execute_next_task-Keeps}

-- The retries that the definition or the matched error code allows.
abbrev limit_of : ℕ → Option ℕ → ℕ
limit_of retry none = retry
limit_of retry (some r) = if ltb retry r then r else retry

abbrev pub limit : JobMachine → ℕ
limit m = limit_of m.retry m.retry_rule

can_retry-le : (m : JobMachine) → can_retry m ≡ true → m.retried ≤ limit m
unfolding can_retry
can_retry-le m h = elim (Option-cases m.retry_rule) [
  | inl gone ↦ rw (gone) (let k = rw (can_retry, gone) at h in ground arith)
  | inr (r, has) ↦ rw (has) (let k = rw (can_retry, has) at h in ground arith)
]

may_retry : (stops may : Bool) → (stops || not may) ≡ false → may ≡ true
may_retry stops may h = ground arith

-- The round that goes on has a machine with a retry more, within the limit.
round-shrinks :
    (m : JobMachine) (s : JobState)
    → Keeps m s.machine
    → can_retry (retry_job s).machine ≡ true
    → (limit (retry_job s).machine ≡ limit m)
      × (limit m - (s.machine.retried + 1) + 1 ≤ limit m - m.retried)
round-shrinks m s kept may =
    let le = can_retry-le (retry_job s).machine may in
    let same : limit s.machine ≡ limit m = ap₂ limit_of kept.same_retry kept.same_rule in
    let counted = kept.counted in (same, omega arith)

module _ (c : Runner) (rank : String → ℕ) (ranked : IsRanked c rank) (chain : ℕ)
    (long : (k : String) → rank k < chain) where
  job_loop-from :
      (fuel rounds : ℕ) (start : String) (task : Option TaskDefinition) (s : JobState)
      → limit s.machine - s.machine.retried + 1 ≤ fuel
      → (out : Ending × JobState × ℕ) × (job_loop c chain fuel rounds start task s ≡ some out)
        × (out.2 ≤ rounds + (limit s.machine - s.machine.retried + 1))
  unfolding job_loop
  job_loop-from zero rounds start task s enough = absurd (omega arith)
  job_loop-from (suc fuel) rounds start task s enough =
      elim (Option-cases (start_task c start task)) [
        | inl gone ↦
            ((("", some "no first task"), s, rounds), rw (job_loop, gone) refl, omega arith)
        | inr (t, from) ↦ elim (Option-cases (execute_next_task c chain t.task_type s)) [
          | inl stuck ↦ absurd (
              cc (
                rw (stuck) at
                  (execute_next_task-ends c rank ranked chain t.task_type s (long t.task_type))))
          | inr ((ending, next), ran) ↦
              let kept = execute_next_task-Keeps c chain t.task_type s (ending, next) ran in
              let result = failed_task_ending ending next.execution.tasks in
              let stops =
                not (is_some result.1)
                || ends_job result.0
                || next.machine.retried == next.machine.retry in
              elim (Bool-cases (stops || not (can_retry (retry_job next).machine))) [
                | inl over ↦ (
                  (result, if stops then next else retry_job next, rounds + 1),
                  rw (job_loop, from, ran, over) refl,
                  omega arith,
                )
                | inr more ↦
                    let may = may_retry stops _ more in
                    let (same, less) = round-shrinks s.machine next kept may in
                    let (out, done, le) =
                      job_loop-from fuel (rounds + 1) "" (some t) (retry_job next) (omega arith) in
                    (out, rw (job_loop, from, ran, more) done, omega arith)
              ]
        ]
      ]

  -- The retry loop of `tryExecuteJob` ends when the routes between the tasks go down an order, after
  -- at most one round more than the retries left, where the retries are those of the definition or,
  -- if they are more, of the matched error code.
  pub job_loop-rounds :
      (start : String) (s : JobState)
      → (out : Ending × JobState × ℕ) × (job_loop c chain
            (limit s.machine - s.machine.retried + 1)
            0
            start
            none
            s
          ≡ some out)
        × (out.2 ≤ limit s.machine - s.machine.retried + 1)
  job_loop-rounds start s =
      let (out, done, le) = job_loop-from _ 0 start none s (omega arith) in (out, done, omega arith)

failed_task_ending-none :
    (ending : Ending) (ts : List TaskExecution)
    → (failed_task_ending ending ts).1 ≡ none
    → get_failed_task_error ts ≡ none
unfolding failed_task_ending
failed_task_ending-none (code, some message) ts h = absurd (cc h)
failed_task_ending-none (code, none) ts h = elim (Option-cases (get_failed_task_error ts)) [
  | inl fine ↦ fine
  | inr ((t, failed_code, message), bad) ↦ absurd (cc (rw (failed_task_ending, bad) at h))
]

abbrev ended : Ending → JobState → ℕ → Option (Ending × JobState × ℕ)
ended ending s rounds = some (ending, s, rounds)

same_tasks :
    (stops : Bool) (s : JobState)
    → (if stops then s else retry_job s).execution.tasks ≡ s.execution.tasks
same_tasks true s = refl
same_tasks false s = refl

-- An end without an error has passed the check of the failed tasks.
job_loop-checked :
    (c : Runner) (chain fuel rounds : ℕ) (start : String) (task : Option TaskDefinition)
    (s : JobState) (out : Ending × JobState × ℕ)
    → job_loop c chain fuel rounds start task s ≡ some out
    → out.0.1 ≡ none
    → get_failed_task_error out.1.execution.tasks ≡ none
unfolding job_loop
job_loop-checked c chain zero rounds start task s out h e = absurd (cc h)
job_loop-checked c chain (suc fuel) rounds start task s out h e =
    elim (Option-cases (start_task c start task)) [
      | inl gone ↦ no_task (rw (job_loop, gone) at h) e
      | inr (t, from) ↦ elim (Option-cases (execute_next_task c chain t.task_type s)) [
        | inl stuck ↦ absurd (cc (rw (job_loop, from, stuck) at h))
        | inr ((ending, next), ran) ↦
            let result = failed_task_ending ending next.execution.tasks in
            let stops =
              not (is_some result.1)
              || ends_job result.0
              || next.machine.retried == next.machine.retry in
            elim (Bool-cases (stops || not (can_retry (retry_job next).machine))) [
              | inr more ↦
                  job_loop-checked c chain fuel (rounds + 1) "" (some t) (retry_job next) out
                    (rw (job_loop, from, ran, more) at h) e
              | inl over ↦
                  at_end ending next stops (rounds + 1) (rw (job_loop, from, ran, over) at h) e
            ]
      ]
    ]
  where
    no_task :
        {l : JobState} {n : ℕ}
        → ended ("", some "no first task") l n ≡ some out
        → out.0.1 ≡ none
        → get_failed_task_error out.1.execution.tasks ≡ none
    no_task same fine =
        let clash : some "no first task" ≡ none =
          ap (λ o. o.0.1) (some-injective _ out same) ∙ fine in
        absurd (cc clash)

    at_end :
        (ending : Ending) (next : JobState) (stops : Bool) (n : ℕ)
        → ended
            (failed_task_ending ending next.execution.tasks)
            (if stops then next else retry_job next)
            n
          ≡ some out
        → out.0.1 ≡ none
        → get_failed_task_error out.1.execution.tasks ≡ none
    at_end ending next stops n same fine =
        let equal = some-injective _ out same in
        let unfailed =
          failed_task_ending-none ending next.execution.tasks (ap (λ o. o.0.1) equal ∙ fine) in
        subst (λ o. get_failed_task_error o.1.execution.tasks ≡ none) equal
          (subst (λ ts. get_failed_task_error ts ≡ none) (sym (same_tasks stops next)) unfailed)

-- When the retry loop of `tryExecuteJob` ends without an error, so that the job is completed, every
-- failed task of its execution is one that may fail.
pub job_loop-none :
    (c : Runner) (chain fuel rounds : ℕ) (start : String) (task : Option TaskDefinition)
    (s : JobState) (out : Ending × JobState × ℕ)
    → job_loop c chain fuel rounds start task s ≡ some out
    → out.0.1 ≡ none
    → All (λ t. (is_failed t.task_state ≡ true) → t.allow_failure ≡ true) out.1.execution.tasks
job_loop-none c chain fuel rounds start task s out h e =
    (get_failed_task_error_iff out.1.execution.tasks).0
      (job_loop-checked c chain fuel rounds start task s out h e)
