-- ===== src/Scheduler.antt =====
-- queen/scheduler/job_scheduler.go and queen/launcher/job_launcher.go, over the machine of
-- Supervisor/Launch and the ants of Resources: one attempt to schedule a request, and the launch of
-- a scheduled one. The texts of errors are shortened.
pub mod Quota
pub mod Attempts
pub mod Unreserved
pub mod Launches
use formicary.Common.{
  String, ℕ, ◌+◌, ◌-◌, ◌*◌, ◌%◌, ◌==◌, Bool, true, false, not, ◌&&◌, ◌||◌, ltb, leb, Option, none,
  some, List, if◌then◌else◌, ℤ, pos, negsuc,
}
use formicary.Types.ErrorCode.{
  error_validation, error_quota_exceeded, error_filtered_job, error_ant_resources,
  error_job_execute,
}
use formicary.Types.TaskMethod.{TaskMethod}
use formicary.Repository.Store.{Driver, increment_schedule_attempts}
use formicary.Resources.{State, Clock}
use formicary.Resources.Jobs.{
  Shortage, has_ants_for_job_tags, Reserved, crashes, all_reserved, not_reserved,
  reserve_job_resources,
}
use formicary.Supervisor.JobRun.{World, JobMachine, Problem, schedule_failed, launch_failed}
use formicary.Supervisor.Launch.{
  Services, Looked, Launching, Refused, no_reservation, validate_request, prepare_launch,
}
use formicary.Supervisor.Launch.Creation.{
  Created, EventProblem, create_job_execution, revert_request_to_pending_paused,
}
use formicary.Scheduler.Quota.{User, check_subscription_quota, within, exceeded}

-- The configuration of the server and the definition of the job, as the scheduler reads them.
pub record Settings : Type 0 where
  pub max_schedule_attempts : ℕ
  pub not_ready_max_wait : ℕ
  pub quotas_enabled : Bool
  pub job_max_concurrency : ℕ
  pub owned : Bool
  pub methods : List TaskMethod
  pub tags : List String

-- What one attempt finds: the answers of `Validate` and of the filter, the user with the usages,
-- the counts of running jobs, the clock of the ants, and the drivers.
pub record Attempt : Type 0 where
  pub settings : Settings
  pub looked : Looked
  pub filtered : Bool
  pub user : Option User
  pub cpu_usage : Option ℕ
  pub disk_usage : Option ℕ
  pub executing : ℤ
  pub executing_user : ℕ
  pub executing_org : ℕ
  pub clock : Clock
  pub increment : Driver
  pub services : Services

-- A request in memory, with its machine.
pub record Candidate : Type 0 where
  pub launching : Launching
  pub schedule_attempts : ℕ
  pub job_priority : ℕ
  pub scheduled_at : ℕ

pub data Unavailable : Type 0 where
  job_concurrency user_concurrency org_concurrency : Unavailable
  short_of : Shortage → Unavailable

abbrev at_least : ℤ → ℕ → Bool
at_least (pos n) m = leb m n
at_least (negsuc n) m = false

-- The limits of the user and the organization.
unfoldable pub owner_limit : Attempt → Option Unavailable
owner_limit a = elim a.user [
  | none ↦ none
  | some u ↦
      if leb u.max_concurrency a.executing_user
      then some user_concurrency
      else elim u.org_max_concurrency [
        | none ↦ none
        | some limit ↦ if leb limit a.executing_org then some org_concurrency else none
      ]
]

-- `CheckAntResourcesAndConcurrencyForJob`
unfoldable pub check_ant_resources : Attempt → State → Option Unavailable
check_ant_resources a ants =
    if at_least a.executing a.settings.job_max_concurrency
    then some job_concurrency
    else elim (if a.settings.owned then owner_limit a else none) [
      | some why ↦ some why
      | none ↦ elim (has_ants_for_job_tags a.clock ants a.settings.methods a.settings.tags) [
        | some why ↦ some (short_of why)
        | none ↦ none
      ]
    ]

pub data Trouble : Type 0 where
  not_stored : Problem → Trouble
  ants_unavailable : Unavailable → Trouble
  ants_not_reserved : Trouble

-- How an attempt ends: the error that it returns, and the request that it leaves.
pub data Scheduled : Type 0 where
  crashed : Scheduled
  scheduled : Option Trouble → Candidate → Scheduled

abbrev trouble_of : Option Problem → Option Trouble
trouble_of none = none
trouble_of (some p) = some (not_stored p)

abbrev pub with_machine : JobMachine → Candidate → Candidate
with_machine m c = record c { launching = record c.launching { machine = m } }

-- The attempt fails the request.
unfoldable pub fail_attempt : Attempt → String → String → Candidate → Scheduled
fail_attempt a message code c =
    let (problem, m) = schedule_failed a.services.world message code c.launching.machine in
    scheduled (trouble_of problem) (with_machine m c)

-- Whether there was the last attempt.
abbrev pub last_attempt : Attempt → Candidate → Bool
last_attempt a c = ltb a.settings.max_schedule_attempts (c.schedule_attempts + 1)

-- How long a request waits for its next attempt, and whether its priority goes down.
unfoldable pub schedule_secs : Attempt → ℕ → ℕ
schedule_secs a attempts =
    if ltb a.settings.not_ready_max_wait (attempts * 5)
    then a.settings.not_ready_max_wait
    else attempts * 5

unfoldable pub loses_priority : ℕ → ℕ → Bool
loses_priority attempts priority = leb 5 attempts && (attempts % 5) == 0 && ltb 5 priority

-- No ants: the attempt is counted in the store, whose errors are ignored, unless it was the last.
unfoldable pub postpone : Attempt → Unavailable → Candidate → Scheduled
postpone a why c =
    let m = c.launching.machine in
    let attempts = c.schedule_attempts + 1 in
    let secs = schedule_secs a attempts in
    let (_, saved) =
      increment_schedule_attempts a.increment m.request_id secs "ants unavailable" m.store in
    if last_attempt a c
    then fail_attempt a "allocation failed" error_ant_resources c
    else scheduled (some (ants_unavailable why))
        (record (with_machine (record m { store = saved }) c) {
          scheduled_at = c.scheduled_at + secs;
          job_priority =
              if loses_priority attempts c.job_priority then c.job_priority - 1 else c.job_priority;
        })

-- The end of the attempt, from what `CreateJobExecution` answers.
unfoldable pub finish_attempt : Attempt → Candidate → Created → Scheduled
finish_attempt a c ((some _, _), l) =
    fail_attempt a "failed to create job execution" error_job_execute (record c { launching = l })
finish_attempt a c ((none, some _), l) =
    let (problem, reverted) =
      revert_request_to_pending_paused a.services "failed to send launch event" l in
    scheduled (trouble_of problem) (record c { launching = reverted })
finish_attempt a c ((none, none), l) = scheduled none (record c { launching = l })

-- The reservation of the ants and the new execution.
unfoldable pub start_job : Attempt → Candidate → Scheduled
start_job a c =
    let l = c.launching in
    elim (reserve_job_resources a.clock l.machine.request_id a.looked.tasks l.ants) [
      | crashes ↦ crashed
      | not_reserved got ants ↦
          let left = record c { launching = record l { ants = ants; reservations = got } } in
          if last_attempt a c
          then fail_attempt a "max schedule attempts exceeded" error_ant_resources left
          else scheduled (some ants_not_reserved) left
      | all_reserved got ants ↦
          finish_attempt a c
            (create_job_execution a.services (record l { ants = ants; reservations = got }))
    ]

-- The filter and the ants of a valid request within its quota; a filtered request ends without an
-- error, and the deletion of a filtered cron job is left out.
unfoldable pub find_ants : Attempt → Candidate → Scheduled
find_ants a c =
    let failing =
      schedule_failed a.services.world "job filtered" error_filtered_job c.launching.machine in
    if a.filtered
    then scheduled none (with_machine failing.1 c)
    else elim (check_ant_resources a c.launching.ants) [
      | some why ↦ postpone a why c
      | none ↦ start_job a c
    ]

-- `scheduleJob`
unfoldable pub schedule_job : Attempt → Candidate → Scheduled
schedule_job a given =
    let (refused, l) = validate_request a.looked given.launching in
    let c = record given { launching = l } in
    elim refused [
      | some _ ↦ fail_attempt a "failed to validate job-state" error_validation c
      | none ↦
          elim (check_subscription_quota a.settings.quotas_enabled a.user a.cpu_usage
            a.disk_usage) [
              | Quota.crashes ↦ crashed
              | exceeded _ ↦ fail_attempt a "quota-error" error_quota_exceeded c
              | within _ _ ↦ find_ants a c
            ]
    ]

-- How a launch ends: a supervisor runs the job, or there is none.
pub data Launched : Type 0 where
  supervised : Launching → Launched
  not_launched : Option Problem → Launching → Launched

-- `launchJob`, for the request that was found: a missing reservation puts it back, another error
-- fails it.
unfoldable pub launch_job : Services → Looked → String → Launching → Launched
launch_job v k id given =
    let (refused, l) = prepare_launch v.lookup_fails k id given in
    let (problem, failing) = launch_failed v.world "failed to launch" l.machine in
    elim refused [
      | none ↦ supervised l
      | some (no_reservation task) ↦
          let (unsaved, reverted) =
            revert_request_to_pending_paused v "no ant reservations found" l in
          not_launched unsaved reverted
      | some _ ↦ not_launched problem (record l { machine = failing })
    ]
