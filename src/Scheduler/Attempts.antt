-- ===== src/Scheduler/Attempts.antt =====
-- The attempts to schedule one request, one after another. Before each the scheduler reads the row
-- again, and leaves a request alone that is neither PENDING nor PAUSED.
pub mod Limit
use formicary.Common.{
  String, ℕ, suc, ◌+◌, ◌≤◌, ◌<◌, ◌≡◌, ◌⊎◌, inl, inr, refl, ap, ◌∙◌, arith, Bool, true, false, ◌||◌,
  List, [], ◌∷◌, length, none, some, str_eq, str_eq_refl, if◌then◌else◌, All, ltb, Bool-cases,
}
use formicary.Types.RequestState.{
  RequestState, ◌is◌, ◌is_not◌, pending, paused, failed, other, can_transition_to,
}
use formicary.Types.ErrorCode.{error_ant_resources}
use formicary.Repository.Store.{Store, Driver, update_job_state, increment_schedule_attempts}
use formicary.Resources.{State}
use formicary.Supervisor.JobRun.{
  revert_state_of, schedule_failed, fail_job, fail_request, update_request_state,
}
use formicary.Supervisor.Launch.{Looked, Launching, validate_request, missing_params}
use formicary.Scheduler.Quota.{check_subscription_quota, within}
use formicary.Scheduler.{
  Attempt, Candidate, Scheduled, crashed, scheduled, Unavailable, schedule_job, find_ants, postpone,
  fail_attempt, last_attempt, check_ant_resources, with_machine,
}

-- The request as it is read from its row, with a new machine.
abbrev pub reread : Launching → Launching
reread l =
    let r = l.machine.store.request in
    record l {
      job_execution_id = r.job_execution_id;
      last_job_execution_id = r.last_job_execution_id;
      machine = record l.machine {
        request_id = r.id;
        request_state = r.job_state;
        retried = r.retried;
        paused_count = r.paused_count;
        cron_triggered = r.cron_triggered;
        execution = none;
      };
    }

unfoldable pub reload : Candidate → Candidate
reload c =
    let r = c.launching.machine.store.request in
    record c {
      schedule_attempts = r.schedule_attempts;
      scheduled_at = r.scheduled_at;
      launching = reread c.launching;
    }

-- The requests that `schedulePendingJobs` asks for.
abbrev pub is_schedulable : RequestState → Bool
is_schedulable s = s is pending || s is paused

abbrev pub left_by : Candidate → Scheduled → Candidate
left_by c crashed = c
left_by c (scheduled _ c') = c'

-- One `scheduleJob` of the request, with the ants at the time.
abbrev pub attempt_with : State → Attempt → Candidate → Candidate
attempt_with ants a c =
    let found = reload (record c { launching = record c.launching { ants = ants } }) in
    left_by found (schedule_job a found)

-- `scheduleJob` for each time that the request is found; the ants may change in between.
unfoldable pub schedule_all : List (State × Attempt) → Candidate → Candidate
unfolding reload schedule_job
schedule_all [] c = c
schedule_all ((ants, a) ∷ rounds) c = schedule_all rounds (
    if is_schedulable c.launching.machine.store.request.job_state then attempt_with ants a c else c)

-- The attempt finds no ants, and the database works.
abbrev pub FindsNone : ℕ → State × Attempt → Type 0
FindsNone most (ants, a) =
    (a.looked.invalid ≡ none)
    × (a.looked.required_params ≡ [])
    × (a.settings.quotas_enabled ≡ false)
    × (a.filtered ≡ false)
    × (a.settings.max_schedule_attempts ≡ most)
    × (a.increment.first_fails ≡ false)
    × (a.services.world.second.first_fails ≡ false)
    × ((why : Unavailable) × (check_ant_resources a ants ≡ some why))

abbrev pub validated : Candidate → Candidate
validated c =
    let m = c.launching.machine in
    with_machine (record m { revert_state = revert_state_of m.request_state }) c

pub validate_request-valid :
    (k : Looked) (l : Launching)
    → k.invalid ≡ none
    → k.required_params ≡ []
    → validate_request k l ≡ (
      none,
      record l {
        machine = record l.machine { revert_state = revert_state_of l.machine.request_state };
      },
    )
unfolding validate_request missing_params
validate_request-valid k l valid required = rw (validate_request, valid, required) refl

pub quota-off :
    (a : Attempt)
    → a.settings.quotas_enabled ≡ false
    → check_subscription_quota a.settings.quotas_enabled a.user a.cpu_usage a.disk_usage
      ≡ within 0 0
unfolding check_subscription_quota
quota-off a free = rw (free) refl

-- The state of the request's row, and how often it was tried.
abbrev pub row_state : Candidate → RequestState
row_state c = c.launching.machine.store.request.job_state

abbrev pub tries : Candidate → ℕ
tries c = c.launching.machine.store.request.schedule_attempts
