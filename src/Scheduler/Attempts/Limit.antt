-- ===== src/Scheduler/Attempts/Limit.antt =====
-- A request that finds no ants, up to the limit on its attempts.
use formicary.Common.{
  String, ℕ, suc, ◌+◌, ◌≤◌, ◌<◌, ◌≡◌, ◌⊎◌, inl, inr, refl, ap, ◌∙◌, arith, true, false, List, [],
  ◌∷◌, length, none, some, str_eq, str_eq_refl, All, ltb, Bool-cases,
}
use formicary.Types.RequestState.{
  RequestState, ◌is◌, ◌is_not◌, pending, paused, failed, other, can_transition_to,
}
use formicary.Types.ErrorCode.{error_ant_resources}
use formicary.Repository.Store.{Store, Driver, update_job_state, increment_schedule_attempts}
use formicary.Resources.{State}
use formicary.Supervisor.JobRun.{
  revert_state_of, schedule_failed, fail_job, fail_request, update_request_state,
}
use formicary.Scheduler.{
  Attempt, Candidate, Unavailable, schedule_job, find_ants, postpone, fail_attempt, last_attempt,
  check_ant_resources,
}
use formicary.Scheduler.Attempts.{
  reload, is_schedulable, left_by, attempt_with, schedule_all, FindsNone, validated,
  validate_request-valid, quota-off, row_state, tries,
}

find_ants-postpone :
    (a : Attempt) (c : Candidate) (why : Unavailable)
    → a.filtered ≡ false
    → check_ant_resources a c.launching.ants ≡ some why
    → find_ants a c ≡ postpone a why c
unfolding find_ants
find_ants-postpone a c why kept none_found = rw (find_ants, none_found, kept) refl

-- The step of such an attempt.
schedule_job-postpone :
    (most : ℕ) (a : Attempt) (c : Candidate)
    → FindsNone most (c.launching.ants, a)
    → (why : Unavailable) × (schedule_job a c ≡ postpone a why (validated c))
unfolding schedule_job
schedule_job-postpone most a c (valid, required, free, kept, _, _, _, (why, none_found)) = (
  why,
  rw
      (
        schedule_job,
        validate_request-valid a.looked c.launching valid required,
        quota-off a free,
        validate_request-valid a.looked c.launching valid required,
      )
      (find_ants-postpone a (validated c) why kept none_found),
)

data Reverts : RequestState → Type 0 where
  to_pending : Reverts pending
  to_paused : Reverts paused

Reverts-back :
    (s : RequestState)
    → is_schedulable s ≡ true
    → Reverts (revert_state_of s) × ((s is revert_state_of s) ≡ true)
unfolding revert_state_of
Reverts-back pending h = (to_pending, refl)
Reverts-back paused h = (to_paused, refl)
Reverts-back _ h = absurd (cc h)

Reverts-failed : {s : RequestState} → Reverts s → can_transition_to s failed ≡ true
unfolding can_transition_to
Reverts-failed to_pending = refl
Reverts-failed to_paused = refl

Reverts-checked : {s : RequestState} → Reverts s → (s is_not other "") ≡ true
Reverts-checked to_pending = refl
Reverts-checked to_paused = refl

update_job_state-failed :
    (d : Driver) (id message code : String) (old : RequestState) (delay retried paused_count : ℕ)
    (s : Store)
    → d.first_fails ≡ false
    → str_eq s.request.id id ≡ true
    → (s.request.job_state is old) ≡ true
    → Reverts old
    → (update_job_state d id old failed message code delay retried paused_count
        s).1.request.job_state
      ≡ failed
unfolding update_job_state
update_job_state-failed d id message code old delay retried paused_count s works row was reverts =
    rw (Reverts-failed reverts, Reverts-checked reverts, works, row, was) refl

-- A candidate that was read from its row.
record IsLoaded (c : Candidate) : Type 0 where
  attempts : c.schedule_attempts ≡ tries c
  named : str_eq c.launching.machine.store.request.id c.launching.machine.request_id ≡ true
  new : c.launching.machine.execution ≡ none
  reverts : Reverts c.launching.machine.revert_state
  was : (row_state c is c.launching.machine.revert_state) ≡ true

fail_attempt-failed :
    (a : Attempt) (message code : String) (c d : Candidate)
    → a.services.world.second.first_fails ≡ false
    → IsLoaded c
    → row_state (left_by d (fail_attempt a message code c)) ≡ failed
unfolding fail_attempt schedule_failed fail_job fail_request update_request_state
fail_attempt-failed a message code c d works loaded =
    rw (fail_attempt, fail_job, loaded.new)
      (update_job_state-failed a.services.world.second c.launching.machine.request_id message _ _ _
        _ _ c.launching.machine.store works loaded.named loaded.was loaded.reverts)

postpone-row :
    (most : ℕ) (a : Attempt) (why : Unavailable) (c d : Candidate)
    → a.settings.max_schedule_attempts ≡ most
    → a.increment.first_fails ≡ false
    → a.services.world.second.first_fails ≡ false
    → IsLoaded c
    → let after = left_by d (postpone a why c) in
      ((most < tries c + 1) × (row_state after ≡ failed))
      ⊎ (tries c + 1 ≤ most) × (row_state after ≡ row_state c) × (tries after ≡ tries c + 1)
unfolding postpone increment_schedule_attempts
postpone-row most a why c d limit counts works loaded = elim (Bool-cases (last_attempt a c)) [
  | inl last ↦ inl (
    past most a.settings.max_schedule_attempts c.schedule_attempts (tries c) limit loaded.attempts
        last,
    rw (last) (fail_attempt-failed a "allocation failed" error_ant_resources c d works loaded),
  )
  | inr before ↦
      let kept =
        within_limit most a.settings.max_schedule_attempts c.schedule_attempts (tries c) limit
          loaded.attempts before in
      inr (rw (before, increment_schedule_attempts, counts, loaded.named) (kept, refl, refl))
]
  where
    past :
        (most limit n tried : ℕ)
        → limit ≡ most
        → n ≡ tried
        → ltb limit (n + 1) ≡ true
        → most < tried + 1
    past most limit n tried e f h = ground arith

    within_limit :
        (most limit n tried : ℕ)
        → limit ≡ most
        → n ≡ tried
        → ltb limit (n + 1) ≡ false
        → tried + 1 ≤ most
    within_limit most limit n tried e f h = ground arith

IsLoaded-from :
    (c : Candidate) → is_schedulable (row_state c) ≡ true → IsLoaded (validated (reload c))
unfolding reload
IsLoaded-from c schedulable =
    let (reverts, was) = Reverts-back (row_state c) schedulable in
    record {
      attempts = refl;
      named = str_eq_refl c.launching.machine.store.request.id;
      new = refl;
      reverts = reverts;
      was = was;
    }

-- What one attempt that finds no ants does to the row.
round-row :
    (most : ℕ) (ants : State) (a : Attempt) (c : Candidate)
    → FindsNone most (ants, a)
    → is_schedulable (row_state c) ≡ true
    → let after = attempt_with ants a c in
      ((most < tries c + 1) × (row_state after ≡ failed))
      ⊎ (tries c + 1 ≤ most) × (row_state after ≡ row_state c) × (tries after ≡ tries c + 1)
unfolding reload
round-row most ants a c finds schedulable =
    let c' : Candidate = record c { launching = record c.launching { ants = ants } } in
    let found = reload c' in
    let (_, _, _, _, limit, counts, works, _) = finds in
    let (why, e) = schedule_job-postpone most a found finds in
    rw (e) (
      postpone-row most a why (validated found) found limit counts works
        (IsLoaded-from c' schedulable))

-- Further rounds leave a failed request alone.
schedule_all-failed :
    (rounds : List (State × Attempt)) (c : Candidate)
    → row_state c ≡ failed
    → row_state (schedule_all rounds c) ≡ failed
unfolding schedule_all
schedule_all-failed [] c h = h
schedule_all-failed ((ants, a) ∷ rounds) c h =
    rw (ap is_schedulable h) (schedule_all-failed rounds c h)

-- After a number of rounds from a count of attempts: the request waits with its attempts counted,
-- or it is past the limit and has failed.
abbrev pub Tried : ℕ → ℕ → Candidate → Candidate → Type 0
Tried most n before after =
    ((most < tries before + n) × (row_state after ≡ failed))
    ⊎ (tries before + n ≤ most)
      × (row_state after ≡ row_state before)
      × (tries after ≡ tries before + n)

Tried-next :
    (most n : ℕ) (c next after : Candidate)
    → row_state next ≡ row_state c
    → tries next ≡ tries c + 1
    → Tried most n next after
    → Tried most (suc n) c after
Tried-next most n c next after same counted (inl (past, fails)) = inl (omega arith, fails)
Tried-next most n c next after same counted (inr (le, kept, total)) =
    inr (omega arith, kept ∙ same, omega arith)

-- When no attempt finds ants for a PENDING or PAUSED request, where quotas are off, the definition is
-- valid and asks for no parameters, no attempt is filtered out and the database works, each attempt is
-- counted and the request waits for the next, until the attempts of the configuration are used
-- up: the next attempt fails the request, and it stays failed.
pub schedule_all-Tried :
    (most : ℕ) (rounds : List (State × Attempt)) (c : Candidate)
    → is_schedulable (row_state c) ≡ true
    → tries c ≤ most
    → All (FindsNone most) rounds
    → Tried most (length rounds) c (schedule_all rounds c)
unfolding schedule_all
schedule_all-Tried most [] c schedulable within_limit finds = inr (omega arith, refl, omega arith)
schedule_all-Tried most ((ants, a) ∷ rounds) c schedulable within_limit (finds, rest) =
    rw (schedulable) (elim (round-row most ants a c finds schedulable) [
      | inl (past, fails) ↦ inl (omega arith, schedule_all-failed rounds _ fails)
      | inr (le, same, counted) ↦
          let next = attempt_with ants a c in
          Tried-next most (length rounds) c next (schedule_all rounds next) same counted (
            schedule_all-Tried most rounds next (rw (ap is_schedulable same) schedulable)
              (omega (arith, counted, le)) rest)
    ])
