-- ===== src/Scheduler/Unreserved.antt =====
-- Attempts that find ants for the tags of a job, but none to reserve for one of its tasks.
use formicary.Common.{
  ℕ, ◌+◌, ◌≤◌, ◌≡◌, refl, sym, ◌∙◌, subst, arith, false, List, [], ◌∷◌, none, Map, All, ltb,
  Bool-cases, inl, inr,
}
use formicary.Repository.Store.{Store}
use formicary.Resources.{State, Reservation}
use formicary.Resources.Jobs.{not_reserved, reserve_job_resources}
use formicary.Scheduler.{
  Attempt, Candidate, schedule_job, find_ants, start_job, check_ant_resources,
}
use formicary.Scheduler.Attempts.{
  reload, schedule_all, attempt_with, is_schedulable, row_state, validated, validate_request-valid,
  quota-off,
}

abbrev pub store_of : Candidate → Store
store_of c = c.launching.machine.store

-- The attempt reserves no ants for the request of the row, and the attempts of the row are not used
-- up.
abbrev pub ReservesNone : Store → State × Attempt → Type 0
ReservesNone s (ants, a) =
    (a.looked.invalid ≡ none)
    × (a.looked.required_params ≡ [])
    × (a.settings.quotas_enabled ≡ false)
    × (a.filtered ≡ false)
    × (check_ant_resources a ants ≡ none)
    × (s.request.schedule_attempts + 1 ≤ a.settings.max_schedule_attempts)
    × ((got : Map Reservation) × (left : State) × (reserve_job_resources a.clock s.request.id
            a.looked.tasks ants
          ≡ not_reserved got left))

find_ants-start_job :
    (a : Attempt) (c : Candidate)
    → a.filtered ≡ false
    → check_ant_resources a c.launching.ants ≡ none
    → find_ants a c ≡ start_job a c
unfolding find_ants
find_ants-start_job a c kept available = rw (find_ants, available, kept) refl

not_last : (most n : ℕ) → n + 1 ≤ most → ltb most (n + 1) ≡ false
not_last most n h = ground arith

attempt_with-same :
    (ants : State) (a : Attempt) (c : Candidate)
    → ReservesNone (store_of c) (ants, a)
    → store_of (attempt_with ants a c) ≡ store_of c
unfolding reload schedule_job start_job
attempt_with-same ants a c (valid, required, free, kept, available, more, (got, left, refused)) =
    let found = reload (record c { launching = record c.launching { ants = ants } }) in
    rw
      (
        schedule_job,
        validate_request-valid a.looked found.launching valid required,
        quota-off a free,
        validate_request-valid a.looked found.launching valid required,
        find_ants-start_job a (validated found) kept available,
      )
      (rw (start_job, refused, not_last _ _ more) refl)

-- Attempts that find ants for the tags but none to reserve leave the request's row as it was, however
-- many there are, if the attempts counted before are below the maximum, quotas are off, the definition
-- is valid and asks for no parameters, and none is filtered out: no attempt is counted, so the limit on
-- attempts is never reached.
pub schedule_all-uncounted :
    (rounds : List (State × Attempt)) (c : Candidate)
    → All (ReservesNone (store_of c)) rounds
    → store_of (schedule_all rounds c) ≡ store_of c
unfolding schedule_all
schedule_all-uncounted [] c h = refl
schedule_all-uncounted ((ants, a) ∷ rounds) c (refused, rest) =
    elim (Bool-cases (is_schedulable (row_state c))) [
      | inr kept ↦ rw (kept) (schedule_all-uncounted rounds c rest)
      | inl tried ↦
          let next = attempt_with ants a c in
          let same = attempt_with-same ants a c refused in
          rw (tried) (
            schedule_all-uncounted rounds next
              (subst (λ s. All (ReservesNone s) rounds) (sym same) rest)
            ∙ same)
    ]
