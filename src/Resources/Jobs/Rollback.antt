-- ===== src/Resources/Jobs/Rollback.antt =====
-- What is left of a job's reservations when one of its tasks finds no ant.
use formicary.Common.{
  String, ℕ, ◌≡◌, refl, Bool, true, false, List, [], ◌∷◌, none, some, is_some, str_eq, str_eq_iff,
  str_eq_refl, if◌then◌else◌, Map, get, put, del, keys, any, length, ◌==◌, set_of, holds,
  set_of-put, get-put, get-del_self, Option-cases, Bool-cases, some-injective, ◌⊎◌, inl, inr, subst,
}
use formicary.Types.TaskMethod.{TaskMethod}
use formicary.Definitions.Tasks.{TaskDefinition}
use formicary.Resources.{
  State, Allocation, Reservation, Clock, Answer, panics, no_method_ants, no_tag_ants, no_ants,
  reserves, reserve, chosen, candidates, missing_tag, release_job, release_ants, allocations_of,
  add_ants_by_request, add_allocations_by_ant, least,
}
use formicary.Resources.Jobs.{
  Reserved, crashes, all_reserved, not_reserved, do_reserve, reserve_tasks, reserve_job_resources,
}

-- Every ant that has an allocation of the request is among the ants of the request.
abbrev pub IsTracked : String → State → Type 0
IsTracked request s =
    (ant : String)
    → is_some (get request (allocations_of ant s)) ≡ true
    → holds ant (set_of request s.ants_by_request) ≡ true

-- No ant has an allocation of the request.
abbrev pub IsFree : String → State → Type 0
IsFree request s = (ant : String) → get request (allocations_of ant s) ≡ none

any-keys :
    {V : Type 0} (ant : String) (ks : Map V)
    → is_some (get ant ks) ≡ true
    → any (λ k. str_eq k ant) (keys ks) ≡ true
unfolding get
any-keys ant [] h = absurd (cc h)
any-keys ant ((k, v) ∷ ks) h = elim (Bool-cases (str_eq k ant)) [
  | inl same ↦ rw (same) refl
  | inr differs ↦ rw (differs) (any-keys ant ks (rw (get, differs) at h))
]

abbrev held_at : String → Map (Map Allocation) → Map Allocation
held_at ant table = elim (get ant table) [ none ↦ [] | some held ↦ held ]

held_at-put :
    (ant other : String) (held : Map Allocation) (table : Map (Map Allocation))
    → held_at other (put ant held table) ≡ (if str_eq ant other then held else held_at other table)
held_at-put ant other held table =
    rw (held_at, get-put ant other held table) (split (str_eq ant other))
  where
    split :
        (b : Bool)
        → ◌≡◌ {A = Map Allocation}
            (elim (if b then some held else get other table) [ none ↦ [] | some v ↦ v ])
            (if b then held else held_at other table)
    split true = refl
    split false = refl

nobody : (ant : String) → is_some (get {V = Unit {0}} ant []) ≡ true → ⊥
unfolding get
nobody ant h = cc h

module _ (request : String) where
  -- One round of the loop of `releaseJob`.
  abbrev freed : String → Map (Map Allocation) → Map (Map Allocation)
  freed ant table = elim (get ant table) [
    | none ↦ table
    | some held ↦ put ant (del request held) table
  ]

  freed_or_kept :
      (ant other : String) (table : Map (Map Allocation))
      → (get request (held_at other table) ≡ none) ⊎ (str_eq ant other ≡ true)
      → get request (held_at other (freed ant table)) ≡ none
  unfolding get
  freed_or_kept ant other table h = elim (Option-cases (get ant table)) [
    | inl gone ↦ elim h [
      | inl free ↦ rw (freed, gone) free
      | inr same ↦
          rw (freed, gone)
            (subst (λ k. get request (held_at k table) ≡ none) ((str_eq_iff ant other).0 same)
              (rw (held_at, gone) refl))
    ]
    | inr (held, found) ↦
        rw (freed, found, held_at-put ant other (del request held) table)
          (elim (Bool-cases (str_eq ant other)) [
            | inl same ↦ rw (same) (get-del_self request held)
            | inr differs ↦
                rw (differs) (elim h [ inl free ↦ free | inr same ↦ absurd (cc (differs, same)) ])
          ])
  ]

  release_ants-free :
      (other : String) (ants : List String) (table : Map (Map Allocation))
      → (get request (held_at other table) ≡ none) ⊎ (any (λ k. str_eq k other) ants ≡ true)
      → get request (held_at other (release_ants request ants table)) ≡ none
  unfolding release_ants
  release_ants-free other [] table (inl free) = free
  release_ants-free other [] table (inr h) = absurd (cc h)
  release_ants-free other (ant ∷ ants) table h =
      release_ants-free other ants (freed ant table) (elim (Bool-cases (str_eq ant other)) [
        | inl same ↦ inl (freed_or_kept ant other table (inr same))
        | inr differs ↦ elim h [
          | inl free ↦ inl (freed_or_kept ant other table (inl free))
          | inr listed ↦ inr (rw (differs) at listed)
        ]
      ])

  -- `releaseJob` frees every ant of a request whose ants are all known.
  pub release_job-IsFree :
      (s : State) → IsTracked request s → IsFree request (release_job request s)
  unfolding release_job
  release_job-IsFree s tracked ant = elim (Option-cases (get request s.ants_by_request)) [
    | inl gone ↦
        rw (release_job, gone)
          (elim (Option-cases (get request (allocations_of ant s))) [
            | inl free ↦ free
            | inr (a, found) ↦
                absurd (nobody ant (rw (set_of, gone) at (tracked ant (rw (found) refl))))
          ])
    | inr (ants, known) ↦
        rw (release_job, known)
          (release_ants-free ant (keys ants) s.allocations_by_ant
            (elim (Option-cases (get request (allocations_of ant s))) [
              | inl free ↦ inl free
              | inr (a, found) ↦
                  inr (any-keys ant ants (rw (set_of, known) at (tracked ant (rw (found) refl))))
            ]))
  ]

  -- Adding an allocation of the request, with its ant.
  added-IsTracked :
      (now : ℕ) (task ant : String) (s : State)
      → IsTracked request s
      → IsTracked request
          (add_ants_by_request request ant (add_allocations_by_ant now request task ant s).1)
  unfolding add_ants_by_request add_allocations_by_ant
  added-IsTracked now task ant s tracked other h =
      rw
        (
          set_of-put request request (put ant tt (set_of request s.ants_by_request))
              s.ants_by_request,
          str_eq_refl request,
          get-put ant other tt (set_of request s.ants_by_request),
        )
        (elim (Bool-cases (str_eq ant other)) [
          | inl same ↦ rw (same) refl
          | inr differs ↦
              rw (differs)
                (tracked other (rw (held_at-put ant other _ s.allocations_by_ant, differs) at h))
        ])

  abbrev Keeps : Answer → Type 0
  Keeps (reserves r s) = IsTracked request s
  Keeps _ = Unit

  reserve-Keeps :
      (c : Clock) (task : String) (method : TaskMethod) (tags : List String) (s : State)
      → IsTracked request s
      → Keeps (reserve c false request task method tags s)
  unfolding reserve chosen
  reserve-Keeps c task method tags s tracked =
      elim (Bool-cases (length (keys (set_of method s.ants_by_method)) == 0)) [
        | inl nobody ↦ rw (nobody) tt
        | inr some_ants ↦ rw (some_ants) (elim (Option-cases (missing_tag s tags)) [
          | inr (tag, missing) ↦ rw (reserve, missing) tt
          | inl tagged ↦
              elim (Option-cases
                (candidates c s request task method tags (keys (set_of method s.ants_by_method)))) [
                  | inl panic ↦ rw (reserve, tagged, panic) tt
                  | inr ([], found) ↦ rw (reserve, tagged, found) tt
                  | inr (r ∷ rs, found) ↦
                      rw (reserve, tagged, found)
                        (added-IsTracked c.now task (least r rs).ant_id s tracked)
                ]
        ])
      ]

  -- What a job that is not reserved leaves.
  abbrev pub LeavesFree : Reserved → Type 0
  LeavesFree (not_reserved got s) = IsFree request s
  LeavesFree (all_reserved got s) = IsTracked request s
  LeavesFree crashes = Unit

  do_reserve-Keeps :
      (c : Clock) (task : String) (method : TaskMethod) (tags : List String) (s : State)
      (answer : Answer)
      → IsTracked request s
      → do_reserve c false request task method tags s ≡ some answer
      → Keeps answer
  unfolding do_reserve
  do_reserve-Keeps c task method tags s answer tracked e = elim (Bool-cases (str_eq method "")) [
    | inl missing ↦ absurd (cc (rw (do_reserve, missing) at e))
    | inr given ↦
        subst Keeps (some-injective _ answer (rw (do_reserve, given) at e))
          (reserve-Keeps c task method tags s tracked)
  ]

  reserve_tasks-LeavesFree :
      (c : Clock) (tasks : List TaskDefinition) (got : Map Reservation) (s : State)
      → IsTracked request s
      → LeavesFree (reserve_tasks c false request tasks got s)
  unfolding reserve_tasks
  reserve_tasks-LeavesFree c [] got s tracked = tracked
  reserve_tasks-LeavesFree c (t ∷ ts) got s tracked =
      elim (Option-cases (do_reserve c false request t.task_type t.method t.tags s)) [
        | inl missing ↦ rw (reserve_tasks, missing) (release_job-IsFree s tracked)
        | inr (panics, e) ↦ rw (reserve_tasks, e) tt
        | inr (no_method_ants, e) ↦ rw (reserve_tasks, e) (release_job-IsFree s tracked)
        | inr (no_ants, e) ↦ rw (reserve_tasks, e) (release_job-IsFree s tracked)
        | inr (no_tag_ants tag, e) ↦ rw (reserve_tasks, e) (release_job-IsFree s tracked)
        | inr (reserves r after, e) ↦
            rw (reserve_tasks, e)
              (reserve_tasks-LeavesFree c ts (put t.task_type r got) after
                (do_reserve-Keeps c t.task_type t.method t.tags s (reserves r after) tracked e))
      ]

  -- When one of the tasks of a job finds no ant, `ReserveJobResources` leaves no allocation of the
  -- request at any ant, if the ants that had one before were known as ants of the request; when all
  -- tasks are reserved, the ants with an allocation of the request are still all known.
  pub reserve_job_resources-LeavesFree :
      (c : Clock) (tasks : List TaskDefinition) (s : State)
      → IsTracked request s
      → LeavesFree (reserve_job_resources c request tasks s)
  unfolding reserve_job_resources
  reserve_job_resources-LeavesFree c tasks s tracked = reserve_tasks-LeavesFree c tasks [] s tracked
