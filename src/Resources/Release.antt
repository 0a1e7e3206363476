-- ===== src/Resources/Release.antt =====
-- What releasing an ant frees, and what it keeps.
use formicary.Common.{
  String, ◌≡◌, refl, sym, Bool, true, false, arith, ◌&&◌, [], ◌∷◌, Option, none, some, str_eq,
  str_eq_iff, if◌then◌else◌, Map, get, put, del, get-put, get-del, length, and-true, Option-cases,
  Bool-cases, inl, inr, ◌==◌, subst, ◌∙◌,
}
use formicary.Types.RequestState.{RequestState}
use formicary.Resources.{State, Allocation, Reservation, release}

-- The state of a task in an allocation, and in the ant's allocation for a request.
abbrev state_in : Option Allocation → String → Option RequestState
state_in none task = none
state_in (some a) task = get task a.task_types

abbrev held_by : Option (Map Allocation) → Map Allocation
held_by none = []
held_by (some held) = held

abbrev pub allocated : String → String → String → State → Option RequestState
allocated ant request task s = state_in (get request (held_by (get ant s.allocations_by_ant))) task

abbrev pub names : Reservation → String → String → String → Bool
names r ant request task =
    str_eq r.ant_id ant && (str_eq r.job_request_id request && str_eq r.task_type task)

no_task : (m : Map RequestState) (task : String) → (length m == 0) ≡ true → get task m ≡ none
unfolding get
no_task [] task h = refl
no_task (x ∷ m) task h = ground arith

-- The effect of a release on the map of the ant, on the request's allocation.
after_release : String → String → Map Allocation → Allocation → Map Allocation
after_release request task held a =
    if length (del task a.task_types) == 0
    then del request held
    else put request (record a { task_types = del task a.task_types }) held

after_release-state :
    (request task q t : String) (held : Map Allocation) (a : Allocation)
    → get request held ≡ some a
    → state_in (get q (after_release request task held a)) t
      ≡ (if str_eq request q && str_eq task t then none else state_in (get q held) t)
unfolding after_release
after_release-state request task q t held a found =
    elim (Bool-cases (length (del task a.task_types) == 0)) [
      | inl gone ↦ rw (gone, get-del request q held) (emptied gone)
      | inr kept ↦
          rw (kept, get-put request q (record a { task_types = del task a.task_types }) held)
            (shrunk _ refl)
    ]
  where
    other : str_eq request q ≡ true → state_in (get q held) t ≡ get t a.task_types
    other same =
        let alike = (str_eq_iff request q).0 same in
        subst (λ k. state_in (get k held) t ≡ get t a.task_types) alike (rw (found) refl)

    emptied :
        (length (del task a.task_types) == 0) ≡ true
        → state_in (if str_eq request q then none else get q held) t
          ≡ (if str_eq request q && str_eq task t then none else state_in (get q held) t)
    emptied gone = elim (Bool-cases (str_eq request q)) [
      | inr differs ↦ rw (differs) refl
      | inl same ↦
          rw (same, other same)
            (sym (no_task (del task a.task_types) t gone) ∙ get-del task t a.task_types)
    ]

    shrunk :
        (b : Bool)
        → str_eq request q ≡ b
        → state_in
            (if b then some (record a { task_types = del task a.task_types }) else get q held)
            t
          ≡ (if b && str_eq task t then none else state_in (get q held) t)
    shrunk true same = rw (other same) (get-del task t a.task_types)
    shrunk false differs = refl

-- The tables after a release.
release-at :
    (r : Reservation) (s : State) (held : Map Allocation) (a : Allocation)
    → get r.ant_id s.allocations_by_ant ≡ some held
    → get r.job_request_id held ≡ some a
    → (release r s).allocations_by_ant
      ≡ put r.ant_id (after_release r.job_request_id r.task_type held a) s.allocations_by_ant
unfolding release after_release
release-at r s held a by_ant by_request =
    elim (Bool-cases (length (del r.task_type a.task_types) == 0)) [
      | inl gone ↦ rw (release, by_ant, by_request, gone) refl
      | inr kept ↦ rw (release, by_ant, by_request, kept) refl
    ]

free_already :
    (r : Reservation) (ant request task : String) (s : State)
    → (names r ant request task ≡ true → allocated ant request task s ≡ none)
    → allocated ant request task s
      ≡ (if names r ant request task then none else allocated ant request task s)
free_already r ant request task s free = elim (Bool-cases (names r ant request task)) [
  | inl same ↦ rw (same) (free same)
  | inr differs ↦ rw (differs) refl
]

at_named :
    (r : Reservation) (ant request task : String) (s : State)
    → names r ant request task ≡ true
    → allocated r.ant_id r.job_request_id r.task_type s ≡ none
    → allocated ant request task s ≡ none
at_named r ant request task s same free =
    let (a, rest) = and-true _ _ same in
    let (b, c) = and-true _ _ rest in
    let by_ant =
      subst (λ k. allocated k r.job_request_id r.task_type s ≡ none) ((str_eq_iff r.ant_id ant).0 a)
        free in
    let by_request =
      subst (λ k. allocated ant k r.task_type s ≡ none) ((str_eq_iff r.job_request_id request).0 b)
        by_ant in
    subst (λ k. allocated ant request k s ≡ none) ((str_eq_iff r.task_type task).0 c) by_request

put-allocated :
    (r : Reservation) (ant request task : String) (s : State) (held : Map Allocation)
    (a : Allocation)
    → get r.ant_id s.allocations_by_ant ≡ some held
    → get r.job_request_id held ≡ some a
    → state_in
        (get request (
          held_by (
            get ant (
              put r.ant_id
                (after_release r.job_request_id r.task_type held a)
                s.allocations_by_ant))))
        task
      ≡ (if names r ant request task then none else allocated ant request task s)
put-allocated r ant request task s held a by_ant by_request =
    rw
      (get-put r.ant_id ant (after_release r.job_request_id r.task_type held a)
        s.allocations_by_ant)
      (elim (Bool-cases (str_eq r.ant_id ant)) [
        | inr differs ↦ rw (differs) refl
        | inl same ↦
            rw (same, ← here same)
              (after_release-state r.job_request_id r.task_type request task held a by_request)
      ])
  where
    here :
        str_eq r.ant_id ant ≡ true → state_in (get request held) task ≡ allocated ant request task s
    here same =
        subst
          (λ k.
            state_in (get request held) task
            ≡ state_in (get request (held_by (get k s.allocations_by_ant))) task)
          ((str_eq_iff r.ant_id ant).0 same) (rw (by_ant) refl)

-- `release` frees exactly the task that the reservation names: that task has no allocation at the
-- ant for the request any more, and every other task, request and ant has the allocation it had.
pub release-allocated :
    (r : Reservation) (ant request task : String) (s : State)
    → allocated ant request task (release r s)
      ≡ (if names r ant request task then none else allocated ant request task s)
unfolding release get
release-allocated r ant request task s = elim (Option-cases (get r.ant_id s.allocations_by_ant)) [
  | inl gone ↦
      rw (release, gone)
        (free_already r ant request task s
          (λ same. at_named r ant request task s same (rw (gone) refl)))
  | inr (held, by_ant) ↦ elim (Option-cases (get r.job_request_id held)) [
    | inl gone ↦
        rw (release, by_ant, gone)
          (free_already r ant request task s
            (λ same. at_named r ant request task s same (rw (by_ant, gone) refl)))
    | inr (a, by_request) ↦
        subst
          (λ table.
            state_in (get request (held_by (get ant table))) task
            ≡ (if names r ant request task then none else allocated ant request task s))
          (sym (release-at r s held a by_ant by_request))
          (put-allocated r ant request task s held a by_ant by_request)
  ]
]
