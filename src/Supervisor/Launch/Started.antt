-- ===== src/Supervisor/Launch/Started.antt =====
-- What `CreateJobExecution` leaves in the store.
use formicary.Common.{
  String, ◌≡◌, ◌⊎◌, inl, inr, refl, ap, subst, Bool, true, false, ◌&&◌, ◌||◌, Option, none, some,
  is_some, get, get-put_self, Bool-cases, Option-cases, some-injective, or-false,
}
use formicary.Types.RequestState.{◌is_not◌, pending, ready, paused, is_terminal}
use formicary.Repository.Store.{
  Store, ExecutionRow, RequestRow, Driver, DbError, Outcome, is_empty, in_states, update_request,
  terminal_states, set_ready_to_execute, reset_state_to_ready,
}
use formicary.Repository.Store.Lifetimes.{create_execution, get_execution, get_execution_iff}
use formicary.Supervisor.JobRun.{Execution}
use formicary.Supervisor.Launch.{Services, Launching, in_memory}
use formicary.Supervisor.Launch.Creation.{
  Created, Obtained, obtained, not_obtained, obtained_from, save_new, old_execution,
  obtain_execution, new_job_execution, send_launch_job_event, set_ready_and_send,
  create_job_execution,
}

-- The execution's row is there, active and in the state READY.
abbrev pub HasReady : String → Store → Type 0
HasReady id s =
    (e : ExecutionRow) × (get id s.executions ≡ some e) × (e.job_state ≡ ready) × (e.active ≡ true)

-- The request's row is READY with the execution, whose row is READY.
abbrev BothReady : String → Store → Type 0
BothReady id s =
    (s.request.job_state ≡ ready)
    × (s.request.job_execution_id ≡ id)
    × (is_empty id ≡ false)
    × HasReady id s

-- The execution's row, if it is there, is active.
abbrev IsActive : String → Store → Type 0
IsActive id s = (e : ExecutionRow) × (get id s.executions ≡ some e) × (e.active ≡ true)

abbrev Resets : String → Store → Outcome → Type 0
Resets id s (none, saved) = HasReady id saved × (saved.request ≡ s.request)
Resets id s (some p, saved) = saved ≡ s

create_execution-Resets : (d : Driver) (s : Store) → Resets d.ulid s (create_execution d ready s)
unfolding create_execution
create_execution-Resets d s =
    elim (Bool-cases (d.first_fails || is_some (get d.ulid s.executions))) [
      | inl fails ↦ rw (fails) refl
      | inr works ↦ rw (works) ((_, get-put_self d.ulid _ s.executions, refl, refl), refl)
    ]

reset_state_to_ready-Resets :
    (d : Driver) (id : String) (s : Store)
    → IsActive id s
    → Resets id s (reset_state_to_ready d id s)
unfolding reset_state_to_ready
reset_state_to_ready-Resets d id s (e, found, active) = elim (Bool-cases d.first_fails) [
  | inl fails ↦ rw (fails) refl
  | inr works ↦ elim (Bool-cases (in_states terminal_states e.job_state)) [
    | inl ended ↦ rw (reset_state_to_ready, works, found, ended) refl
    | inr live ↦
        rw (reset_state_to_ready, works, found, live)
          ((_, get-put_self id _ s.executions, refl, active), refl)
  ]
]

-- An execution that was looked up is active.
old_execution-IsActive :
    (v : Services) (l : Launching) (e : Execution)
    → old_execution v l ≡ some e
    → IsActive e.id l.machine.store
unfolding old_execution
old_execution-IsActive v l e h = elim (Bool-cases (is_empty l.job_execution_id || v.lookup_fails)) [
  | inl missing ↦ absurd (cc (rw (old_execution, missing) at h))
  | inr given ↦ elim (Option-cases (get_execution l.job_execution_id l.machine.store)) [
    | inl gone ↦ absurd (cc (rw (old_execution, given, gone) at h))
    | inr (row, found) ↦
        subst (λ x. IsActive x.id l.machine.store)
          (some-injective (in_memory l.job_execution_id row) e
            (rw (old_execution, given, found) at h))
          (let (_, listed, active) =
              (get_execution_iff l.job_execution_id l.machine.store row).0 found in
            (row, listed, active))
  ]
]

abbrev Obtains : Store → Obtained → Type 0
Obtains s (obtained e saved) = HasReady e.id saved × (saved.request ≡ s.request)
Obtains s (not_obtained p left saved) = saved ≡ s

obtained_from-Obtains :
    (s : Store) (e : Execution) (left : Option Execution) (o : Outcome)
    → Resets e.id s o
    → Obtains s (obtained_from o e left)
obtained_from-Obtains s e left (none, saved) h = h
obtained_from-Obtains s e left (some p, saved) h = h

save_new-Obtains : (v : Services) (s : Store) → Obtains s (save_new v s)
unfolding new_job_execution
save_new-Obtains v s =
    let e = new_job_execution v.create.ulid in
    obtained_from-Obtains s e (some e) _ (create_execution-Resets v.create s)

obtain_execution-Obtains :
    (v : Services) (l : Launching) → Obtains l.machine.store (obtain_execution v l)
unfolding obtain_execution
obtain_execution-Obtains v l = elim (Option-cases (old_execution v l)) [
  | inl gone ↦ rw (obtain_execution, gone) (save_new-Obtains v l.machine.store)
  | inr (e, found) ↦ elim (Bool-cases (is_terminal e.job_state)) [
    | inl ended ↦ rw (obtain_execution, found, ended) (save_new-Obtains v l.machine.store)
    | inr live ↦
        rw (obtain_execution, found, live)
          (obtained_from-Obtains l.machine.store e none _ (
            reset_state_to_ready-Resets v.create e.id l.machine.store
              (old_execution-IsActive v l e found)))
  ]
]

abbrev SetsReady : String → Store → Outcome → Type 0
SetsReady id s (none, saved) =
    (saved.request.job_state ≡ ready)
    × (saved.request.job_execution_id ≡ id)
    × (is_empty id ≡ false)
    × (saved.executions ≡ s.executions)
SetsReady id s (some p, saved) = saved ≡ s

update_request-SetsReady :
    (id : String) (s : Store) (fails meets : Bool) (row : RequestRow)
    → row.job_state ≡ ready
    → row.job_execution_id ≡ id
    → is_empty id ≡ false
    → SetsReady id s (update_request s fails meets row)
update_request-SetsReady id s true meets row a b c = refl
update_request-SetsReady id s false true row a b c = (a, b, c, refl)
update_request-SetsReady id s false false row a b c = refl

set_ready_to_execute-SetsReady :
    (d : Driver) (id execution last : String) (s : Store)
    → SetsReady execution s (set_ready_to_execute d id execution last s)
unfolding set_ready_to_execute
set_ready_to_execute-SetsReady d id execution last s =
    elim (Bool-cases (is_empty id || is_empty execution)) [
      | inl missing ↦ rw (missing) refl
      | inr given ↦ rw (given) (elim (Bool-cases d.first_fails) [
        | inl fails ↦ rw (fails) refl
        | inr works ↦ rw (works) (elim (Option-cases (get execution s.executions)) [
          | inl gone ↦ rw (set_ready_to_execute, gone) refl
          | inr (e, found) ↦
              rw (set_ready_to_execute, found)
                (update_request-SetsReady execution s d.second_fails _ _ refl refl
                  (or-false (is_empty id) (is_empty execution) given).1)
        ])
      ])
    ]

-- What the answer says of the store: after an error of the database the request's row is as it was,
-- else it is READY with an execution that is READY, and so is the request in memory.
abbrev pub Starts : RequestRow → Created → Type 0
Starts row ((some p, event), l) = l.machine.store.request ≡ row
Starts row ((none, event), l) =
    BothReady l.job_execution_id l.machine.store × (l.machine.request_state ≡ ready)

SetsReady-none :
    (id : String) (s : Store) (o : Outcome)
    → SetsReady id s o
    → o.0 ≡ none
    → SetsReady id s (none, o.1)
SetsReady-none id s (none, saved) h e = h
SetsReady-none id s (some p, saved) h e = absurd (cc e)

SetsReady-some :
    (id : String) (s : Store) (o : Outcome) → SetsReady id s o → is_some o.0 ≡ true → o.1 ≡ s
SetsReady-some id s (none, saved) h e = absurd (cc e)
SetsReady-some id s (some p, saved) h e = h

Obtained-cases :
    (o : Obtained)
    → ((p : DbError) × (left : Option Execution) × (saved : Store) × (o
          ≡ not_obtained p left saved))
      ⊎ ((e : Execution) × (saved : Store) × (o ≡ obtained e saved))
Obtained-cases (not_obtained p left saved) = inl (p, left, saved, refl)
Obtained-cases (obtained e saved) = inr (e, saved, refl)

send_launch_job_event-same :
    (v : Services) (l : Launching) → v.marshals ≡ true → (send_launch_job_event v l).1 ≡ l
unfolding send_launch_job_event
send_launch_job_event-same v l marshals = elim (Bool-cases v.sends) [
  | inl sends ↦ rw (marshals, sends) refl
  | inr fails ↦ rw (marshals, fails) refl
]

set_ready_and_send-Starts :
    (v : Services) (e : Execution) (l : Launching)
    → v.marshals ≡ true
    → HasReady e.id l.machine.store
    → Starts l.machine.store.request (set_ready_and_send v e l)
unfolding set_ready_and_send
set_ready_and_send-Starts v e l marshals (row, found, is_ready, active) =
    let o =
      set_ready_to_execute v.set_ready l.machine.request_id e.id l.last_job_execution_id
        l.machine.store in
    let sets =
      set_ready_to_execute-SetsReady v.set_ready l.machine.request_id e.id l.last_job_execution_id
        l.machine.store in
    elim (Option-cases o.0) [
      | inr (p, refused) ↦
          let unchanged = SetsReady-some e.id l.machine.store o sets (rw (refused) refl) in
          rw (set_ready_and_send, refused) (ap (λ t. t.request) unchanged)
      | inl set ↦
          let (a, b, c, d) = SetsReady-none e.id l.machine.store o sets set in
          let next : Launching = record l {
            job_execution_id = e.id;
            machine = record l.machine { request_state = ready; store = o.1 };
          } in
          let both : BothReady e.id o.1 = (a, b, c, (row, (rw (d) found), is_ready, active)) in
          rw (set_ready_and_send, set)
            (rw (send_launch_job_event-same v next marshals) (both, refl))
    ]

set_ready_and_send-reservations :
    (v : Services) (e : Execution) (l : Launching)
    → v.marshals ≡ true
    → (set_ready_and_send v e l).1.reservations ≡ l.reservations
unfolding set_ready_and_send
set_ready_and_send-reservations v e l marshals =
    let o =
      set_ready_to_execute v.set_ready l.machine.request_id e.id l.last_job_execution_id
        l.machine.store in
    elim (Option-cases o.0) [
      | inr (p, refused) ↦ rw (set_ready_and_send, refused) refl
      | inl set ↦
          let next : Launching = record l {
            job_execution_id = e.id;
            machine = record l.machine { request_state = ready; store = o.1 };
          } in
          rw (set_ready_and_send, set) (rw (send_launch_job_event-same v next marshals) refl)
    ]

-- The reservations stay as they are.
pub create_job_execution-reservations :
    (v : Services) (l : Launching)
    → v.marshals ≡ true
    → (create_job_execution v l).1.reservations ≡ l.reservations
unfolding create_job_execution
create_job_execution-reservations v l marshals = elim (Bool-cases (is_some l.machine.execution)) [
  | inl exists ↦ rw (exists) refl
  | inr new ↦
      rw (new)
        (elim (Bool-cases
          (l.machine.request_state is_not pending && l.machine.request_state is_not paused)) [
            | inl invalid ↦ rw (invalid) refl
            | inr valid ↦ rw (valid) (elim (Obtained-cases (obtain_execution v l)) [
              | inl (p, left, saved, e) ↦ rw (create_job_execution, e) refl
              | inr (x, saved, e) ↦
                  rw (create_job_execution, e)
                    (set_ready_and_send-reservations v x
                      (record l {
                        machine = record l.machine { execution = some x; store = saved };
                      })
                      marshals)
            ])
          ])
]

-- `CreateJobExecution` that reports an error of the database leaves the request's row as it was.
-- Without one, if the launch event could be made, the request's row is READY with an execution whose
-- row is READY, and the request in memory is READY with that execution, whether or not the event
-- was sent.
pub create_job_execution-Starts :
    (v : Services) (l : Launching)
    → v.marshals ≡ true
    → Starts l.machine.store.request (create_job_execution v l)
unfolding create_job_execution
create_job_execution-Starts v l marshals = elim (Bool-cases (is_some l.machine.execution)) [
  | inl exists ↦ rw (exists) refl
  | inr new ↦
      rw (new)
        (elim (Bool-cases
          (l.machine.request_state is_not pending && l.machine.request_state is_not paused)) [
            | inl invalid ↦ rw (invalid) refl
            | inr valid ↦ rw (valid) (elim (Obtained-cases (obtain_execution v l)) [
              | inl (p, left, saved, e) ↦
                  let same : saved ≡ l.machine.store =
                    subst (Obtains l.machine.store) e (obtain_execution-Obtains v l) in
                  rw (create_job_execution, e) (ap (λ t. t.request) same)
              | inr (x, saved, e) ↦
                  let (has, same) : HasReady x.id saved
                      × (saved.request ≡ l.machine.store.request) =
                    subst (Obtains l.machine.store) e (obtain_execution-Obtains v l) in
                  rw (create_job_execution, e)
                    (subst
                      (λ row. Starts row (
                        set_ready_and_send v x (record l {
                          machine = record l.machine { execution = some x; store = saved };
                        })))
                      same (set_ready_and_send-Starts v x _ marshals has))
            ])
          ])
]
