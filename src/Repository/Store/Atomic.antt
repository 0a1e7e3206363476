-- ===== src/Repository/Store/Atomic.antt =====
-- The two transactions over the request row and the execution row.
use formicary.Common.{
  String, ℕ, ◌⊎◌, inl, inr, refl, and-true, not-true, is_some, ◌≡◌, Bool, true, false, none, some,
  get, get-put_self, Option-cases, str_eq, str_eq_iff, Bool-cases, not, ◌&&◌,
}
use formicary.Types.RequestState.{RequestState, ◌is◌, can_finalize, is_terminal}
use formicary.Repository.Store.{
  Store, ExecutionRow, RequestRow, Driver, DbError, Outcome, finalize,
  update_request_and_execution_state, update_execution, not_found, in_states, terminal_states,
}

-- Both rows were in the old state, the execution was not terminal, and both are in the new state.
abbrev pub MovedBoth : String → RequestState → RequestState → Store → Store → Type 0
MovedBoth id old_state new_state s s' =
    (s.request.job_execution_id ≡ id)
    × ((s.request.job_state is old_state) ≡ true)
    × (s'.request.job_state ≡ new_state)
    × (e : ExecutionRow) × (e' : ExecutionRow) × (get id s.executions ≡ some e)
    × ((e.job_state is old_state) ≡ true)
    × (in_states terminal_states e.job_state ≡ false)
    × (get id s'.executions ≡ some e')
    × (e'.job_state ≡ new_state)

-- A transaction that reports an error leaves both rows as they were; one that succeeds moves both.
abbrev pub Atomic : String → RequestState → RequestState → Store → Outcome → Type 0
Atomic id old_state new_state s o =
    ((is_some o.0 ≡ true) × (o.1 ≡ s)) ⊎ ((o.0 ≡ none) × MovedBoth id old_state new_state s o.1)

update_execution-Atomic :
    (s : Store) (q : RequestRow) (fails : Bool) (id : String) (old_state new_state : RequestState)
    (f : ExecutionRow → ExecutionRow) (problem : DbError)
    → s.request.job_execution_id ≡ id
    → (s.request.job_state is old_state) ≡ true
    → q.job_state ≡ new_state
    → ((e : ExecutionRow) → (f e).job_state ≡ new_state)
    → Atomic id old_state new_state s
        (update_execution (record s { request = q }) fails id old_state f (some problem, s))
update_execution-Atomic s q true id old_state new_state f problem row was now to = inl (refl, refl)
update_execution-Atomic s q false id old_state new_state f problem row was now to =
    elim (Option-cases (get id s.executions)) [
      | inl gone ↦ rw (gone) (inl (refl, refl))
      | inr (e, found) ↦
          elim (Bool-cases
            (e.job_state is old_state && not (in_states terminal_states e.job_state))) [
              | inr refused ↦ rw (found, refused) (inl (refl, refl))
              | inl meets ↦
                  rw (found, meets)
                    (let (same, live) = and-true _ _ meets in
                      inr (
                        refl,
                        (
                          row,
                          was,
                          now,
                          e,
                          f e,
                          refl,
                          same,
                          not-true _ live,
                          get-put_self id (f e) s.executions,
                          to e,
                        ),
                      ))
            ]
    ]

-- `FinalizeJobRequestAndExecutionState` is atomic: it reports an error and leaves the store as it
-- was, or it reports none, and then both rows were in the old state, the execution was not in a
-- terminal one, and both are in the new state.
pub finalize-Atomic :
    (d : Driver) (id : String) (old_state new_state : RequestState) (message code : String)
    (cpu delay retried paused : ℕ) (s : Store)
    → Atomic id old_state new_state s
        (finalize d id old_state new_state message code cpu delay retried paused s)
unfolding finalize
finalize-Atomic d id old_state new_state message code cpu delay retried paused s =
    elim (Bool-cases (can_finalize new_state)) [
      | inr refused ↦ rw (refused) (inl (refl, refl))
      | inl final ↦ rw (final) (elim (Bool-cases d.first_fails) [
        | inl fails ↦ rw (fails) (inl (refl, refl))
        | inr works ↦
            rw (works)
              (elim (Bool-cases
                (str_eq s.request.job_execution_id id && s.request.job_state is old_state)) [
                  | inr differs ↦ rw (differs) (inl (refl, refl))
                  | inl same ↦
                      let (row, was) = and-true _ _ same in
                      rw (same) (
                        update_execution-Atomic s _ d.second_fails id old_state new_state _
                          not_found ((str_eq_iff _ _).0 row) was refl (λ e. refl))
                ])
      ])
    ]

-- `UpdateJobRequestAndExecutionState` is atomic: it reports an error and leaves the store as it
-- was, or it reports none, and then both rows were in the old state, the execution was not in a
-- terminal one, and both are in the new state.
update_request_and_execution_state-Atomic :
    (d : Driver) (id : String) (old_state new_state : RequestState) (task : String) (s : Store)
    → Atomic id old_state new_state s
        (update_request_and_execution_state d id old_state new_state task s)
unfolding update_request_and_execution_state
update_request_and_execution_state-Atomic d id old_state new_state task s =
    elim (Bool-cases (is_terminal new_state)) [
      | inl refused ↦ rw (refused) (inl (refl, refl))
      | inr live ↦ rw (live) (elim (Bool-cases d.first_fails) [
        | inl fails ↦ rw (fails) (inl (refl, refl))
        | inr works ↦
            rw (works)
              (elim (Bool-cases
                (str_eq s.request.job_execution_id id && s.request.job_state is old_state)) [
                  | inr differs ↦ rw (differs) (inl (refl, refl))
                  | inl same ↦
                      let (row, was) = and-true _ _ same in
                      rw (same) (
                        update_execution-Atomic s _ d.second_fails id old_state new_state _
                          not_found ((str_eq_iff _ _).0 row) was refl (λ e. refl))
                ])
      ])
    ]
