-- ===== src/Repository/Store/Checked.antt =====
-- What `UpdateJobState` and `SetReadyToExecute` ask of the row before they change it.
use formicary.Common.{
  String, ℕ, ◌≡◌, ◌⊎◌, inl, inr, refl, and-true, Bool, true, false, none, some, str_eq, str_eq_iff,
  Bool-cases, ◌&&◌, is_some,
}
use formicary.Types.RequestState.{RequestState, ◌is◌, ◌is_not◌, other, can_transition_to}
use formicary.Types.RequestState.Transitions.{◌⟶◌, can_transition_to_iff}
use formicary.Repository.Store.{
  Store, RequestRow, Driver, update_job_state, not_found, update_request,
}

update_request-err :
    (s : Store) (fails meets : Bool) (row : RequestRow)
    → (((update_request s fails meets row).0 ≡ some not_found)
        × ((update_request s fails meets row).1 ≡ s))
      ⊎ (update_request s fails meets row ≡ (none, record s { request = row })) × (meets ≡ true)
update_request-err s true meets row = inl (refl, refl)
update_request-err s false true row = inr (refl, refl)
update_request-err s false false row = inl (refl, refl)

-- `UpdateJobState` with an old state reports an error and leaves the store as it was, or the row was
-- that request's in that old state, the state graph has an edge from it to the new state, the row
-- is now in the new state, and no execution has changed.
pub update_job_state-⟶ :
    (d : Driver) (id : String) (old_state new_state : RequestState) (message code : String)
    (delay retried paused_count : ℕ) (s : Store)
    → (old_state is_not other "") ≡ true
    → let o = update_job_state d id old_state new_state message code delay retried paused_count s in
      ((is_some o.0 ≡ true) × (o.1 ≡ s))
      ⊎ ((o.0 ≡ none)
          × (s.request.id ≡ id)
          × ((s.request.job_state is old_state) ≡ true)
          × (old_state ⟶ new_state)
          × (o.1.request.job_state ≡ new_state)
          × (o.1.executions ≡ s.executions))
unfolding update_job_state
update_job_state-⟶ d id old_state new_state message code delay retried paused_count s checked =
    elim (Bool-cases (can_transition_to old_state new_state)) [
      | inr refused ↦ rw (checked, refused) (inl (refl, refl))
      | inl edge ↦
          rw (checked, edge)
            (elim (Bool-cases d.first_fails) [
              | inl fails ↦ rw (fails) (inl (refl, refl))
              | inr works ↦
                  rw (works)
                    (elim (Bool-cases
                      (str_eq s.request.id id && s.request.job_state is old_state)) [
                        | inr differs ↦ rw (differs) (inl (refl, refl))
                        | inl meets ↦
                            let (row, was) = and-true _ _ meets in
                            rw (meets) (
                              inr (
                                refl,
                                (str_eq_iff _ _).0 row,
                                was,
                                (can_transition_to_iff _ _).0 edge,
                                refl,
                                refl,
                              ))
                      ])
            ])
    ]
