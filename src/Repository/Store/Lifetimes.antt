-- ===== src/Repository/Store/Lifetimes.antt =====
-- queen/repository/job_execution_repository_impl.go: how an execution's row is found, made and
-- given up. The rows of its tasks and variables, and the retries after a deadlock, are left out.
use formicary.Common.{
  pos, String, ◌≡◌, inl, inr, refl, subst, Bool, true, false, ◌||◌, Option, none, some, is_some,
  if◌then◌else◌, get, put, Bool-cases, Option-cases, some-injective, false, ◌↔◌,
}
use formicary.Types.RequestState.{RequestState}
use formicary.Repository.Store.{
  Store, ExecutionRow, Driver, Outcome, not_found, validation, unsaved, is_empty,
}

-- `Get`: a row that is not active is not found.
unfoldable pub get_execution : String → Store → Option ExecutionRow
get_execution id s =
    if is_empty id
    then none
    else elim (get id s.executions) [ none ↦ none | some e ↦ if e.active then some e else none ]

-- `Save` of an execution without an id: a row under a fresh ULID, which must be new.
unfoldable pub create_execution : Driver → RequestState → Store → Outcome
unfolding get put
create_execution d state s =
    if d.first_fails || is_some (get d.ulid s.executions) then (some unsaved, s) else (
      none,
      record s {
        executions =
            put d.ulid
              (record {
                job_state = state;
                current_task = "";
                error_code = "";
                error_message = "";
                ended_at = none;
                cpu_secs = pos 0;
                updated_at = d.now;
                active = true;
              })
              s.executions;
      },
    )

-- `Delete`, which keeps the row and marks it.
unfoldable pub delete_execution : Driver → String → Store → Outcome
unfolding put
delete_execution d id s =
    if is_empty id
    then (some validation, s)
    else if d.first_fails
    then (some not_found, s)
    else elim (get_execution id s) [
      | none ↦ (some not_found, s)
      | some e ↦ if d.second_fails then (some not_found, s) else (
        none,
        record s {
          executions = put id (record e { active = false; updated_at = d.now }) s.executions;
        },
      )
    ]

kept-some :
    (b : Bool) (row e : ExecutionRow)
    → (if b then some row else none) ≡ some e
    → (row ≡ e) × (b ≡ true)
kept-some true row e h = (some-injective row e h, refl)
kept-some false row e h = absurd (cc h)

-- `Get` finds a row exactly if it is there, active, and asked for by an id.
pub get_execution_iff :
    (id : String) (s : Store) (e : ExecutionRow)
    → (get_execution id s ≡ some e)
      ↔ (is_empty id ≡ false) × (get id s.executions ≡ some e) × (e.active ≡ true)
unfolding get_execution
get_execution_iff id s e = (to, from)
  where
    to :
        get_execution id s ≡ some e
        → (is_empty id ≡ false) × (get id s.executions ≡ some e) × (e.active ≡ true)
    to h = elim (Bool-cases (is_empty id)) [
      | inl empty ↦ absurd (cc (rw (get_execution, empty) at h))
      | inr given ↦ elim (Option-cases (get id s.executions)) [
        | inl gone ↦ absurd (cc (rw (get_execution, given, gone) at h))
        | inr (row, found) ↦
            let (same, active) =
              kept-some row.active row e (rw (get_execution, given, found) at h) in
            (given, rw (found, same) refl, subst (λ r. r.active ≡ true) same active)
      ]
    ]

    from :
        (is_empty id ≡ false) × (get id s.executions ≡ some e) × (e.active ≡ true)
        → get_execution id s ≡ some e
    from (given, found, active) = rw (get_execution, given, found, active) refl
