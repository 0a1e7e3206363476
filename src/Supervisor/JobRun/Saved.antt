-- ===== src/Supervisor/JobRun/Saved.antt =====
-- What the moves of a job leave in the store.
use formicary.Common.{
  String, ℕ, ◌≡◌, ◌⊎◌, inl, inr, refl, sym, ap, subst, ◌∙◌, true, false, none, some, is_some,
  str_eq, ◌+◌, Bool-cases, if◌then◌else◌, not, ◌&&◌,
}
use formicary.Types.RequestState.{
  RequestState, ◌is◌, pending, completed, executing, failed, cancelled, paused, can_transition_to,
  is_terminal,
}
use formicary.Repository.Store.{Store, Driver, Outcome, update_job_state, transition}
use formicary.Types.ErrorCode.{error_pause_job, error_job_cancelled, error_job_execute}
use formicary.Repository.Store.Atomic.{Atomic, MovedBoth, finalize-Atomic}
use formicary.Supervisor.JobRun.{
  World, Execution, JobMachine, stored, stored_error, finalize_states, update_request_state,
  execution_completed, pause_job, restart_job_back_to_pending_paused, fail_job, fail_request,
  after_finalize, not_executing,
}

-- `UpdateJobState` from EXECUTING to a state that the diagram does not lead to.
update_job_state-refused :
    (d : Driver) (id : String) (new_state : RequestState) (message code : String)
    (delay retried paused_count : ℕ) (s : Store)
    → can_transition_to executing new_state ≡ false
    → update_job_state d id executing new_state message code delay retried paused_count s
      ≡ (some (transition executing new_state), s)
unfolding update_job_state
update_job_state-refused d id new_state message code delay retried paused_count s h = rw (h) refl

executing-pending : can_transition_to executing pending ≡ false
unfolding can_transition_to
executing-pending = refl

completed-is_terminal : is_terminal completed ≡ true
unfolding is_terminal
completed-is_terminal = refl

paused-is_terminal : is_terminal paused ≡ false
unfolding is_terminal
paused-is_terminal = refl

executing-cancelled : can_transition_to executing cancelled ≡ false
unfolding can_transition_to
executing-cancelled = refl

-- `RestartJobBackToPendingPaused` does not save a job whose state to go back to is PENDING: the
-- state graph has no edge to it from EXECUTING, so the store is left as it was and the transition
-- is reported as an error, while the request in memory is PENDING and counts one more retry.
pub restart_job_back_to_pending_paused-pending :
    (w : World) (message : String) (m : JobMachine)
    → m.revert_state ≡ pending
    → let (problem, next) = restart_job_back_to_pending_paused w message m in
      (problem ≡ some (stored (transition executing pending)))
      × (next.store ≡ m.store)
      × (next.request_state ≡ pending)
      × (next.retried ≡ m.retried + 1)
unfolding restart_job_back_to_pending_paused update_request_state
restart_job_back_to_pending_paused-pending w message m e =
    rw
      (
        e,
        update_job_state-refused w.second m.request_id pending message "" w.retry_delay
            (m.retried + 1) (m.paused_count + 1) m.store executing-pending,
      )
      (refl, refl, refl, refl)

-- The two rows are as they were and an error is reported, or both have moved to the execution's
-- state and the error is that of scheduling the next run of a cron job.
abbrev Saved : World → Execution → RequestState → JobMachine → Outcome → Type 0
Saved w e old_state m o =
    ((is_some o.0 ≡ true) × (o.1 ≡ m.store))
    ⊎ ((o.0 ≡ (if is_terminal e.job_state && m.cron_triggered then w.next_cron else none))
        × MovedBoth e.id old_state e.job_state m.store o.1)

finalize_states-Saved :
    (w : World) (e : Execution) (old_state : RequestState) (delay : ℕ) (m : JobMachine)
    → Saved w e old_state m (finalize_states w e old_state delay m)
unfolding finalize_states
finalize_states-Saved w e old_state delay m = go _ (
    finalize-Atomic w.first e.id old_state e.job_state e.error_message e.error_code w.cost_secs
      delay m.retried m.paused_count m.store)
  where
    go :
        (o : Outcome)
        → Atomic e.id old_state e.job_state m.store o
        → Saved w e old_state m (
          if not (is_some o.0) && is_terminal e.job_state && m.cron_triggered
              then w.next_cron
              else o.0,
          o.1,
        )
    go (some p, s) (inl (bad, same)) = inl (refl, same)
    go (none, s) (inl (bad, same)) = absurd (cc bad)
    go (some p, s) (inr (good, moved)) = absurd (cc good)
    go (none, s) (inr (good, moved)) = inr (refl, moved)

-- `ExecutionCompleted` on a job with an execution reports an error and leaves both rows, or moves
-- both from EXECUTING to COMPLETED and reports only what scheduling the next run of a cron job does.
execution_completed-MovedBoth :
    (w : World) (m : JobMachine) (e : Execution)
    → m.execution ≡ some e
    → let (problem, next) = execution_completed w m in
      ((is_some problem ≡ true) × (next.store ≡ m.store))
      ⊎ ((problem ≡ stored_error (if m.cron_triggered then w.next_cron else none))
          × MovedBoth e.id executing completed m.store next.store)
unfolding execution_completed
execution_completed-MovedBoth w m e has =
    rw (has, execution_completed) (go _ (finalize_states-Saved w _ executing 0 m))
  where
    go :
        (o : Outcome)
        → Saved w
            (record e { job_state = completed; error_code = ""; error_message = "" })
            executing
            m
            o
        → ((is_some (stored_error o.0) ≡ true) × (o.1 ≡ m.store))
          ⊎ ((stored_error o.0 ≡ stored_error (if m.cron_triggered then w.next_cron else none))
              × MovedBoth e.id executing completed m.store o.1)
    go (some p, s) (inl (bad, same)) = inl (refl, same)
    go (none, s) (inl (bad, same)) = absurd (cc bad)
    go (p, s) (inr (cron, moved)) =
        inr (ap stored_error (rw (completed-is_terminal) at cron), moved)

-- `PauseJob` on a job whose execution is executing reports an error and leaves both rows, or
-- reports none and moves both from EXECUTING to PAUSED; one more pause and one more retry are
-- counted in memory in either case. On any other execution it is refused and leaves the store.
pause_job-MovedBoth :
    (w : World) (m : JobMachine) (e : Execution)
    → m.execution ≡ some e
    → let (problem, next) = pause_job w m in
      (((e.job_state is executing) ≡ false)
        × (problem ≡ some not_executing)
        × (next.store ≡ m.store))
      ⊎ (((e.job_state is executing) ≡ true)
          × (next.paused_count ≡ m.paused_count + 1)
          × (next.retried ≡ m.retried + 1)
          × (((is_some problem ≡ true) × (next.store ≡ m.store))
              ⊎ ((problem ≡ none) × MovedBoth e.id executing paused m.store next.store)))
unfolding pause_job
pause_job-MovedBoth w m e has = elim (Bool-cases (e.job_state is executing)) [
  | inr idle ↦ rw (has, pause_job, idle) (inl (refl, refl, refl))
  | inl busy ↦
      rw (has, pause_job, busy)
        (inr (
          refl,
          refl,
          refl,
          go _ (finalize_states-Saved w (ended) executing w.pause_time (counted)),
        ))
]
  where
    ended : Execution
    ended = record e { job_state = paused; error_code = error_pause_job }

    counted : JobMachine
    counted = record m {
      request_state = paused;
      execution = some ended;
      paused_count = m.paused_count + 1;
      retried = m.retried + 1;
    }

    go :
        (o : Outcome)
        → Saved w ended executing counted o
        → ((is_some (stored_error o.0) ≡ true) × (o.1 ≡ m.store))
          ⊎ ((stored_error o.0 ≡ none) × MovedBoth e.id executing paused m.store o.1)
    go (some p, s) (inl (bad, same)) = inl (refl, same)
    go (none, s) (inl (bad, same)) = absurd (cc bad)
    go (p, s) (inr (cron, moved)) = inr (ap stored_error (rw (paused-is_terminal) at cron), moved)

fail_request-refused :
    (w : World) (message code : String) (m : JobMachine)
    → (fail_request w executing cancelled message code m).1.store ≡ m.store
unfolding fail_request update_request_state
fail_request-refused w message code m =
    rw
      (update_job_state-refused w.second m.request_id cancelled message code w.retry_delay 0
        m.paused_count m.store executing-cancelled)
      refl

-- `failed` for a cancelled job with an execution moves both rows from EXECUTING to CANCELLED or
-- leaves both: the state graph refuses the update of the request alone that is tried when the
-- transaction reports an error.
pub fail_job-cancelled :
    (w : World) (message code : String) (m : JobMachine) (e : Execution)
    → m.execution ≡ some e
    → let next = (fail_job w executing true message code m).1 in
      (next.store ≡ m.store) ⊎ MovedBoth e.id executing cancelled m.store next.store
unfolding fail_job
fail_job-cancelled w message code m e has =
    rw (has, fail_job) (go _ (finalize_states-Saved w ended executing w.retry_delay marked))
  where
    ended : Execution
    ended = record e {
      job_state = cancelled;
      error_message = message;
      error_code = error_job_cancelled;
    }

    marked : JobMachine
    marked = record m {
      request_state = failed;
      request_error_code = if str_eq code "" then error_job_execute else code;
      request_error_message = message;
      execution = some ended;
    }

    go :
        (o : Outcome)
        → Saved w ended executing marked o
        → let next =
            (after_finalize w executing cancelled message error_job_cancelled marked o).1 in
          (next.store ≡ m.store) ⊎ MovedBoth e.id executing cancelled m.store next.store
    go (some p, s) (inl (bad, same)) =
        inl
          (fail_request-refused w message error_job_cancelled (record marked { store = s }) ∙ same)
    go (none, s) (inl (bad, same)) = absurd (cc bad)
    go (some p, s) (inr (cron, moved)) = inr (
        subst (MovedBoth e.id executing cancelled m.store)
          (sym (fail_request-refused w message error_job_cancelled (record marked { store = s })))
          moved)
    go (none, s) (inr (cron, moved)) = inr moved
