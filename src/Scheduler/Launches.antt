-- ===== src/Scheduler/Launches.antt =====
-- From the schedule of a job to its launch.
use formicary.Common.{
  String, ◌≡◌, List, ◌∷◌, refl, sym, subst, arith, true, false, [], none, some, Map, length, get,
  str_eq_refl, All, ==_iff,
}
use formicary.Types.RequestState.{◌is_not◌, ready}
use formicary.Definitions.Tasks.{TaskDefinition}
use formicary.Repository.Store.{ExecutionRow, is_empty}
use formicary.Repository.Store.Lifetimes.{get_execution_iff}
use formicary.Supervisor.JobRun.{revert_state_of}
use formicary.Resources.{State, Reservation, Clock}
use formicary.Resources.Jobs.{all_reserved, reserve_job_resources}
use formicary.Resources.Jobs.Complete.{AllApart, reserve_tasks-reserved, reserve_tasks-length}
use formicary.Supervisor.Launch.{
  Services, Looked, Launching, prepare_launch, check_execution, unreserved, in_memory,
}
use formicary.Supervisor.Launch.Creation.{create_job_execution}
use formicary.Supervisor.Launch.Started.{
  HasReady, Starts, create_job_execution-Starts, create_job_execution-reservations,
}
use formicary.Scheduler.{supervised, launch_job}
use formicary.Scheduler.Attempts.{reread, validate_request-valid}

IsNew-nil : (ts : List TaskDefinition) → All (λ t. get {V = Reservation} t.task_type [] ≡ none) ts
unfolding get
IsNew-nil [] = tt
IsNew-nil (t ∷ ts) = (refl, IsNew-nil ts)

check_execution-ready :
    (e : ExecutionRow) (l : Launching)
    → l.machine.request_state ≡ ready
    → e.job_state ≡ ready
    → check_execution l.job_execution_id e l ≡ (
      none,
      record l { machine = record l.machine { execution = some (in_memory l.job_execution_id e) } },
    )
unfolding check_execution
check_execution-ready e l is_ready e_ready =
    let a : (l.machine.request_state is_not ready) ≡ false = rw (is_ready) refl in
    let b : (e.job_state is_not ready) ≡ false = rw (e_ready) refl in
    rw (str_eq_refl l.job_execution_id, a, b) refl

-- The run has these reservations, and the READY execution with the id as its own.
abbrev pub Runs : Map Reservation → String → Launching → Type 0
Runs got id run =
    (run.reservations ≡ got)
    × (run.job_execution_id ≡ id)
    × ((e : ExecutionRow) × (get id run.machine.store.executions ≡ some e)
        × (e.job_state ≡ ready)
        × (run.machine.execution ≡ some (in_memory id e)))

-- The checks of `PrepareLaunch` on a machine whose request is READY in memory and in the store.
prepare_launch-ready :
    (k : Looked) (l : Launching)
    → k.invalid ≡ none
    → k.required_params ≡ []
    → length l.reservations ≡ length k.tasks
    → unreserved l.reservations k.tasks ≡ none
    → l.machine.request_state ≡ ready
    → is_empty l.job_execution_id ≡ false
    → HasReady l.job_execution_id l.machine.store
    → (run : Launching) × (prepare_launch false k l.job_execution_id l ≡ (none, run))
      × Runs l.reservations l.job_execution_id run
unfolding prepare_launch check_execution
prepare_launch-ready k l valid required count reserved is_ready given (e, found, e_ready, active) =
    let m = l.machine in
    let noted : Launching = record l {
      machine = record m { revert_state = revert_state_of m.request_state };
    } in
    let run : Launching = record noted {
      machine = record noted.machine { execution = some (in_memory l.job_execution_id e) };
    } in
    let counted = (==_iff (length l.reservations) (length k.tasks)).1 count in
    let found_active = (get_execution_iff l.job_execution_id m.store e).1 (given, found, active) in
    (
      run,
      rw
          (
            prepare_launch,
            validate_request-valid k l valid required,
            given,
            counted,
            reserved,
            validate_request-valid k l valid required,
            found_active,
            validate_request-valid k l valid required,
          )
          (check_execution-ready e noted is_ready e_ready),
      (refl, refl, (e, found, e_ready, refl)),
    )

launch_job-prepared :
    (w : Services) (k : Looked) (id : String) (l run : Launching)
    → prepare_launch w.lookup_fails k id l ≡ (none, run)
    → launch_job w k id l ≡ supervised run
unfolding launch_job
launch_job-prepared w k id l run prepared = rw (launch_job, prepared) (rw (prepared) refl)

-- A job that was scheduled is launched: when its tasks, of different types, were all reserved, and
-- `CreateJobExecution` reported no error and could make its event, `launchJob` on the request read from
-- its row runs a supervisor with these reservations and with the row's execution, which is READY, if
-- the definition is still valid, asks for no parameters, and the execution can be looked up.
pub launch_job-supervised :
    (v w : Services) (k : Looked) (c : Clock) (l next : Launching) (got : Map Reservation)
    (ants : State)
    → k.invalid ≡ none
    → k.required_params ≡ []
    → AllApart k.tasks
    → reserve_job_resources c l.machine.request_id k.tasks l.ants ≡ all_reserved got ants
    → v.marshals ≡ true
    → w.lookup_fails ≡ false
    → create_job_execution v (record l { ants = ants; reservations = got }) ≡ ((none, none), next)
    → (run : Launching) × (launch_job w k next.machine.store.request.job_execution_id (reread next)
        ≡ supervised run)
      × Runs got next.machine.store.request.job_execution_id run
unfolding launch_job reserve_job_resources
launch_job-supervised v w k c l next got ants valid required apart reserved marshals looks created =
    let given : Launching = record l { ants = ants; reservations = got } in
    let starts : Starts l.machine.store.request ((none, none), next) =
      subst (Starts l.machine.store.request) created
        (create_job_execution-Starts v given marshals) in
    let ((row_ready, row_id, has_id, has), is_ready) = starts in
    let same : got ≡ next.reservations =
      subst (λ o. got ≡ o.1.reservations) created
        (sym (create_job_execution-reservations v given marshals)) in
    let loaded = reread next in
    let row = next.machine.store.request in
    let counted : length next.reservations ≡ length k.tasks =
      let total =
        reserve_tasks-length c false l.machine.request_id k.tasks [] got l.ants ants apart
          (IsNew-nil k.tasks) reserved in
      subst (λ m. length m ≡ length k.tasks) same (omega (arith, total)) in
    let all_there : unreserved next.reservations k.tasks ≡ none =
      subst (λ m. unreserved m k.tasks ≡ none) same
        (reserve_tasks-reserved c false l.machine.request_id k.tasks [] got l.ants ants reserved) in
    let (run, e, runs) =
      prepare_launch-ready k loaded valid required counted all_there row_ready (rw (row_id) has_id)
        (subst (λ id. HasReady id next.machine.store) (sym row_id) has) in
    let prepared : prepare_launch w.lookup_fails k row.job_execution_id loaded ≡ (none, run) =
      subst (λ b. prepare_launch b k row.job_execution_id loaded ≡ (none, run)) (sym looks) e in
    (
      run,
      launch_job-prepared w k row.job_execution_id loaded run prepared,
      subst (λ m. Runs m row.job_execution_id run) (sym same) runs,
    )
