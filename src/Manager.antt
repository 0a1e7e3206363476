-- ===== src/Manager.antt =====
-- queen/manager/job_manager.go: how a request is paused and cancelled, with its children. The
-- parsing of events, the audits and the notifications are left out.
pub mod Cascade
pub mod Cancelled
use formicary.Common.{
  String, ℕ, zero, suc, ◌+◌, Bool, true, false, not, ◌&&◌, ◌||◌, leb, List, [], ◌∷◌, ◌++◌, Option,
  none, some, is_some, str_eq, any, if◌then◌else◌,
}
use formicary.Types.RequestState.{
  RequestState, ◌is◌, ◌is_not◌, pending, paused, executing, manual_approval_required, cancelled,
  is_terminal,
}
use formicary.Repository.Store.{Store, Driver, DbError, cancel}
use formicary.Stats.{Registry, Summary, cancelled_job}

-- The rows, the counts, and the events for the supervisors, the latest first.
pub record Server : Type 0 where
  pub store : Store
  pub registry : Registry
  pub published : List (String × RequestState)

-- What a call is given: whether the query context sees the request, the driver, and whether the
-- event is made and published.
pub record Call : Type 0 where
  pub visible : Bool
  pub driver : Driver
  pub publishes : Bool
  pub user_id : String
  pub organization_id : String
  pub key : String

pub data Failure : Type 0 where
  unknown_request not_published : Failure
  not_pausable : RequestState → Failure
  not_stored : DbError → Failure

abbrev pub summary_of : Call → String → Store → Summary
summary_of c id s = record {
  id = id;
  user_id = c.user_id;
  organization_id = c.organization_id;
  key = c.key;
  job_state = s.request.job_state;
}

abbrev pub counted : Call → String → Server → Server
counted c id v = record v { registry = cancelled_job (summary_of c id v.store) v.registry }

-- `pauseJob` and `cancelJob`: the event for the supervisor of the job.
unfoldable pub publish : Call → String → RequestState → Server → Option Failure × Server
publish c id state v =
    if c.publishes
    then (none, record v { published = (id, state) ∷ v.published })
    else (some not_published, v)

-- `PauseJobRequest`
unfoldable pub pause_job_request : Call → String → Server → Option Failure × Server
unfolding publish
pause_job_request c id v =
    let state = v.store.request.job_state in
    if not (c.visible && str_eq v.store.request.id id)
    then (some unknown_request, v)
    else if state is_not executing
    then (some (not_pausable state), v)
    else publish c id paused (counted c id v)

-- The states of a request that no supervisor runs.
abbrev pub unsupervised : RequestState → Bool
unsupervised s = s is pending || s is paused || s is manual_approval_required

abbrev failure_of : Option DbError → Option Failure
failure_of none = none
failure_of (some e) = some (not_stored e)

-- `CancelJobRequest`; the cascade to the children runs on its own.
unfoldable pub cancel_job_request : Call → String → Server → Option Failure × Server
unfolding publish
cancel_job_request c id v =
    let known = counted c id v in
    let (problem, saved) = cancel c.driver c.visible id v.store in
    if not (c.visible && str_eq v.store.request.id id)
    then (some unknown_request, v)
    else if unsupervised v.store.request.job_state
    then (failure_of problem, record known { store = saved })
    else publish c id cancelled known

-- `overrideCancelRequest`, a second after the event of `cancelJob`.
unfoldable pub override_cancel_request : Call → String → Server → Server
unfolding is_terminal
override_cancel_request c id v =
    let (_, saved) = cancel c.driver c.visible id v.store in
    if not (c.visible && str_eq v.store.request.id id) || is_terminal v.store.request.job_state
    then v
    else record v { store = saved }

-- A child of a request that was forked to be cancelled with it.
pub record Child : Type 0 where
  pub id : String
  pub job_state : RequestState

-- A child that was visited, with its generation, and whether its row was cancelled or an event sent.
pub record Visit : Type 0 where
  pub id : String
  pub depth : ℕ
  pub in_row : Bool

abbrev pub seen : String → List Visit → Bool
seen id done = any (λ v. str_eq v.id id) done

-- `cascadeCancelBFSMaxDepth`
abbrev pub max_depth : ℕ
max_depth = 20

-- The loop over the children of one request, with the queue and the visits, the latest first.
unfoldable pub visit_children :
    ℕ → List Child → List (String × ℕ) → List Visit → List (String × ℕ) × List Visit
visit_children depth [] queue done = (queue, done)
visit_children depth (c ∷ cs) queue done = elim (seen c.id done) [
  | true ↦ visit_children depth cs queue done
  | false ↦
      visit_children depth cs (queue ++ (c.id, suc depth) ∷ [])
        (record { id = c.id; depth = suc depth; in_row = unsupervised c.job_state } ∷ done)
]

-- The loop of `cascadeCancelToChildren`, on fuel; `find` is `FindActiveChildRequests`, none for an
-- error.
unfoldable pub cascade_cancel :
    (String → Option (List Child)) → ℕ → List (String × ℕ) → List Visit → Option (List Visit)
unfolding visit_children
cascade_cancel find zero queue done = none
cascade_cancel find (suc fuel) [] done = some done
cascade_cancel find (suc fuel) ((parent, depth) ∷ queue) done = elim (leb max_depth depth) [
  | true ↦ cascade_cancel find fuel queue done
  | false ↦ elim (find parent) [
    | none ↦ cascade_cancel find fuel queue done
    | some children ↦
        let (longer, more) = visit_children depth children queue done in
        cascade_cancel find fuel longer more
  ]
]

-- `cascadeCancelToChildren`
unfoldable pub cascade_cancel_to_children :
    (String → Option (List Child)) → ℕ → String → Option (List Visit)
unfolding cascade_cancel
cascade_cancel_to_children find fuel root = cascade_cancel find fuel ((root, 0) ∷ []) []
