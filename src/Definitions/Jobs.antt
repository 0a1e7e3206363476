-- ===== src/Definitions/Jobs.antt =====
-- queen/types/job_definition.go: the tasks of a job, their validation and the routing between them.
pub mod FirstTask
pub mod Targets
pub mod Routing
use formicary.Common.{
  ℕ, suc, ◌+◌, ◌-◌, ◌==◌, String, Bool, true, false, not, ◌&&◌, ◌||◌, str_eq, ltb, leb, starts_with,
  List, [], ◌∷◌, ◌++◌, Option, none, some, if◌then◌else◌, Map, KeySet, get, put, length, values,
  any, keep, is_some,
}
use formicary.Types.RequestState.{
  RequestState, text, new_request_state, ◌is◌, fatal, failed, completed, executing, pause_job,
  paused, cancelled,
}
use formicary.Definitions.Tasks.{
  TaskDefinition, Invalid, duplicate_task, no_leaf_task, empty_target, undefined_target,
  unreachable_task, no_first_task, Result, ok, err, ◌>>=◌, ◌>>◌, refuse_if, is_empty, validate,
  get_text, has_next,
}

-- `lookup_tasks` holds the same tasks as `tasks`, by their types.
pub record JobDefinition : Type 0 where
  pub job_type : String
  pub tasks : List TaskDefinition
  pub lookup_tasks : Map TaskDefinition
  pub retry : ℕ
  pub hard_reset_after_retries : ℕ
  pub max_concurrency : ℕ
  pub retention_days_for_failed : ℕ
  pub retention_days_for_completed : ℕ
  pub retention_days_for_cancelled : ℕ

-- `GetTask`.
unfoldable pub get_task : JobDefinition → String → Option TaskDefinition
get_task jd task_type = get task_type jd.lookup_tasks

max_order : List TaskDefinition → ℕ → ℕ
max_order [] m = m
max_order (t ∷ ts) m = max_order ts (if ltb m t.task_order then t.task_order else m)

-- `AddTask`: a new task goes to the end and gets the next order; one of a known type replaces the
-- entry of the lookup table only, and takes the order of the old.
unfoldable pub add_task : JobDefinition → TaskDefinition → JobDefinition
unfolding max_order get put
add_task jd task = elim (get task.task_type jd.lookup_tasks) [
  | none ↦
      let t = record task { task_order = max_order (jd.tasks ++ task ∷ []) 0 + 1 } in
      record jd { tasks = jd.tasks ++ t ∷ []; lookup_tasks = put t.task_type t jd.lookup_tasks }
  | some old ↦
      let t = record task { task_order = old.task_order } in
      record jd { lookup_tasks = put t.task_type t jd.lookup_tasks }
]

-- The exit codes that `validateTaskExitCodes` adds to a task.
unfoldable pub set_on_exit : TaskDefinition → TaskDefinition
set_on_exit t =
    let a =
      if is_empty t.on_completed
      then t.on_exit_code
      else put (text completed) t.on_completed t.on_exit_code in
    let b = if is_empty t.on_failed then a else put (text failed) t.on_failed a in
    let c =
      if t.allow_failure
        && is_empty (get_text (text failed) b)
        && not (is_empty (get_text (text completed) b))
      then put (text failed) (get_text (text completed) b) b
      else b in
    record t { on_exit_code = c }

-- The loop of `validateTaskExitCodes` over the tasks left, with the lookup table so far and whether
-- a task without exit codes was met.
unfoldable pub exit_codes_loop :
    List TaskDefinition
    → Map TaskDefinition
    → Bool
    → Result (List TaskDefinition × Map TaskDefinition)
exit_codes_loop [] lookup leaf = do refuse_if (not leaf) no_leaf_task; ok ([], lookup)
exit_codes_loop (t ∷ ts) lookup leaf = do
  v ← validate t
  refuse_if (is_some (get v.task_type lookup)) (duplicate_task v.task_type)
  let u = set_on_exit v
  (us, table) ← exit_codes_loop ts (put u.task_type u lookup) (leaf || not (has_next u))
  ok (u ∷ us, table)

-- `validateTaskExitCodes`, over the fresh lookup table that `Validate` makes.
unfoldable pub validate_task_exit_codes : JobDefinition → Result JobDefinition
unfolding exit_codes_loop set_on_exit has_next validate get put
validate_task_exit_codes jd = do
  (us, table) ← exit_codes_loop jd.tasks [] false
  ok (record jd { tasks = us; lookup_tasks = table })

-- The targets that `validateReachableTasks` passes over.
unfoldable pub reserved_target : String → Bool
reserved_target next =
    starts_with next "ERR_"
    || str_eq next "FATAL"
    || str_eq next "RESTART_JOB"
    || str_eq next "PAUSE_JOB"
    || str_eq next "RESTART_TASK"
    || str_eq next "EXECUTING"
    || str_eq next "FAILED"
    || str_eq next "COMPLETED"

-- The inner loop: the targets of one task.
unfoldable pub targets_of : String → Map TaskDefinition → List String → KeySet → Result KeySet
targets_of task_type lookup [] seen = ok seen
targets_of task_type lookup (next ∷ rest) seen = do
  refuse_if (is_empty next) (empty_target task_type)
  refuse_if (not (reserved_target next) && not (is_some (get next lookup)))
      (undefined_target task_type next)
  targets_of task_type lookup rest (if reserved_target next then seen else put next tt seen)

unfoldable pub targets_loop : Map TaskDefinition → List TaskDefinition → KeySet → Result KeySet
targets_loop lookup [] seen = ok seen
targets_loop lookup (t ∷ ts) seen = do
  more ← targets_of t.task_type lookup (values t.on_exit_code) seen
  targets_loop lookup ts more

-- `validateReachableTasks`: the task types that some task refers to.
unfoldable pub validate_reachable_tasks : JobDefinition → Result KeySet
validate_reachable_tasks jd = targets_loop jd.lookup_tasks jd.tasks []

abbrev pub is_target : KeySet → TaskDefinition → Bool
is_target seen t = is_some (get t.task_type seen)

-- The loop of `validateFirstTask`; `single` is `len(jd.Tasks) == 1`.
unfoldable pub first_task_loop :
    Bool → KeySet → List TaskDefinition → Option TaskDefinition → Result TaskDefinition
first_task_loop single seen [] none = err no_first_task
first_task_loop single seen [] (some t) = ok t
first_task_loop single seen (t ∷ ts) first =
    let starts = not (is_target seen t) && not (is_some first) && (single || has_next t) in
    let rest = first_task_loop single seen ts (if starts then some t else first) in
    if not starts && not (is_target seen t) then err (unreachable_task t.task_type) else rest

-- `GetFirstTask` with `validateFirstTask`.
unfoldable pub get_first_task : JobDefinition → Result TaskDefinition
unfolding validate_reachable_tasks targets_loop targets_of reserved_target first_task_loop has_next
    get put
get_first_task jd = do
  seen ← validate_reachable_tasks jd
  first_task_loop (length jd.tasks == 1) seen jd.tasks none

-- The entry of the exit-code map for a state.
unfoldable pub exit_entry : TaskDefinition → RequestState → String
exit_entry task state = get_text (text state) task.on_exit_code

-- The first half of `GetNextTask`: the task that the exit code names, after the redirections.
unfoldable pub code_target : TaskDefinition → String → String
code_target task exit_code =
    let name = exit_entry task (new_request_state exit_code) in
    let state = new_request_state name in
    if state is pause_job || state is paused
    then exit_entry task pause_job
    else if state is completed
    then exit_entry task completed
    else if state is failed || state is fatal
    then exit_entry task failed
    else name

-- An exit code that is mapped to EXECUTING runs the same task again.
unfoldable pub runs_again : TaskDefinition → String → Bool
runs_again task exit_code =
    new_request_state (exit_entry task (new_request_state exit_code)) is executing

-- The second half of `GetNextTask`: the entry for the status.
unfoldable pub status_target : TaskDefinition → RequestState → String
status_target task task_status = exit_entry task (new_request_state (text task_status))

-- The body of `GetNextTask`, given the entry for the status.
unfoldable pub route :
    JobDefinition → TaskDefinition → String → String → Option TaskDefinition × Bool
route jd task exit_code by_status =
    if length task.on_exit_code == 0
    then (none, false)
    else if runs_again task exit_code
    then (some task, false)
    else elim (get_task jd (code_target task exit_code)) [
      | some next ↦ (some next, true)
      | none ↦ elim (get_task jd by_status) [
        | some next ↦ (some next, false)
        | none ↦
            if task.allow_failure
            then (get_task jd (exit_entry task completed), false)
            else (none, false)
      ]
    ]

-- `GetNextTask`: the next task, and whether the exit code chose it.
unfoldable pub get_next_task :
    JobDefinition → TaskDefinition → RequestState → String → Option TaskDefinition × Bool
unfolding route
get_next_task jd task task_status exit_code =
    route jd task exit_code (status_target task task_status)

-- `GetLastAlwaysRunTasks`.
unfoldable pub get_last_always_run_tasks : JobDefinition → List TaskDefinition
get_last_always_run_tasks jd = keep (λ t. t.always_run) jd.tasks

abbrev default_retention_days_for_failed : ℕ
default_retention_days_for_failed = 30

abbrev default_retention_days_for_completed : ℕ
default_retention_days_for_completed = 7

abbrev default_retention_days_for_cancelled : ℕ
default_retention_days_for_cancelled = 30

abbrev or_default : ℕ → ℕ → ℕ
or_default days default = if ltb 0 days then days else default

-- `GetRetentionDays`: 0 means that the history is never purged.
unfoldable pub get_retention_days : JobDefinition → RequestState → ℕ
get_retention_days jd state =
    if state is failed
    then or_default jd.retention_days_for_failed default_retention_days_for_failed
    else if state is completed
    then or_default jd.retention_days_for_completed default_retention_days_for_completed
    else if state is cancelled
    then or_default jd.retention_days_for_cancelled default_retention_days_for_cancelled
    else 0
