-- ===== src/Executions/Tasks.antt =====
-- queen/types/task_execution.go and job_execution.go: the task executions of a job execution.
pub mod Latest
use formicary.Common.{
  String, ℕ, zero, suc, ◌≡◌, ◌+◌, ◌<◌, ◌≤◌, ◌⊎◌, inl, inr, refl, ap, sym, subst, ◌↔◌, and-true,
  not-true, ◌∙◌, Bool, true, false, arith, List, [], ◌∷◌, ◌++◌, Option, none, some, is_some, str_eq,
  str_eq_refl, if◌then◌else◌, not, ◌&&◌, Bool-cases, ltb, length, All,
}
use formicary.Types.RequestState.{RequestState, ready, is_failed, processing}
use formicary.Types.TaskMethod.{TaskMethod}
use formicary.Definitions.Tasks.{TaskDefinition}
use formicary.Executions.Contexts.{Contexts}

-- The fields that the modelled operations use.
pub record TaskExecution : Type 0 where
  pub id : String
  pub job_execution_id : String
  pub task_type : String
  pub method : TaskMethod
  pub allow_failure : Bool
  pub task_state : RequestState
  pub task_order : ℕ
  pub retried : ℕ
  pub error_code : String
  pub error_message : String
  pub exit_code : String
  pub exit_message : String
  pub ant_id : String
  pub ant_host : String
  pub failed_command : String
  pub stdout : List String
  pub count_services : ℕ
  pub contexts : Contexts

pub record JobExecution : Type 0 where
  pub id : String
  pub job_state : RequestState
  pub error_code : String
  pub error_message : String
  pub contexts : Contexts
  pub tasks : List TaskExecution

-- `NewTaskExecution`
unfoldable pub new_task_execution : TaskDefinition → TaskExecution
new_task_execution t = record {
  id = "";
  job_execution_id = "";
  task_type = t.task_type;
  method = t.method;
  allow_failure = t.allow_failure;
  task_state = ready;
  task_order = 0;
  retried = 0;
  error_code = "";
  error_message = "";
  exit_code = "";
  exit_message = "";
  ant_id = "";
  ant_host = "";
  failed_command = "";
  stdout = [];
  count_services = 0;
  contexts = record { entries = []; lookup = [] };
}

-- The first task that passes the test, with its index from `i` on.
unfoldable pub index_where :
    (TaskExecution → Bool) → ℕ → List TaskExecution → Option (ℕ × TaskExecution)
index_where p i [] = none
index_where p i (t ∷ ts) = let rest = index_where p (i + 1) ts in if p t then some (i, t) else rest

-- `GetTask`, with `none` for -1 and nil.
unfoldable pub get_task : String → String → List TaskExecution → Option (ℕ × TaskExecution)
unfolding index_where
get_task id task_type ts =
    let by_id = if str_eq id "" then none else index_where (λ t. str_eq t.id id) 0 ts in
    let by_type =
      if str_eq task_type "" then none else index_where (λ t. str_eq t.task_type task_type) 0 ts in
    if is_some by_id then by_id else by_type

unfoldable pub max_task_order : ℕ → List TaskExecution → ℕ
max_task_order n [] = n
max_task_order n (t ∷ ts) = max_task_order (if ltb n t.task_order then t.task_order else n) ts

-- `AddTask`: the task that is returned, and the execution. The list shares the task that it gains
-- with the caller, so the order and the id that are set on it last are in the list too.
unfoldable pub add_task : TaskDefinition → JobExecution → TaskExecution × JobExecution
add_task task je =
    let fresh = new_task_execution task in
    elim (get_task "" task.task_type je.tasks) [
      | none ↦
          let added = record fresh {
            task_order = max_task_order 0 (je.tasks ++ (fresh ∷ [])) + 1;
            job_execution_id = je.id;
          } in
          (added, record je { tasks = je.tasks ++ (added ∷ []) })
      | some (_, old) ↦ (record fresh { task_order = old.task_order; job_execution_id = je.id }, je)
    ]

abbrev pub Any : (TaskExecution → Type 0) → List TaskExecution → Type 0
Any P [] = ⊥
Any P (t ∷ ts) = P t ⊎ Any P ts

abbrev remove_at : ℕ → List TaskExecution → List TaskExecution
remove_at _ [] = []
remove_at zero (t ∷ ts) = ts
remove_at (suc i) (t ∷ ts) = t ∷ remove_at i ts

-- `DeleteTask`
unfoldable pub delete_task : String → JobExecution → Bool × JobExecution
delete_task id je = elim (get_task id "" je.tasks) [
  | none ↦ (false, je)
  | some (i, _) ↦ (true, record je { tasks = remove_at i je.tasks })
]

-- `GetFailedTaskError`: the first task that failed and may not.
unfoldable pub get_failed_task_error : List TaskExecution → Option (TaskExecution × String × String)
get_failed_task_error [] = none
get_failed_task_error (t ∷ ts) =
    let rest = get_failed_task_error ts in
    if not t.allow_failure && is_failed t.task_state
    then some (t, t.error_code, t.error_message)
    else rest

-- The loop of `GetLastExecutedTask`.
abbrev pub later_than : Option TaskExecution → TaskExecution → Bool
later_than none t = true
later_than (some l) t = ltb l.task_order t.task_order

unfoldable pub last_executed : Option TaskExecution → List TaskExecution → Option TaskExecution
last_executed last [] = last
last_executed last (t ∷ ts) =
    last_executed (if not (processing t.task_state) && later_than last t then some t else last) ts

abbrev pub get_last_executed_task : List TaskExecution → Option TaskExecution
get_last_executed_task = last_executed none

-- Every task of the list has a smaller order.
abbrev Below : ℕ → List TaskExecution → Type 0
Below n ts = All (λ t. t.task_order < n) ts

max_task_order-le : (n : ℕ) (ts : List TaskExecution) → n ≤ max_task_order n ts
unfolding max_task_order
max_task_order-le n [] = omega arith
max_task_order-le n (t ∷ ts) =
    ground (arith, max_task_order-le (if ltb n t.task_order then t.task_order else n) ts)

max_task_order-Below : (n : ℕ) (ts : List TaskExecution) → Below (max_task_order n ts + 1) ts
unfolding max_task_order
max_task_order-Below n [] = tt
max_task_order-Below n (t ∷ ts) = (
  ground (arith, max_task_order-le (if ltb n t.task_order then t.task_order else n) ts),
  max_task_order-Below (if ltb n t.task_order then t.task_order else n) ts,
)

Below-tasks : (n : ℕ) (ts us : List TaskExecution) → Below n (ts ++ us) → Below n ts
Below-tasks n [] us h = tt
Below-tasks n (t ∷ ts) us h = (h.0, Below-tasks n ts us h.1)

index_where-snoc :
    (p : TaskExecution → Bool) (i n : ℕ) (ts : List TaskExecution) (t : TaskExecution)
    → n ≡ i + length ts
    → index_where p i ts ≡ none
    → p t ≡ true
    → index_where p i (ts ++ (t ∷ [])) ≡ some (n, t)
unfolding index_where
index_where-snoc p i n [] t at_end h e = rw (e) (ap (λ m. some (m, t)) (omega arith))
index_where-snoc p i n (u ∷ ts) t at_end h e = elim (Bool-cases (p u)) [
  | inl hit ↦ absurd (cc (rw (hit) at h))
  | inr miss ↦ rw (miss) (index_where-snoc p (i + 1) n ts t (omega arith) (rw (miss) at h) e)
]

new_task_execution-task_type :
    (t : TaskDefinition) → str_eq (new_task_execution t).task_type t.task_type ≡ true
unfolding new_task_execution
new_task_execution-task_type t = str_eq_refl t.task_type

get_task-by_type :
    (task_type : String) (ts : List TaskExecution)
    → str_eq task_type "" ≡ false
    → get_task "" task_type ts ≡ index_where (λ t. str_eq t.task_type task_type) 0 ts
unfolding get_task
get_task-by_type task_type ts named = rw (named) refl

-- `AddTask` on a task type that is not empty and that the execution does not have appends one
-- task, which is the one it returns; `GetTask` then finds it by its type at the end of the list,
-- and its order is greater than that of every task before it.
add_task-new :
    (task : TaskDefinition) (je : JobExecution)
    → str_eq task.task_type "" ≡ false
    → get_task "" task.task_type je.tasks ≡ none
    → let added = (add_task task je).0 in
      ((add_task task je).1.tasks ≡ je.tasks ++ (added ∷ []))
      × (get_task "" task.task_type (add_task task je).1.tasks ≡ some (length je.tasks, added))
      × Below added.task_order je.tasks
unfolding add_task
add_task-new task je named new =
    rw (new, add_task)
      (
        refl,
        get_task-by_type task.task_type _ named
            ∙ index_where-snoc (λ t. str_eq t.task_type task.task_type) 0 (length je.tasks) je.tasks
                _ (omega arith) (sym (get_task-by_type task.task_type je.tasks named) ∙ new)
                (new_task_execution-task_type task),
        Below-tasks _ je.tasks (new_task_execution task ∷ []) (max_task_order-Below 0 _),
      )
