-- ===== src/Definitions/Tasks.antt =====
-- queen/types/task_definition.go and internal/types/fan_out_config.go: a task definition, its
-- validation and its exit codes.
use Prim.Native.String.{len}
use formicary.Common.{
  ℕ, ◌==◌, String, ◌≡◌, refl, Bool, true, false, not, ◌||◌, str_eq, ltb, starts_with, List, map,
  Option, none, some, if◌then◌else◌, to_lower, Map, get, put, get-put, length, ℤ, is_neg,
}
use formicary.Types.RequestState.{
  RequestState, text, new_request_state, ◌is◌, fatal, failed, completed, executing, restart_job,
  pause_job, wait_for_approval, restart_task, paused, manual_approval_required, other,
}
use formicary.Types.TaskMethod.{TaskMethod, kubernetes, fan_out_job, is_valid}
use formicary.Types.ErrorCode.{
  error_fatal, error_restart_job, error_pause_job, error_manual_approval_required,
  error_restart_task,
}

pub record FanOutConfig : Type 0 where
  pub source : String
  pub item_var : String
  pub max_parallel : ℤ
  pub fail_fast : Bool
  pub execution_method : TaskMethod
  pub fork_job_type : String
  pub fork_job_version : String

-- The fields that the modelled operations read. `on_exit_code` is keyed by the texts of states; a
-- nil map and an empty one behave alike after `Validate`, which makes the map.
pub record TaskDefinition : Type 0 where
  pub task_type : String
  pub method : TaskMethod
  pub description : String
  pub host_network : String
  pub allow_failure : Bool
  pub always_run : Bool
  pub retry : ℕ
  pub on_exit_code : Map String
  pub on_completed : String
  pub on_failed : String
  pub task_order : ℕ
  pub tags : List String
  pub dependencies : List String
  pub fan_out : Option FanOutConfig

-- The reasons for which a definition is refused.
pub data Invalid : Type 0 where
  task_type_missing : Invalid
  method_unsupported : TaskMethod → Invalid
  too_big : String → Invalid
  fan_out_source_missing fan_out_item_var_missing fan_out_max_parallel_negative : Invalid
  duplicate_task : String → Invalid
  no_leaf_task : Invalid
  empty_target : String → Invalid
  undefined_target : String → String → Invalid
  unreachable_task : String → Invalid
  no_first_task : Invalid

pub data Result {ℓ} (A : Type ℓ) : Type ℓ where
  ok : A → Result A
  err : Invalid → Result A

-- The steps of a validation in order; the first that refuses ends it.
infixl 5 ◌>>=◌
abbrev pub ◌>>=◌ {ℓ ℓ'} :
    {Given : Type ℓ} {Made : Type ℓ'} → Result Given → (Given → Result Made) → Result Made
err reason >>= next = err reason
ok given >>= next = next given

infixl 5 ◌>>◌
abbrev pub ◌>>◌ {ℓ} : {Made : Type ℓ} → Result (Unit {0}) → Result Made → Result Made
check >> next = check >>= λ passed. next

-- What each of the two steps gave, when together they gave a result.
pub >>=-eq-ok {ℓ ℓ'} :
    {Given : Type ℓ} {Made : Type ℓ'} (step : Result Given) (next : Given → Result Made)
    {made : Made}
    → (step >>= next) ≡ ok made
    → (given : Given) × (step ≡ ok given) × (next given ≡ ok made)
>>=-eq-ok (err reason) next done = cc
>>=-eq-ok (ok given) next done = (given, refl, done)

-- An early return of an error.
abbrev pub refuse_if : Bool → Invalid → Result (Unit {0})
refuse_if true e = err e
refuse_if false e = ok tt

pub refuse_if-eq-ok {ℓ} :
    {A : Type ℓ} (test : Bool) (e : Invalid) (k : Result A) {a : A}
    → (refuse_if test e >> k) ≡ ok a
    → (test ≡ false) × (k ≡ ok a)
refuse_if-eq-ok true e k h = cc
refuse_if-eq-ok false e k h = (refl, h)

abbrev pub is_empty : String → Bool
is_empty s = str_eq s ""

abbrev pub longer : ℕ → String → Bool
longer n s = ltb n (len s)

unfoldable pub validate_fan_out : FanOutConfig → Result (Unit {0})
validate_fan_out f = do
  refuse_if (is_empty f.source) fan_out_source_missing
  refuse_if (longer 200 f.source) (too_big "fan_out.source")
  refuse_if (is_empty f.item_var) fan_out_item_var_missing
  refuse_if (longer 100 f.item_var) (too_big "fan_out.item_var")
  refuse_if (is_neg f.max_parallel) fan_out_max_parallel_negative
  refuse_if (longer 200 f.fork_job_type) (too_big "fan_out.fork_job_type")

-- The last part of `Validate`: a fan-out task is routed through the fan-out tasklet, and keeps its
-- own method in the configuration.
route_fan_out : TaskDefinition → Option FanOutConfig → Result TaskDefinition
unfolding validate_fan_out
route_fan_out td none = ok td
route_fan_out td (some f) = do
  let g = if is_empty f.execution_method then record f { execution_method = td.method } else f
  validate_fan_out g
  ok (record td { method = fan_out_job; fan_out = some g })

-- `TaskDefinition.Validate`, with the definition that it leaves.
unfoldable pub validate : TaskDefinition → Result TaskDefinition
unfolding route_fan_out
validate t = do
  refuse_if (is_empty t.task_type) task_type_missing
  let td = record t { method = if is_empty t.method then kubernetes else t.method }
  refuse_if (not (is_valid td.method)) (method_unsupported td.method)
  let td' = record td { tags = map to_lower td.tags }
  refuse_if (longer 100 td'.task_type) (too_big "taskType")
  refuse_if (longer 500 td'.description) (too_big "description")
  refuse_if (longer 100 td'.host_network) (too_big "host network")
  route_fan_out td' td'.fan_out

-- `m[k]` of a `map[..]string`: a missing key reads as the empty text.
unfoldable pub get_text : String → Map String → String
get_text k m = elim (get k m) [ none ↦ "" | some v ↦ v ]

pub get_text-put :
    (k j v : String) (m : Map String)
    → get_text j (put k v m) ≡ (if str_eq k j then v else get_text j m)
unfolding get_text
get_text-put k j v m = rw (get-put k j v m, get_text) (split (str_eq k j))
  where
    split :
        (b : Bool)
        → (elim (if b then some v else get j m) [ none ↦ "" | some w ↦ w ])
          ≡ (if b then v else elim (get j m) [ none ↦ "" | some w ↦ w ])
    split true = refl
    split false = refl

-- `AddExitCode`.
unfoldable pub add_exit_code : String → String → TaskDefinition → TaskDefinition
add_exit_code status task td = record td {
  on_exit_code = put (text (new_request_state status)) task td.on_exit_code;
}

unfoldable pub has_next : TaskDefinition → Bool
has_next td =
    ltb 0 (length td.on_exit_code) || not (is_empty td.on_completed) || not (is_empty td.on_failed)

-- `OverrideStatusAndErrorCode`: `other ""` and `""` are the zero results.
unfoldable pub override_status_and_error_code : TaskDefinition → String → RequestState × String
override_status_and_error_code td exit_code =
    if length td.on_exit_code == 0
    then (other "", "")
    else (let target = get_text (text (new_request_state exit_code)) td.on_exit_code in
        let target_state = new_request_state target in
        if target_state is fatal
        then (failed, error_fatal)
        else if target_state is failed
        then (failed, "")
        else if target_state is completed
        then (completed, "")
        else if target_state is executing
        then (executing, "")
        else if target_state is restart_job
        then (failed, error_restart_job)
        else if target_state is pause_job
        then (paused, error_pause_job)
        else if target_state is wait_for_approval
        then (manual_approval_required, error_manual_approval_required)
        else if target_state is restart_task
        then (failed, error_restart_task)
        else if starts_with target "ERR_"
        then (failed, target)
        else (other "", ""))
