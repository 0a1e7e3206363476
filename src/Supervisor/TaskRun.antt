-- ===== src/Supervisor/TaskRun.antt =====
-- queen/fsm/task_execution_state.go and queen/supervisor/task_supervisor.go: how the state of a task
-- execution follows from the responses of the ants, and the loop that calls them. The responses,
-- the context's expiry and the repository of error codes are parameters; the times, the artifacts,
-- the audits and the events are left out.
pub mod Retries
pub mod Execute
use Prim.Native.String.{◌++◌}
use formicary.Common.{
  String, ℕ, zero, suc, ◌≡◌, ◌+◌, ◌-◌, ◌<◌, ◌≤◌, ◌⊎◌, inl, inr, refl, ap, sym, Bool, true, false,
  arith, List, [], ◌∷◌, Option, none, some, is_some, str_eq, if◌then◌else◌, not, ◌&&◌, ◌||◌,
  Option-cases, Bool-cases, ltb, leb, length, and-true, not-true,
}
use formicary.Types.RequestState.{
  RequestState, ◌is◌, ◌is_not◌, completed, executing, failed, fatal, paused,
  manual_approval_required, text, can_finalize, is_completed,
}
use formicary.Types.TaskMethod.{supports_cache}
use formicary.Types.ErrorCode.{error_task_execute, error_task_timed_out}
use formicary.Definitions.Tasks.{TaskDefinition}
use formicary.Executions.Contexts.{Context, Contexts, add_context, text_context}
use formicary.Executions.Tasks.{TaskExecution}

-- The fields of an error code's row that the loop reads.
pub record ErrorRule : Type 0 where
  pub error_code : String
  pub retries_task : Bool
  pub retry : ℕ

pub record TaskResponse : Type 0 where
  pub status : RequestState
  pub host : String
  pub failed_command : String
  pub exit_code : String
  pub exit_message : String
  pub error_code : String
  pub error_message : String
  pub stdout : List String
  pub task_context : List (String × Context)
  pub job_context : List (String × Context)
  pub warnings : Option Context
  pub timings : String

-- What the state machine of a task holds.
pub record Machine : Type 0 where
  pub definition : TaskDefinition
  pub execution : TaskExecution
  pub job_contexts : Contexts
  pub error_rule : Option ErrorRule
  pub ant_id : String

-- The instances of the services that the request asks for.
abbrev pub Services : Type 0
Services = List ℕ

-- `CanRetry`
unfoldable pub can_retry : Machine → Bool
can_retry m = ltb m.execution.retried (m.definition.retry + 1) || elim m.error_rule [
  | none ↦ false
  | some rule ↦ rule.retries_task && ltb m.execution.retried (rule.retry + 1)
]

-- A state as the value of a variable, which is its text in JSON.
abbrev state_context : RequestState → Context
state_context s = record { kind = "types.RequestState"; value = "\"" ++ (text s ++ "\"") }

-- `SetFailed`; `timed_out` says whether the text of the error has "context deadline" in it.
unfoldable pub set_failed : String → Bool → Machine → Machine
unfolding add_context
set_failed message timed_out m =
    let e = m.execution in
    let code = if timed_out then error_task_timed_out else error_task_execute in
    record m {
      execution = record e {
        contexts = add_context "OldStatus" (state_context e.task_state) e.contexts;
        task_state = failed;
        error_code = if str_eq e.error_code "" then code else e.error_code;
        error_message = message;
      };
    }

unfoldable pub add_contexts : List (String × Context) → Contexts → Contexts
unfolding add_context
add_contexts [] c = c
add_contexts ((k, v) ∷ rest) c = add_contexts rest (add_context k v c)

unfoldable pub count_services : ℕ → Services → ℕ
count_services n [] = n
count_services n (i ∷ rest) = count_services (if ltb 1 i then n + (i - 1) else n) rest

-- `ErrorCodeRepository.Match` on the message and the failed command, for this job and task; and
-- whether a text has "context deadline" in it.
pub record Matching : Type 0 where
  pub find_rule : String → String → Option ErrorRule
  pub mentions_deadline : String → Bool

abbrev ruled_code : Option ErrorRule → String → String
ruled_code none code = code
ruled_code (some rule) code = rule.error_code

abbrev with_warnings : Option Context → Contexts → Contexts
with_warnings none c = c
with_warnings (some w) c = add_context "Warnings" w c

-- The error code of a response that failed.
abbrev code_of : Matching → TaskResponse → String
code_of k r =
    let given = ruled_code (k.find_rule r.error_message r.failed_command) r.error_code in
    if not (str_eq given "")
    then given
    else if k.mentions_deadline r.error_message
    then error_task_timed_out
    else error_task_execute

-- `UpdateTaskFromResponse`, with the message of the error that it returns.
unfoldable pub update_task_from_response :
    Matching → Services → TaskResponse → Machine → Option String × Machine
unfolding supports_cache
update_task_from_response k services r m =
    let e = m.execution in
    let done = r.status is completed in
    let fails = not done && r.status is_not manual_approval_required && r.status is_not paused in
    let c1 = add_contexts r.task_context e.contexts in
    let c2 = with_warnings r.warnings c1 in
    let c3 =
      if supports_cache m.definition.method
      then add_context "Timings" (text_context r.timings) c2
      else c2 in
    (
      if fails then some r.error_message else none,
      record m {
        job_contexts = add_contexts r.job_context m.job_contexts;
        error_rule = if fails then k.find_rule r.error_message r.failed_command else m.error_rule;
        execution = record e {
          contexts = c3;
          ant_id = m.ant_id;
          ant_host = r.host;
          failed_command = r.failed_command;
          exit_code = r.exit_code;
          exit_message = r.exit_message;
          count_services = count_services (length services) services;
          task_state = r.status;
          error_code = if done then "" else if fails then code_of k r else e.error_code;
          error_message = if done then "" else if fails then r.error_message else e.error_message;
          stdout = if done then r.stdout else e.stdout;
        };
      },
    )

-- The post statement of the loop, `Retried++`.
abbrev pub count_retry : Machine → Machine
count_retry m = record m { execution = record m.execution { retried = m.execution.retried + 1 } }

-- Whether the loop breaks after a response: no error, no retries of the task left, or fatal.
abbrev pub stops : TaskResponse → Option String → Machine → Bool
stops r problem m =
    not (r.status is executing)
    && (not (is_some problem) || leb m.definition.retry m.execution.retried || r.status is fatal)

-- The parts of a run that come from elsewhere: the response to the n-th call, `none` when the call
-- fails or the context has expired.
pub record Calls : Type 0 where
  pub matching : Matching
  pub services : Services
  pub response : ℕ → Option TaskResponse

-- The retry loop of `tryExecuteTask` from the n-th call on, with the machine and the number of calls
-- when it ends.
unfoldable pub retry_loop : Calls → ℕ → ℕ → Bool → Machine → Option (Machine × ℕ)
retry_loop c zero n again m = none
retry_loop c (suc fuel) n again m = elim (can_retry m || again) [
  | false ↦ some (m, n)
  | true ↦ elim (c.response n) [
    | none ↦ some (m, n + 1)
    | some r ↦
        let (problem, next) = update_task_from_response c.matching c.services r m in
        elim (stops r problem next) [
          | true ↦ some (next, n + 1)
          | false ↦ retry_loop c fuel (n + 1) (r.status is executing) (count_retry next)
        ]
  ]
]
