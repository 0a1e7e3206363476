-- ===== src/Types/RequestState.antt =====
-- internal/types/request_state.go: the states of a request or an execution. The source keeps a
-- state as its text; `other` holds a text that is none of the constants.
pub mod Transitions
pub mod Texts
use formicary.Common.{
  ℕ, String, Bool, true, false, not, ◌&&◌, ◌||◌, ◌==◌, str_eq, List, [], ◌∷◌, if◌then◌else◌,
  to_upper, any,
}

pub data RequestState : Type 0 where
  pending ready completed failed executing started cancelled paused : RequestState
  manual_approval_required history running waiting fatal restart_job pause_job : RequestState
  wait_for_approval restart_task approved rejected reserved deleted unknown : RequestState
  other : String → RequestState

-- The constants in the order of the `const` block.
abbrev pub constants : List RequestState
constants =
    pending ∷ ready ∷ completed ∷ failed ∷ executing ∷ started ∷ cancelled ∷ paused
    ∷ manual_approval_required ∷ history ∷ running ∷ waiting ∷ fatal ∷ restart_job ∷ pause_job
    ∷ wait_for_approval ∷ restart_task ∷ approved ∷ rejected ∷ reserved ∷ deleted ∷ unknown ∷ []

unfoldable pub text : RequestState → String
text pending = "PENDING"
text ready = "READY"
text completed = "COMPLETED"
text failed = "FAILED"
text executing = "EXECUTING"
text started = "STARTED"
text cancelled = "CANCELLED"
text paused = "PAUSED"
text manual_approval_required = "MANUAL_APPROVAL_REQUIRED"
text history = "HISTORY"
text running = "RUNNING"
text waiting = "WAITING"
text fatal = "FATAL"
text restart_job = "RESTART_JOB"
text pause_job = "PAUSE_JOB"
text wait_for_approval = "WAIT_FOR_APPROVAL"
text restart_task = "RESTART_TASK"
text approved = "APPROVED"
text rejected = "REJECTED"
text reserved = "RESERVED"
text deleted = "DELETED"
text unknown = "UNKNOWN"
text (other s) = s

-- The conversion `RequestState(s)`.
from_table : List RequestState → String → RequestState
from_table [] s = other s
from_table (c ∷ cs) s = let rest = from_table cs s in if str_eq (text c) s then c else rest

unfoldable pub of_text : String → RequestState
unfolding from_table text
of_text = from_table constants

-- `NewRequestState`.
unfoldable pub new_request_state : String → RequestState
unfolding of_text to_upper
new_request_state s = of_text (to_upper s)

abbrev index : RequestState → ℕ
index pending = 0
index ready = 1
index completed = 2
index failed = 3
index executing = 4
index started = 5
index cancelled = 6
index paused = 7
index manual_approval_required = 8
index history = 9
index running = 10
index waiting = 11
index fatal = 12
index restart_job = 13
index pause_job = 14
index wait_for_approval = 15
index restart_task = 16
index approved = 17
index rejected = 18
index reserved = 19
index deleted = 20
index unknown = 21
index (other s) = 22

abbrev spelling : RequestState → String
spelling (other s) = s
spelling _ = ""

-- `a == b`.
infix 50 ◌is◌ ◌is_not◌
abbrev pub ◌is◌ : RequestState → RequestState → Bool
a is b = index a == index b && str_eq (spelling a) (spelling b)

abbrev pub ◌is_not◌ : RequestState → RequestState → Bool
a is_not b = not (a is b)

unfoldable pub is_terminal : RequestState → Bool
is_terminal rs = rs is completed || rs is failed || rs is cancelled

unfoldable pub can_finalize : RequestState → Bool
unfolding is_terminal
can_finalize rs = is_terminal rs || rs is paused || rs is manual_approval_required

unfoldable pub processing : RequestState → Bool
processing rs =
    rs is waiting
    || rs is pending
    || rs is paused
    || rs is ready
    || rs is executing
    || rs is started
    || rs is manual_approval_required

unfoldable pub can_restart : RequestState → Bool
can_restart rs = rs is failed || rs is cancelled || rs is paused

unfoldable pub can_cancel : RequestState → Bool
unfolding is_terminal
can_cancel rs = not (is_terminal rs) || rs is paused || rs is manual_approval_required

unfoldable pub can_approve : RequestState → Bool
can_approve rs = rs is manual_approval_required

-- The methods `Completed` and `Failed`, whose names the constants have.
unfoldable pub is_completed : RequestState → Bool
is_completed rs = rs is completed

unfoldable pub is_paused : RequestState → Bool
is_paused rs = rs is paused

unfoldable pub is_failed : RequestState → Bool
is_failed rs = rs is failed || rs is cancelled

unfoldable pub is_executing : RequestState → Bool
is_executing rs = rs is executing

unfoldable pub is_waiting : RequestState → Bool
is_waiting rs =
    rs is waiting || rs is pending || rs is paused || rs is ready || rs is manual_approval_required

unfoldable pub is_running : RequestState → Bool
is_running rs = rs is started || rs is executing || rs is running

unfoldable pub done : RequestState → Bool
done rs = rs is failed || rs is completed || rs is cancelled

unfoldable pub is_known : RequestState → Bool
is_known rs = any (λ c. rs is c) constants

unfoldable pub is_unknown : RequestState → Bool
is_unknown rs =
    rs is_not failed
    && rs is_not cancelled
    && rs is_not pending
    && rs is_not paused
    && rs is_not manual_approval_required
    && rs is_not ready
    && rs is_not completed
    && rs is_not executing
    && rs is_not started
    && rs is_not history
    && rs is_not restart_job
    && rs is_not pause_job
    && rs is_not restart_task

unfoldable pub can_transition_to : RequestState → RequestState → Bool
can_transition_to rs new_state =
    if rs is failed || rs is cancelled
    then new_state is pending
    else if rs is pending || rs is paused
    then new_state is ready || new_state is failed
    else if rs is manual_approval_required
    then new_state is ready
    else if rs is ready
    then new_state is started || new_state is failed || new_state is pending || new_state is paused
    else if rs is started
    then new_state is executing
    else if rs is executing
    then new_state is failed
      || new_state is completed
      || new_state is paused
      || new_state is manual_approval_required
    else false
