-- ===== src/Approvals.antt =====
-- queen/types/approval_policy.go, approval_vote.go and approval_deadline.go, and queen/approval: the
-- votes on a task that awaits approval. A task execution has its votes, its deadlines and the states
-- of the rows that a decision changes; messages and times are left out.
pub mod Quorum
pub mod Casting
pub mod Deadlines
use formicary.Common.{
  String, ℕ, suc, ◌+◌, ◌-◌, ◌==◌, ℤ, pos, is_neg, Bool, true, false, not, ◌&&◌, ◌||◌, Option, none,
  some, is_some, str_eq, List, [], ◌∷◌, ◌++◌, map, if◌then◌else◌, length, any, keep, ltb, leb,
  split_at, trim_space, is_blank,
}
use formicary.Types.RequestState.{
  RequestState, ◌is◌, ◌is_not◌, pending, completed, failed, manual_approval_required,
}
use formicary.Types.ErrorCode.{error_manual_rejection}

abbrev pub auto_approve : String
auto_approve = "AUTO_APPROVE"

abbrev pub auto_reject : String
auto_reject = "AUTO_REJECT"

abbrev escalate : String
escalate = "ESCALATE"

-- `ApprovalPolicy`; a minimum of approvals below 0 acts as 0.
pub record Policy : Type 0 where
  pub min_approvals : ℕ
  pub allowed_roles : String
  pub allowed_users : String
  pub require_unanimous : Bool
  pub sla_deadline : ℤ
  pub timeout_action : String
  pub escalation_recipients : String

pub data Refusal : Type 0 where
  invalid : String → Refusal
  conflict permission storage : Refusal

-- `Validate` of a policy.
unfoldable pub validate_policy : Policy → Option Refusal
validate_policy p =
    if ltb p.min_approvals 1
    then some (invalid "min_approvals must be at least 1")
    else if is_neg p.sla_deadline
    then some (invalid "sla_deadline cannot be negative")
    else if not (str_eq p.timeout_action "")
        && not (str_eq p.timeout_action auto_approve)
        && not (str_eq p.timeout_action auto_reject)
        && not (str_eq p.timeout_action escalate)
    then some (invalid "timeout_action")
    else none

-- `splitTrimmed`
unfoldable pub split_trimmed : String → List String
unfolding split_at trim_space
split_trimmed s = keep (λ part. not (str_eq part "")) (map trim_space (split_at 44 s))

abbrev pub allowed_user_list : Policy → List String
allowed_user_list p = split_trimmed p.allowed_users

abbrev pub allowed_role_list : Policy → List String
allowed_role_list p = split_trimmed p.allowed_roles

-- `EffectiveTimeoutAction`
unfoldable pub effective_timeout_action : Policy → String
effective_timeout_action p = if str_eq p.timeout_action "" then escalate else p.timeout_action

pub data Decision : Type 0 where
  approved rejected : Decision
  undecided : String → Decision

abbrev pub is_approval : Decision → Bool
is_approval approved = true
is_approval _ = false

abbrev pub is_refusal : Decision → Bool
is_refusal rejected = true
is_refusal _ = false

pub record Vote : Type 0 where
  pub voter_id : String
  pub decision : Decision
  pub comments : String

-- `IsApproved`
abbrev pub is_approved : Vote → Bool
is_approved v = is_approval v.decision

abbrev is_rejected_vote : Vote → Bool
is_rejected_vote v = is_refusal v.decision

pub record Deadline : Type 0 where
  pub id : String
  pub due : ℕ
  pub escalated : Bool
  pub resolved : Bool
  pub timeout_action : String
  pub escalation_recipients : String

-- A task execution that awaits approval, with the rows of its job.
pub record Approval : Type 0 where
  pub votes : List Vote
  pub deadlines : List Deadline
  pub task_state : RequestState
  pub task_error_code : String
  pub execution_state : RequestState
  pub request_state : RequestState
  pub request_error_code : String

-- Which statement fails.
pub record Faults : Type 0 where
  pub has_voted : Bool
  pub save_vote : Bool
  pub reload_vote : Bool
  pub count_votes : Bool
  pub get_votes : Bool
  pub commit : Bool
  pub resolve : Bool
  pub mark : Bool

-- `HasVoted`
unfoldable pub has_voted : String → List Vote → Bool
has_voted voter_id votes = any (λ v. str_eq v.voter_id voter_id) votes

-- `SaveVote`: a second vote of a voter is ignored.
unfoldable pub save_vote : Vote → List Vote → List Vote
save_vote v votes = if has_voted v.voter_id votes then votes else votes ++ (v ∷ [])

-- `CountVotes`
abbrev pub approvals : List Vote → ℕ
approvals votes = length (keep is_approved votes)

abbrev pub rejections : List Vote → ℕ
rejections votes = length (keep is_rejected_vote votes)

-- `isRejected`
unfoldable pub is_rejected : ℕ → ℕ → Option Policy → Bool
unfolding split_trimmed
is_rejected ayes nays none = not (nays == 0)
is_rejected ayes nays (some p) =
    let total = length (allowed_user_list p) in
    if nays == 0
    then false
    else if p.require_unanimous
    then true
    else if total == 0
    then true
    else ltb (ayes + (total - ayes - nays)) p.min_approvals

abbrev pub min_required : Option Policy → ℕ
min_required none = 1
min_required (some p) = p.min_approvals

pub record Status : Type 0 where
  pub approvals_received : ℕ
  pub rejections_received : ℕ
  pub quorum_reached : Bool
  pub rejected : Bool

-- `GetStatus`, where every vote that is no approval counts as a rejection.
unfoldable pub get_status : Option Policy → List Vote → Status
unfolding is_rejected
get_status p votes =
    let ayes = approvals votes in
    let nays = length (keep (λ v. not (is_approved v)) votes) in
    record {
      approvals_received = ayes;
      rejections_received = nays;
      quorum_reached = leb (min_required p) ayes;
      rejected = is_rejected ayes nays p;
    }

-- The caller: the user id of the query context, whether its user has a role, and whether the filter
-- `AddOrgElseUserWhere` of its writes keeps the request's row.
pub record Caller : Type 0 where
  pub user_id : String
  pub owns_request : Bool
  pub has_role : String → Bool

abbrev synthetic_voter_id : String
synthetic_voter_id = "system:sla-timeout"

-- `authorizeVoter`, as whether it gives no error.
unfoldable pub authorize_voter : Caller → Option Policy → String → Bool
unfolding split_trimmed
authorize_voter caller none voter_id = false
authorize_voter caller (some p) voter_id =
    let users = allowed_user_list p in
    let roles = allowed_role_list p in
    not (str_eq voter_id synthetic_voter_id)
    && (length users == 0 && length roles == 0
        || any (λ u. str_eq u voter_id || str_eq u caller.user_id) users
        || any (λ r. caller.has_role r) roles)

abbrev resolve : Deadline → Deadline
resolve d = record d { resolved = true }

abbrev resolve_all : Bool → List Deadline → List Deadline
resolve_all fails ds = if fails then ds else map resolve ds

-- `finalizeApproval`, one transaction; a failure to resolve the deadlines is only reported. A row
-- that does not await approval is not changed, nor the request's row that the caller's filter hides.
unfoldable pub finalize_approval : Faults → Bool → Approval → Option Refusal × Approval
finalize_approval f owned a =
    let task_waits = a.task_state is manual_approval_required in
    let request_waits = owned && a.request_state is manual_approval_required in
    if f.commit then (some storage, a) else (
      none,
      record a {
        task_state = if task_waits then completed else a.task_state;
        request_state = if request_waits then pending else a.request_state;
        request_error_code = if request_waits then "" else a.request_error_code;
        deadlines = resolve_all f.resolve a.deadlines;
      },
    )

-- `finalizeRejection`
unfoldable pub finalize_rejection : Faults → Bool → Approval → Option Refusal × Approval
finalize_rejection f owned a =
    let task_waits = a.task_state is manual_approval_required in
    let execution_waits = a.execution_state is manual_approval_required in
    let request_waits = owned && a.request_state is manual_approval_required in
    if f.commit then (some storage, a) else (
      none,
      record a {
        task_state = if task_waits then failed else a.task_state;
        task_error_code = if task_waits then error_manual_rejection else a.task_error_code;
        execution_state = if execution_waits then failed else a.execution_state;
        request_state = if request_waits then failed else a.request_state;
        request_error_code = if request_waits then error_manual_rejection else a.request_error_code;
        deadlines = resolve_all f.resolve a.deadlines;
      },
    )

-- What `CastVote` is asked, with the state of the request that the caller holds.
pub record Ballot : Type 0 where
  pub request_state : RequestState
  pub task_type : String
  pub task_execution_id : String
  pub voter_id : String
  pub decision : Decision
  pub comments : String

abbrev is_decided : Decision → Bool
is_decided d = is_approval d || is_refusal d

-- The checks of `CastVote` before it asks for earlier votes.
unfoldable pub check_ballot : Caller → Option Policy → Ballot → Option Refusal
unfolding authorize_voter
check_ballot caller p b =
    if str_eq b.task_type ""
    then some (invalid "task_type is required")
    else if str_eq b.task_execution_id ""
    then some (invalid "task_execution_id is required")
    else if str_eq b.voter_id ""
    then some (invalid "voter_id is required")
    else if not (is_decided b.decision)
    then some (invalid "decision must be APPROVED or REJECTED")
    else if b.request_state is_not manual_approval_required
    then some conflict
    else if not (authorize_voter caller p b.voter_id)
    then some permission
    else none

abbrev pub Cast : Type 0
Cast = Option Refusal × Option Status × Approval

abbrev pub vote_of : Ballot → Vote
vote_of b = record { voter_id = b.voter_id; decision = b.decision; comments = b.comments }

abbrev status_of : ℕ → ℕ → Bool → Bool → Status
status_of ayes nays quorum refused = record {
  approvals_received = ayes;
  rejections_received = nays;
  quorum_reached = quorum;
  rejected = refused;
}

-- The end of `CastVote`, from the reload of the saved vote on, over the votes with the new one: a
-- rejection goes before a quorum.
unfoldable pub resolve_votes : Faults → Bool → Option Policy → Approval → Cast
resolve_votes f owned p a =
    let ayes = approvals a.votes in
    let nays = rejections a.votes in
    let over = is_rejected ayes nays p in
    let enough = leb (min_required p) ayes in
    let status = status_of ayes nays (not over && enough) over in
    let (no_problem, refused) = finalize_rejection f owned a in
    let (yes_problem, passed) = finalize_approval f owned a in
    if f.reload_vote || f.count_votes || f.get_votes
    then (some storage, none, a)
    else if over
    then (no_problem, some status, refused)
    else if enough
    then (yes_problem, some status, passed)
    else (none, some status, a)

-- `CastVote`
unfoldable pub cast_vote : Faults → Caller → Option Policy → Ballot → Approval → Cast
cast_vote f caller p b a =
    let vote = vote_of b in
    elim (check_ballot caller p b) [
      | some refusal ↦ (some refusal, none, a)
      | none ↦
          if f.has_voted
          then (some storage, none, a)
          else if has_voted b.voter_id a.votes
          then (if f.get_votes
              then (some storage, none, a)
              else (none, some (get_status p a.votes), a))
          else if is_refusal b.decision && is_blank b.comments
          then (some (invalid "comments are required for rejection"), none, a)
          else if f.save_vote
          then (some storage, none, a)
          else resolve_votes f caller.owns_request p (record a { votes = save_vote vote a.votes })
    ]
