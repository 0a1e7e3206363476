-- ===== src/Examples/Votes.antt =====
-- The votes on a task, at which the theorems on approvals are applied.
use formicary.Common.{
  any, str_eq, String, ◌≡◌, ◌<◌, refl, true, false, List, [], ◌∷◌, ◌++◌, none, some, arith, length,
  pos, split_at, trim_space, trim_left, trim_right, is_blank,
}
use formicary.Types.RequestState.{manual_approval_required}
use formicary.Approvals.{
  Deadline, auto_reject, Policy, Vote, Decision, Faults, Caller, Ballot, Approval, approved,
  rejected, approvals, rejections, is_rejected, allowed_user_list, split_trimmed, has_voted,
  cast_vote, check_ballot, resolve_votes, authorize_voter, finalize_approval, finalize_rejection,
  save_vote,
}
use formicary.Approvals.Deadlines.{
  settle, handle_sla_breach, find_breached_deadlines, handle_sla_breach-once,
}
use formicary.Approvals.Quorum.{IsRoll, is_rejected-final}
use formicary.Approvals.Casting.{IsOnce, Casting, cast_all, cast_all-IsOnce}

-- Two of three.
abbrev policy : Policy
policy = record {
  min_approvals = 2;
  allowed_roles = "";
  allowed_users = "ann, bob,cyd";
  require_unanimous = false;
  sla_deadline = pos 0;
  timeout_action = "";
  escalation_recipients = "";
}

abbrev vote : String → Decision → Vote
vote id decision = record { voter_id = id; decision = decision; comments = "seen" }

abbrev two_against : List Vote
two_against = vote "ann" rejected ∷ vote "cyd" rejected ∷ []

roll : IsRoll (allowed_user_list policy) (two_against ++ (vote "bob" approved ∷ []))
unfolding split_trimmed split_at trim_space trim_left trim_right has_voted
roll = (refl, refl, (refl, refl, (refl, refl, tt)))

two_reject : is_rejected (approvals two_against) (rejections two_against) (some policy) ≡ true
unfolding is_rejected split_trimmed split_at trim_space trim_left trim_right
two_reject = refl

three_listed : 0 < length (allowed_user_list policy)
unfolding split_trimmed split_at trim_space trim_left trim_right
three_listed = omega arith

is_rejected-final_example :
    approvals (two_against ++ (vote "bob" approved ∷ [])) < policy.min_approvals
is_rejected-final_example =
    is_rejected-final policy two_against (vote "bob" approved ∷ []) refl three_listed roll
      two_reject

abbrev no_faults : Faults
no_faults = record {
  has_voted = false;
  save_vote = false;
  reload_vote = false;
  count_votes = false;
  get_votes = false;
  commit = false;
  resolve = false;
  mark = false;
}

abbrev caller : String → Caller
caller id = record { user_id = id; owns_request = true; has_role = λ r. false }

abbrev ballot : String → Decision → Ballot
ballot id decision = record {
  request_state = manual_approval_required;
  task_type = "deploy";
  task_execution_id = "t1";
  voter_id = id;
  decision = decision;
  comments = "seen";
}

abbrev waiting_task : Approval
waiting_task = record {
  votes = vote "ann" approved ∷ [];
  deadlines = [];
  task_state = manual_approval_required;
  task_error_code = "";
  execution_state = manual_approval_required;
  request_state = manual_approval_required;
  request_error_code = "";
}

abbrev casting : String → Casting
casting id = record {
  faults = no_faults;
  caller = caller id;
  policy = some policy;
  ballot = ballot id approved;
}

ann-IsOnce : IsOnce waiting_task.votes
unfolding has_voted
ann-IsOnce = (refl, tt)

bob_counts :
    (cast_vote no_faults (caller "bob") (some policy) (ballot "bob" approved) waiting_task).0 ≡ none
unfolding cast_vote check_ballot authorize_voter split_trimmed split_at trim_space trim_left
    trim_right has_voted is_blank resolve_votes finalize_approval finalize_rejection save_vote
    is_rejected
bob_counts = refl

cast_all-IsOnce_example :
    IsOnce (cast_all (casting "ann" ∷ casting "bob" ∷ casting "bob" ∷ []) waiting_task).votes
cast_all-IsOnce_example =
    cast_all-IsOnce (casting "ann" ∷ casting "bob" ∷ casting "bob" ∷ []) waiting_task ann-IsOnce

abbrev overdue : Deadline
overdue = record {
  id = "d1";
  due = 50;
  escalated = false;
  resolved = false;
  timeout_action = auto_reject;
  escalation_recipients = "";
}

abbrev late_task : Approval
late_task = record waiting_task { deadlines = overdue ∷ [] }

breach_handled : (handle_sla_breach no_faults true overdue late_task).0 ≡ none
unfolding handle_sla_breach settle finalize_rejection finalize_approval
breach_handled = refl

handle_sla_breach-once_example :
    any
      (λ e. str_eq e.id "d1")
      (find_breached_deadlines 100 (handle_sla_breach no_faults true overdue late_task).1.deadlines)
    ≡ false
handle_sla_breach-once_example =
    handle_sla_breach-once no_faults true overdue late_task 100 breach_handled
