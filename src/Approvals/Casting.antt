-- ===== src/Approvals/Casting.antt =====
-- What a ballot does to the votes and to the rows of its task.
use formicary.Common.{
  if◌then◌else◌, String, ◌≡◌, refl, sym, subst, ◌∙◌, Bool, true, false, ◌&&◌, ◌||◌, arith, Option,
  none, is_some, str_eq, str_eq_iff, str_eq_refl, List, [], ◌∷◌, ◌++◌, leb, is_blank, Bool-cases,
  Option-cases, inl, inr, ◌⊎◌,
}
use formicary.Types.RequestState.{◌is◌, pending, completed, failed, manual_approval_required}
use formicary.Types.ErrorCode.{error_manual_rejection}
use formicary.Approvals.{
  Policy, Vote, Faults, Caller, Ballot, Approval, Refusal, Cast, has_voted, save_vote, cast_vote,
  check_ballot, resolve_votes, finalize_approval, finalize_rejection, is_rejected, is_refusal,
  vote_of, min_required, approvals, rejections,
}

-- No voter has two votes.
abbrev pub IsOnce : List Vote → Type 0
IsOnce [] = Unit
IsOnce (v ∷ votes) = (has_voted v.voter_id votes ≡ false) × IsOnce votes

has_voted-append :
    (id : String) (votes : List Vote) (v : Vote)
    → has_voted id (votes ++ (v ∷ [])) ≡ (has_voted id votes || str_eq v.voter_id id)
unfolding has_voted
has_voted-append id [] v = ground arith
has_voted-append id (w ∷ votes) v = ground (arith, has_voted-append id votes v)

append-IsOnce :
    (v : Vote) (votes : List Vote)
    → has_voted v.voter_id votes ≡ false
    → IsOnce votes
    → IsOnce (votes ++ (v ∷ []))
unfolding has_voted
append-IsOnce v [] new once = (refl, tt)
append-IsOnce v (w ∷ votes) new (first, rest) =
    let other : str_eq v.voter_id w.voter_id ≡ false =
      ground (arith, str_eq_iff w.voter_id v.voter_id, str_eq_iff v.voter_id w.voter_id) in
    let later : has_voted v.voter_id votes ≡ false = ground arith in
    (has_voted-append w.voter_id votes v ∙ ground arith, append-IsOnce v votes later rest)

resolve_votes-votes :
    (f : Faults) (owned : Bool) (p : Option Policy) (a : Approval)
    → (resolve_votes f owned p a).2.votes ≡ a.votes
unfolding resolve_votes finalize_approval finalize_rejection
resolve_votes-votes f owned p a = ground arith

abbrev with_vote : Ballot → Approval → Approval
with_vote b a = record a { votes = a.votes ++ (vote_of b ∷ []) }

-- A ballot changes nothing, which is no error only where its voter has voted, or its vote is
-- counted.
cast_vote-cases :
    (f : Faults) (caller : Caller) (p : Option Policy) (b : Ballot) (a : Approval)
    → (((cast_vote f caller p b a).2 ≡ a)
        × ((cast_vote f caller p b a).0 ≡ none → has_voted b.voter_id a.votes ≡ true))
      ⊎ ((has_voted b.voter_id a.votes ≡ false)
          × (cast_vote f caller p b a ≡ resolve_votes f caller.owns_request p (with_vote b a)))
unfolding cast_vote save_vote
cast_vote-cases f caller p b a = elim (Option-cases (check_ballot caller p b)) [
  | inr (refusal, e) ↦ rw (cast_vote, e) (inl (refl, λ h. absurd (cc h)))
  | inl e ↦
      rw (cast_vote, e)
        (elim (Bool-cases f.has_voted) [
          | inl e ↦ rw e (inl (refl, λ h. absurd (cc h)))
          | inr e ↦ rw e (elim (Bool-cases (has_voted b.voter_id a.votes)) [
            | inl e ↦ rw e (
                inl (
                  elim (Bool-cases f.get_votes) [ inl e ↦ rw e refl | inr e ↦ rw e refl ],
                  λ h. refl,
                ))
            | inr e ↦ rw e (elim (Bool-cases (is_refusal b.decision && is_blank b.comments)) [
              | inl e ↦ rw e (inl (refl, λ h. absurd (cc h)))
              | inr e ↦ rw e (elim (Bool-cases f.save_vote) [
                | inl e ↦ rw e (inl (refl, λ h. absurd (cc h)))
                | inr e ↦ rw e (inr (refl, refl))
              ])
            ])
          ])
        ])
]

-- A list of ballots, each cast as the votes stand then.
pub record Casting : Type 0 where
  pub faults : Faults
  pub caller : Caller
  pub policy : Option Policy
  pub ballot : Ballot

unfoldable pub cast_all : List Casting → Approval → Approval
cast_all [] a = a
cast_all (c ∷ cs) a = cast_all cs (cast_vote c.faults c.caller c.policy c.ballot a).2

cast_vote-IsOnce :
    (f : Faults) (caller : Caller) (p : Option Policy) (b : Ballot) (a : Approval)
    → IsOnce a.votes
    → IsOnce (cast_vote f caller p b a).2.votes
cast_vote-IsOnce f caller p b a once = elim (cast_vote-cases f caller p b a) [
  | inl (e, _) ↦ subst (λ x. IsOnce x.votes) (sym e) once
  | inr (new, e) ↦
      rw (e, resolve_votes-votes f caller.owns_request p (with_vote b a))
        (append-IsOnce (vote_of b) a.votes new once)
]

-- One voter has one vote: no sequence of ballots, whoever casts them and whatever fails, gives a
-- voter a second vote.
pub cast_all-IsOnce :
    (cs : List Casting) (a : Approval) → IsOnce a.votes → IsOnce (cast_all cs a).votes
unfolding cast_all
cast_all-IsOnce [] a once = once
cast_all-IsOnce (c ∷ cs) a once =
    cast_all-IsOnce cs (cast_vote c.faults c.caller c.policy c.ballot a).2
      (cast_vote-IsOnce c.faults c.caller c.policy c.ballot a once)

cast_vote-has_voted :
    (f : Faults) (caller : Caller) (p : Option Policy) (b : Ballot) (a : Approval)
    → (cast_vote f caller p b a).0 ≡ none
    → has_voted b.voter_id (cast_vote f caller p b a).2.votes ≡ true
cast_vote-has_voted f caller p b a ok = elim (cast_vote-cases f caller p b a) [
  | inl (e, voted) ↦ rw e (voted ok)
  | inr (new, e) ↦
      rw
        (
          e,
          resolve_votes-votes f caller.owns_request p (with_vote b a),
          has_voted-append b.voter_id a.votes (vote_of b),
          str_eq_refl b.voter_id,
        )
        (ground arith)
]

-- A second ballot of a voter changes nothing: neither the votes nor the rows nor the deadlines,
-- whatever it asks for and whoever casts it.
cast_vote-again :
    (f g : Faults) (caller other : Caller) (p q : Option Policy) (b c : Ballot) (a : Approval)
    → (cast_vote f caller p b a).0 ≡ none
    → c.voter_id ≡ b.voter_id
    → (cast_vote g other q c (cast_vote f caller p b a).2).2 ≡ (cast_vote f caller p b a).2
cast_vote-again f g caller other p q b c a ok same =
    elim (cast_vote-cases g other q c (cast_vote f caller p b a).2) [
      | inl (e, _) ↦ e
      | inr (new, _) ↦
          absurd (let voted = cast_vote-has_voted f caller p b a ok in cc (voted, new, same))
    ]

-- The states of the rows.
abbrev SameRows : Approval → Approval → Type 0
SameRows a b =
    (b.task_state ≡ a.task_state)
    × (b.task_error_code ≡ a.task_error_code)
    × (b.execution_state ≡ a.execution_state)
    × (b.request_state ≡ a.request_state)
    × (b.request_error_code ≡ a.request_error_code)

-- The rows of a rejected task, its execution and its request; the request's row is left alone if the
-- caller's filter hides it.
abbrev pub Rejected : Bool → Approval → Approval → Type 0
Rejected owned before after =
    (after.task_state ≡ failed)
    × (after.task_error_code ≡ error_manual_rejection)
    × (after.execution_state ≡ failed)
    × (after.request_state ≡ (if owned then failed else before.request_state))
    × (after.request_error_code
        ≡ (if owned then error_manual_rejection else before.request_error_code))

-- The rows of an approved task, its execution and its request.
abbrev pub Approved : Bool → Approval → Approval → Type 0
Approved owned before after =
    (after.task_state ≡ completed)
    × (after.task_error_code ≡ before.task_error_code)
    × (after.execution_state ≡ before.execution_state)
    × (after.request_state ≡ (if owned then pending else before.request_state))
    × (after.request_error_code ≡ (if owned then "" else before.request_error_code))

-- What the votes decide, and the rows say so: against the task, for it, or nothing yet.
abbrev Decided : Bool → Option Policy → Approval → Approval → Type 0
Decided owned p before after =
    let over = is_rejected (approvals after.votes) (rejections after.votes) p in
    let enough = leb (min_required p) (approvals after.votes) in
    (over ≡ true) × Rejected owned before after
    ⊎ (over ≡ false) × (enough ≡ true) × Approved owned before after
    ⊎ (over ≡ false) × (enough ≡ false) × SameRows before after

abbrev Refused : Bool → Approval → Option Refusal × Approval → Type 0
Refused owned a r = (is_some r.0 ≡ true) × (r.1 ≡ a) ⊎ (r.0 ≡ none) × Rejected owned a r.1

abbrev Passed : Bool → Approval → Option Refusal × Approval → Type 0
Passed owned a r = (is_some r.0 ≡ true) × (r.1 ≡ a) ⊎ (r.0 ≡ none) × Approved owned a r.1

-- The task, its execution and its request all await the approval.
abbrev pub AllWait : Approval → Type 0
AllWait a =
    (a.task_state is manual_approval_required ≡ true)
    × (a.execution_state is manual_approval_required ≡ true)
    × (a.request_state is manual_approval_required ≡ true)

abbrev pub Outcome : Bool → Option Policy → Approval → Cast → Type 0
Outcome owned p a r = (is_some r.0 ≡ true) × SameRows a r.2 ⊎ (r.0 ≡ none) × Decided owned p a r.2
