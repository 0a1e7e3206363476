-- ===== src/Approvals/Deadlines.antt =====
-- queen/approval/service.go and repository_impl.go: the deadlines of tasks that await approval.
use formicary.Common.{
  Bool, String, ℕ, suc, ◌+◌, ◌≡◌, refl, arith, pos, true, false, not, ◌&&◌, ◌||◌, Option, none,
  some, is_some, str_eq, List, [], ◌∷◌, ◌++◌, map, if◌then◌else◌, any, keep, ltb, Bool-cases,
  Option-cases, inl, inr,
}
use formicary.Approvals.{
  Policy, Deadline, Approval, Faults, Refusal, storage, auto_approve, auto_reject,
  effective_timeout_action, finalize_approval, finalize_rejection,
}

abbrev mark : String → (Deadline → Deadline) → List Deadline → List Deadline
mark id change ds = map (λ d. if str_eq d.id id then change d else d) ds

-- The decision of a deadline, in `HandleSLABreach`.
unfoldable pub settle : Faults → Bool → Deadline → Approval → Option Refusal × Approval
settle f owned d a =
    if str_eq d.timeout_action auto_approve
    then finalize_approval f owned a
    else finalize_rejection f owned a

abbrev resolve_deadline : Deadline → Deadline
resolve_deadline d = record d { resolved = true }

abbrev escalate_deadline : Deadline → Deadline
escalate_deadline d = record d { escalated = true }

-- `HandleSLABreach`, where `owned` says whether the filter of its query context keeps the request;
-- the notification of an escalation is left out.
unfoldable pub handle_sla_breach : Faults → Bool → Deadline → Approval → Option Refusal × Approval
unfolding settle
handle_sla_breach f owned d a =
    let (problem, decided) = settle f owned d a in
    let resolves = str_eq d.timeout_action auto_approve || str_eq d.timeout_action auto_reject in
    if resolves
    then (if is_some problem
        then (problem, decided)
        else if f.mark
        then (some storage, decided)
        else (none, record decided { deadlines = mark d.id resolve_deadline decided.deadlines }))
    else if f.mark
    then (some storage, a)
    else (none, record a { deadlines = mark d.id escalate_deadline a.deadlines })

-- `FindBreachedDeadlines`, without its limit and order.
unfoldable pub find_breached_deadlines : ℕ → List Deadline → List Deadline
find_breached_deadlines now ds = keep (λ d. not d.resolved && not d.escalated && ltb d.due now) ds

-- `CreateDeadlineIfNeeded`; `id` is fresh.
unfoldable pub create_deadline_if_needed :
    ℕ → String → Option Policy → List Deadline → List Deadline
create_deadline_if_needed now id none ds = ds
create_deadline_if_needed now id (some p) ds = elim p.sla_deadline [
  | pos (suc n) ↦
      ds
      ++ (record {
        id = id;
        due = now + suc n;
        escalated = false;
        resolved = false;
        timeout_action = effective_timeout_action p;
        escalation_recipients = p.escalation_recipients;
      }
          ∷ [])
  | _ ↦ ds
]

gone :
    (id : String) (now : ℕ) (change : Deadline → Deadline) (ds : List Deadline)
    → ((d : Deadline)
        → not (change d).resolved && not (change d).escalated && ltb (change d).due now ≡ false)
    → any (λ e. str_eq e.id id) (find_breached_deadlines now (mark id change ds)) ≡ false
unfolding find_breached_deadlines
gone id now change [] over = refl
gone id now change (d ∷ ds) over = elim (Bool-cases (str_eq d.id id)) [
  | inl same ↦ rw (same, over d) (gone id now change ds over)
  | inr other ↦
      let rest = gone id now change ds over in
      elim (Bool-cases (not d.resolved && not d.escalated && ltb d.due now)) [
        | inl kept ↦ rw (other, kept, other) rest
        | inr cut ↦ rw (other, cut) rest
      ]
]

-- A breach is handled once: after a handling without an error, the search for breached deadlines does
-- not find the deadline again, at any time.
pub handle_sla_breach-once :
    (f : Faults) (owned : Bool) (d : Deadline) (a : Approval) (now : ℕ)
    → (handle_sla_breach f owned d a).0 ≡ none
    → any
        (λ e. str_eq e.id d.id)
        (find_breached_deadlines now (handle_sla_breach f owned d a).1.deadlines)
      ≡ false
unfolding handle_sla_breach
handle_sla_breach-once f owned d a now ok =
    elim (Bool-cases
      (str_eq d.timeout_action auto_approve || str_eq d.timeout_action auto_reject)) [
        | inl resolves ↦ elim (Option-cases (settle f owned d a).0) [
          | inr (problem, e) ↦ absurd (cc (rw (resolves, e) at ok))
          | inl e ↦ elim (Bool-cases f.mark) [
            | inl fails ↦ absurd (cc (rw (resolves, e, fails) at ok))
            | inr works ↦ rw (resolves, e, works) (gone d.id now resolve_deadline _ (λ x. refl))
          ]
        ]
        | inr escalates ↦ elim (Bool-cases f.mark) [
          | inl fails ↦ absurd (cc (rw (escalates, fails) at ok))
          | inr works ↦
              rw (escalates, works)
                (gone d.id now escalate_deadline a.deadlines (λ x. ground arith))
        ]
      ]
