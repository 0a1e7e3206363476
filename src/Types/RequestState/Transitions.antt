-- ===== src/Types/RequestState/Transitions.antt =====
-- The diagram that `CanTransitionTo` enforces, as a relation, and what follows for the lifecycle.
use formicary.Common.{
  Bool, true, ◌≡◌, refl, sym, subst, ◌↔◌, ◌⊎◌, inl, inr, ◌≢◌, ◌||◌, ◌&&◌, not, arith,
}
use formicary.Types.RequestState.{
  ◌is◌, RequestState, pending, ready, completed, failed, executing, started, cancelled, paused,
  manual_approval_required, running, waiting, can_transition_to, is_terminal, is_waiting,
  is_running, is_failed,
}

infix 40 ◌⟶◌ ◌⟶*◌
pub data ◌⟶◌ : RequestState → RequestState → Type 0 where
  requeue_failed : failed ⟶ pending
  requeue_cancelled : cancelled ⟶ pending
  schedule : pending ⟶ ready
  reject_pending : pending ⟶ failed
  resume : paused ⟶ ready
  reject_paused : paused ⟶ failed
  approve : manual_approval_required ⟶ ready
  launch : ready ⟶ started
  launch_failed : ready ⟶ failed
  revert_pending : ready ⟶ pending
  revert_paused : ready ⟶ paused
  execute : started ⟶ executing
  fail : executing ⟶ failed
  complete : executing ⟶ completed
  pause : executing ⟶ paused
  await_approval : executing ⟶ manual_approval_required

can_transition_to-⟶ : (a b : RequestState) → can_transition_to a b ≡ true → a ⟶ b
unfolding can_transition_to
can_transition_to-⟶ failed pending h = requeue_failed
can_transition_to-⟶ cancelled pending h = requeue_cancelled
can_transition_to-⟶ pending ready h = schedule
can_transition_to-⟶ pending failed h = reject_pending
can_transition_to-⟶ paused ready h = resume
can_transition_to-⟶ paused failed h = reject_paused
can_transition_to-⟶ manual_approval_required ready h = approve
can_transition_to-⟶ ready started h = launch
can_transition_to-⟶ ready failed h = launch_failed
can_transition_to-⟶ ready pending h = revert_pending
can_transition_to-⟶ ready paused h = revert_paused
can_transition_to-⟶ started executing h = execute
can_transition_to-⟶ executing failed h = fail
can_transition_to-⟶ executing completed h = complete
can_transition_to-⟶ executing paused h = pause
can_transition_to-⟶ executing manual_approval_required h = await_approval
can_transition_to-⟶ _ _ h = cc

⟶-can_transition_to : {a b : RequestState} → a ⟶ b → can_transition_to a b ≡ true
unfolding can_transition_to
⟶-can_transition_to requeue_failed = refl
⟶-can_transition_to _ = refl

-- `CanTransitionTo` accepts a pair of states exactly when the diagram has an edge between them.
pub can_transition_to_iff : (a b : RequestState) → (can_transition_to a b ≡ true) ↔ (a ⟶ b)
can_transition_to_iff a b = (can_transition_to-⟶ a b, ⟶-can_transition_to)

-- One state is reached from another by transitions that `CanTransitionTo` accepts.
pub data ◌⟶*◌ : RequestState → RequestState → Type 0 where
  here : {s : RequestState} → s ⟶* s
  then : {s t u : RequestState} → can_transition_to s t ≡ true → t ⟶* u → s ⟶* u

edge : {s t u : RequestState} → s ⟶ t → t ⟶* u → s ⟶* u
edge e r = then (⟶-can_transition_to e) r

⟶-from_completed : {a b : RequestState} → a ⟶ b → a ≢ completed
⟶-from_completed requeue_failed = λ e. cc
⟶-from_completed _ = λ e. cc

-- A completed request stays completed, whatever accepted transitions follow.
completed_absorbs : {a b : RequestState} → a ⟶* b → a ≡ completed → b ≡ completed
completed_absorbs here e = e
completed_absorbs (then s r) e = absurd (⟶-from_completed (can_transition_to-⟶ _ _ s) e)

ruleset edges =
    (requeue_failed, requeue_cancelled, schedule, resume, approve, launch, execute, complete)

-- A request in the state is live, or it can be tried again; WAITING and RUNNING only name groups.
abbrev pub is_open : RequestState → Bool
is_open s =
    (is_waiting s || is_running s || is_failed s) && not (s is waiting) && not (s is running)

is_open-reaches : (s : RequestState) → is_open s ≡ true → s ⟶* completed
unfolding is_waiting is_running is_failed
is_open-reaches pending h = search (here, edge, edges) depth 8
is_open-reaches ready h = search (here, edge, edges) depth 8
is_open-reaches started h = search (here, edge, edges) depth 8
is_open-reaches executing h = search (here, edge, edges) depth 8
is_open-reaches paused h = search (here, edge, edges) depth 8
is_open-reaches manual_approval_required h = search (here, edge, edges) depth 8
is_open-reaches failed h = search (here, edge, edges) depth 9
is_open-reaches cancelled h = search (here, edge, edges) depth 9
is_open-reaches _ h = absurd (cc h)

⟶-is_open : {a b : RequestState} → a ⟶ b → is_open a ≡ true
unfolding is_waiting is_running is_failed
⟶-is_open requeue_failed = refl
⟶-is_open _ = refl

reaches-is_open :
    {s t : RequestState} → s ⟶* t → t ≡ completed → (s ≡ completed) ⊎ (is_open s ≡ true)
reaches-is_open here e = inl e
reaches-is_open (then s r) e = inr (⟶-is_open (can_transition_to-⟶ _ _ s))

-- By transitions that `CanTransitionTo` accepts, a state leads to COMPLETED exactly when it is
-- COMPLETED, or waiting, running, failed or cancelled but not one of the group names WAITING and
-- RUNNING, so no such request is ever stuck; and COMPLETED leads to nothing else.
pub reaches_completed_iff :
    (s : RequestState)
    → ((s ⟶* completed) ↔ (s ≡ completed) ⊎ (is_open s ≡ true))
      × ((t : RequestState) → completed ⟶* t → t ≡ completed)
reaches_completed_iff s = (
  (
    λ r. reaches-is_open r refl,
    λ h. elim h [
      | inl e ↦ subst (λ x. x ⟶* completed) (sym e) here
      | inr live ↦ is_open-reaches s live
    ],
  ),
  λ t r. completed_absorbs r refl,
)

-- A transition out of a terminal state is a requeue: it starts from FAILED or CANCELLED and ends in
-- PENDING.
terminal_only_requeues :
    {a b : RequestState}
    → a ⟶ b
    → is_terminal a ≡ true
    → ((a ≡ failed) ⊎ (a ≡ cancelled)) × (b ≡ pending)
unfolding is_terminal
terminal_only_requeues requeue_failed h = (inl refl, refl)
terminal_only_requeues requeue_cancelled h = (inr refl, refl)
terminal_only_requeues _ h = cc

-- PENDING, READY and EXECUTING are the only states that a request enters FAILED from, with PAUSED.
enters_failed :
    {a b : RequestState}
    → a ⟶ b
    → b ≡ failed
    → (a ≡ pending) ⊎ (a ≡ paused) ⊎ (a ≡ ready) ⊎ (a ≡ executing)
enters_failed reject_pending h = inl refl
enters_failed reject_paused h = ground arith
enters_failed _ h = ground arith
