-- ===== src/Executions/Tasks/Latest.antt =====
-- The queries over the task executions: the last one, and the first that failed.
use formicary.Common.{
  ◌≡◌, ◌≤◌, ◌⊎◌, inl, inr, refl, sym, subst, ◌↔◌, and-true, not-true, ◌∙◌, true, false, arith, List,
  [], ◌∷◌, Option, none, some, not, ◌&&◌, Bool-cases, All,
}
use formicary.Types.RequestState.{is_failed, processing}
use formicary.Executions.Tasks.{
  TaskExecution, Any, later_than, last_executed, get_last_executed_task, get_failed_task_error,
}

-- The result is a task of the list that is not processing, or the one carried in, and no task of
-- the list that is not processing has a greater order.
abbrev pub IsLatest : Option TaskExecution → List TaskExecution → Option TaskExecution → Type 0
IsLatest last ts none = (last ≡ none) × All (λ t. processing t.task_state ≡ true) ts
IsLatest last ts (some l) =
    ((last ≡ some l) ⊎ Any (λ t. (t ≡ l) × (processing t.task_state ≡ false)) ts)
    × All (λ t. (processing t.task_state ≡ true) ⊎ (t.task_order ≤ l.task_order)) ts
    × ((k : TaskExecution) → last ≡ some k → k.task_order ≤ l.task_order)

IsLatest-take :
    (last : Option TaskExecution) (t : TaskExecution) (ts : List TaskExecution)
    (r : Option TaskExecution)
    → processing t.task_state ≡ false
    → later_than last t ≡ true
    → IsLatest (some t) ts r
    → IsLatest last (t ∷ ts) r
IsLatest-take last t ts none idle later (e, rest) = absurd (cc e)
IsLatest-take last t ts (some l) idle later (from, le, carried) = (
  inr (elim from [ inl e ↦ inl (cc, idle) | inr a ↦ inr a ]),
  (inr (carried t refl), le),
  λ k e. earlier k e (carried t refl),
)
  where
    earlier :
        (k : TaskExecution)
        → last ≡ some k
        → t.task_order ≤ l.task_order
        → k.task_order ≤ l.task_order
    earlier k e h = ground (arith, subst (λ o. later_than o t ≡ true) e later)

IsLatest-keep :
    (last : Option TaskExecution) (t : TaskExecution) (ts : List TaskExecution)
    (r : Option TaskExecution)
    → (not (processing t.task_state) && later_than last t) ≡ false
    → IsLatest last ts r
    → IsLatest last (t ∷ ts) r
IsLatest-keep none t ts none skip (e, rest) = (refl, (ground arith, rest))
IsLatest-keep (some k) t ts none skip (e, rest) = absurd (cc e)
IsLatest-keep none t ts (some l) skip (from, le, carried) =
    (elim from [ inl e ↦ inl e | inr a ↦ inr (inr a) ], (inl (ground arith), le), carried)
IsLatest-keep (some k) t ts (some l) skip (from, le, carried) =
    (elim from [ inl e ↦ inl e | inr a ↦ inr (inr a) ], (not_later (carried k refl), le), carried)
  where
    not_later :
        k.task_order ≤ l.task_order
        → (processing t.task_state ≡ true) ⊎ (t.task_order ≤ l.task_order)
    not_later h = ground arith

reaches : (l k : TaskExecution) → l ≡ k → k.task_order ≤ l.task_order
reaches l k e = subst (λ m. m.task_order ≤ l.task_order) e (omega arith)

last_executed-IsLatest :
    (last : Option TaskExecution) (ts : List TaskExecution)
    → IsLatest last ts (last_executed last ts)
unfolding last_executed
last_executed-IsLatest none [] = (refl, tt)
last_executed-IsLatest (some l) [] = (inl refl, tt, λ k e. reaches l k cc)
last_executed-IsLatest last (t ∷ ts) =
    elim (Bool-cases (not (processing t.task_state) && later_than last t)) [
      | inr skip ↦ rw (skip) (IsLatest-keep last t ts _ skip (last_executed-IsLatest last ts))
      | inl hit ↦
          let (idle, later) = and-true _ _ hit in
          rw (hit)
            (IsLatest-take last t ts _ (not-true _ idle) later (last_executed-IsLatest (some t) ts))
    ]

-- `GetLastExecutedTask` gives nil only when every task is still processing, and otherwise a task of
-- the execution that is not processing and has the greatest order among these.
pub get_last_executed_task-IsLatest :
    (ts : List TaskExecution) → IsLatest none ts (get_last_executed_task ts)
get_last_executed_task-IsLatest = last_executed-IsLatest none

-- `GetFailedTaskError` gives no error exactly when every failed task may fail.
pub get_failed_task_error_iff :
    (ts : List TaskExecution)
    → (get_failed_task_error ts ≡ none)
      ↔ All (λ t. (is_failed t.task_state ≡ true) → t.allow_failure ≡ true) ts
unfolding get_failed_task_error
get_failed_task_error_iff [] = (λ e. tt, λ h. refl)
get_failed_task_error_iff (t ∷ ts) =
    elim (Bool-cases (not t.allow_failure && is_failed t.task_state)) [
      | inl hit ↦ rw (hit) (λ e. absurd (cc e), λ h. absurd (refused hit h.0))
      | inr miss ↦ rw (miss) (
        λ e. (λ f. ground arith, (get_failed_task_error_iff ts).0 e),
        λ h. (get_failed_task_error_iff ts).1 h.1,
      )
    ]
  where
    refused :
        (not t.allow_failure && is_failed t.task_state) ≡ true
        → ((is_failed t.task_state ≡ true) → t.allow_failure ≡ true)
        → ⊥
    refused hit f =
        let (strict, over) = and-true _ _ hit in
        let clash : true ≡ false = sym (f over) ∙ not-true _ strict in cc clash
