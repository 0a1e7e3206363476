-- ===== src/Definitions/Jobs/FirstTask.antt =====
-- The task that a job starts with, described by the positions of the tasks.
use formicary.Common.{
  ◌≡◌, refl, ◌↔◌, inl, inr, Bool, true, false, ◌||◌, List, [], ◌∷◌, ◌++◌, none, some, arith, KeySet,
  All, Bool-cases, ap,
}
use formicary.Definitions.Tasks.{TaskDefinition, ok, err, has_next, unreachable_task}
use formicary.Definitions.Jobs.{is_target, first_task_loop}

-- Every task of the list is the target of some exit code.
abbrev AllTargets : KeySet → List TaskDefinition → Type 0
AllTargets seen = All (λ t. is_target seen t ≡ true)

-- `f` is the one task that no exit code refers to, and it has a successor or stands alone.
pub record IsFirst (single : Bool) (seen : KeySet) (ts : List TaskDefinition) (f : TaskDefinition)
    : Type 0 where
  pub before : List TaskDefinition
  pub after : List TaskDefinition
  pub position : ts ≡ before ++ f ∷ after
  pub untargeted : is_target seen f ≡ false
  pub before_targeted : AllTargets seen before
  pub after_targeted : AllTargets seen after
  pub starts : (single || has_next f) ≡ true

module _ (single : Bool) (seen : KeySet) where
  -- Once a first task is chosen, the rest must be targets.
  rest_targeted :
      (ts : List TaskDefinition) (g f : TaskDefinition)
      → first_task_loop single seen ts (some g) ≡ ok f
      → (g ≡ f) × AllTargets seen ts
  unfolding first_task_loop
  rest_targeted [] g f h = (cc, tt)
  rest_targeted (t ∷ ts) g f h = ground (arith, rest_targeted ts g f)

  targeted_rest :
      (ts : List TaskDefinition) (g : TaskDefinition)
      → AllTargets seen ts
      → first_task_loop single seen ts (some g) ≡ ok g
  unfolding first_task_loop
  targeted_rest [] g h = refl
  targeted_rest (t ∷ ts) g h = ground (arith, targeted_rest ts g)

  cons_before :
      (t : TaskDefinition) (ts : List TaskDefinition) (f : TaskDefinition)
      → is_target seen t ≡ true
      → IsFirst single seen ts f
      → IsFirst single seen (t ∷ ts) f
  cons_before t ts f h i = record {
    before = t ∷ i.before;
    after = i.after;
    position = ap (◌∷◌ t) i.position;
    untargeted = i.untargeted;
    before_targeted = (h, i.before_targeted);
    after_targeted = i.after_targeted;
    starts = i.starts;
  }

  skip_target :
      (t : TaskDefinition) (ts : List TaskDefinition)
      → is_target seen t ≡ true
      → first_task_loop single seen (t ∷ ts) none ≡ first_task_loop single seen ts none
  unfolding first_task_loop
  skip_target t ts h = rw h

  take_first :
      (t : TaskDefinition) (ts : List TaskDefinition)
      → is_target seen t ≡ false
      → (single || has_next t) ≡ true
      → first_task_loop single seen (t ∷ ts) none ≡ first_task_loop single seen ts (some t)
  unfolding first_task_loop
  take_first t ts h s = rw (h, s)

  refused :
      (t : TaskDefinition) (ts : List TaskDefinition)
      → is_target seen t ≡ false
      → (single || has_next t) ≡ false
      → first_task_loop single seen (t ∷ ts) none ≡ err (unreachable_task t.task_type)
  unfolding first_task_loop
  refused t ts h s = rw (h, s)

  -- A task that the loop chooses is first in the sense of `IsFirst`.
  first_task_loop-IsFirst :
      (ts : List TaskDefinition) (f : TaskDefinition)
      → first_task_loop single seen ts none ≡ ok f
      → IsFirst single seen ts f
  first_task_loop-IsFirst [] f h = absurd (unfold first_task_loop in cc)
  first_task_loop-IsFirst (t ∷ ts) f h = elim (Bool-cases (is_target seen t)) [
    | inl e ↦ cons_before t ts f e (first_task_loop-IsFirst ts f (rw (skip_target t ts e) at h))
    | inr e ↦ elim (Bool-cases (single || has_next t)) [
      | inl s ↦
          let (g, rest) = rest_targeted ts t f (rw (take_first t ts e s) at h) in
          record {
            before = [];
            after = ts;
            position = ap (λ x. x ∷ ts) g;
            untargeted = rw (← g) e;
            before_targeted = tt;
            after_targeted = rest;
            starts = rw (← g) s;
          }
      | inr s ↦ absurd (cc (rw (refused t ts e s) at h))
    ]
  ]

  -- The loop chooses any task that is first in the sense of `IsFirst`.
  IsFirst-first_task_loop :
      (before after : List TaskDefinition) (f : TaskDefinition)
      → is_target seen f ≡ false
      → AllTargets seen before
      → AllTargets seen after
      → (single || has_next f) ≡ true
      → first_task_loop single seen (before ++ f ∷ after) none ≡ ok f
  IsFirst-first_task_loop [] after f u b a s = rw (take_first f after u s) (targeted_rest after f a)
  IsFirst-first_task_loop (t ∷ before) after f u b a s =
      rw (skip_target t (before ++ f ∷ after) b.0)
        (IsFirst-first_task_loop before after f u b.1 a s)

-- The loop of `validateFirstTask` succeeds with a task exactly when that is the one task which no
-- exit code refers to, all others are targets, and it has a successor or is the only task.
pub first_task_loop_iff :
    (single : Bool) (seen : KeySet) (ts : List TaskDefinition) (f : TaskDefinition)
    → (first_task_loop single seen ts none ≡ ok f) ↔ IsFirst single seen ts f
first_task_loop_iff single seen ts f = (
  first_task_loop-IsFirst single seen ts f,
  λ i. rw i.position (
      IsFirst-first_task_loop single seen i.before i.after f i.untargeted i.before_targeted
        i.after_targeted i.starts),
)
