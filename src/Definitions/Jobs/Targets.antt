-- ===== src/Definitions/Jobs/Targets.antt =====
-- What a successful pass of `validateReachableTasks` says of the exit codes.
use formicary.Common.{
  String, ◌≡◌, ◌⊎◌, inl, inr, true, false, List, [], ◌∷◌, arith, Map, KeySet, get, put, get-put,
  get-put_self, All, Bool-cases, is_some, values, if◌then◌else◌,
}
use formicary.Definitions.Tasks.{TaskDefinition, ok, is_empty, >>=-eq-ok}
use formicary.Definitions.Jobs.{
  JobDefinition, reserved_target, targets_of, targets_loop, validate_reachable_tasks,
}

-- A target is not empty, and it is reserved or it is a declared task that `seen` records.
pub record IsResolved (lookup : Map TaskDefinition) (seen : KeySet) (next : String) : Type 0 where
  pub named : is_empty next ≡ false
  pub reserved_or_declared :
      (reserved_target next ≡ true)
      ⊎ (is_some (get next lookup) ≡ true) × (is_some (get next seen) ≡ true)

abbrev pub Resolved : Map TaskDefinition → KeySet → TaskDefinition → Type 0
Resolved lookup seen t = All (IsResolved lookup seen) (values t.on_exit_code)

-- One set of task types holds all of another.
abbrev Extends : KeySet → KeySet → Type 0
Extends small large = (k : String) → is_some (get k small) ≡ true → is_some (get k large) ≡ true

put-Extends : (k : String) (s : KeySet) → Extends s (put k tt s)
put-Extends k s j h = rw (get-put k j tt s) (ground arith)

-- The set of targets after one target is looked at.
abbrev noted : String → KeySet → KeySet
noted x seen = if reserved_target x then seen else put x tt seen

noted-Extends : (x : String) (seen : KeySet) → Extends seen (noted x seen)
noted-Extends x seen k h = elim (Bool-cases (reserved_target x)) [
  | inl e ↦ rw e h
  | inr e ↦ rw e (put-Extends x seen k h)
]

noted-holds :
    (x : String) (seen : KeySet) → reserved_target x ≡ false → is_some (get x (noted x seen)) ≡ true
noted-holds x seen e = rw (e, get-put_self x tt seen)

module _ (lookup : Map TaskDefinition) where
  Resolved-mono :
      (small large : KeySet)
      → Extends small large
      → (next : String) → IsResolved lookup small next
      → IsResolved lookup large next
  Resolved-mono small large e next r = record {
    named = r.named;
    reserved_or_declared = elim r.reserved_or_declared [
      | inl h ↦ inl h
      | inr h ↦ inr (h.0, e next h.1)
    ];
  }

  All-Resolved-mono :
      (small large : KeySet)
      → Extends small large
      → (xs : List String) → All (IsResolved lookup small) xs
      → All (IsResolved lookup large) xs
  All-Resolved-mono small large e [] a = tt
  All-Resolved-mono small large e (x ∷ xs) a =
      (Resolved-mono small large e x a.0, All-Resolved-mono small large e xs a.1)

  targets_of_step :
      (t next : String) (rest : List String) (seen out : KeySet)
      → targets_of t lookup (next ∷ rest) seen ≡ ok out
      → (targets_of t lookup rest (noted next seen) ≡ ok out)
        × (is_empty next ≡ false)
        × ((reserved_target next ≡ true) ⊎ (is_some (get next lookup) ≡ true))
  unfolding targets_of
  targets_of_step t next rest seen out h = ground arith

  targets_of-Resolved :
      (t : String) (xs : List String) (seen out : KeySet)
      → targets_of t lookup xs seen ≡ ok out
      → Extends seen out × All (IsResolved lookup out) xs
  targets_of-Resolved t [] seen out h = (λ k e. rw (← same h) e, tt)
    where
      same : targets_of t lookup [] seen ≡ ok out → seen ≡ out
      same e = unfold targets_of in cc
  targets_of-Resolved t (x ∷ xs) seen out h =
      let (rest, named, fine) = targets_of_step t x xs seen out h in
      let (more, tail) = targets_of-Resolved t xs _ out rest in
      (
        λ k e. more k (noted-Extends x seen k e),
        (record { named = named; reserved_or_declared = resolved fine (more x) }, tail),
      )
    where
      resolved :
          (reserved_target x ≡ true) ⊎ (is_some (get x lookup) ≡ true)
          → (is_some (get x (noted x seen)) ≡ true → is_some (get x out) ≡ true)
          → (reserved_target x ≡ true)
            ⊎ (is_some (get x lookup) ≡ true) × (is_some (get x out) ≡ true)
      resolved (inl r) m = inl r
      resolved (inr d) m = elim (Bool-cases (reserved_target x)) [
        | inl r ↦ inl r
        | inr r ↦ inr (d, m (noted-holds x seen r))
      ]

  targets_loop_step :
      (t : TaskDefinition) (ts : List TaskDefinition) (seen out : KeySet)
      → targets_loop lookup (t ∷ ts) seen ≡ ok out
      → (mid : KeySet) × (targets_of t.task_type lookup (values t.on_exit_code) seen ≡ ok mid)
        × (targets_loop lookup ts mid ≡ ok out)
  unfolding targets_loop
  targets_loop_step t ts seen out h =
      >>=-eq-ok (targets_of t.task_type lookup (values t.on_exit_code) seen)
        (λ more. targets_loop lookup ts more) h

  targets_loop-Resolved :
      (ts : List TaskDefinition) (seen out : KeySet)
      → targets_loop lookup ts seen ≡ ok out
      → Extends seen out × All (Resolved lookup out) ts
  targets_loop-Resolved [] seen out h = (λ k e. rw (← same h) e, tt)
    where
      same : targets_loop lookup [] seen ≡ ok out → seen ≡ out
      same e = unfold targets_loop in cc
  targets_loop-Resolved (t ∷ ts) seen out h =
      let (mid, one, rest) = targets_loop_step t ts seen out h in
      let (e, a) = targets_of-Resolved t.task_type (values t.on_exit_code) seen mid one in
      let (e', a') = targets_loop-Resolved ts mid out rest in
      (λ k x. e' k (e k x), (All-Resolved-mono mid out e' (values t.on_exit_code) a, a'))

-- A job whose tasks pass `validateReachableTasks` has no dangling exit code: each target of each
-- task is a name, and is reserved or a declared task that the result records.
pub validate_reachable_tasks-Resolved :
    (jd : JobDefinition) (seen : KeySet)
    → validate_reachable_tasks jd ≡ ok seen
    → All (Resolved jd.lookup_tasks seen) jd.tasks
validate_reachable_tasks-Resolved jd seen h =
    (targets_loop-Resolved jd.lookup_tasks jd.tasks [] seen (reach h)).1
  where
    reach :
        validate_reachable_tasks jd ≡ ok seen → targets_loop jd.lookup_tasks jd.tasks [] ≡ ok seen
    reach e = unfold validate_reachable_tasks in e
