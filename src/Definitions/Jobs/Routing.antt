-- ===== src/Definitions/Jobs/Routing.antt =====
-- Where `GetNextTask` can lead in a job that passed validation.
use formicary.Common.{
  ◌↔◌, sym, get-put_self, String, ◌≡◌, ap, subst, ◌⊎◌, inl, inr, Bool, true, false, not, ◌&&◌, ◌||◌,
  List, [], ◌∷◌, some, arith, Map, get, put, get-put, Bool-cases, is_some, str_eq, str_eq_iff,
  if◌then◌else◌,
}
use formicary.Types.RequestState.{text, new_request_state, completed, failed}
use formicary.Definitions.Tasks.{
  TaskDefinition, ok, Result, >>=-eq-ok, refuse_if-eq-ok, refuse_if, ◌>>◌, no_leaf_task, get_text,
  get_text-put, validate, is_empty, has_next,
}
use formicary.Definitions.Jobs.{
  JobDefinition, get_next_task, route, status_target, exit_entry, set_on_exit, exit_codes_loop,
  validate_task_exit_codes,
}

-- The task stands in the list.
pub data Among (t : TaskDefinition) : List TaskDefinition → Type 0 where
  first : (ts : List TaskDefinition) → Among t (t ∷ ts)
  later : (u : TaskDefinition) {ts : List TaskDefinition} → Among t ts → Among t (u ∷ ts)

-- The table leads from a task type to a task of that type in the list, or held it before.
abbrev pub Indexes : Map TaskDefinition → Map TaskDefinition → List TaskDefinition → Type 0
Indexes table before ts =
    (k : String) (t : TaskDefinition)
    → get k table ≡ some t
    → (get k before ≡ some t) ⊎ Among t ts × (t.task_type ≡ k)

exit_codes_loop_step :
    (t : TaskDefinition) (ts us : List TaskDefinition) (lookup table : Map TaskDefinition)
    (leaf : Bool)
    → exit_codes_loop (t ∷ ts) lookup leaf ≡ ok (us, table)
    → (u : TaskDefinition) × (rest : List TaskDefinition) × (leaf' : Bool) × (us ≡ u ∷ rest)
      × (exit_codes_loop ts (put u.task_type u lookup) leaf' ≡ ok (rest, table))
      × (is_some (get u.task_type lookup) ≡ false)
unfolding exit_codes_loop set_on_exit
exit_codes_loop_step t ts us lookup table leaf h =
    let (v, hv, h1) = >>=-eq-ok (validate t) _ h in
    let (fresh, h2) = refuse_if-eq-ok (is_some (get v.task_type lookup)) _ _ h1 in
    let ((rest, table'), loop, last) = >>=-eq-ok (exit_codes_loop ts _ _) _ h2 in
    (set_on_exit v, rest, leaf || not (has_next (set_on_exit v)), cc, cc, fresh)

abbrev done_with : Map TaskDefinition → Result (List TaskDefinition × Map TaskDefinition)
done_with lookup = ok ([], lookup)

refuse_same :
    (leaf : Bool) {us : List TaskDefinition} {lookup table : Map TaskDefinition}
    → (refuse_if (not leaf) no_leaf_task >> done_with lookup) ≡ ok (us, table)
    → lookup ≡ table
refuse_same true h = cc
refuse_same false h = cc

put_hit :
    (u t : TaskDefinition) (k : String) (lookup : Map TaskDefinition)
    → str_eq u.task_type k ≡ true
    → get k (put u.task_type u lookup) ≡ some t
    → (u ≡ t) × (t.task_type ≡ k)
put_hit u t k lookup hit old =
    let found : some u ≡ some t = rw (get-put u.task_type k u lookup, hit) at old in
    let same : u ≡ t = cc in (same, cc ((str_eq_iff u.task_type k).0 hit))

put_miss :
    (u t : TaskDefinition) (k : String) (lookup : Map TaskDefinition)
    → str_eq u.task_type k ≡ false
    → get k (put u.task_type u lookup) ≡ some t
    → get k lookup ≡ some t
put_miss u t k lookup miss old = rw (get-put u.task_type k u lookup, miss) at old

Indexes-cons :
    (u : TaskDefinition) (table lookup : Map TaskDefinition) (rest : List TaskDefinition)
    → Indexes table (put u.task_type u lookup) rest
    → Indexes table lookup (u ∷ rest)
Indexes-cons u table lookup rest i k t e = elim (i k t e) [
  | inr (a, named) ↦ inr (later u a, named)
  | inl old ↦ elim (Bool-cases (str_eq u.task_type k)) [
    | inl hit ↦
        let (same, named) = put_hit u t k lookup hit old in inr (rw (← same) (first rest), named)
    | inr miss ↦ inl (put_miss u t k lookup miss old)
  ]
]

exit_codes_loop-Indexes :
    (ts us : List TaskDefinition) (lookup table : Map TaskDefinition) (leaf : Bool)
    → exit_codes_loop ts lookup leaf ≡ ok (us, table)
    → Indexes table lookup us
exit_codes_loop-Indexes [] us lookup table leaf h k t e = inl (rw (same h) e)
  where
    same : exit_codes_loop [] lookup leaf ≡ ok (us, table) → lookup ≡ table
    same e = unfold exit_codes_loop in (refuse_same leaf e)
exit_codes_loop-Indexes (x ∷ ts) us lookup table leaf h k t e =
    let (u, rest, leaf', shape, loop, fresh) = exit_codes_loop_step x ts us lookup table leaf h in
    rw shape
      (Indexes-cons u table lookup rest (exit_codes_loop-Indexes ts rest _ table leaf' loop) k t e)

ok-injective : {a b : JobDefinition} → ok a ≡ ok b → a ≡ b
ok-injective h = cc

-- What the table has stays, since a task type that it has is refused.
exit_codes_loop-keeps :
    (ts us : List TaskDefinition) (lookup table : Map TaskDefinition) (leaf : Bool) (k : String)
    (t : TaskDefinition)
    → exit_codes_loop ts lookup leaf ≡ ok (us, table)
    → get k lookup ≡ some t
    → get k table ≡ some t
exit_codes_loop-keeps [] us lookup table leaf k t h has = rw (← same h) has
  where
    same : exit_codes_loop [] lookup leaf ≡ ok (us, table) → lookup ≡ table
    same e = unfold exit_codes_loop in (refuse_same leaf e)
exit_codes_loop-keeps (x ∷ ts) us lookup table leaf k t h has =
    let (u, rest, leaf', shape, loop, fresh) = exit_codes_loop_step x ts us lookup table leaf h in
    exit_codes_loop-keeps ts rest (put u.task_type u lookup) table leaf' k t loop
      (elim (Bool-cases (str_eq u.task_type k)) [
        | inr differs ↦ rw (get-put u.task_type k u lookup, differs) has
        | inl same ↦
            let taken : get u.task_type lookup ≡ some t =
              subst (λ n. get n lookup ≡ some t) (sym ((str_eq_iff u.task_type k).0 same)) has in
            absurd (cc (rw (taken) at fresh))
      ])

-- The table has each task of the list under its type.
abbrev pub Covers : Map TaskDefinition → List TaskDefinition → Type 0
Covers table ts = (t : TaskDefinition) → Among t ts → get t.task_type table ≡ some t

Covers-cons :
    (u : TaskDefinition) (table : Map TaskDefinition) (rest : List TaskDefinition)
    → get u.task_type table ≡ some u
    → Covers table rest
    → Covers table (u ∷ rest)
Covers-cons u table rest has covers _ (first _) = has
Covers-cons u table rest has covers t (later _ a) = covers t a

nothing-Covers : (table : Map TaskDefinition) → Covers table []
nothing-Covers table t a = elim a [ ]

exit_codes_loop-Covers :
    (ts us : List TaskDefinition) (lookup table : Map TaskDefinition) (leaf : Bool)
    → exit_codes_loop ts lookup leaf ≡ ok (us, table)
    → Covers table us
exit_codes_loop-Covers [] us lookup table leaf h = rw (← none_left h) (nothing-Covers table)
  where
    nothing :
        (leaf : Bool)
        → (refuse_if (not leaf) no_leaf_task >> done_with lookup) ≡ ok (us, table)
        → [] ≡ us
    nothing true e = cc
    nothing false e = cc

    none_left : exit_codes_loop [] lookup leaf ≡ ok (us, table) → [] ≡ us
    none_left e = unfold exit_codes_loop in (nothing leaf e)
exit_codes_loop-Covers (x ∷ ts) us lookup table leaf h =
    let (u, rest, leaf', shape, loop, fresh) = exit_codes_loop_step x ts us lookup table leaf h in
    let has =
      exit_codes_loop-keeps ts rest (put u.task_type u lookup) table leaf' u.task_type u loop
        (get-put_self u.task_type u lookup) in
    rw shape (Covers-cons u table rest has (exit_codes_loop-Covers ts rest _ table leaf' loop))

-- When `validateTaskExitCodes` accepts a job, the lookup table that it leaves has each of the tasks
-- that it leaves under its type, and nothing else.
pub validate_task_exit_codes-Indexes :
    (jd out : JobDefinition)
    → validate_task_exit_codes jd ≡ ok out
    → (k : String) (t : TaskDefinition)
    → (get k out.lookup_tasks ≡ some t) ↔ Among t out.tasks × (t.task_type ≡ k)
unfolding validate_task_exit_codes
validate_task_exit_codes-Indexes jd out h k t =
    let ((us, table), loop, e) = >>=-eq-ok (exit_codes_loop jd.tasks [] false) _ h in
    let i : Indexes table [] us = exit_codes_loop-Indexes jd.tasks us [] table false loop in
    let c : Covers table us = exit_codes_loop-Covers jd.tasks us [] table false loop in
    subst (λ o. (get k o.lookup_tasks ≡ some t) ↔ Among t o.tasks × (t.task_type ≡ k))
      (ok-injective e)
      (
        λ found. elim (i k t found) [ inl old ↦ absurd (no_entry k t old) | inr new ↦ new ],
        λ (a, named). subst (λ n. get n table ≡ some t) named (c t a),
      )
  where
    no_entry : (k : String) (t : TaskDefinition) → get k [] ≡ some t → ⊥
    no_entry k t e = unfold get in cc e

set_on_exit-on_exit_code_optional :
    (b : Map String)
    → is_empty (get_text "FAILED" b) ≡ true
    → let c =
        if is_empty (get_text "FAILED" b) && not (is_empty (get_text "COMPLETED" b))
        then put "FAILED" (get_text "COMPLETED" b) b
        else b in
      get_text "FAILED" c ≡ get_text "COMPLETED" c
set_on_exit-on_exit_code_optional b e = ground (
  arith,
  get_text-put "FAILED" "FAILED" (get_text "COMPLETED" b) b,
  get_text-put "FAILED" "COMPLETED" (get_text "COMPLETED" b) b,
  str_eq_iff (get_text "FAILED" b) "",
  str_eq_iff (get_text "COMPLETED" b) "",
)

-- `set_on_exit` gives an optional task with no failure target its success target for failures.
set_on_exit-optional :
    (t : TaskDefinition)
    → t.allow_failure ≡ true
    → is_empty t.on_failed ≡ true
    → is_empty (exit_entry t failed) ≡ true
    → exit_entry (set_on_exit t) failed ≡ exit_entry (set_on_exit t) completed
unfolding set_on_exit exit_entry text
set_on_exit-optional t a f e =
    rw (a, f)
      (elim (Bool-cases (is_empty t.on_completed)) [
        | inl c ↦ rw c (set_on_exit-on_exit_code_optional t.on_exit_code e)
        | inr c ↦ rw c (
            set_on_exit-on_exit_code_optional (put "COMPLETED" t.on_completed t.on_exit_code)
              (rw (get_text-put "COMPLETED" "FAILED" t.on_completed t.on_exit_code) e))
      ])

-- A failed optional task with no target of its own for failures goes on as if it had succeeded:
-- after `validateTaskExitCodes` has set its exit codes, `GetNextTask` gives the same for FAILED
-- as for COMPLETED.
pub get_next_task-optional :
    (jd : JobDefinition) (t : TaskDefinition) (exit_code : String)
    → t.allow_failure ≡ true
    → is_empty t.on_failed ≡ true
    → is_empty (exit_entry t failed) ≡ true
    → get_next_task jd (set_on_exit t) failed exit_code
      ≡ get_next_task jd (set_on_exit t) completed exit_code
unfolding get_next_task
get_next_task-optional jd t exit_code a f e = ap (route jd (set_on_exit t) exit_code) same_status
  where
    same_status : status_target (set_on_exit t) failed ≡ status_target (set_on_exit t) completed
    same_status = unfold status_target new_request_state text in (set_on_exit-optional t a f e)
