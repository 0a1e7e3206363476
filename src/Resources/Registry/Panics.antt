-- ===== src/Resources/Registry/Panics.antt =====
-- Why `reserve` never meets an ant without a registration.
use formicary.Common.{
  holds-put, del-holds, set_of, holds, String, ◌≡◌, ◌≢◌, ◌⊎◌, inl, inr, refl, Bool, true, false,
  arith, List, [], ◌∷◌, is_some, str_eq, str_eq_refl, Map, KeySet, get, put, keys, get-put, get-del,
  All, Bool-cases, Option-cases, length, ◌==◌,
}
use formicary.Types.TaskMethod.{TaskMethod}
use formicary.Resources.{
  Registration, State, Reservation, Clock, panics, reserve, release, release_job, candidates,
  chosen, add_allocations_by_ant, add_ants_by_request, missing_tag,
}
use formicary.Resources.Registry.{
  Operation, registers, leaves, asks, releases, releases_job, add_registration, remove_registration,
  update_ants_by, drop_ant, run, run_all, no_ants_yet, state_after,
}

-- Each ant that a method leads to has a registration.
abbrev Registered : State → Type 0
Registered s =
    (method ant : String)
    → holds ant (set_of method s.ants_by_method) ≡ true
    → is_some (get ant s.registrations) ≡ true

update_ants_by-holds :
    (ant : String) (ks : List String) (table : Map KeySet) (j other : String)
    → holds other (set_of j (update_ants_by ant ks table)) ≡ true
    → (str_eq ant other ≡ true) ⊎ (holds other (set_of j table) ≡ true)
unfolding update_ants_by
update_ants_by-holds ant [] table j other h = inr h
update_ants_by-holds ant (k ∷ ks) table j other h =
    elim (update_ants_by-holds ant ks (put k (put ant tt (set_of k table)) table) j other h) [
      | inl same ↦ inl same
      | inr held ↦ holds-put k j ant other table held
    ]

drop_ant-holds :
    (ant : String) (table : Map KeySet) (j other : String)
    → holds other (set_of j (drop_ant ant table)) ≡ true
    → (str_eq ant other ≡ false) × (holds other (set_of j table) ≡ true)
unfolding drop_ant get
drop_ant-holds ant [] j other h = absurd (cc h)
drop_ant-holds ant ((k, ants) ∷ table) j other h = elim (Bool-cases (str_eq k j)) [
  | inl same ↦ rw (set_of, same) (del-holds ant other ants (rw (set_of, same) at h))
  | inr differs ↦
      rw (set_of, differs) (drop_ant-holds ant table j other (rw (set_of, differs) at h))
]

add_registration-Registered :
    (r : Registration) (s : State) → Registered s → Registered (add_registration r s)
unfolding add_registration
add_registration-Registered r s inv method ant h =
    rw (get-put r.ant_id ant r s.registrations)
      (elim (update_ants_by-holds r.ant_id r.methods s.ants_by_method method ant h) [
        | inl same ↦ rw same refl
        | inr held ↦ let found = inv method ant held in ground arith
      ])

remove_registration-Registered :
    (ant_id : String) (s : State) → Registered s → Registered (remove_registration ant_id s).1
unfolding remove_registration
remove_registration-Registered ant_id s inv method ant h =
    let (other, held) = drop_ant-holds ant_id s.ants_by_method method ant h in
    rw (get-del ant_id ant s.registrations, other) (inv method ant held)

-- Reserving and releasing leave the registrations and the ants by method.
SameAnts : State → State → Type 0
SameAnts s t = (t.registrations ≡ s.registrations) × (t.ants_by_method ≡ s.ants_by_method)

chosen-SameAnts :
    (c : Clock) (dry_run : Bool) (request_id task_type : String) (r : Reservation)
    (rs : List Reservation) (s : State)
    → SameAnts s (state_after s (chosen c dry_run request_id task_type r rs s))
unfolding SameAnts chosen add_allocations_by_ant add_ants_by_request
chosen-SameAnts c true request_id task_type r rs s = (refl, refl)
chosen-SameAnts c false request_id task_type r rs s = (refl, refl)

release-SameAnts : (r : Reservation) (s : State) → SameAnts s (release r s)
unfolding SameAnts release
release-SameAnts r s = ground arith

release_job-SameAnts : (request_id : String) (s : State) → SameAnts s (release_job request_id s)
unfolding SameAnts release_job
release_job-SameAnts request_id s = ground arith

reserve-SameAnts :
    (c : Clock) (dry_run : Bool) (request_id task_type : String) (method : TaskMethod)
    (tags : List String) (s : State)
    → SameAnts s (state_after s (reserve c dry_run request_id task_type method tags s))
unfolding reserve
reserve-SameAnts c dry_run request_id task_type method tags s =
    elim (Bool-cases (length (keys (set_of method s.ants_by_method)) == 0)) [
      | inl e ↦ rw e (unfold SameAnts in (refl, refl))
      | inr e ↦ elim (Option-cases (missing_tag s tags)) [
        | inr (tag, e') ↦ rw (reserve, e, e') (unfold SameAnts in (refl, refl))
        | inl e' ↦
            elim (Option-cases (
              candidates c s request_id task_type method tags
                (keys (set_of method s.ants_by_method)))) [
                  | inl e'' ↦ rw (reserve, e, e', e'') (unfold SameAnts in (refl, refl))
                  | inr ([], e'') ↦ rw (reserve, e, e', e'') (unfold SameAnts in (refl, refl))
                  | inr (r ∷ rs, e'') ↦
                      rw (reserve, e, e', e'')
                        (chosen-SameAnts c dry_run request_id task_type r rs s)
                ]
      ]
    ]

SameAnts-Registered : (s t : State) → SameAnts s t → Registered s → Registered t
unfolding SameAnts
SameAnts-Registered s t (same, methods) inv method ant h =
    rw same (inv method ant (rw (methods) at h))

run-Registered : (o : Operation) (s : State) → Registered s → Registered (run o s)
unfolding run
run-Registered (registers r) s inv = add_registration-Registered r s inv
run-Registered (leaves ant_id) s inv = remove_registration-Registered ant_id s inv
run-Registered (asks c dry_run request_id task_type method tags) s inv =
    SameAnts-Registered s _ (reserve-SameAnts c dry_run request_id task_type method tags s) inv
run-Registered (releases r) s inv = SameAnts-Registered s _ (release-SameAnts r s) inv
run-Registered (releases_job request_id) s inv =
    SameAnts-Registered s _ (release_job-SameAnts request_id s) inv

run_all-Registered : (os : List Operation) (s : State) → Registered s → Registered (run_all os s)
unfolding run_all
run_all-Registered [] s inv = inv
run_all-Registered (o ∷ os) s inv = run_all-Registered os (run o s) (run-Registered o s inv)

candidates-some :
    (c : Clock) (s : State) (request_id task_type : String) (method : TaskMethod)
    (tags : List String) (ants : List String)
    → All (λ ant. is_some (get ant s.registrations) ≡ true) ants
    → is_some (candidates c s request_id task_type method tags ants) ≡ true
unfolding candidates
candidates-some c s request_id task_type method tags [] inv = refl
candidates-some c s request_id task_type method tags (ant ∷ ants) (found, inv) =
    let rest = candidates-some c s request_id task_type method tags ants inv in ground arith

weaken :
    {P Q : String → Type 0} (xs : List String) → ((x : String) → P x → Q x) → All P xs → All Q xs
weaken [] h a = tt
weaken (x ∷ xs) h (p, a) = (h x p, weaken xs h a)

pub keys-holds : (ants : KeySet) → All (λ k. holds k ants ≡ true) (keys ants)
unfolding get
keys-holds [] = tt
keys-holds ((k, v) ∷ ants) =
    (rw (str_eq_refl k) refl, weaken (keys ants) (λ x held. ground arith) (keys-holds ants))

chosen-no_panic :
    (c : Clock) (dry_run : Bool) (request_id task_type : String) (r : Reservation)
    (rs : List Reservation) (s : State)
    → chosen c dry_run request_id task_type r rs s ≢ panics
unfolding chosen
chosen-no_panic c true request_id task_type r rs s h = cc
chosen-no_panic c false request_id task_type r rs s h = cc

reserve-from :
    (c : Clock) (dry_run : Bool) (request_id task_type : String) (method : TaskMethod)
    (tags : List String) (s : State)
    → Registered s
    → reserve c dry_run request_id task_type method tags s ≢ panics
unfolding reserve
reserve-from c dry_run request_id task_type method tags s inv h =
    let ants = keys (set_of method s.ants_by_method) in
    let found = candidates-some c s request_id task_type method tags ants (
      weaken ants (λ ant held. inv method ant held)
        (keys-holds (set_of method s.ants_by_method))) in
    elim (Bool-cases (length ants == 0)) [
      | inl e ↦ cc (rw (e) at h)
      | inr e ↦ elim (Option-cases (missing_tag s tags)) [
        | inr (tag, e') ↦ cc (rw (reserve, e, e') at h)
        | inl e' ↦ elim (Option-cases (candidates c s request_id task_type method tags ants)) [
          | inl e'' ↦ cc (rw (e'') at found)
          | inr ([], e'') ↦ cc (rw (reserve, e, e', e'') at h)
          | inr (r ∷ rs, e'') ↦
              chosen-no_panic c dry_run request_id task_type r rs s (rw (reserve, e, e', e'') at h)
        ]
      ]
    ]

none_yet : Registered no_ants_yet
unfolding get
none_yet method ant h = absurd (cc h)

-- `reserve` never dereferences a registration that is not there: after any sequence of registrations,
-- removals, reservations and releases from the empty state, it does not panic.
pub reserve-no_panic :
    (os : List Operation) (c : Clock) (dry_run : Bool) (request_id task_type : String)
    (method : TaskMethod) (tags : List String)
    → reserve c dry_run request_id task_type method tags (run_all os no_ants_yet) ≢ panics
reserve-no_panic os c dry_run request_id task_type method tags =
    reserve-from c dry_run request_id task_type method tags (run_all os no_ants_yet)
      (run_all-Registered os no_ants_yet none_yet)
