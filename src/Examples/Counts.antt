-- ===== src/Examples/Counts.antt =====
-- Calls of the registry of counts, a family of requests, and a cancelled request, at which the
-- theorems on the manager and its counts are applied.
use formicary.Common.{
  pos, ◌<◌, minus, ◌≤◌, arith, String, ℕ, suc, ◌≡◌, ◌≤◌, ◌⊎◌, inl, inr, refl, sym, subst, true,
  List, [], ◌∷◌, ◌++◌, Option, some, str_eq, str_eq_iff, any, All, Map, get, set_of, holds, length,
  leb, if◌then◌else◌, Bool-cases, some-injective,
}
use formicary.Types.RequestState.{executing}
use formicary.Utils.Rolling.{zeros, new_rolling_average, add_samples, average}
use formicary.Utils.Rolling.Window.{sum, drop, average-window}
use formicary.Stats.{Summary, Event, starts, cancels, run_all, get_execution_count, new_registry}
use formicary.Stats.Running.{counts_as_running, run_all-counts_as_running}
use formicary.Stats.Balance.{starts_of, ends_of, run_all-balance}
use formicary.Manager.{Child, Visit, Call, Server, max_depth, cascade_cancel_to_children}
use formicary.Manager.Cascade.{Descends, IsOnce, Within}
use formicary.Manager.Cascade.Closed.{HasSeen, cascade_cancel_to_children-Closed}
use formicary.Examples.Rows.{driver, both_in}

abbrev four_samples : List ℕ
four_samples = 5 ∷ 7 ∷ 9 ∷ 11 ∷ []

small_sum : sum (drop 4 (zeros 3 ++ four_samples)) < 9223372036854775808
unfolding zeros
small_sum = omega arith

average-window_example : average (add_samples four_samples (new_rolling_average 3)) ≡ (
  pos (sum (drop 4 (zeros 3 ++ four_samples))),
  (if leb (if leb 3 4 then 3 else 4) 1 then 1 else (if leb 3 4 then 3 else 4)),
)
average-window_example = average-window 2 four_samples (refl, (refl, (refl, (refl, tt)))) small_sum

abbrev summary : Summary
summary = record {
  id = "r1";
  user_id = "u1";
  organization_id = "o1";
  key = "u1-build";
  job_state = executing;
}

-- The job is cancelled twice.
abbrev calls : List Event
calls = cancels summary ∷ cancels summary ∷ starts summary ∷ []

run_all-counts_as_running_example :
    holds "r1" (set_of "u1" (run_all calls).count_by_user) ≡ counts_as_running "u1" "r1" calls
run_all-counts_as_running_example = run_all-counts_as_running "u1" "r1" calls

run_all-balance_example :
    get_execution_count "u1-build" (run_all calls)
    ≡ minus (starts_of "u1-build" calls) (ends_of "u1-build" calls)
run_all-balance_example = run_all-balance "u1-build" calls (omega arith)

abbrev child : String → Child
child id = record { id = id; job_state = executing }

-- A root with two children, one of which has the root as its child.
abbrev family : Map (List Child)
family = ("p", child "c1" ∷ child "c2" ∷ []) ∷ ("c1", child "p" ∷ []) ∷ []

abbrev members : List String
members = "p" ∷ "c1" ∷ "c2" ∷ []

abbrev find_in : Map (List Child) → String → Option (List Child)
find_in table parent = get parent table

child-member :
    (id c : String)
    → any (λ i. str_eq id i) members ≡ true
    → str_eq id c ≡ true
    → any (λ i. str_eq c i) members ≡ true
child-member id c there same =
    subst (λ k. any (λ i. str_eq k i) members ≡ true) ((str_eq_iff id c).0 same) there

family-Within : Within (find_in family) "p" members
unfolding get
family-Within parent children found c listed = elim (Bool-cases (str_eq "p" parent)) [
  | inl root ↦
      let these : child "c1" ∷ child "c2" ∷ [] ≡ children =
        some-injective _ children (rw (get, root) at found) in
      of_root c (subst (λ l. any (λ x. str_eq x.id c) l ≡ true) (sym these) listed)
  | inr other ↦ elim (Bool-cases (str_eq "c1" parent)) [
    | inl first ↦
        let these : child "p" ∷ [] ≡ children =
          some-injective _ children (rw (get, other, first) at found) in
        of_first c (subst (λ l. any (λ x. str_eq x.id c) l ≡ true) (sym these) listed)
    | inr leaf ↦ absurd (cc (rw (get, other, leaf) at found))
  ]
]
  where
    of_root :
        (c : String)
        → any (λ x. str_eq x.id c) (child "c1" ∷ child "c2" ∷ []) ≡ true
        → any (λ i. str_eq c i) members ≡ true
    of_root c h = elim (Bool-cases (str_eq "c1" c)) [
      | inl one ↦ child-member "c1" c refl one
      | inr not_one ↦ elim (Bool-cases (str_eq "c2" c)) [
        | inl two ↦ child-member "c2" c refl two
        | inr not_two ↦ absurd (cc (rw (not_one, not_two) at h))
      ]
    ]

    of_first :
        (c : String)
        → any (λ x. str_eq x.id c) (child "p" ∷ []) ≡ true
        → any (λ i. str_eq c i) members ≡ true
    of_first c h = elim (Bool-cases (str_eq "p" c)) [
      | inl one ↦ child-member "p" c refl one
      | inr not_one ↦ absurd (cc (rw (not_one) at h))
    ]

cascade_cancel_to_children-Closed_example :
    (visits : List Visit) × (cascade_cancel_to_children
        (find_in family)
        (suc (suc (length members)))
        "p"
      ≡ some visits)
    × IsOnce visits
    × All (λ v. Descends (find_in family) "p" v.id v.depth) visits
    × HasSeen (find_in family) "p" visits
    × All (λ v. (max_depth ≤ v.depth) ⊎ HasSeen (find_in family) v.id visits) visits
cascade_cancel_to_children-Closed_example =
    cascade_cancel_to_children-Closed (find_in family) "p" members family-Within

abbrev call : Call
call = record {
  visible = true;
  driver = driver;
  publishes = true;
  user_id = "u1";
  organization_id = "o1";
  key = "u1-build";
}

abbrev busy_server : Server
busy_server = record { store = both_in executing; registry = new_registry; published = [] }
