-- ===== src/Resources.antt =====
-- queen/resource/resource_manager_state.go: which ants are registered, and which requests hold them.
-- Every operation runs under the lock, so it is one step. The containers and their events are left
-- out; the order of a Go map is that of its association list.
pub mod Release
pub mod Choice
pub mod Registry
pub mod Jobs
use formicary.Common.{
  set_of, holds, String, ℕ, suc, ◌+◌, Bool, true, false, not, ◌&&◌, ◌||◌, List, [], ◌∷◌, Option,
  none, some, is_some, str_eq, if◌then◌else◌, ltb, ◌==◌, Map, KeySet, get, put, del, keys, length,
  any, to_lower, is_blank,
}
use formicary.Types.RequestState.{RequestState, executing, reserved}
use formicary.Types.TaskMethod.{TaskMethod}

pub record Allocation : Type 0 where
  pub job_request_id : String
  pub task_types : Map RequestState
  pub ant_id : String
  pub allocated_at : ℕ

-- `valid` is what `ValidRegistration` answers, true when there is none.
pub record Registration : Type 0 where
  pub ant_id : String
  pub methods : List TaskMethod
  pub tags : List String
  pub received_at : ℕ
  pub valid : Bool
  pub max_capacity : ℕ
  pub allocations : List Allocation

pub record State : Type 0 where
  pub registrations : Map Registration
  pub ants_by_tag : Map KeySet
  pub ants_by_method : Map KeySet
  pub ants_by_request : Map KeySet
  pub allocations_by_ant : Map (Map Allocation)

pub record Reservation : Type 0 where
  pub ant_id : String
  pub job_request_id : String
  pub task_type : String
  pub current_load : ℕ
  pub total_reservations : ℕ

-- `strings.EqualFold`, over ASCII.
abbrev same_tag : String → String → Bool
same_tag a b = str_eq (to_lower a) (to_lower b)

abbrev has_tag : List String → String → Bool
has_tag tags other = any (λ g. same_tag g other) tags

unfoldable pub has_each_tag : List String → List String → Bool
has_each_tag tags [] = true
has_each_tag tags (o ∷ os) = (is_blank o || has_tag tags o) && has_each_tag tags os

-- `MatchTagsArray`, as whether it gives no error.
unfoldable pub match_tags_array : List String → List String → Bool
match_tags_array tags [] = true
match_tags_array [] (other ∷ others) = false
match_tags_array (tag ∷ tags) (other ∷ others) = has_each_tag (tag ∷ tags) (other ∷ others)

-- `Supports`
unfoldable pub supports : ℕ → ℕ → Registration → TaskMethod → List String → Bool
supports now timeout r method tags =
    not (ltb (r.received_at + timeout) now)
    && r.valid
    && any (λ m. str_eq m method) r.methods
    && match_tags_array r.tags tags

-- `calculateLoad`
unfoldable pub calculate_load : Map Allocation → ℕ
calculate_load [] = 0
calculate_load ((_, a) ∷ rest) = length a.task_types + calculate_load rest

abbrev pub allocations_of : String → State → Map Allocation
allocations_of ant_id s = elim (get ant_id s.allocations_by_ant) [ none ↦ [] | some held ↦ held ]

abbrev found_or_new : Option Allocation → Allocation → Allocation
found_or_new none new = new
found_or_new (some a) new = a

-- `addAllocationsByAnt`, with the load that it puts in the reservation; the map of an ant without
-- one is nil, and a write to it panics, which `reserve` excludes.
unfoldable pub add_allocations_by_ant : ℕ → String → String → String → State → ℕ × State
add_allocations_by_ant now request_id task_type ant_id s =
    let held = allocations_of ant_id s in
    let allocation = found_or_new (get request_id held) (record {
      job_request_id = request_id;
      task_types = (task_type, executing) ∷ [];
      ant_id = ant_id;
      allocated_at = now;
    }) in
    let marked = record allocation { task_types = put task_type reserved allocation.task_types } in
    let more = put request_id marked held in
    (length more, record s { allocations_by_ant = put ant_id more s.allocations_by_ant })

-- `addAntsByRequest`
unfoldable pub add_ants_by_request : String → String → State → State
add_ants_by_request request_id ant_id s = record s {
  ants_by_request =
      put request_id (put ant_id tt (set_of request_id s.ants_by_request)) s.ants_by_request;
}

-- `release`
unfoldable pub release : Reservation → State → State
release r s = elim (get r.ant_id s.allocations_by_ant) [
  | none ↦ s
  | some held ↦ elim (get r.job_request_id held) [
    | none ↦ s
    | some a ↦
        let left = del r.task_type a.task_types in
        let kept = put r.job_request_id (record a { task_types = left }) held in
        if length left == 0
        then record s {
          allocations_by_ant = put r.ant_id (del r.job_request_id held) s.allocations_by_ant;
          ants_by_request = del r.job_request_id s.ants_by_request;
        }
        else record s { allocations_by_ant = put r.ant_id kept s.allocations_by_ant }
  ]
]

-- The loop of `releaseJob` over the ants of the request.
unfoldable pub release_ants : String → List String → Map (Map Allocation) → Map (Map Allocation)
release_ants request_id [] table = table
release_ants request_id (ant ∷ ants) table =
    release_ants request_id ants
      (elim (get ant table) [ none ↦ table | some held ↦ put ant (del request_id held) table ])

-- `releaseJob`; deleting a missing key changes nothing, so the test for the allocation is left out.
unfoldable pub release_job : String → State → State
release_job request_id s = elim (get request_id s.ants_by_request) [
  | none ↦ s
  | some ants ↦ record s {
    allocations_by_ant = release_ants request_id (keys ants) s.allocations_by_ant;
    ants_by_request = del request_id s.ants_by_request;
  }
]

-- What a request for an ant ends in; the dereference of a registration that is not there panics.
pub data Answer : Type 0 where
  panics : Answer
  no_method_ants no_ants : Answer
  no_tag_ants : String → Answer
  reserves : Reservation → State → Answer

-- The first tag, blank ones aside, that no ant has; `reserve` is refused for it.
unfoldable pub missing_tag : State → List String → Option String
missing_tag s [] = none
missing_tag s (tag ∷ tags) =
    let rest = missing_tag s tags in
    if is_blank tag then rest else if length (set_of tag s.ants_by_tag) == 0 then some tag else rest

-- Whether an ant has one of the tags, or no tags are asked for: it is counted twice then.
abbrev pub counted_twice : State → List String → String → Bool
counted_twice s [] ant = true
counted_twice s (tag ∷ tags) ant =
    any (λ g. not (is_blank g) && holds ant (set_of g s.ants_by_tag)) (tag ∷ tags)

-- The server's clock, and how long a registration lives.
pub record Clock : Type 0 where
  pub now : ℕ
  pub alive_timeout : ℕ

-- The reservations to choose from; `none` for the nil dereference.
unfoldable pub candidates :
    Clock
    → State
    → String
    → String
    → TaskMethod
    → List String
    → List String
    → Option (List Reservation)
candidates c s request_id task_type method tags [] = some []
candidates c s request_id task_type method tags (ant ∷ ants) =
    let rest = candidates c s request_id task_type method tags ants in
    if not (counted_twice s tags ant) then rest else elim (get ant s.registrations) [
      | none ↦ none
      | some r ↦ elim rest [
        | none ↦ none
        | some others ↦
            if is_some (get r.ant_id s.allocations_by_ant)
              && supports c.now c.alive_timeout r method tags
            then some (
                record {
                  ant_id = r.ant_id;
                  job_request_id = request_id;
                  task_type = task_type;
                  current_load = calculate_load (allocations_of r.ant_id s);
                  total_reservations = 0;
                }
                ∷ others)
            else some others
      ]
    ]

-- The first of the sorted reservations.
unfoldable pub least : Reservation → List Reservation → Reservation
least best [] = best
least best (r ∷ rs) = least (if ltb r.current_load best.current_load then r else best) rs

-- The end of `reserve`: the reservation, with the allocation unless it is a dry run.
unfoldable pub chosen :
    Clock → Bool → String → String → Reservation → List Reservation → State → Answer
chosen c dry_run request_id task_type r rs s =
    let best = if dry_run then r else least r rs in
    let counted = record best { total_reservations = suc (length rs) } in
    let (load, added) = add_allocations_by_ant c.now request_id task_type best.ant_id s in
    if dry_run
    then reserves counted s
    else reserves (record counted { current_load = load })
        (add_ants_by_request request_id best.ant_id added)

-- `reserve`
unfoldable pub reserve : Clock → Bool → String → String → TaskMethod → List String → State → Answer
reserve c dry_run request_id task_type method tags s =
    let ants = keys (set_of method s.ants_by_method) in
    if length ants == 0 then no_method_ants else elim (missing_tag s tags) [
      | some tag ↦ no_tag_ants tag
      | none ↦ elim (candidates c s request_id task_type method tags ants) [
        | none ↦ panics
        | some [] ↦ no_ants
        | some (r ∷ rs) ↦ chosen c dry_run request_id task_type r rs s
      ]
    ]
