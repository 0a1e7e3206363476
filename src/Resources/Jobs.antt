-- ===== src/Resources/Jobs.antt =====
-- queen/resource/resource_manager.go: the ants that a whole job needs. The errors' texts are left
-- out.
pub mod Rollback
pub mod Complete
use formicary.Common.{
  String, ℕ, ◌+◌, Bool, true, false, not, ◌&&◌, List, [], ◌∷◌, Option, none, some, is_some, str_eq,
  if◌then◌else◌, ltb, leb, ◌==◌, Map, get, put, keys, length, any, all, set_of,
}
use formicary.Types.TaskMethod.{TaskMethod}
use formicary.Definitions.Tasks.{TaskDefinition}
use formicary.Resources.{
  State, Registration, Reservation, Clock, Answer, panics, no_method_ants, no_tag_ants, no_ants,
  reserves, reserve, release, release_job, supports, allocations_of,
}

-- Why a job has no ants.
pub data Shortage : Type 0 where
  no_methods : Shortage
  no_live_ant : TaskMethod → Shortage
  no_ant_for_tag no_matching_ant : String → Shortage

-- `IsAlive`
unfoldable pub is_alive : Clock → Registration → Bool
is_alive c r = not (ltb (r.received_at + c.alive_timeout) c.now) && r.valid

-- Whether the ant is counted for the method, and for a tag: fewer allocations than its capacity are
-- not asked for, an ant at its capacity counts as well.
unfoldable pub lives_for_method : Clock → State → TaskMethod → String → Bool
unfolding supports
lives_for_method c s method ant_id = elim (get ant_id s.registrations) [
  | none ↦ false
  | some r ↦ supports c.now c.alive_timeout r method []
]

unfoldable pub matches_for_tag : Clock → State → String → Bool
unfolding is_alive get
matches_for_tag c s ant_id = elim (get ant_id s.registrations) [
  | none ↦ false
  | some r ↦
      is_some (get ant_id s.allocations_by_ant)
      && is_alive c r
      && leb (length (allocations_of ant_id s)) r.max_capacity
]

-- The loops of `HasAntsForJobTags`.
unfoldable pub check_methods : Clock → State → List TaskMethod → Option Shortage
unfolding lives_for_method
check_methods c s [] = none
check_methods c s (method ∷ methods) =
    let rest = check_methods c s methods in
    if any (lives_for_method c s method) (keys (set_of method s.ants_by_method))
    then rest
    else some (no_live_ant method)

unfoldable pub check_tags : Clock → State → List String → Option Shortage
unfolding matches_for_tag
check_tags c s [] = none
check_tags c s (tag ∷ tags) =
    let rest = check_tags c s tags in
    let ants = keys (set_of tag s.ants_by_tag) in
    if length ants == 0
    then some (no_ant_for_tag tag)
    else if any (matches_for_tag c s) ants
    then rest
    else some (no_matching_ant tag)

-- `HasAntsForJobTags`
unfoldable pub has_ants_for_job_tags :
    Clock → State → List TaskMethod → List String → Option Shortage
unfolding check_methods check_tags
has_ants_for_job_tags c s [] tags = some no_methods
has_ants_for_job_tags c s (method ∷ methods) tags = elim (check_methods c s (method ∷ methods)) [
  | some why ↦ some why
  | none ↦ check_tags c s tags
]

-- `doReserve`: `none` when the method is not specified.
unfoldable pub do_reserve :
    Clock → Bool → String → String → TaskMethod → List String → State → Option Answer
do_reserve c dry_run request_id task_type method tags s =
    if str_eq method "" then none else some (reserve c dry_run request_id task_type method tags s)

-- How reserving the ants of a job ends.
pub data Reserved : Type 0 where
  crashes : Reserved
  all_reserved : Map Reservation → State → Reserved
  not_reserved : Map Reservation → State → Reserved

-- The state after a task that no ant is found for: what was reserved so far is released.
abbrev rolled_back : Bool → String → State → State
rolled_back dry_run request_id s = if dry_run then s else release_job request_id s

-- `doReserveJobResources`, from the reservations so far.
unfoldable pub reserve_tasks :
    Clock → Bool → String → List TaskDefinition → Map Reservation → State → Reserved
unfolding do_reserve
reserve_tasks c dry_run request_id [] got s = all_reserved got s
reserve_tasks c dry_run request_id (t ∷ ts) got s =
    elim (do_reserve c dry_run request_id t.task_type t.method t.tags s) [
      | none ↦ not_reserved got (rolled_back dry_run request_id s)
      | some panics ↦ crashes
      | some no_method_ants ↦ not_reserved got (rolled_back dry_run request_id s)
      | some no_ants ↦ not_reserved got (rolled_back dry_run request_id s)
      | some (no_tag_ants _) ↦ not_reserved got (rolled_back dry_run request_id s)
      | some (reserves r s') ↦ reserve_tasks c dry_run request_id ts (put t.task_type r got) s'
    ]

-- `ReserveJobResources`
unfoldable pub reserve_job_resources : Clock → String → List TaskDefinition → State → Reserved
reserve_job_resources c request_id tasks s = reserve_tasks c false request_id tasks [] s

-- `Release` of the manager; the error says that the ant is no longer registered.
unfoldable pub release_reservation : Reservation → State → Bool × State
release_reservation r s =
    if is_some (get r.ant_id s.registrations) then (true, release r s) else (false, s)
