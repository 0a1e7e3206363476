-- ===== src/Resources/Registry.antt =====
-- queen/resource/resource_manager_state.go: ants that register and leave, stale allocations, and the
-- operations of the state as steps. What an ant is asked for on its first registration is left out.
pub mod Panics
use formicary.Common.{
  set_of, holds, String, ℕ, ◌+◌, ◌-◌, Bool, true, false, List, [], ◌∷◌, ◌++◌, map, Option, none,
  some, is_some, str_eq, if◌then◌else◌, ltb, Map, KeySet, get, put, del, keys, length,
}
use formicary.Types.RequestState.{RequestState}
use formicary.Types.TaskMethod.{TaskMethod}
use formicary.Resources.{
  Allocation, Registration, State, Reservation, Clock, Answer, reserves, allocations_of, reserve,
  release, release_job,
}

abbrev merge_types : Map RequestState → Map RequestState → Map RequestState
merge_types [] into = into
merge_types ((task, state) ∷ more) into = merge_types more (put task state into)

abbrev merged : Allocation → Option Allocation → Allocation
merged a none = a
merged a (some old) = record old { task_types = merge_types a.task_types old.task_types }

-- The allocations of a registration go into those that the state has for the ant.
unfoldable pub merge_allocations : List Allocation → Map Allocation → Map Allocation
merge_allocations [] held = held
merge_allocations (a ∷ more) held =
    merge_allocations more (put a.job_request_id (merged a (get a.job_request_id held)) held)

-- `updateAntsByMethods` and `updateAntsByTags`: the ant goes into the set of each key.
unfoldable pub update_ants_by : String → List String → Map KeySet → Map KeySet
update_ants_by ant_id [] table = table
update_ants_by ant_id (k ∷ ks) table =
    update_ants_by ant_id ks (put k (put ant_id tt (set_of k table)) table)

-- `addRegistration`
unfoldable pub add_registration : Registration → State → State
unfolding merge_allocations update_ants_by
add_registration r s = record s {
  registrations = put r.ant_id r s.registrations;
  allocations_by_ant =
      put r.ant_id (merge_allocations r.allocations (allocations_of r.ant_id s))
        s.allocations_by_ant;
  ants_by_method = update_ants_by r.ant_id r.methods s.ants_by_method;
  ants_by_tag = update_ants_by r.ant_id r.tags s.ants_by_tag;
}

-- The ant leaves the set of each key; deleting it where it is not changes nothing.
unfoldable pub drop_ant : String → Map KeySet → Map KeySet
drop_ant ant_id [] = []
drop_ant ant_id ((k, ants) ∷ table) = (k, del ant_id ants) ∷ drop_ant ant_id table

-- The keys whose set has the ant.
unfoldable pub keys_with : String → Map KeySet → List String
keys_with ant_id [] = []
keys_with ant_id ((k, ants) ∷ table) =
    let rest = keys_with ant_id table in if holds ant_id ants then k ∷ rest else rest

-- `removeRegistration`: the tags and the methods that the ant left, how many registrations went, and
-- the state.
unfoldable pub remove_registration : String → State → (List String × List TaskMethod × ℕ) × State
unfolding drop_ant keys_with
remove_registration ant_id s =
    let left = del ant_id s.registrations in
    (
      (
        keys_with ant_id s.ants_by_tag,
        keys_with ant_id s.ants_by_method,
        length s.registrations - length left,
      ),
      record s {
        registrations = left;
        allocations_by_ant = del ant_id s.allocations_by_ant;
        ants_by_tag = drop_ant ant_id s.ants_by_tag;
        ants_by_method = drop_ant ant_id s.ants_by_method;
        ants_by_request = drop_ant ant_id s.ants_by_request;
      },
    )

abbrev reservations_of : String → Allocation → List Reservation
reservations_of request_id a =
    map
      (λ task_type. record {
        ant_id = a.ant_id;
        job_request_id = request_id;
        task_type = task_type;
        current_load = 0;
        total_reservations = 0;
      })
      (keys a.task_types)

unfoldable pub stale_of_ant : ℕ → ℕ → Map Allocation → List Reservation
stale_of_ant now timeout [] = []
stale_of_ant now timeout ((request_id, a) ∷ held) =
    let rest = stale_of_ant now timeout held in
    if ltb (a.allocated_at + timeout) now then reservations_of request_id a ++ rest else rest

unfoldable pub stale : ℕ → ℕ → Map (Map Allocation) → List Reservation
unfolding stale_of_ant
stale now timeout [] = []
stale now timeout ((_, held) ∷ table) = stale_of_ant now timeout held ++ stale now timeout table

-- `reapStaleAllocations`: what to release, at a time in seconds.
unfoldable pub reap_stale_allocations : ℕ → ℕ → State → List Reservation
unfolding stale
reap_stale_allocations now timeout s = stale now timeout s.allocations_by_ant

-- The operations that change the state.
pub data Operation : Type 0 where
  registers : Registration → Operation
  leaves : String → Operation
  asks : Clock → Bool → String → String → TaskMethod → List String → Operation
  releases : Reservation → Operation
  releases_job : String → Operation

abbrev pub state_after : State → Answer → State
state_after s (reserves _ next) = next
state_after s _ = s

unfoldable pub run : Operation → State → State
run (registers r) s = add_registration r s
run (leaves ant_id) s = (remove_registration ant_id s).1
run (asks c dry_run request_id task_type method tags) s =
    state_after s (reserve c dry_run request_id task_type method tags s)
run (releases r) s = release r s
run (releases_job request_id) s = release_job request_id s

unfoldable pub run_all : List Operation → State → State
run_all [] s = s
run_all (o ∷ os) s = run_all os (run o s)

abbrev pub no_ants_yet : State
no_ants_yet = record {
  registrations = [];
  ants_by_tag = [];
  ants_by_method = [];
  ants_by_request = [];
  allocations_by_ant = [];
}
