-- ===== src/Gateway.antt =====
-- queen/gateway/lease_registry.go and lease.go: the subscriptions of the web clients. A lease is by its
-- address and what it listens to; the connection, its lock and what is written to it are left out,
-- as is the time of the last update.
pub mod Leases
use Prim.Native.String.{◌++◌}
use formicary.Common.{
  String, ℕ, ◌==◌, Bool, true, false, Option, none, some, is_some, str_eq, List, [], ◌∷◌,
  if◌then◌else◌, length, Map, KeySet, get, put, del, keys, set_of, holds,
}

pub record Lease : Type 0 where
  pub event_type : String
  pub event_scope : String
  pub user_id : String
  pub connected : Bool
  pub address : String

-- `LeaseRegistry`; the locks of the addresses are left out.
pub record LeaseRegistry : Type 0 where
  pub leases_by_key : Map Lease
  pub keys_by_user_and_event_type : Map KeySet
  pub keys_by_addresses : Map KeySet

pub data LeaseError : Type 0 where
  no_event_type no_connection : LeaseError

-- `Validate`
unfoldable pub validate_lease : Lease → Option LeaseError
validate_lease l =
    if str_eq l.event_type ""
    then some no_event_type
    else if l.connected
    then none
    else some no_connection

-- `EventKey`
unfoldable pub event_key : String → String → String → String → String
event_key address user_id event_type event_scope =
    address ++ ("::" ++ (user_id ++ ("::" ++ (event_type ++ ("::" ++ event_scope)))))

-- `Key` and `KeyWithoutAddress`
unfoldable pub key_of : Lease → String
unfolding event_key
key_of l = event_key l.address l.user_id l.event_type l.event_scope

unfoldable pub key_without_address : Lease → String
unfolding event_key
key_without_address l = event_key "" l.user_id l.event_type l.event_scope

abbrev pub add_key : String → String → Map KeySet → Map KeySet
add_key at k table = put at (put k tt (set_of at table)) table

-- `Add`
unfoldable pub add_lease : Lease → LeaseRegistry → Option LeaseError × LeaseRegistry
unfolding validate_lease key_of key_without_address
add_lease l r = elim (validate_lease l) [
  | some problem ↦ (some problem, r)
  | none ↦ elim (get (key_of l) r.leases_by_key) [
    | some _ ↦ (none, r)
    | none ↦ (
      none,
      record {
        leases_by_key = put (key_of l) l r.leases_by_key;
        keys_by_user_and_event_type =
            add_key (key_without_address l) (key_of l) r.keys_by_user_and_event_type;
        keys_by_addresses = add_key l.address (key_of l) r.keys_by_addresses;
      },
    )
  ]
]

-- The key leaves the set, and an empty set leaves the table.
unfoldable pub remove_key : String → String → Map KeySet → Map KeySet
remove_key at k table = elim (get at table) [
  | none ↦ table
  | some ks ↦ let left = del k ks in if length left == 0 then del at table else put at left table
]

-- `Remove`
unfoldable pub remove_lease : Lease → LeaseRegistry → Option LeaseError × LeaseRegistry
unfolding validate_lease key_of key_without_address remove_key
remove_lease l r = elim (validate_lease l) [
  | some problem ↦ (some problem, r)
  | none ↦ (
    none,
    record {
      leases_by_key = del (key_of l) r.leases_by_key;
      keys_by_user_and_event_type =
          remove_key (key_without_address l) (key_of l) r.keys_by_user_and_event_type;
      keys_by_addresses = remove_key l.address (key_of l) r.keys_by_addresses;
    },
  )
]

-- The leases of the keys; a key without one is passed over.
unfoldable pub leases_of : List String → Map Lease → List Lease
leases_of [] table = []
leases_of (k ∷ ks) table =
    let rest = leases_of ks table in elim (get k table) [ none ↦ rest | some l ↦ l ∷ rest ]

-- `getLeasesByAddress`, without the clean-up of keys that have no lease.
unfoldable pub get_leases_by_address : String → LeaseRegistry → List Lease
unfolding leases_of
get_leases_by_address address r =
    leases_of (keys (set_of address r.keys_by_addresses)) r.leases_by_key

-- `getLeasesByUserAndEventTypeScope`, without that clean-up: the leases that `Notify` writes to.
unfoldable pub get_leases_by_user : String → String → String → LeaseRegistry → List Lease
unfolding leases_of event_key
get_leases_by_user user_id event_type event_scope r =
    leases_of
      (keys (set_of (event_key "" user_id event_type event_scope) r.keys_by_user_and_event_type))
      r.leases_by_key

pub data Change : Type 0 where
  adds removes : Lease → Change

unfoldable pub change : Change → LeaseRegistry → LeaseRegistry
change (adds l) r = (add_lease l r).1
change (removes l) r = (remove_lease l r).1

unfoldable pub change_all : List Change → LeaseRegistry → LeaseRegistry
change_all [] r = r
change_all (c ∷ cs) r = change_all cs (change c r)

abbrev pub no_leases : LeaseRegistry
no_leases = record { leases_by_key = []; keys_by_user_and_event_type = []; keys_by_addresses = [] }
