-- ===== src/Examples/Clients.antt =====
-- Two web clients, at which the theorem on leases is applied.
use formicary.Common.{false, none, str_eq, str_eq_iff, ◌++◌, String, ◌≡◌, refl, true, [], ◌∷◌}
use formicary.Gateway.{
  Lease, adds, removes, key_of, event_key, validate_lease, change_all, no_leases,
  get_leases_by_user, get_leases_by_address,
}
use formicary.Gateway.Leases.{Among}
use formicary.Gateway.Leases.Reached.{change_all-reached}

abbrev lease_of : String → Lease
lease_of address = record {
  event_type = "JobRequest";
  event_scope = "r1";
  user_id = "ann";
  connected = true;
  address = address;
}

lease-valid : validate_lease (lease_of "h:2") ≡ none
unfolding validate_lease
lease-valid = refl

-- The key of the first client is another one.
other_key : str_eq (key_of (lease_of "h:1")) (key_of (lease_of "h:2")) ≡ false
unfolding key_of event_key
other_key = refl

apart : key_of (lease_of "h:1") ≡ key_of (lease_of "h:2") → lease_of "h:1" ≡ lease_of "h:2"
apart same =
    let equal = (str_eq_iff (key_of (lease_of "h:1")) (key_of (lease_of "h:2"))).1 same in
    absurd (cc (equal, other_key))

-- A client comes, a second one comes, and the first one leaves.
change_all-reached_example :
    let r =
      change_all
        ((adds (lease_of "h:1") ∷ []) ++ adds (lease_of "h:2") ∷ (removes (lease_of "h:1") ∷ []))
        no_leases in
    Among (lease_of "h:2") (get_leases_by_user "ann" "JobRequest" "r1" r)
    × Among (lease_of "h:2") (get_leases_by_address "h:2" r)
change_all-reached_example =
    change_all-reached (lease_of "h:2") (adds (lease_of "h:1") ∷ []) (removes (lease_of "h:1") ∷ [])
      lease-valid (apart, tt) (other_key, tt)
