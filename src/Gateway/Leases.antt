-- ===== src/Gateway/Leases.antt =====
-- The tables of the lease registry, and that they agree.
pub mod Reached
use formicary.Common.{
  All, none, ap, ◌∙◌, ◌++◌, String, ◌≡◌, ◌==◌, refl, sym, subst, true, false, arith, some, str_eq,
  str_eq_iff, str_eq_refl, List, [], ◌∷◌, length, Map, KeySet, get, put, del, keys, set_of, holds,
  set_of-put, get-put, get-del, Bool-cases, Option-cases, inl, inr, some-injective,
}
use formicary.Gateway.{
  Lease, LeaseRegistry, Change, adds, removes, key_of, key_without_address, validate_lease, add_key,
  add_lease, remove_key, remove_lease, leases_of, get_leases_by_address, get_leases_by_user, change,
  change_all, no_leases,
}

-- The lease stands in the list.
pub data Among (l : Lease) : List Lease → Type 0 where
  first : (ls : List Lease) → Among l (l ∷ ls)
  later : (m : Lease) {ls : List Lease} → Among l ls → Among l (m ∷ ls)

-- Each stored lease stands under its key, and its key in both tables.
abbrev Indexed : LeaseRegistry → Type 0
Indexed r =
    (k : String) (l : Lease)
    → get k r.leases_by_key ≡ some l
    → (key_of l ≡ k)
      × (holds k (set_of (key_without_address l) r.keys_by_user_and_event_type) ≡ true)
      × (holds k (set_of l.address r.keys_by_addresses) ≡ true)

put-holds :
    (k other : String) (ks : KeySet) → holds other ks ≡ true → holds other (put k tt ks) ≡ true
put-holds k other ks h = rw (get-put k other tt ks) (ground arith)

add_key-holds :
    (at k j other : String) (table : Map KeySet)
    → holds other (set_of j table) ≡ true
    → holds other (set_of j (add_key at k table)) ≡ true
add_key-holds at k j other table h = elim (Bool-cases (str_eq at j)) [
  | inr differs ↦ rw (set_of-put at j (put k tt (set_of at table)) table, differs) h
  | inl same ↦
      let here : holds other (set_of at table) ≡ true = rw (← (str_eq_iff at j).0 same) at h in
      rw (set_of-put at j (put k tt (set_of at table)) table, same)
        (put-holds k other (set_of at table) here)
]

add_key_self :
    (at k : String) (table : Map KeySet) → holds k (set_of at (add_key at k table)) ≡ true
add_key_self at k table =
    rw (set_of-put at at (put k tt (set_of at table)) table, str_eq_refl at)
      (rw (get-put k k tt (set_of at table), str_eq_refl k) refl)

holds-length : (k : String) (ks : KeySet) → holds k ks ≡ true → (length ks == 0) ≡ false
unfolding get
holds-length k [] h = absurd (cc h)
holds-length k (e ∷ ks) h = ground arith

del-keeps :
    (k other : String) (ks : KeySet)
    → str_eq k other ≡ false
    → holds other ks ≡ true
    → holds other (del k ks) ≡ true
del-keeps k other ks differs h = rw (get-del k other ks, differs) h

set_of-del :
    (at j : String) (table : Map KeySet)
    → str_eq at j ≡ false
    → set_of j (del at table) ≡ set_of j table
set_of-del at j table differs = rw (set_of, get-del at j table, differs) refl

set_of-found :
    (k : String) (table : Map KeySet) (ks : KeySet) → get k table ≡ some ks → set_of k table ≡ ks
set_of-found k table ks h = rw (set_of, h) refl

-- Taking one key out leaves the others.
remove_key-holds :
    (at k j other : String) (table : Map KeySet)
    → str_eq k other ≡ false
    → holds other (set_of j table) ≡ true
    → holds other (set_of j (remove_key at k table)) ≡ true
unfolding remove_key
remove_key-holds at k j other table differs h = elim (Option-cases (get at table)) [
  | inl gone ↦ rw (remove_key, gone) h
  | inr (ks, found) ↦ elim (Bool-cases (str_eq at j)) [
    | inl same ↦
        let here : holds other ks ≡ true =
          rw (← (str_eq_iff at j).0 same, set_of-found at table ks found) at h in
        let left = del-keeps k other ks differs here in
        rw (remove_key, found, holds-length other (del k ks) left)
          (rw (set_of-put at j (del k ks) table, same) left)
    | inr apart ↦ elim (Bool-cases (length (del k ks) == 0)) [
      | inl empty ↦ rw (remove_key, found, empty) (rw (set_of-del at j table apart) h)
      | inr more ↦ rw (remove_key, found, more) (rw (set_of-put at j (del k ks) table, apart) h)
    ]
  ]
]

add_lease-Indexed : (l : Lease) (r : LeaseRegistry) → Indexed r → Indexed (add_lease l r).1
unfolding add_lease
add_lease-Indexed l r inv = elim (Option-cases (validate_lease l)) [
  | inr (problem, e) ↦ rw (add_lease, e) inv
  | inl e ↦ elim (Option-cases (get (key_of l) r.leases_by_key)) [
    | inr (old, e') ↦ rw (add_lease, e, e') inv
    | inl e' ↦ rw (add_lease, e, e') (λ k m h. stored k m h)
  ]
]
  where
    stored :
        (k : String) (m : Lease)
        → get k (put (key_of l) l r.leases_by_key) ≡ some m
        → (key_of m ≡ k)
          × (holds k (
                set_of
                  (key_without_address m)
                  (add_key (key_without_address l) (key_of l) r.keys_by_user_and_event_type))
              ≡ true)
          × (holds k (set_of m.address (add_key l.address (key_of l) r.keys_by_addresses)) ≡ true)
    stored k m h = elim (Bool-cases (str_eq (key_of l) k)) [
      | inl same ↦
          let this : l ≡ m =
            some-injective l m (rw (get-put (key_of l) k l r.leases_by_key, same) at h) in
          let named : key_of l ≡ k = (str_eq_iff (key_of l) k).0 same in
          rw (← this, ← named)
            (
              refl,
              add_key_self (key_without_address l) (key_of l) r.keys_by_user_and_event_type,
              add_key_self l.address (key_of l) r.keys_by_addresses,
            )
      | inr other ↦
          let (named, by_user, by_address) =
            inv k m (rw (get-put (key_of l) k l r.leases_by_key, other) at h) in
          (
            named,
            add_key-holds (key_without_address l) (key_of l) (key_without_address m) k _ by_user,
            add_key-holds l.address (key_of l) m.address k _ by_address,
          )
    ]

remove_lease-Indexed : (l : Lease) (r : LeaseRegistry) → Indexed r → Indexed (remove_lease l r).1
unfolding remove_lease
remove_lease-Indexed l r inv = elim (Option-cases (validate_lease l)) [
  | inr (problem, e) ↦ rw (remove_lease, e) inv
  | inl e ↦ rw (remove_lease, e) (λ k m h. kept k m h)
]
  where
    kept :
        (k : String) (m : Lease)
        → get k (del (key_of l) r.leases_by_key) ≡ some m
        → (key_of m ≡ k)
          × (holds k (
                set_of
                  (key_without_address m)
                  (remove_key (key_without_address l) (key_of l) r.keys_by_user_and_event_type))
              ≡ true)
          × (holds k (set_of m.address (remove_key l.address (key_of l) r.keys_by_addresses))
              ≡ true)
    kept k m h = elim (Bool-cases (str_eq (key_of l) k)) [
      | inl same ↦ absurd (cc (rw (get-del (key_of l) k r.leases_by_key, same) at h))
      | inr other ↦
          let (named, by_user, by_address) =
            inv k m (rw (get-del (key_of l) k r.leases_by_key, other) at h) in
          (
            named,
            remove_key-holds (key_without_address l) (key_of l) (key_without_address m) k _ other
                by_user,
            remove_key-holds l.address (key_of l) m.address k _ other by_address,
          )
    ]

change_all-Indexed : (cs : List Change) (r : LeaseRegistry) → Indexed r → Indexed (change_all cs r)
unfolding change_all change
change_all-Indexed [] r inv = inv
change_all-Indexed (adds l ∷ cs) r inv =
    change_all-Indexed cs (add_lease l r).1 (add_lease-Indexed l r inv)
change_all-Indexed (removes l ∷ cs) r inv =
    change_all-Indexed cs (remove_lease l r).1 (remove_lease-Indexed l r inv)

no_leases-Indexed : Indexed no_leases
unfolding get
no_leases-Indexed k l h = absurd (cc h)

leases_of-Among :
    (k : String) (ks : KeySet) (table : Map Lease) (l : Lease)
    → holds k ks ≡ true
    → get k table ≡ some l
    → Among l (leases_of (keys ks) table)
unfolding leases_of get
leases_of-Among k [] table l h found = absurd (cc h)
leases_of-Among k ((j, u) ∷ ks) table l h found = elim (Bool-cases (str_eq j k)) [
  | inl same ↦
      let here : get j table ≡ some l =
        subst (λ x. get x table ≡ some l) (sym ((str_eq_iff j k).0 same)) found in
      rw (leases_of, here) (first (leases_of (keys ks) table))
  | inr other ↦
      let rest = leases_of-Among k ks table l (rw (other) at h) found in
      elim (Option-cases (get j table)) [
        | inl gone ↦ rw (leases_of, gone) rest
        | inr (m, e) ↦ rw (leases_of, e) (later m rest)
      ]
]

-- A stored lease is found by its user and by its address.
pub stored-reached :
    (cs : List Change) (k : String) (l : Lease)
    → get k (change_all cs no_leases).leases_by_key ≡ some l
    → Among l (get_leases_by_user l.user_id l.event_type l.event_scope (change_all cs no_leases))
      × Among l (get_leases_by_address l.address (change_all cs no_leases))
unfolding get_leases_by_user get_leases_by_address key_without_address
stored-reached cs k l h =
    let (_, by_user, by_address) = change_all-Indexed cs no_leases no_leases-Indexed k l h in
    (leases_of-Among k _ _ l by_user h, leases_of-Among k _ _ l by_address h)
