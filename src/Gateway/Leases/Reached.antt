-- ===== src/Gateway/Leases/Reached.antt =====
-- A lease that was added is found until it is removed.
use formicary.Common.{
  All, none, ap, ◌∙◌, ◌++◌, ◌≡◌, refl, sym, subst, false, some, str_eq, str_eq_iff, str_eq_refl,
  List, [], ◌∷◌, get, get-put, get-del, Bool-cases, Option-cases, inl, inr, some-injective,
}
use formicary.Gateway.{
  Lease, LeaseRegistry, Change, adds, removes, key_of, validate_lease, add_lease, remove_lease,
  get_leases_by_address, get_leases_by_user, change, change_all, no_leases,
}
use formicary.Gateway.Leases.{Among, stored-reached}

module _ (l : Lease) where
  -- Of the leases with its key, only this one is added.
  abbrev pub AddsOnly : Change → Type 0
  AddsOnly (adds m) = key_of m ≡ key_of l → m ≡ l
  AddsOnly (removes m) = Unit

  -- No lease with its key is removed.
  abbrev pub Leaves : Change → Type 0
  Leaves (adds m) = Unit
  Leaves (removes m) = str_eq (key_of m) (key_of l) ≡ false

  abbrev HasLease : LeaseRegistry → Type 0
  HasLease r = get (key_of l) r.leases_by_key ≡ some l

  abbrev HasOnly : LeaseRegistry → Type 0
  HasOnly r = (m : Lease) → get (key_of l) r.leases_by_key ≡ some m → m ≡ l

  add_lease-keeps : (m : Lease) (r : LeaseRegistry) → HasLease r → HasLease (add_lease m r).1
  unfolding add_lease
  add_lease-keeps m r has = elim (Option-cases (validate_lease m)) [
    | inr (problem, e) ↦ rw (add_lease, e) has
    | inl e ↦ elim (Option-cases (get (key_of m) r.leases_by_key)) [
      | inr (old, e') ↦ rw (add_lease, e, e') has
      | inl e' ↦
          rw (add_lease, e, e', get-put (key_of m) (key_of l) m r.leases_by_key)
            (elim (Bool-cases (str_eq (key_of m) (key_of l))) [
              | inr other ↦ rw (other) has
              | inl same ↦
                  let gone : get (key_of l) r.leases_by_key ≡ none =
                    subst (λ k. get k r.leases_by_key ≡ none)
                      ((str_eq_iff (key_of m) (key_of l)).0 same) e' in
                  absurd (cc (gone, has))
            ])
    ]
  ]

  remove_lease-keeps :
      (m : Lease) (r : LeaseRegistry)
      → str_eq (key_of m) (key_of l) ≡ false
      → HasLease r
      → HasLease (remove_lease m r).1
  unfolding remove_lease
  remove_lease-keeps m r leaves has = elim (Option-cases (validate_lease m)) [
    | inr (problem, e) ↦ rw (remove_lease, e) has
    | inl e ↦ rw (remove_lease, e, get-del (key_of m) (key_of l) r.leases_by_key, leaves) has
  ]

  change-HasLease : (c : Change) (r : LeaseRegistry) → Leaves c → HasLease r → HasLease (change c r)
  unfolding change
  change-HasLease (adds m) r leaves has = add_lease-keeps m r has
  change-HasLease (removes m) r leaves has = remove_lease-keeps m r leaves has

  add_lease-HasOnly :
      (m : Lease) (r : LeaseRegistry) → AddsOnly (adds m) → HasOnly r → HasOnly (add_lease m r).1
  unfolding add_lease
  add_lease-HasOnly m r adds_only only = elim (Option-cases (validate_lease m)) [
    | inr (problem, e) ↦ rw (add_lease, e) only
    | inl e ↦ elim (Option-cases (get (key_of m) r.leases_by_key)) [
      | inr (old, e') ↦ rw (add_lease, e, e') only
      | inl e' ↦
          rw (add_lease, e, e', get-put (key_of m) (key_of l) m r.leases_by_key)
            (elim (Bool-cases (str_eq (key_of m) (key_of l))) [
              | inr other ↦ rw (other) only
              | inl same ↦ rw (same) (λ n h.
                  sym (some-injective m n h)
                  ∙ adds_only ((str_eq_iff (key_of m) (key_of l)).0 same))
            ])
    ]
  ]

  remove_lease-HasOnly : (m : Lease) (r : LeaseRegistry) → HasOnly r → HasOnly (remove_lease m r).1
  unfolding remove_lease
  remove_lease-HasOnly m r only = elim (Option-cases (validate_lease m)) [
    | inr (problem, e) ↦ rw (remove_lease, e) only
    | inl e ↦
        rw (remove_lease, e, get-del (key_of m) (key_of l) r.leases_by_key)
          (elim (Bool-cases (str_eq (key_of m) (key_of l))) [
            | inr other ↦ rw (other) only
            | inl same ↦ rw (same) (λ n h. absurd (cc h))
          ])
  ]

  change-HasOnly : (c : Change) (r : LeaseRegistry) → AddsOnly c → HasOnly r → HasOnly (change c r)
  unfolding change
  change-HasOnly (adds m) r adds_only only = add_lease-HasOnly m r adds_only only
  change-HasOnly (removes m) r adds_only only = remove_lease-HasOnly m r only

  add_lease-HasLease :
      (r : LeaseRegistry) → validate_lease l ≡ none → HasOnly r → HasLease (add_lease l r).1
  unfolding add_lease
  add_lease-HasLease r valid only = elim (Option-cases (get (key_of l) r.leases_by_key)) [
    | inr (m, e) ↦ rw (add_lease, valid, e) (e ∙ ap some (only m e))
    | inl e ↦
        rw
          (
            add_lease,
            valid,
            e,
            get-put (key_of l) (key_of l) l r.leases_by_key,
            str_eq_refl (key_of l),
          )
          refl
  ]

  -- The lease is stored after its addition, from any registry that has no other one for its key.
  change_all-HasLease :
      (before since : List Change) (r : LeaseRegistry)
      → validate_lease l ≡ none
      → All AddsOnly before
      → All Leaves since
      → HasOnly r
      → HasLease (change_all (before ++ adds l ∷ since) r)
  unfolding change_all change add_lease
  change_all-HasLease (c ∷ before) since r valid (adds_only, rest) leaves only =
      change_all-HasLease before since (change c r) valid rest leaves
        (change-HasOnly c r adds_only only)
  change_all-HasLease [] since r valid adds_only leaves only =
      stays since (change (adds l) r) leaves (add_lease-HasLease r valid only)
    where
      stays :
          (cs : List Change) (r : LeaseRegistry)
          → All Leaves cs
          → HasLease r
          → HasLease (change_all cs r)
      stays [] r leaves has = has
      stays (c ∷ cs) r (leaf, leaves) has =
          stays cs (change c r) leaves (change-HasLease c r leaf has)

  nothing-HasOnly : HasOnly no_leases
  unfolding get
  nothing-HasOnly m h = absurd (cc h)

  -- No subscription is lost: a valid lease that was added to a registry, which was empty before any
  -- changes, is after any further changes among the leases that an event of its user, type and scope
  -- is written to, and among those that the end of its connection removes, if no lease with its key
  -- was removed since and no other one with its key was added before.
  pub change_all-reached :
      (before since : List Change)
      → validate_lease l ≡ none
      → All AddsOnly before
      → All Leaves since
      → let r = change_all (before ++ adds l ∷ since) no_leases in
        Among l (get_leases_by_user l.user_id l.event_type l.event_scope r)
        × Among l (get_leases_by_address l.address r)
  change_all-reached before since valid adds_only leaves =
      stored-reached (before ++ adds l ∷ since) (key_of l) l
        (change_all-HasLease before since no_leases valid adds_only leaves nothing-HasOnly)
