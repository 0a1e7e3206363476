-- ===== src/Utils/Lru/Linked.antt =====
-- The list and the map of the cache in step: where the map leads, and what cutting an element out does.
use formicary.Common.{
  String, ℕ, ◌≡◌, ◌<◌, ◌==◌, refl, sym, ap, subst, Bool, true, false, arith, List, [], ◌∷◌, map,
  Option, none, some, str_eq, str_eq_iff, if◌then◌else◌, Map, get, del, any, All, Bool-cases, inl,
  inr, some-injective,
}
use formicary.Utils.Lru.{Entry, Lru, at_id, cut, pair_of}
use formicary.Utils.Lru.Recency.{Recency}

both_ways : (b : Bool) → b ≡ true → b ≡ false → ⊥
both_ways b t f = cc

module _ {V : Type 0} where
  -- The element that has the key.
  unfoldable pub id_of : String → List (Entry V) → Option ℕ
  id_of k [] = none
  id_of k (e ∷ l) = let rest = id_of k l in if str_eq e.key k then some e.id else rest

  abbrev pub has_id : ℕ → List (Entry V) → Bool
  has_id i l = any (λ e. e.id == i) l

  abbrev pub has_key : String → List (Entry V) → Bool
  has_key k l = any (λ e. str_eq e.key k) l

  -- No two elements have the same identity or the same key.
  abbrev pub Distinct : List (Entry V) → Type 0
  Distinct [] = Unit
  Distinct (e ∷ l) = (has_id e.id l ≡ false) × (has_key e.key l ≡ false) × Distinct l

  -- The map leads from a key to its element, and new identities are new.
  abbrev pub Linked : Lru V → Type 0
  Linked c =
      Distinct c.evict_list
      × ((k : String) → get k c.items ≡ id_of k c.evict_list)
      × All (λ e. e.id < c.next) c.evict_list

  -- The pairs of the list.
  abbrev pub pairs_of : List (Entry V) → Map V
  pairs_of = map pair_of

  abbrev pub view : Lru V → Recency V
  view c = record { size = c.size; pairs = pairs_of c.evict_list }

  at_id-has : (i : ℕ) (l : List (Entry V)) (e : Entry V) → at_id i l ≡ some e → has_id i l ≡ true
  unfolding at_id
  at_id-has i [] e h = absurd (cc h)
  at_id-has i (d ∷ l) e h = ground (arith, at_id-has i l e)

  pub later_at :
      (d : Entry V) (i : ℕ) (l : List (Entry V)) (e : Entry V)
      → has_id d.id l ≡ false
      → at_id i l ≡ some e
      → at_id i (d ∷ l) ≡ some e
  unfolding at_id
  later_at d i l e new h = elim (Bool-cases (d.id == i)) [
    | inr other ↦ rw other h
    | inl same ↦
        let here : d.id ≡ i = ground arith in
        absurd (both_ways (has_id i l) (at_id-has i l e h) (rw (here) at new))
  ]

  pub id_of-at :
      (k : String) (i : ℕ) (l : List (Entry V))
      → Distinct l
      → id_of k l ≡ some i
      → (e : Entry V) × (at_id i l ≡ some e)
        × (e.key ≡ k)
        × (e.id ≡ i)
        × (get k (pairs_of l) ≡ some e.value)
  unfolding id_of at_id get
  id_of-at k i [] distinct h = absurd (cc h)
  id_of-at k i (e ∷ l) (new_id, new_key, distinct) h = elim (Bool-cases (str_eq e.key k)) [
    | inl same ↦
        let this : e.id ≡ i = some-injective e.id i (rw (same) at h) in
        (e, ground (arith, this), (str_eq_iff e.key k).0 same, this, rw same refl)
    | inr other ↦
        let (f, at, key, id, value) = id_of-at k i l distinct (rw (other) at h) in
        (f, later_at e i l f new_id at, key, id, rw other value)
  ]

  pub id_of-none : (k : String) (l : List (Entry V)) → id_of k l ≡ none → get k (pairs_of l) ≡ none
  unfolding id_of get
  id_of-none k [] h = refl
  id_of-none k (e ∷ l) h = ground (arith, id_of-none k l)

  pub has_key-id_of : (k : String) (l : List (Entry V)) → id_of k l ≡ none → has_key k l ≡ false
  unfolding id_of
  has_key-id_of k [] h = refl
  has_key-id_of k (e ∷ l) h = ground (arith, has_key-id_of k l)

  pub id_has : (k : String) (i : ℕ) (l : List (Entry V)) → id_of k l ≡ some i → has_id i l ≡ true
  unfolding id_of
  id_has k i [] h = absurd (cc h)
  id_has k i (e ∷ l) h = elim (Bool-cases (str_eq e.key k)) [
    | inl same ↦
        let this : e.id ≡ i = some-injective e.id i (rw (same) at h) in ground (arith, this)
    | inr other ↦ let there = id_has k i l (rw (other) at h) in ground (arith, there)
  ]

  other_id :
      (e : Entry V) (i : ℕ) (l : List (Entry V))
      → has_id e.id l ≡ false
      → has_id i l ≡ true
      → (e.id == i) ≡ false
  other_id e i l new there = elim (Bool-cases (e.id == i)) [
    | inr other ↦ other
    | inl same ↦
        let here : e.id ≡ i = ground arith in
        absurd (both_ways (has_id i l) there (rw (here) at new))
  ]

  del-missing :
      (k : String) (l : List (Entry V)) → has_key k l ≡ false → del k (pairs_of l) ≡ pairs_of l
  unfolding del
  del-missing k [] h = refl
  del-missing k (e ∷ l) h = ground (arith, del-missing k l)

  -- Cutting out the element of a key deletes the key.
  pub pairs_of-cut :
      (k : String) (i : ℕ) (l : List (Entry V))
      → Distinct l
      → id_of k l ≡ some i
      → pairs_of (cut i l) ≡ del k (pairs_of l)
  unfolding id_of cut del
  pairs_of-cut k i [] distinct h = absurd (cc h)
  pairs_of-cut k i (e ∷ l) (new_id, new_key, distinct) h = elim (Bool-cases (str_eq e.key k)) [
    | inl same ↦
        let this : e.id ≡ i = some-injective e.id i (rw (same) at h) in
        let here : (e.id == i) ≡ true = ground arith in
        rw (same, here)
          (sym (
            del-missing k l
              (subst (λ x. has_key x l ≡ false) ((str_eq_iff e.key k).0 same) new_key)))
    | inr other ↦
        let rest : id_of k l ≡ some i = rw (other) at h in
        let there = id_has k i l rest in
        let apart : (e.id == i) ≡ false = other_id e i l new_id there in
        rw (other, apart) (ap (λ x. pair_of e ∷ x) (pairs_of-cut k i l distinct rest))
  ]

  any-cut :
      (p : Entry V → Bool) (i : ℕ) (l : List (Entry V)) → any p l ≡ false → any p (cut i l) ≡ false
  unfolding cut
  any-cut p i [] h = refl
  any-cut p i (e ∷ l) h = ground (arith, any-cut p i l)

  pub cut-Distinct : (i : ℕ) (l : List (Entry V)) → Distinct l → Distinct (cut i l)
  unfolding cut
  cut-Distinct i [] distinct = tt
  cut-Distinct i (e ∷ l) (new_id, new_key, distinct) = elim (Bool-cases (e.id == i)) [
    | inl same ↦ rw same distinct
    | inr other ↦ rw other (
      any-cut (λ d. d.id == e.id) i l new_id,
      any-cut (λ d. str_eq d.key e.key) i l new_key,
      cut-Distinct i l distinct,
    )
  ]

  pub All-cut : (P : Entry V → Type 0) (i : ℕ) (l : List (Entry V)) → All P l → All P (cut i l)
  unfolding cut
  All-cut P i [] a = tt
  All-cut P i (e ∷ l) (p, a) = elim (Bool-cases (e.id == i)) [
    | inl same ↦ rw same a
    | inr other ↦ rw other (p, All-cut P i l a)
  ]

  pub id_of-missing : (k : String) (l : List (Entry V)) → has_key k l ≡ false → id_of k l ≡ none
  unfolding id_of
  id_of-missing k [] h = refl
  id_of-missing k (e ∷ l) h = ground (arith, id_of-missing k l)

  after_first :
      (j k : String) (l : List (Entry V)) (i : ℕ)
      → id_of k l ≡ none
      → id_of j l ≡ (if str_eq k j then none else if str_eq k j then some i else id_of j l)
  after_first j k l i gone = elim (Bool-cases (str_eq k j)) [
    | inl same ↦ rw same (subst (λ x. id_of x l ≡ none) ((str_eq_iff k j).0 same) gone)
    | inr other ↦ rw other refl
  ]

  pub id_of-cut :
      (k j : String) (i : ℕ) (l : List (Entry V))
      → Distinct l
      → id_of k l ≡ some i
      → id_of j (cut i l) ≡ (if str_eq k j then none else id_of j l)
  unfolding id_of cut
  id_of-cut k j i [] distinct h = absurd (cc h)
  id_of-cut k j i (e ∷ l) (new_id, new_key, distinct) h = elim (Bool-cases (str_eq e.key k)) [
    | inl same ↦
        let this : e.id ≡ i = some-injective e.id i (rw (same) at h) in
        let here : (e.id == i) ≡ true = ground arith in
        let key : e.key ≡ k = (str_eq_iff e.key k).0 same in
        let gone : id_of k l ≡ none = id_of-missing k l (rw (key) at new_key) in
        rw (here, key) (after_first j k l e.id gone)
    | inr other ↦
        let rest : id_of k l ≡ some i = rw (other) at h in
        let apart : (e.id == i) ≡ false = other_id e i l new_id (id_has k i l rest) in
        rw apart (
          ground (
            arith,
            str_eq_iff e.key j,
            str_eq_iff e.key k,
            str_eq_iff k j,
            id_of-cut k j i l distinct rest,
          ))
  ]

  pub cut-apart : (i : ℕ) (l : List (Entry V)) → Distinct l → has_id i (cut i l) ≡ false
  unfolding cut
  cut-apart i [] distinct = refl
  cut-apart i (e ∷ l) (new_id, new_key, distinct) = elim (Bool-cases (e.id == i)) [
    | inl same ↦ rw same (let here : e.id ≡ i = ground arith in rw (here) at new_id)
    | inr other ↦ rw (other) (ground (arith, cut-apart i l distinct))
  ]
