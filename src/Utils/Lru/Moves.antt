-- ===== src/Utils/Lru/Moves.antt =====
-- The moves of the cache's elements keep its list and its map in step.
use formicary.Common.{
  String, ℕ, ◌≡◌, ◌<◌, ◌+◌, ◌==◌, refl, sym, ap, subst, ◌∙◌, false, arith, List, [], ◌∷◌, none,
  some, str_eq, str_eq_iff, str_eq_refl, if◌then◌else◌, get, put, get-put, get-del, All, Bool-cases,
  Option-cases, inl, inr, some-injective,
}
use formicary.Utils.Lru.{Entry, Lru, at_id, cut, last, remove_element}
use formicary.Utils.Lru.Linked.{
  id_of, has_id, has_key, Distinct, Linked, has_key-id_of, cut-Distinct, All-cut, id_of-cut,
  cut-apart, later_at, id_of-missing,
}

module _ {V : Type 0} where
  All-at :
      (P : Entry V → Type 0) (i : ℕ) (l : List (Entry V)) (e : Entry V)
      → All P l
      → at_id i l ≡ some e
      → P e
  unfolding at_id
  All-at P i [] e a h = absurd (cc h)
  All-at P i (d ∷ l) e (p, a) h = elim (Bool-cases (d.id == i)) [
    | inl same ↦ subst P (some-injective d e (rw (same) at h)) p
    | inr other ↦ All-at P i l e a (rw (other) at h)
  ]

  -- An element is removed, found by its key.
  pub remove_element-Linked :
      (c : Lru V) (k : String) (e : Entry V)
      → Linked c
      → id_of k c.evict_list ≡ some e.id
      → e.key ≡ k
      → Linked (remove_element e c)
  unfolding remove_element
  remove_element-Linked c k e (distinct, mapped, old) found named = (
    cut-Distinct e.id c.evict_list distinct,
    λ j. rw named (
        get-del k j c.items ∙ (rw (mapped j, id_of-cut k j e.id c.evict_list distinct found) refl)),
    All-cut (λ d. d.id < c.next) e.id c.evict_list old,
  )

  -- The element of a key goes to the front, with a new value.
  pub front-Linked :
      (c : Lru V) (k : String) (e : Entry V) (v : V)
      → Linked c
      → id_of k c.evict_list ≡ some e.id
      → e.key ≡ k
      → at_id e.id c.evict_list ≡ some e
      → Linked (record c { evict_list = record e { value = v } ∷ cut e.id c.evict_list })
  unfolding id_of
  front-Linked c k e v (distinct, mapped, old) found named at = (
    (
      cut-apart e.id c.evict_list distinct,
      rw named (
          has_key-id_of k (cut e.id c.evict_list)
            (id_of-cut k k e.id c.evict_list distinct found ∙ rw (str_eq_refl k) refl)),
      cut-Distinct e.id c.evict_list distinct,
    ),
    (λ j. rw (mapped j, named, id_of-cut k j e.id c.evict_list distinct found) (kept j)),
    (
      All-at (λ d. d.id < c.next) e.id c.evict_list e old at,
      All-cut (λ d. d.id < c.next) e.id c.evict_list old,
    ),
  )
    where
      kept :
          (j : String)
          → id_of j c.evict_list
            ≡ (if str_eq k j then some e.id else if str_eq k j then none else id_of j c.evict_list)
      kept j = elim (Bool-cases (str_eq k j)) [
        | inl same ↦
            rw same (subst (λ x. id_of x c.evict_list ≡ some e.id) ((str_eq_iff k j).0 same) found)
        | inr other ↦ rw other refl
      ]

  fresh : (n : ℕ) (l : List (Entry V)) → All (λ e. e.id < n) l → has_id n l ≡ false
  fresh n [] a = refl
  fresh n (e ∷ l) (p, a) = ground (arith, fresh n l a)

  older : (n : ℕ) (l : List (Entry V)) → All (λ e. e.id < n) l → All (λ e. e.id < n + 1) l
  older n [] a = tt
  older n (e ∷ l) (p, a) = (omega arith, older n l a)

  pub push-Linked :
      (c : Lru V) (k : String) (v : V)
      → Linked c
      → get k c.items ≡ none
      → Linked (record c {
        evict_list = record { id = c.next; key = k; value = v } ∷ c.evict_list;
        items = put k c.next c.items;
        next = c.next + 1;
      })
  unfolding id_of
  push-Linked c k v (distinct, mapped, old) new = (
    (fresh c.next c.evict_list old, has_key-id_of k c.evict_list (sym (mapped k) ∙ new), distinct),
    (λ j. get-put k j c.next c.items ∙ ap (λ x. if str_eq k j then some c.next else x) (mapped j)),
    (omega arith, older c.next c.evict_list old),
  )

  first_other :
      (d e : Entry V) (l : List (Entry V))
      → has_key d.key l ≡ false
      → id_of e.key l ≡ some e.id
      → str_eq d.key e.key ≡ false
  first_other d e l new found = elim (Bool-cases (str_eq d.key e.key)) [
    | inr other ↦ other
    | inl same ↦
        let gone : id_of e.key l ≡ none =
          id_of-missing e.key l (rw ((str_eq_iff d.key e.key).0 same) at new) in
        absurd (cc (sym gone ∙ found))
  ]

  pub last-at :
      (l : List (Entry V)) (e : Entry V)
      → Distinct l
      → last l ≡ some e
      → (id_of e.key l ≡ some e.id) × (at_id e.id l ≡ some e)
  unfolding id_of at_id
  last-at [] e distinct h = absurd (cc h)
  last-at (d ∷ l) e (new_id, new_key, distinct) h = elim (Option-cases (last l)) [
    | inl end ↦
        let same : d ≡ e = some-injective d e (rw (end) at h) in
        rw (sym same, str_eq_refl d.key) (refl, ground arith)
    | inr (f, more) ↦
        let same : f ≡ e = some-injective f e (rw (more) at h) in
        let (key, at) = last-at l e distinct (more ∙ ap some same) in
        (rw (first_other d e l new_key key) key, later_at d e.id l e new_id at)
  ]
