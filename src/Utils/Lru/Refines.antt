-- ===== src/Utils/Lru/Refines.antt =====
-- The cache behaves as the list of recent uses.
use formicary.Common.{
  String, ℕ, zero, suc, ◌≡◌, ◌+◌, ◌-◌, ◌==◌, refl, sym, ap, ap₂, ◌≤◌, ◌∙◌, Bool, true, false, arith,
  List, [], ◌∷◌, ◌++◌, Option, none, some, if◌then◌else◌, ltb, Map, get, put, del, length,
  Bool-cases, Option-cases, inl, inr, ◌⊎◌, some-injective,
}
use formicary.Utils.Lru.Moves.{front-Linked, push-Linked, remove_element-Linked, last-at}
use formicary.Utils.Lru.Bounded.{after_all-le}
use formicary.Utils.Lru.{
  replies, run_all, Entry, Lru, Call, adds, gets, contains, peeks, removes, removes_oldest,
  gets_oldest, lists_keys, counts, purges, resizes, at_id, cut, write_value, move_to_front, last,
  new_lru, pair_of, remove_element, remove_oldest, add, get_value, peek, remove, key_names,
  remove_times, resize, purge, run, entry_of, count, key_list,
}
use formicary.Utils.Lru.Recency.{
  Recency, empty, answers, after_all, answer, after, drop_times, drop_oldest, oldest_first,
}
use formicary.Utils.Lru.Linked.{id_of, Linked, pairs_of, view, id_of-at, id_of-none, pairs_of-cut}

module _ {V : Type 0} where
  -- What a call must give, and leave.
  abbrev pub Refines : Call V → Lru V → Type 0
  Refines call c =
      ((run call c).0 ≡ answer call (view c))
      × (view (run call c).1 ≡ after call (view c))
      × Linked (run call c).1

  abbrev pair_opt : Option (Entry V) → Option (String × V)
  pair_opt none = none
  pair_opt (some e) = some (pair_of e)

  last-pairs_of : (l : List (Entry V)) → last (pairs_of l) ≡ pair_opt (last l)
  last-pairs_of [] = refl
  last-pairs_of (e ∷ l) = elim (Option-cases (last l)) [
    | inl h ↦ rw (last-pairs_of l, h) refl
    | inr (f, h) ↦ rw (last-pairs_of l, h) refl
  ]

  -- The element that the map leads to.
  Found : String → Lru V → Entry V → Type 0
  Found k c e =
      (get k c.items ≡ some e.id)
      × (at_id e.id c.evict_list ≡ some e)
      × (e.key ≡ k)
      × (get k (pairs_of c.evict_list) ≡ some e.value)
      × (id_of k c.evict_list ≡ some e.id)

  lookup :
      (k : String) (c : Lru V)
      → Linked c
      → ((get k c.items ≡ none) × (get k (pairs_of c.evict_list) ≡ none))
        ⊎ ((e : Entry V) × Found k c e)
  unfolding Found
  lookup k c (distinct, mapped, _) = elim (Option-cases (get k c.items)) [
    | inl h ↦ inl (h, id_of-none k c.evict_list (sym (mapped k) ∙ h))
    | inr (i, h) ↦
        let found : id_of k c.evict_list ≡ some i = sym (mapped k) ∙ h in
        let (e, at, named, id, value) = id_of-at k i c.evict_list distinct found in
        inr (e, (h ∙ ap some (sym id), rw id at, named, value, found ∙ ap some (sym id)))
  ]

  Found-value :
      (k : String) (c : Lru V) (e : Entry V)
      → Found k c e
      → get k (pairs_of c.evict_list) ≡ some e.value
  unfolding Found
  Found-value k c e (_, _, _, value, _) = value

  Found-items : (k : String) (c : Lru V) (e : Entry V) → Found k c e → get k c.items ≡ some e.id
  unfolding Found
  Found-items k c e (h, _, _, _, _) = h

  Found-at : (k : String) (c : Lru V) (e : Entry V) → Found k c e → at_id e.id c.evict_list ≡ some e
  unfolding Found
  Found-at k c e (_, at, _, _, _) = at

  get_value-missing : (k : String) (c : Lru V) → get k c.items ≡ none → get_value k c ≡ (none, c)
  unfolding get_value
  get_value-missing k c h = rw (get_value, h) refl

  moved : Entry V → V → Lru V → Lru V
  moved e v c = record c { evict_list = record e { value = v } ∷ cut e.id c.evict_list }

  get_value-found :
      (k : String) (c : Lru V) (e : Entry V)
      → Found k c e
      → get_value k c ≡ (some e.value, moved e e.value c)
  unfolding Found moved get_value move_to_front
  get_value-found k c e (h, at, _, _, _) = rw (get_value, h, move_to_front, at) refl

  moved-Linked :
      (k : String) (c : Lru V) (e : Entry V) (v : V) → Linked c → Found k c e → Linked (moved e v c)
  unfolding Found moved
  moved-Linked k c e v linked (h, at, named, value, found) =
      front-Linked c k e v linked found named at

  moved-view :
      (k : String) (c : Lru V) (e : Entry V) (v : V)
      → Linked c
      → Found k c e
      → view (moved e v c)
        ≡ record { size = c.size; pairs = (k, v) ∷ del k (pairs_of c.evict_list) }
  unfolding Found moved
  moved-view k c e v (distinct, _, _) (h, at, named, value, found) =
      rw (named, pairs_of-cut k e.id c.evict_list distinct found) refl

  set_front :
      (e : Entry V) (v : V) (l : List (Entry V))
      → write_value e.id v (e ∷ l) ≡ record e { value = v } ∷ l
  unfolding write_value
  set_front e v l = let same : (e.id == e.id) ≡ true = ground arith in rw same refl

  abbrev pushed : String → V → Lru V → Lru V
  pushed k v c = record c {
    evict_list = record { id = c.next; key = k; value = v } ∷ c.evict_list;
    items = put k c.next c.items;
    next = c.next + 1;
  }

  abbrev too_many : Lru V → Bool
  too_many c = ltb c.size (suc (length c.evict_list))

  add-missing :
      (k : String) (v : V) (c : Lru V)
      → get k c.items ≡ none
      → add k v c
        ≡ (too_many c, if too_many c then (remove_oldest (pushed k v c)).1 else pushed k v c)
  unfolding add
  add-missing k v c h = rw (add, h) refl

  add-found :
      (k : String) (v : V) (c : Lru V) (e : Entry V)
      → Found k c e
      → add k v c ≡ (false, moved e v c)
  unfolding Found moved add move_to_front
  add-found k v c e (h, at, _, _, _) =
      rw (add, h, move_to_front, at, set_front e v (cut e.id c.evict_list)) refl

  gets-Refines : (k : String) (c : Lru V) → Linked c → Refines (gets k) c
  unfolding run answer after
  gets-Refines k c linked = elim (lookup k c linked) [
    | inl (h, missing) ↦ rw (get_value-missing k c h, missing) (refl, refl, linked)
    | inr (e, found) ↦
        rw (get_value-found k c e found, Found-value k c e found)
          (refl, moved-view k c e e.value linked found, moved-Linked k c e e.value linked found)
  ]

  contains-Refines : (k : String) (c : Lru V) → Linked c → Refines (contains k) c
  unfolding run answer after
  contains-Refines k c linked = elim (lookup k c linked) [
    | inl (h, missing) ↦ rw (h, missing) (refl, refl, linked)
    | inr (e, found) ↦ rw (Found-items k c e found, Found-value k c e found) (refl, refl, linked)
  ]

  peeks-Refines : (k : String) (c : Lru V) → Linked c → Refines (peeks k) c
  unfolding run answer after peek
  peeks-Refines k c linked = elim (lookup k c linked) [
    | inl (h, missing) ↦ rw (peek, h, missing) (refl, refl, linked)
    | inr (e, found) ↦
        rw (peek, Found-items k c e found, Found-at k c e found, Found-value k c e found)
          (refl, refl, linked)
  ]

  del-none : (k : String) (m : Map V) → get k m ≡ none → del k m ≡ m
  unfolding get del
  del-none k [] h = refl
  del-none k ((j, v) ∷ m) h = ground (arith, del-none k m)

  remove-found :
      (k : String) (c : Lru V) (e : Entry V) → Found k c e → remove k c ≡ (true, remove_element e c)
  unfolding remove
  remove-found k c e found = rw (remove, Found-items k c e found, Found-at k c e found) refl

  remove-missing : (k : String) (c : Lru V) → get k c.items ≡ none → remove k c ≡ (false, c)
  unfolding remove
  remove-missing k c h = rw (remove, h) refl

  remove_element-view :
      (k : String) (c : Lru V) (e : Entry V)
      → Linked c
      → Found k c e
      → view (remove_element e c) ≡ record { size = c.size; pairs = del k (pairs_of c.evict_list) }
  unfolding Found remove_element
  remove_element-view k c e (distinct, _, _) (_, _, _, _, found) =
      rw (pairs_of-cut k e.id c.evict_list distinct found) refl

  Found-Linked :
      (k : String) (c : Lru V) (e : Entry V) → Linked c → Found k c e → Linked (remove_element e c)
  unfolding Found
  Found-Linked k c e linked (_, _, named, _, found) = remove_element-Linked c k e linked found named

  removes-Refines : (k : String) (c : Lru V) → Linked c → Refines (removes k) c
  unfolding run answer after
  removes-Refines k c linked = elim (lookup k c linked) [
    | inl (h, missing) ↦
        rw (remove-missing k c h, missing)
          (refl, rw (del-none k (pairs_of c.evict_list) missing) refl, linked)
    | inr (e, found) ↦
        rw (remove-found k c e found, Found-value k c e found)
          (refl, remove_element-view k c e linked found, Found-Linked k c e linked found)
  ]

  -- The oldest element is found by its key.
  last-Found : (c : Lru V) (e : Entry V) → Linked c → last c.evict_list ≡ some e → Found e.key c e
  unfolding Found
  last-Found c e (distinct, mapped, old) h =
      let (found, at) = last-at c.evict_list e distinct h in
      let (d, at_d, _, _, value) = id_of-at e.key e.id c.evict_list distinct found in
      let same : e ≡ d = some-injective e d (sym at ∙ at_d) in
      (mapped e.key ∙ found, at, refl, value ∙ ap (λ x. some x.value) (sym same), found)

  abbrev Drops : Lru V → Type 0
  Drops c =
      ((remove_oldest c).0 ≡ last (pairs_of c.evict_list))
      × (view (remove_oldest c).1 ≡ drop_oldest (view c))
      × Linked (remove_oldest c).1

  remove_oldest-Drops : (c : Lru V) → Linked c → Drops c
  unfolding remove_oldest
  remove_oldest-Drops c linked = elim (Option-cases (last c.evict_list)) [
    | inl h ↦ rw (remove_oldest, last-pairs_of c.evict_list, h) (refl, refl, linked)
    | inr (e, h) ↦
        let found = last-Found c e linked h in
        rw (remove_oldest, last-pairs_of c.evict_list, h)
          (refl, remove_element-view e.key c e linked found, Found-Linked e.key c e linked found)
  ]

  removes_oldest-Refines : (c : Lru V) → Linked c → Refines removes_oldest c
  unfolding run answer after
  removes_oldest-Refines c linked =
      let (given, seen, kept) = remove_oldest-Drops c linked in (ap entry_of given, seen, kept)

  length-pairs_of : (l : List (Entry V)) → length (pairs_of l) ≡ length l
  length-pairs_of [] = refl
  length-pairs_of (e ∷ l) = ap suc (length-pairs_of l)

  oldest_first-pairs_of : (l : List (Entry V)) → oldest_first (pairs_of l) ≡ key_names l
  unfolding key_names
  oldest_first-pairs_of [] = refl
  oldest_first-pairs_of (e ∷ l) = ap (λ x. x ++ (e.key ∷ [])) (oldest_first-pairs_of l)

  gets_oldest-Refines : (c : Lru V) → Linked c → Refines gets_oldest c
  unfolding run answer after
  gets_oldest-Refines c linked = elim (Option-cases (last c.evict_list)) [
    | inl h ↦ rw (last-pairs_of c.evict_list, h) (refl, refl, linked)
    | inr (e, h) ↦ rw (last-pairs_of c.evict_list, h) (refl, refl, linked)
  ]

  remove_times-Linked :
      (n : ℕ) (c : Lru V)
      → Linked c
      → (view (remove_times n c) ≡ drop_times n (view c)) × Linked (remove_times n c)
  unfolding remove_times drop_times
  remove_times-Linked zero c linked = (refl, linked)
  remove_times-Linked (suc n) c linked =
      let (_, seen, kept) = remove_oldest-Drops c linked in
      let (more, done) = remove_times-Linked n (remove_oldest c).1 kept in
      (more ∙ ap (drop_times n) seen, done)

  abbrev resized : ℕ → Recency V → Recency V
  resized size m = record m { size = size }

  resizes-Refines : (size : ℕ) (c : Lru V) → Linked c → Refines (resizes size) c
  unfolding run answer after resize
  resizes-Refines size c linked =
      let (seen, kept) = remove_times-Linked (length c.evict_list - size) c linked in
      (
        ap (λ n. count (n - size)) (sym (length-pairs_of c.evict_list)),
        ap (resized size)
            (seen ∙ ap (λ n. drop_times (n - size) (view c)) (sym (length-pairs_of c.evict_list))),
        kept,
      )

  adds-Refines : (k : String) (v : V) (c : Lru V) → Linked c → Refines (adds k v) c
  unfolding run answer after
  adds-Refines k v c linked = elim (lookup k c linked) [
    | inr (e, found) ↦
        rw (add-found k v c e found, Found-value k c e found)
          (refl, moved-view k c e v linked found, moved-Linked k c e v linked found)
    | inl (h, missing) ↦
        let kept = push-Linked c k v linked h in
        let (_, seen, left) = remove_oldest-Drops (pushed k v c) kept in
        elim (Bool-cases (too_many c)) [
          | inl full ↦
              rw (add-missing k v c h, missing, length-pairs_of c.evict_list, full)
                (refl, seen, left)
          | inr room ↦
              rw (add-missing k v c h, missing, length-pairs_of c.evict_list, room)
                (refl, refl, kept)
        ]
  ]

  run-Refines : (call : Call V) (c : Lru V) → Linked c → Refines call c
  unfolding run answer after purge get id_of
  run-Refines (adds k v) c linked = adds-Refines k v c linked
  run-Refines (gets k) c linked = gets-Refines k c linked
  run-Refines (contains k) c linked = contains-Refines k c linked
  run-Refines (peeks k) c linked = peeks-Refines k c linked
  run-Refines (removes k) c linked = removes-Refines k c linked
  run-Refines removes_oldest c linked = removes_oldest-Refines c linked
  run-Refines gets_oldest c linked = gets_oldest-Refines c linked
  run-Refines lists_keys c linked =
      (ap key_list (sym (oldest_first-pairs_of c.evict_list)), refl, linked)
  run-Refines counts c linked = (ap count (sym (length-pairs_of c.evict_list)), refl, linked)
  run-Refines purges c linked = (refl, refl, (tt, (λ k. refl), tt))
  run-Refines (resizes size) c linked = resizes-Refines size c linked

  new_lru-Linked : (size : ℕ) (c : Lru V) → c ≡ new_lru size → Linked c
  unfolding new_lru get id_of
  new_lru-Linked size c h = rw h (tt, (λ k. refl), tt)

  replies-from :
      (calls : List (Call V)) (c : Lru V) → Linked c → replies calls c ≡ answers calls (view c)
  unfolding replies answers
  replies-from [] c linked = refl
  replies-from (call ∷ calls) c linked =
      let (given, seen, kept) = run-Refines call c linked in
      let rest = replies-from calls (run call c).1 kept in
      ap₂ (λ x xs. x ∷ xs) given (rest ∙ ap (answers calls) seen)

  -- The cache, with its list of elements and its map to them, behaves as a plain list of at most `size`
  -- pairs ordered by their last use: whatever calls are made on a new cache, they return what the
  -- list of recent uses answers.
  pub replies-Refines :
      (size : ℕ) (calls : List (Call V)) → replies calls (new_lru size) ≡ answers calls (empty size)
  unfolding new_lru
  replies-Refines size calls =
      replies-from calls (new_lru size) (new_lru-Linked size (new_lru size) refl)

  run_all-view :
      (calls : List (Call V)) (c : Lru V)
      → Linked c
      → view (run_all calls c) ≡ after_all calls (view c)
  unfolding run_all after_all
  run_all-view [] c linked = refl
  run_all-view (call ∷ calls) c linked =
      let (_, seen, kept) = run-Refines call c linked in
      run_all-view calls (run call c).1 kept ∙ ap (after_all calls) seen

  -- A cache never holds more entries than its size, whatever calls were made on it since it was new,
  -- a change of its size included.
  run_all-le :
      (size : ℕ) (calls : List (Call V))
      → let c = run_all calls (new_lru size) in length c.evict_list ≤ c.size
  unfolding new_lru
  run_all-le size calls =
      let same = run_all-view calls (new_lru size) (new_lru-Linked size (new_lru size) refl) in
      let le = after_all-le calls (empty size) (omega arith) in
      let lengths = ap (λ m. length m.pairs) same in
      let sizes = ap (λ m. m.size) same in
      let seen = length-pairs_of (run_all calls (new_lru {V = V} size)).evict_list in omega arith
