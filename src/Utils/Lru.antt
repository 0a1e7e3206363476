-- ===== src/Utils/Lru.antt =====
-- internal/utils/lru.go. The cache has a linked list of elements, the newest first, and a map from a key
-- to its element. An element is an entry with an identity, so that the map leads to an element by
-- its identity as the pointers of the source do. `next` is the identity of the next new element, and
-- `evicted` what the callback was called with, the latest last. Sizes and differences are natural.
pub mod Recency
pub mod Linked
pub mod Moves
pub mod Bounded
pub mod Refines
use formicary.Common.{
  String, ℕ, zero, suc, ◌+◌, ◌-◌, ◌==◌, Bool, true, false, List, [], ◌∷◌, ◌++◌, map, Option, none,
  some, is_some, str_eq, if◌then◌else◌, ltb, Map, get, put, del, length,
}

pub record Entry (V : Type 0) : Type 0 where
  pub id : ℕ
  pub key : String
  pub value : V

pub record Lru (V : Type 0) : Type 0 where
  pub size : ℕ
  pub evict_list : List (Entry V)
  pub items : Map ℕ
  pub next : ℕ
  pub evicted : List (String × V)

-- The calls of the cache, and what they return.
pub data Call (V : Type 0) : Type 0 where
  adds : String → V → Call V
  gets contains peeks removes : String → Call V
  removes_oldest gets_oldest lists_keys counts purges : Call V
  resizes : ℕ → Call V

pub data Answer (V : Type 0) : Type 0 where
  flag : Bool → Answer V
  value_of : Option V → Answer V
  entry_of : Option (String × V) → Answer V
  key_list : List String → Answer V
  count : ℕ → Answer V
  nothing : Answer V

abbrev pub last {ℓ} : {A : Type ℓ} → List A → Option A
last [] = none
last (x ∷ xs) = elim (last xs) [ none ↦ some x | some y ↦ some y ]

module _ {V : Type 0} where
  -- The element with the identity.
  unfoldable pub at_id : ℕ → List (Entry V) → Option (Entry V)
  at_id i [] = none
  at_id i (e ∷ l) = let rest = at_id i l in if e.id == i then some e else rest

  -- The list without that element.
  unfoldable pub cut : ℕ → List (Entry V) → List (Entry V)
  cut i [] = []
  cut i (e ∷ l) = let rest = cut i l in if e.id == i then l else e ∷ rest

  unfoldable pub write_value : ℕ → V → List (Entry V) → List (Entry V)
  write_value i v [] = []
  write_value i v (e ∷ l) =
      let rest = write_value i v l in if e.id == i then record e { value = v } ∷ l else e ∷ rest

  -- `MoveToFront` of a list.
  unfoldable pub move_to_front : ℕ → List (Entry V) → List (Entry V)
  move_to_front i l = elim (at_id i l) [ none ↦ l | some e ↦ e ∷ cut i l ]

  -- `NewLRU`
  unfoldable pub new_lru : ℕ → Lru V
  new_lru size = record {
    size = if size == 0 then 10000 else size;
    evict_list = [];
    items = [];
    next = 0;
    evicted = [];
  }

  abbrev pub pair_of : Entry V → String × V
  pair_of e = (e.key, e.value)

  -- `removeElement`
  unfoldable pub remove_element : Entry V → Lru V → Lru V
  remove_element e c = record c {
    evict_list = cut e.id c.evict_list;
    items = del e.key c.items;
    evicted = c.evicted ++ (pair_of e ∷ []);
  }

  -- `RemoveOldest`, with the entry that it returns, and `removeOldest`.
  unfoldable pub remove_oldest : Lru V → Option (String × V) × Lru V
  unfolding remove_element
  remove_oldest c = elim (last c.evict_list) [
    | none ↦ (none, c)
    | some e ↦ (some (pair_of e), remove_element e c)
  ]

  -- `Add`
  unfoldable pub add : String → V → Lru V → Bool × Lru V
  unfolding move_to_front write_value remove_oldest
  add key value c = elim (get key c.items) [
    | some i ↦ (false, record c { evict_list = write_value i value (move_to_front i c.evict_list) })
    | none ↦
        let e : Entry V = record { id = c.next; key = key; value = value } in
        let pushed : Lru V = record c {
          evict_list = e ∷ c.evict_list;
          items = put key c.next c.items;
          next = c.next + 1;
        } in
        let evict = ltb c.size (length pushed.evict_list) in
        (evict, if evict then (remove_oldest pushed).1 else pushed)
  ]

  -- The value at an element.
  abbrev pub read : Option (Entry V) → Option V
  read none = none
  read (some e) = some e.value

  -- `Get`
  unfoldable pub get_value : String → Lru V → Option V × Lru V
  unfolding move_to_front
  get_value key c = elim (get key c.items) [
    | none ↦ (none, c)
    | some i ↦ (read (at_id i c.evict_list), record c { evict_list = move_to_front i c.evict_list })
  ]

  -- `Peek`
  unfoldable pub peek : String → Lru V → Option V
  peek key c = elim (get key c.items) [ none ↦ none | some i ↦ read (at_id i c.evict_list) ]

  -- `Remove`; the map leads to elements of the list only.
  unfoldable pub remove : String → Lru V → Bool × Lru V
  unfolding remove_element
  remove key c = elim (get key c.items) [
    | none ↦ (false, c)
    | some i ↦ elim (at_id i c.evict_list) [
      | none ↦ (true, c)
      | some e ↦ (true, remove_element e c)
    ]
  ]

  -- `Keys`, from the oldest to the newest.
  unfoldable pub key_names : List (Entry V) → List String
  key_names [] = []
  key_names (e ∷ l) = key_names l ++ (e.key ∷ [])

  unfoldable pub remove_times : ℕ → Lru V → Lru V
  unfolding remove_oldest
  remove_times zero c = c
  remove_times (suc n) c = remove_times n (remove_oldest c).1

  -- `Resize`
  unfoldable pub resize : ℕ → Lru V → ℕ × Lru V
  unfolding remove_times
  resize size c =
      let diff = length c.evict_list - size in (diff, record (remove_times diff c) { size = size })

  -- `Purge`; the callback is called in the order of the map.
  unfoldable pub purge_entries : Map ℕ → List (Entry V) → List (String × V)
  purge_entries [] l = []
  purge_entries ((k, i) ∷ items) l =
      let rest = purge_entries items l in
      elim (at_id i l) [ none ↦ rest | some e ↦ (k, e.value) ∷ rest ]

  unfoldable pub purge : Lru V → Lru V
  unfolding purge_entries
  purge c = record c {
    evict_list = [];
    items = [];
    evicted = c.evicted ++ purge_entries c.items c.evict_list;
  }

  unfoldable pub run : Call V → Lru V → Answer V × Lru V
  run (adds k v) c = let (evict, d) = add k v c in (flag evict, d)
  run (gets k) c = let (v, d) = get_value k c in (value_of v, d)
  run (contains k) c = (flag (is_some (get k c.items)), c)
  run (peeks k) c = (value_of (peek k c), c)
  run (removes k) c = let (present, d) = remove k c in (flag present, d)
  run removes_oldest c = let (oldest, d) = remove_oldest c in (entry_of oldest, d)
  run gets_oldest c =
      (entry_of (elim (last c.evict_list) [ none ↦ none | some e ↦ some (pair_of e) ]), c)
  run lists_keys c = (key_list (key_names c.evict_list), c)
  run counts c = (count (length c.evict_list), c)
  run purges c = (nothing, purge c)
  run (resizes size) c = let (diff, d) = resize size c in (count diff, d)

  -- The answers to a list of calls, and the cache after them.
  unfoldable pub replies : List (Call V) → Lru V → List (Answer V)
  replies [] c = []
  replies (call ∷ calls) c = let (a, d) = run call c in a ∷ replies calls d

  unfoldable pub run_all : List (Call V) → Lru V → Lru V
  run_all [] c = c
  run_all (call ∷ calls) c = run_all calls (run call c).1
