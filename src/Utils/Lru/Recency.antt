-- ===== src/Utils/Lru/Recency.antt =====
-- What the cache promises: at most `size` pairs of a key and a value, listed from the newest use to the
-- oldest. No identities, no map.
use formicary.Common.{
  String, ℕ, zero, suc, ◌-◌, ◌==◌, false, List, [], ◌∷◌, ◌++◌, Option, none, some, is_some,
  if◌then◌else◌, ltb, Map, get, del, length,
}
use formicary.Utils.Lru.{
  Call, Answer, adds, gets, contains, peeks, removes, removes_oldest, gets_oldest, lists_keys,
  counts, purges, resizes, flag, value_of, entry_of, key_list, count, nothing, last,
}

pub record Recency (V : Type 0) : Type 0 where
  pub size : ℕ
  pub pairs : Map V

module _ {V : Type 0} where
  -- The pair goes to the front.
  abbrev pub use_again : String → Option V → Recency V → Recency V
  use_again k none m = m
  use_again k (some v) m = record m { pairs = (k, v) ∷ del k m.pairs }

  abbrev pub without : Option (String × V) → Recency V → Recency V
  without none m = m
  without (some (k, v)) m = record m { pairs = del k m.pairs }

  abbrev pub drop_oldest : Recency V → Recency V
  drop_oldest m = without (last m.pairs) m

  unfoldable pub drop_times : ℕ → Recency V → Recency V
  drop_times zero m = m
  drop_times (suc n) m = drop_times n (drop_oldest m)

  abbrev pub oldest_first : Map V → List String
  oldest_first [] = []
  oldest_first ((k, v) ∷ m) = oldest_first m ++ (k ∷ [])

  unfoldable pub answer : Call V → Recency V → Answer V
  answer (adds k v) m =
      flag (if is_some (get k m.pairs) then false else ltb m.size (suc (length m.pairs)))
  answer (gets k) m = value_of (get k m.pairs)
  answer (contains k) m = flag (is_some (get k m.pairs))
  answer (peeks k) m = value_of (get k m.pairs)
  answer (removes k) m = flag (is_some (get k m.pairs))
  answer removes_oldest m = entry_of (last m.pairs)
  answer gets_oldest m = entry_of (last m.pairs)
  answer lists_keys m = key_list (oldest_first m.pairs)
  answer counts m = count (length m.pairs)
  answer purges m = nothing
  answer (resizes size) m = count (length m.pairs - size)

  unfoldable pub after : Call V → Recency V → Recency V
  unfolding drop_times
  after (adds k v) m =
      let pushed = record m { pairs = (k, v) ∷ m.pairs } in
      if is_some (get k m.pairs)
      then record m { pairs = (k, v) ∷ del k m.pairs }
      else if ltb m.size (length pushed.pairs)
      then drop_oldest pushed
      else pushed
  after (gets k) m = use_again k (get k m.pairs) m
  after (removes k) m = record m { pairs = del k m.pairs }
  after removes_oldest m = drop_oldest m
  after purges m = record m { pairs = [] }
  after (resizes size) m = record (drop_times (length m.pairs - size) m) { size = size }
  after _ m = m

  abbrev pub empty : ℕ → Recency V
  empty size = record { size = if size == 0 then 10000 else size; pairs = [] }

  unfoldable pub answers : List (Call V) → Recency V → List (Answer V)
  answers [] m = []
  answers (call ∷ calls) m = answer call m ∷ answers calls (after call m)

  unfoldable pub after_all : List (Call V) → Recency V → Recency V
  after_all [] m = m
  after_all (call ∷ calls) m = after_all calls (after call m)
