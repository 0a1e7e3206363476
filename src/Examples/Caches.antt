-- ===== src/Examples/Caches.antt =====
-- Calls of a cache of two entries, at which the theorems on the cache are applied.
use formicary.Common.{◌≡◌, ℕ, List, [], ◌∷◌}
use formicary.Utils.Lru.{Call, adds, gets, contains, lists_keys, new_lru, replies}
use formicary.Utils.Lru.Recency.{answers, empty}
use formicary.Utils.Lru.Refines.{replies-Refines}

abbrev calls : List (Call ℕ)
calls = adds "a" 1 ∷ adds "b" 2 ∷ gets "a" ∷ adds "c" 3 ∷ contains "b" ∷ lists_keys ∷ []

replies-Refines_example : replies calls (new_lru 2) ≡ answers calls (empty 2)
replies-Refines_example = replies-Refines 2 calls
