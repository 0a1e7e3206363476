-- ===== src/Utils/Lru/Bounded.antt =====
-- The list of recent uses is never longer than its size.
use formicary.Common.{
  String, ℕ, zero, suc, ◌≡◌, ◌≤◌, ◌<◌, ◌-◌, refl, ap, ◌∙◌, true, arith, List, [], ◌∷◌, Option, none,
  some, is_some, str_eq, str_eq_refl, ltb, Map, get, del, length, length-del-le, Bool-cases,
  Option-cases, inl, inr,
}
use formicary.Utils.Lru.{
  Call, adds, gets, contains, peeks, removes, removes_oldest, gets_oldest, lists_keys, counts,
  purges, resizes, last,
}
use formicary.Utils.Lru.Recency.{
  Recency, after, after_all, drop_times, drop_oldest, without, use_again,
}

module _ {V : Type 0} where
  last-get : (m : Map V) (k : String) (v : V) → last m ≡ some (k, v) → is_some (get k m) ≡ true
  unfolding get
  last-get [] k v h = absurd (cc h)
  last-get ((j, w) ∷ m) k v h = elim (Option-cases (last m)) [
    | inl end ↦
        let same : j ≡ k = ap (λ o. name_of o j) (rw (end) at h) in rw (same, str_eq_refl k) refl
    | inr (e, more) ↦
        let rest = last-get m k v (more ∙ (rw (more) at h)) in
        elim (Bool-cases (str_eq j k)) [ inl hit ↦ rw hit refl | inr miss ↦ rw miss rest ]
  ]
    where
      name_of : Option (String × V) → String → String
      name_of none j = j
      name_of (some (k, _)) j = k

  length-del-lt : (k : String) (m : Map V) → is_some (get k m) ≡ true → length (del k m) < length m
  unfolding get del
  length-del-lt k [] h = absurd (cc h)
  length-del-lt k ((j, w) ∷ m) h = ground (arith, length-del-lt k m, length-del-le k m)

  last-none : (m : Map V) → last m ≡ none → length m ≡ 0
  last-none [] h = refl
  last-none (x ∷ m) h = elim (Option-cases (last m)) [
    | inl e ↦ absurd (cc (rw (e) at h))
    | inr (y, e) ↦ absurd (cc (rw (e) at h))
  ]

  without-size : (o : Option (String × V)) (m : Recency V) → (without o m).size ≡ m.size
  without-size none m = refl
  without-size (some (k, v)) m = refl

  use_again-size : (k : String) (o : Option V) (m : Recency V) → (use_again k o m).size ≡ m.size
  use_again-size k none m = refl
  use_again-size k (some v) m = refl

  drop_oldest-le : (m : Recency V) → length (drop_oldest m).pairs ≤ length m.pairs - 1
  drop_oldest-le m = elim (Option-cases (last m.pairs)) [
    | inl none_left ↦ rw none_left (let e = last-none m.pairs none_left in omega arith)
    | inr ((k, v), h) ↦
        let less = length-del-lt k m.pairs (last-get m.pairs k v h) in rw h (omega arith)
  ]

  drop_times-le : (n : ℕ) (m : Recency V) → length (drop_times n m).pairs ≤ length m.pairs - n
  unfolding drop_times
  drop_times-le zero m = omega arith
  drop_times-le (suc n) m =
      let first = drop_oldest-le m in let rest = drop_times-le n (drop_oldest m) in omega arith

  use_again-le :
      (k : String) (m : Recency V) → length (use_again k (get k m.pairs) m).pairs ≤ length m.pairs
  use_again-le k m = elim (Option-cases (get k m.pairs)) [
    | inl h ↦ rw h (omega arith)
    | inr (v, h) ↦ let less = length-del-lt k m.pairs (rw h refl) in rw h (omega arith)
  ]

  after-le :
      (call : Call V) (m : Recency V)
      → length m.pairs ≤ m.size
      → length (after call m).pairs ≤ (after call m).size
  unfolding after
  after-le (adds k v) m le = elim (Bool-cases (is_some (get k m.pairs))) [
    | inl held ↦ let less = length-del-lt k m.pairs held in rw held (omega arith)
    | inr new ↦
        let full : Recency V = record { size = m.size; pairs = (k, v) ∷ m.pairs } in
        let less = drop_oldest-le full in
        elim (Bool-cases (ltb m.size (suc (length m.pairs)))) [
          | inl over ↦ rw (new, over, without-size (last full.pairs) full) (omega arith)
          | inr room ↦ rw (new, room) (ground arith)
        ]
  ]
  after-le (gets k) m le =
      let used = use_again-le k m in rw (use_again-size k (get k m.pairs) m) (omega arith)
  after-le (removes k) m le = let less = length-del-le k m.pairs in omega arith
  after-le removes_oldest m le =
      let less = drop_oldest-le m in rw (without-size (last m.pairs) m) (omega arith)
  after-le purges m le = omega arith
  after-le (resizes size) m le = let less = drop_times-le (length m.pairs - size) m in omega arith
  after-le (contains k) m le = le
  after-le (peeks k) m le = le
  after-le gets_oldest m le = le
  after-le lists_keys m le = le
  after-le counts m le = le

  pub after_all-le :
      (calls : List (Call V)) (m : Recency V)
      → length m.pairs ≤ m.size
      → length (after_all calls m).pairs ≤ (after_all calls m).size
  unfolding after_all
  after_all-le [] m le = le
  after_all-le (call ∷ calls) m le = after_all-le calls (after call m) (after-le call m le)
