-- ===== src/Common/Maps.antt =====
-- A Go map with string keys, as an association list: `m[k]` is `get k m` with `none` for a missing
-- key, `m[k] = v` is `put k v m`, `delete(m, k)` is `del k m`, `len(m)` is `length m`.
use Prim.Native.Nat.{suc, ◌≤◌}
use Prim.Native.String.{String}
use mathlib.Core.Path.{◌≡◌, refl, subst}
use mathlib.Core.Logic.{◌⊎◌, inl, inr}
use mathlib.Core.Bool.{Bool, true, false}
use mathlib.Core.List.{List, [], ◌∷◌, map}
use mathlib.Core.Option.{Option, none, some}
use native.Mathlib.Omega.{arith}
use text.Mathlib.Text.{◌==◌ as str_eq}
use text.Mathlib.TextEquality.{eq_iff as str_eq_iff}
use text.Mathlib.TextPositions.{eq_refl as str_eq_refl}
use formicary.Common.Tests.{if◌then◌else◌, is_some, Bool-cases}
use formicary.Common.Lists.{length}

abbrev pub Map {ℓ} : Type ℓ → Type ℓ
Map V = List (String × V)

module _ {ℓ} {V : Type ℓ} where
  unfoldable pub get : String → Map V → Option V
  get k [] = none
  get k ((j, v) ∷ m) = let rest = get k m in if str_eq j k then some v else rest

  unfoldable pub put : String → V → Map V → Map V
  put k v [] = (k, v) ∷ []
  put k v ((j, w) ∷ m) = let rest = put k v m in if str_eq j k then (k, v) ∷ m else (j, w) ∷ rest

  unfoldable pub del : String → Map V → Map V
  del k [] = []
  del k ((j, w) ∷ m) = let rest = del k m in if str_eq j k then rest else (j, w) ∷ rest

  abbrev pub keys : Map V → List String
  keys = map λ e. e.0

  abbrev pub values : Map V → List V
  values = map λ e. e.1

  pub get-put :
      (k j : String) (v : V) (m : Map V)
      → get j (put k v m) ≡ (if str_eq k j then some v else get j m)
  unfolding get put
  get-put k j v [] = refl
  get-put k j v ((i, w) ∷ m) =
      ground (arith, str_eq_iff k j, str_eq_iff i k, str_eq_iff i j, get-put k j v m)

  pub get-put_self : (k : String) (v : V) (m : Map V) → get k (put k v m) ≡ some v
  get-put_self k v m = rw (get-put k k v m, str_eq_refl k)

  pub get-del :
      (k j : String) (m : Map V) → get j (del k m) ≡ (if str_eq k j then none else get j m)
  unfolding get del
  get-del k j [] = ground arith
  get-del k j ((i, w) ∷ m) =
      ground (arith, str_eq_iff k j, str_eq_iff i k, str_eq_iff i j, get-del k j m)

  pub get-del_self : (k : String) (m : Map V) → get k (del k m) ≡ none
  get-del_self k m = rw (get-del k k m, str_eq_refl k)

  pub length-put :
      (k : String) (v : V) (m : Map V)
      → length (put k v m) ≡ (if is_some (get k m) then length m else suc (length m))
  unfolding get put
  length-put k v [] = refl
  length-put k v ((i, w) ∷ m) = ground (arith, length-put k v m)

  pub length-del-le : (k : String) (m : Map V) → length (del k m) ≤ length m
  unfolding del
  length-del-le k [] = omega arith
  length-del-le k ((i, w) ∷ m) = ground (arith, length-del-le k m)

-- The sets that the program keeps as `map[string]bool`.
abbrev pub KeySet : Type 0
KeySet = Map (Unit {0})

-- A Go map from keys to sets, `map[string]map[string]bool`: the set of a key, empty without one.
abbrev pub set_of : String → Map KeySet → KeySet
set_of k m = elim (get k m) [ none ↦ [] | some ks ↦ ks ]

abbrev pub holds : String → KeySet → Bool
holds k ks = is_some (get k ks)

pub set_of-put :
    (k j : String) (ants : KeySet) (table : Map KeySet)
    → set_of j (put k ants table) ≡ (if str_eq k j then ants else set_of j table)
set_of-put k j ants table = rw (set_of, get-put k j ants table) (split (str_eq k j))
  where
    split :
        (b : Bool)
        → ◌≡◌ {A = KeySet}
            (elim (if b then some ants else get j table) [ none ↦ [] | some v ↦ v ])
            (if b then ants else set_of j table)
    split true = refl
    split false = refl

pub holds-put :
    (k j ant other : String) (table : Map KeySet)
    → holds other (set_of j (put k (put ant tt (set_of k table)) table)) ≡ true
    → (str_eq ant other ≡ true) ⊎ (holds other (set_of j table) ≡ true)
holds-put k j ant other table h = elim (Bool-cases (str_eq k j)) [
  | inr differs ↦ inr (rw (set_of-put k j (put ant tt (set_of k table)) table, differs) at h)
  | inl same ↦ elim (Bool-cases (str_eq ant other)) [
    | inl this ↦ inl this
    | inr that ↦
        let grown : is_some (get other (put ant tt (set_of k table))) ≡ true =
          rw (set_of-put k j (put ant tt (set_of k table)) table, same) at h in
        let old : is_some (get other (set_of k table)) ≡ true =
          rw (get-put ant other tt (set_of k table), that) at grown in
        inr (subst (λ x. holds other (set_of x table) ≡ true) ((str_eq_iff k j).0 same) old)
  ]
]

pub del-holds :
    (ant other : String) (ants : KeySet)
    → holds other (del ant ants) ≡ true
    → (str_eq ant other ≡ false) × (holds other ants ≡ true)
del-holds ant other ants h = elim (Bool-cases (str_eq ant other)) [
  | inl same ↦ absurd (cc (rw (get-del ant other ants, same) at h))
  | inr differs ↦ rw differs (refl, rw (get-del ant other ants, differs) at h)
]

pub ruleset map_laws = (get-put, get-del, str_eq_refl)
