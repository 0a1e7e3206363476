-- ===== src/Manager/Cascade.antt =====
-- The cascade ends, visits each child once, and visits descendants only.
pub mod Closed
use formicary.Common.{
  String, ℕ, zero, suc, ◌+◌, ◌≤◌, ◌<◌, ◌≡◌, ◌⊎◌, inl, inr, refl, sym, ap, ◌∙◌, subst, arith, Bool,
  true, false, not, ◌&&◌, ◌||◌, leb, List, [], ◌∷◌, ◌++◌, Option, none, some, str_eq, str_eq_iff,
  str_eq_refl, any, keep, All, length, length-append, if◌then◌else◌, Bool-cases, Option-cases,
}
use formicary.Manager.{
  Child, Visit, seen, max_depth, visit_children, cascade_cancel, cascade_cancel_to_children,
  unsupervised,
}

-- How many of the ids have not been visited.
abbrev pub unseen : List String → List Visit → ℕ
unseen ids done = length (keep (λ id. not (seen id done)) ids)

unseen-le :
    (v : Visit) (done : List Visit) (ids : List String) → unseen ids (v ∷ done) ≤ unseen ids done
unseen-le v done [] = omega arith
unseen-le v done (i ∷ ids) = ground (arith, unseen-le v done ids)

-- A visit of an id that had not been visited.
unseen-visit :
    (v : Visit) (done : List Visit) (ids : List String)
    → any (λ i. str_eq v.id i) ids ≡ true
    → seen v.id done ≡ false
    → unseen ids (v ∷ done) + 1 ≤ unseen ids done
unseen-visit v done [] listed new = absurd (cc listed)
unseen-visit v done (i ∷ ids) listed new = elim (Bool-cases (str_eq v.id i)) [
  | inl same ↦
      let fresh : seen i done ≡ false =
        subst (λ k. seen k done ≡ false) ((str_eq_iff v.id i).0 same) new in
      rw (same, fresh) (omega (arith, unseen-le v done ids))
  | inr differs ↦
      let rest = unseen-visit v done ids (rw (differs) at listed) new in
      rw (differs) (split (seen i done) rest)
]
  where
    split :
        (b : Bool)
        → unseen ids (v ∷ done) + 1 ≤ unseen ids done
        → length (
              if not b
              then i ∷ keep (λ j. not (seen j (v ∷ done))) ids
              else keep (λ j. not (seen j (v ∷ done))) ids)
            + 1
          ≤ length (
              if not b
              then i ∷ keep (λ j. not (seen j done)) ids
              else keep (λ j. not (seen j done)) ids)
    split true h = h
    split false h = omega (arith, h)

-- The request is a descendant of the root, of that generation, over requests that are not too deep.
pub data Descends (find : String → Option (List Child)) (root : String) : String → ℕ → Type 0 where
  itself : Descends find root root zero
  child_of :
      {parent : String} {depth : ℕ} {children : List Child} {c : String}
      → Descends find root parent depth
      → depth < max_depth
      → find parent ≡ some children
      → any (λ x. str_eq x.id c) children ≡ true
      → Descends find root c (suc depth)

-- No two visits of one request.
abbrev pub IsOnce : List Visit → Type 0
IsOnce [] = Unit
IsOnce (v ∷ vs) = (seen v.id vs ≡ false) × IsOnce vs

-- A rule for the loop over the children: an invariant that each new visit keeps.
pub visit_children_ind :
    (R : List (String × ℕ) → List Visit → Type 0) (depth : ℕ) (children : List Child)
    → ((c : Child) (queue : List (String × ℕ)) (done : List Visit)
        → any (λ x. str_eq x.id c.id) children ≡ true
        → seen c.id done ≡ false
        → R queue done
        → R
            (queue ++ (c.id, suc depth) ∷ [])
            (record { id = c.id; depth = suc depth; in_row = unsupervised c.job_state } ∷ done))
    → (queue : List (String × ℕ)) (done : List Visit) → R queue done
    → let (longer, more) = visit_children depth children queue done in R longer more
unfolding visit_children
visit_children_ind R depth [] step queue done h = h
visit_children_ind R depth (c ∷ cs) step queue done h =
    let rest =
      visit_children_ind R depth cs
        (λ x q d listed new r. step x q d (either (str_eq c.id x.id) _ listed) new r) in
    elim (Bool-cases (seen c.id done)) [
      | inl known ↦ rw (visit_children, known) (rest queue done h)
      | inr new ↦
          rw (visit_children, new) (rest _ _ (step c queue done (rw (str_eq_refl c.id) refl) new h))
    ]
  where
    either : (a b : Bool) → b ≡ true → (a || b) ≡ true
    either true b h = refl
    either false b h = h

All-snoc :
    {A : Type 0} (P : A → Type 0) (xs : List A) (y : A) → All P xs → P y → All P (xs ++ y ∷ [])
All-snoc P [] y h p = (p, tt)
All-snoc P (x ∷ xs) y (q, h) p = (q, All-snoc P xs y h p)

module _ (find : String → Option (List Child)) (root : String) (ids : List String) where
  -- What holds all along: the queue and the visits are descendants, nothing is visited twice, and
  -- the measure is bounded.
  pub record Going (bound : ℕ) (queue : List (String × ℕ)) (done : List Visit) : Type 0 where
    pub queued : All (λ w. Descends find root w.0 w.1) queue
    pub visited : All (λ v. Descends find root v.id v.depth) done
    pub once : IsOnce done
    pub measure : length queue + unseen ids done ≤ bound

  -- Every child that is found is one of the ids.
  abbrev pub Within : Type 0
  Within =
      (parent : String) (children : List Child)
      → find parent ≡ some children
      → (c : String) → any (λ x. str_eq x.id c) children ≡ true
      → any (λ i. str_eq c i) ids ≡ true

  visit_children-Going :
      (bound : ℕ) (parent : String) (depth : ℕ) (children : List Child) (queue : List (String × ℕ))
      (done : List Visit)
      → Within
      → Descends find root parent depth
      → depth < max_depth
      → find parent ≡ some children
      → Going bound queue done
      → let (longer, more) = visit_children depth children queue done in Going bound longer more
  visit_children-Going bound parent depth children queue done within here shallow found going =
      visit_children_ind (Going bound) depth children
        (λ c q d listed new g.
          let next = child_of here shallow found listed in
          let v : Visit = record {
            id = c.id;
            depth = suc depth;
            in_row = unsupervised c.job_state;
          } in
          let fewer = unseen-visit v d ids (within parent children found c.id listed) new in
          let longer = length-append q ((c.id, suc depth) ∷ []) in
          let bounded = g.measure in
          record {
            queued = All-snoc (λ w. Descends find root w.0 w.1) q (c.id, suc depth) g.queued next;
            visited = (next, g.visited);
            once = (new, g.once);
            measure = omega (arith, fewer, longer, bounded);
          })
        queue done going

  pub cascade_cancel-ends :
      (fuel : ℕ) (queue : List (String × ℕ)) (done : List Visit)
      → Within
      → Going fuel queue done
      → (visits : List Visit) × (cascade_cancel find (suc fuel) queue done ≡ some visits)
        × IsOnce visits
        × All (λ v. Descends find root v.id v.depth) visits
  unfolding cascade_cancel
  cascade_cancel-ends fuel [] done within g = (done, refl, g.once, g.visited)
  cascade_cancel-ends zero ((parent, depth) ∷ queue) done within g =
      let bounded = g.measure in absurd (omega (arith, bounded))
  cascade_cancel-ends (suc fuel) ((parent, depth) ∷ queue) done within g =
      let bounded = g.measure in
      let (here, rest) = g.queued in
      let popped : Going fuel queue done = record {
        queued = rest;
        visited = g.visited;
        once = g.once;
        measure = omega (arith, bounded);
      } in
      elim (Bool-cases (leb max_depth depth)) [
        | inl deep ↦ rw (cascade_cancel, deep) (cascade_cancel-ends fuel queue done within popped)
        | inr shallow ↦ elim (Option-cases (find parent)) [
          | inl fails ↦
              rw (cascade_cancel, shallow, fails)
                (cascade_cancel-ends fuel queue done within popped)
          | inr (children, found) ↦
              let (longer, more) = visit_children depth children queue done in
              rw (cascade_cancel, shallow, found)
                (cascade_cancel-ends fuel longer more within (
                  visit_children-Going fuel parent depth children queue done within here
                    (shallow_enough depth shallow) found popped))
        ]
      ]
    where
      shallow_enough : (depth : ℕ) → leb max_depth depth ≡ false → depth < max_depth
      shallow_enough depth h = ground arith
