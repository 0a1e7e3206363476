-- ===== src/Manager/Cascade/Closed.antt =====
-- The cascade leaves out no child of a request that it visits.
use formicary.Common.{
  String, ℕ, zero, suc, ◌≤◌, ◌≡◌, ◌==◌, ◌⊎◌, inl, inr, refl, sym, ◌∙◌, subst, arith, Bool, true,
  false, ◌&&◌, ◌||◌, leb, leb→le, List, [], ◌∷◌, ◌++◌, Option, some, str_eq, str_eq_iff,
  str_eq_refl, any, All, length, Bool-cases, Option-cases, and-true, some-injective, ==_iff,
}
use formicary.Manager.{
  Child, Visit, seen, max_depth, visit_children, cascade_cancel, cascade_cancel_to_children,
}
use formicary.Manager.Cascade.{
  Descends, itself, IsOnce, Within, Going, unseen, visit_children_ind, cascade_cancel-ends,
}

-- The item is in the queue.
abbrev queued_in : String → ℕ → List (String × ℕ) → Bool
queued_in id depth queue = any (λ w. str_eq w.0 id && w.1 == depth) queue

or_right : (a b : Bool) → b ≡ true → (a || b) ≡ true
or_right true b h = refl
or_right false b h = h

any-append :
    {A : Type 0} (p : A → Bool) (xs ys : List A) → any p xs ≡ true → any p (xs ++ ys) ≡ true
any-append p [] ys h = absurd (cc h)
any-append p (x ∷ xs) ys h = elim (Bool-cases (p x)) [
  | inl here ↦ rw (here) refl
  | inr there ↦ rw (there) (any-append p xs ys (rw (there) at h))
]

any-snoc :
    {A : Type 0} (p : A → Bool) (xs : List A) (y : A) → p y ≡ true → any p (xs ++ y ∷ []) ≡ true
any-snoc p [] y h = rw (h) refl
any-snoc p (x ∷ xs) y h = elim (Bool-cases (p x)) [
  | inl here ↦ rw (here) refl
  | inr there ↦ rw (there) (any-snoc p xs y h)
]

All-map :
    {A : Type 0} {P Q : A → Type 0} (xs : List A) → ((x : A) → P x → Q x) → All P xs → All Q xs
All-map [] f h = tt
All-map (x ∷ xs) f (p, h) = (f x p, All-map xs f h)

unseen-nil : (ids : List String) → unseen ids [] ≤ length ids
unseen-nil [] = omega arith
unseen-nil (i ∷ ids) = omega (arith, unseen-nil ids)

module _ (find : String → Option (List Child)) where
  -- Every child of the request has been visited.
  abbrev pub HasSeen : String → List Visit → Type 0
  HasSeen id done =
      (children : List Child)
      → find id ≡ some children
      → (c : String) → any (λ x. str_eq x.id c) children ≡ true
      → seen c done ≡ true

  -- The item waits in the queue, is too deep, or its children have been visited.
  abbrev Handled : String → ℕ → List (String × ℕ) → List Visit → Type 0
  Handled id depth queue done =
      (queued_in id depth queue ≡ true) ⊎ ((max_depth ≤ depth) ⊎ HasSeen id done)

  -- What becomes of an item when the head of the queue has been dealt with.
  Handled-next :
      (parent : String) (dep : ℕ) (queue longer : List (String × ℕ)) (done more : List Visit)
      → (max_depth ≤ dep) ⊎ HasSeen parent more
      → ((id : String) (depth : ℕ)
          → queued_in id depth queue ≡ true
          → queued_in id depth longer ≡ true)
      → ((id : String) → seen id done ≡ true → seen id more ≡ true)
      → (id : String) (depth : ℕ) → Handled id depth ((parent, dep) ∷ queue) done
      → Handled id depth longer more
  Handled-next parent dep queue longer done more head stays kept id depth (inr (inl deep)) =
      inr (inl deep)
  Handled-next parent dep queue longer done more head stays kept id depth (inr (inr have)) =
      inr (inr (λ children found c listed. kept c (have children found c listed)))
  Handled-next parent dep queue longer done more head stays kept id depth (inl waits) =
      elim (Bool-cases (str_eq parent id && dep == depth)) [
        | inr other ↦ inl (stays id depth (rw (other) at waits))
        | inl this ↦
            let (a, b) = and-true _ _ this in
            let same = (str_eq_iff parent id).0 a in
            let level = (==_iff dep depth).0 b in
            inr (elim head [
              | inl deep ↦ inl (subst (λ n. max_depth ≤ n) level deep)
              | inr have ↦ inr (subst (λ k. HasSeen k more) same have)
            ])
      ]

  visit_children-keeps :
      (id : String) (depth : ℕ) (children : List Child) (queue : List (String × ℕ))
      (done : List Visit)
      → seen id done ≡ true
      → seen id (visit_children depth children queue done).1 ≡ true
  visit_children-keeps id depth children queue done h =
      visit_children_ind (λ q d. seen id d ≡ true) depth children
        (λ c q d listed new r. or_right (str_eq c.id id) (seen id d) r) queue done h

  visit_children-seen :
      (depth : ℕ) (children : List Child) (queue : List (String × ℕ)) (done : List Visit)
      (c : String)
      → any (λ x. str_eq x.id c) children ≡ true
      → seen c (visit_children depth children queue done).1 ≡ true
  unfolding visit_children
  visit_children-seen depth [] queue done c listed = absurd (cc listed)
  visit_children-seen depth (x ∷ xs) queue done c listed = elim (Bool-cases (str_eq x.id c)) [
    | inr other ↦
        let later = rw (other) at listed in
        elim (Bool-cases (seen x.id done)) [
          | inl known ↦ rw (visit_children, known) (visit_children-seen depth xs queue done c later)
          | inr new ↦ rw (visit_children, new) (visit_children-seen depth xs _ _ c later)
        ]
    | inl this ↦
        let same = (str_eq_iff x.id c).0 this in
        elim (Bool-cases (seen x.id done)) [
          | inl known ↦
              rw (visit_children, known)
                (visit_children-keeps c depth xs queue done
                  (subst (λ k. seen k done ≡ true) same known))
          | inr new ↦
              rw (visit_children, new) (visit_children-keeps c depth xs _ _ (rw (this) refl))
        ]
  ]

  -- The queue only grows, and a new visit is in it.
  record Grown (queue : List (String × ℕ)) (old : Visit → Type 0) (longer : List (String × ℕ))
      (more : List Visit) : Type 0 where
    stays :
        (id : String) (depth : ℕ)
        → queued_in id depth queue ≡ true
        → queued_in id depth longer ≡ true
    visited : All (λ v. (queued_in v.id v.depth longer ≡ true) ⊎ old v) more

  visit_children-Grown :
      (depth : ℕ) (children : List Child) (queue : List (String × ℕ)) (done : List Visit)
      (old : Visit → Type 0)
      → All old done
      → let (longer, more) = visit_children depth children queue done in Grown queue old longer more
  visit_children-Grown depth children queue done old h =
      visit_children_ind (Grown queue old) depth children
        (λ c q d listed new g.
          let item : String × ℕ = (c.id, suc depth) in
          let both : (str_eq c.id c.id && suc depth == suc depth) ≡ true =
            rw (str_eq_refl c.id, (==_iff (suc depth) (suc depth)).1 refl) refl in
          record {
            stays = λ id n w.
                any-append (λ u. str_eq u.0 id && u.1 == n) q (item ∷ []) (g.stays id n w);
            visited = (
              inl (any-snoc (λ u. str_eq u.0 c.id && u.1 == suc depth) q item both),
              All-map d
                  (λ v o. elim o [
                    | inl w ↦
                        inl (any-append (λ u. str_eq u.0 v.id && u.1 == v.depth) q (item ∷ []) w)
                    | inr p ↦ inr p
                  ])
                  g.visited,
            );
          })
        queue done (record { stays = λ id n w. w; visited = All-map done (λ v p. inr p) h })

  -- All items are handled, the root among them.
  abbrev Closed : String → List (String × ℕ) → List Visit → Type 0
  Closed root queue done =
      Handled root 0 queue done × All (λ v. Handled v.id v.depth queue done) done

  cascade_cancel-Closed :
      (root : String) (fuel : ℕ) (queue : List (String × ℕ)) (done visits : List Visit)
      → cascade_cancel find fuel queue done ≡ some visits
      → Closed root queue done
      → Closed root [] visits
  unfolding cascade_cancel
  cascade_cancel-Closed root zero queue done visits ends h = absurd (cc ends)
  cascade_cancel-Closed root (suc fuel) [] done visits ends h =
      subst (Closed root []) (some-injective done visits ends) h
  cascade_cancel-Closed root (suc fuel) ((parent, dep) ∷ queue) done visits ends (start, all) =
      elim (Bool-cases (leb max_depth dep)) [
        | inl deep ↦
            let next =
              Handled-next parent dep queue queue done done (inl (leb→le max_depth dep deep))
                (λ id n w. w) (λ id s. s) in
            cascade_cancel-Closed root fuel queue done visits (rw (cascade_cancel, deep) at ends)
              (next root 0 start, All-map done (λ v p. next v.id v.depth p) all)
        | inr shallow ↦ elim (Option-cases (find parent)) [
          | inl fails ↦
              let next =
                Handled-next parent dep queue queue done done
                  (inr (λ cs found c listed. absurd (cc (fails, found)))) (λ id n w. w)
                  (λ id s. s) in
              cascade_cancel-Closed root fuel queue done visits
                (rw (cascade_cancel, shallow, fails) at ends)
                (next root 0 start, All-map done (λ v p. next v.id v.depth p) all)
          | inr (children, found) ↦
              let (longer, more) = visit_children dep children queue done in
              let grown =
                visit_children-Grown dep children queue done
                  (λ v. Handled v.id v.depth ((parent, dep) ∷ queue) done) all in
              let have : HasSeen parent more = λ cs found' c listed.
                visit_children-seen dep children queue done c (
                  subst (λ l. any (λ x. str_eq x.id c) l ≡ true)
                    (some-injective cs children (sym found' ∙ found)) listed) in
              let next =
                Handled-next parent dep queue longer done more (inr have) grown.stays
                  (λ id s. visit_children-keeps id dep children queue done s) in
              cascade_cancel-Closed root fuel longer more visits
                (rw (cascade_cancel, shallow, found) at ends)
                (
                  next root 0 start,
                  All-map more (λ v o. elim o [ inl w ↦ inl w | inr p ↦ next v.id v.depth p ])
                      grown.visited,
                )
        ]
      ]

  -- The cascade ends, when every child that is found is one of some ids, on fuel for each of them
  -- and two more. It visits descendants of the root only, each once, and it leaves out none: the
  -- children of the root are visited, and those of each visit that is above the greatest depth.
  pub cascade_cancel_to_children-Closed :
      (root : String) (ids : List String)
      → Within find root ids
      → (visits : List Visit) × (cascade_cancel_to_children find (suc (suc (length ids))) root
          ≡ some visits)
        × IsOnce visits
        × All (λ v. Descends find root v.id v.depth) visits
        × HasSeen root visits
        × All (λ v. (max_depth ≤ v.depth) ⊎ HasSeen v.id visits) visits
  unfolding cascade_cancel_to_children
  cascade_cancel_to_children-Closed root ids within =
      let going : Going find root ids (suc (length ids)) ((root, 0) ∷ []) [] = record {
        queued = (itself, tt);
        visited = tt;
        once = tt;
        measure = omega (arith, unseen-nil ids);
      } in
      let (visits, ends, once, descends) =
        cascade_cancel-ends find root ids (suc (length ids)) ((root, 0) ∷ []) [] within going in
      let (start, all) =
        cascade_cancel-Closed root (suc (suc (length ids))) ((root, 0) ∷ []) [] visits ends
          (inl (rw (str_eq_refl root) refl), tt) in
      (
        visits,
        ends,
        once,
        descends,
        elim start [
          | inl waits ↦ absurd (cc waits)
          | inr (inl deep) ↦ absurd (omega (arith, deep))
          | inr (inr have) ↦ have
        ],
        All-map visits (λ v o. elim o [ inl waits ↦ absurd (cc waits) | inr done ↦ done ]) all,
      )
