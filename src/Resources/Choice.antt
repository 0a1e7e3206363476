-- ===== src/Resources/Choice.antt =====
-- Which ant `reserve` chooses.
use formicary.Common.{
  any, is_blank, str_eq, str_eq_iff, str_eq_refl, suc, Option, sym, ◌∙◌, set_of, holds, String, ℕ,
  ◌≡◌, ◌≤◌, refl, ap, true, false, arith, ◌&&◌, List, [], ◌∷◌, none, some, is_some, if◌then◌else◌,
  Map, KeySet, get, put, get-put_self, length, Option-cases, Bool-cases, inl, inr, ◌==◌, subst,
  some-injective, All, and-true, ltb, keys,
}
use formicary.Types.RequestState.{reserved}
use formicary.Types.TaskMethod.{TaskMethod}
use formicary.Resources.{
  State, Registration, Reservation, Clock, Answer, reserves, panics, no_method_ants, no_tag_ants,
  no_ants, allocations_of, candidates, least, chosen, reserve, supports, calculate_load,
  add_allocations_by_ant, add_ants_by_request, counted_twice, missing_tag,
}
use formicary.Resources.Registry.Panics.{keys-holds}
use formicary.Resources.Release.{allocated}

-- The ant under the key is listed for the method and for one of the tags, is registered as `r`, has
-- a table of allocations, and supports what is asked for.
abbrev pub IsFit : Clock → State → TaskMethod → List String → String → Registration → Type 0
IsFit c s method tags ant r =
    (holds ant (set_of method s.ants_by_method) ≡ true)
    × (counted_twice s tags ant ≡ true)
    × (get ant s.registrations ≡ some r)
    × (is_some (get r.ant_id s.allocations_by_ant) ≡ true)
    × (supports c.now c.alive_timeout r method tags ≡ true)

abbrev load_of : Registration → State → ℕ
load_of r s = calculate_load (allocations_of r.ant_id s)

-- The reservation is for the ant of such a registration, with its load.
abbrev Fits : Clock → State → TaskMethod → List String → Reservation → Type 0
Fits c s method tags o =
    (ant : String) × (r : Registration) × IsFit c s method tags ant r
    × (r.ant_id ≡ o.ant_id)
    × (o.current_load ≡ load_of r s)

-- No reservation of the list has a smaller load.
abbrev IsLeast : Reservation → List Reservation → Type 0
IsLeast best = All (λ o. best.current_load ≤ o.current_load)

least-le :
    (best : Reservation) (rs : List Reservation) → (least best rs).current_load ≤ best.current_load
unfolding least
least-le best [] = omega arith
least-le best (r ∷ rs) =
    ground (arith, least-le (if ltb r.current_load best.current_load then r else best) rs)

least-IsLeast : (best : Reservation) (rs : List Reservation) → IsLeast (least best rs) (best ∷ rs)
unfolding least
least-IsLeast best [] = (omega arith, tt)
least-IsLeast best (r ∷ rs) =
    let next = if ltb r.current_load best.current_load then r else best in
    let le = least-le next rs in (ground arith, (ground arith, (least-IsLeast next rs).1))

least-All :
    (P : Reservation → Type 0) (best : Reservation) (rs : List Reservation)
    → P best
    → All P rs
    → P (least best rs)
unfolding least
least-All P best [] p ps = p
least-All P best (r ∷ rs) p (q, ps) = elim (Bool-cases (ltb r.current_load best.current_load)) [
  | inl less ↦ rw (less) (least-All P r rs q ps)
  | inr more ↦ rw (more) (least-All P best rs p ps)
]

set_of-put : (k : String) (v : KeySet) (m : Map KeySet) → set_of k (put k v m) ≡ v
set_of-put k v m = rw (set_of, get-put_self k v m) refl

allocated-added :
    (now : ℕ) (request_id task_type ant : String) (s : State)
    → allocated ant request_id task_type (
        add_ants_by_request request_id ant
          (add_allocations_by_ant now request_id task_type ant s).1)
      ≡ some reserved
unfolding add_ants_by_request add_allocations_by_ant
allocated-added now request_id task_type ant s =
    rw (get-put_self ant _ s.allocations_by_ant)
      (rw (get-put_self request_id _ (allocations_of ant s)) (get-put_self task_type reserved _))

holds-added :
    (request_id ant : String) (s : State)
    → holds ant (set_of request_id (add_ants_by_request request_id ant s).ants_by_request) ≡ true
unfolding add_ants_by_request
holds-added request_id ant s =
    rw (set_of-put request_id (put ant tt (set_of request_id s.ants_by_request)) s.ants_by_request)
      (ap is_some (get-put_self ant tt (set_of request_id s.ants_by_request)))

absent : (ant : String) (ks : KeySet) → (length (keys ks) == 0) ≡ true → holds ant ks ≡ false
unfolding get
absent ant [] h = refl
absent ant (k ∷ ks) h = ground (arith, h)

absent-set : (ant : String) (ks : KeySet) → (length ks == 0) ≡ true → holds ant ks ≡ false
unfolding get
absent-set ant [] h = refl
absent-set ant (k ∷ ks) h = ground (arith, h)

-- The tag is asked for, is not blank, and no ant has it.
abbrev pub IsMissing : State → List String → String → Type 0
IsMissing s tags tag =
    (any (λ g. str_eq g tag) tags ≡ true)
    × (is_blank tag ≡ false)
    × ((ant : String) → holds ant (set_of tag s.ants_by_tag) ≡ false)

IsMissing-later :
    (s : State) (tag g : String) (tags : List String)
    → IsMissing s tags tag
    → IsMissing s (g ∷ tags) tag
IsMissing-later s tag g tags (asked, given, nobody) = (ground (arith, asked), given, nobody)

missing_tag-IsMissing :
    (s : State) (tags : List String) (tag : String)
    → missing_tag s tags ≡ some tag
    → IsMissing s tags tag
unfolding missing_tag
missing_tag-IsMissing s [] tag h = absurd (cc h)
missing_tag-IsMissing s (g ∷ tags) tag h = elim (Bool-cases (is_blank g)) [
  | inl blank ↦
      IsMissing-later s tag g tags (missing_tag-IsMissing s tags tag (rw (missing_tag, blank) at h))
  | inr given ↦ elim (Bool-cases (length (set_of g s.ants_by_tag) == 0)) [
    | inr some_ants ↦
        IsMissing-later s tag g tags
          (missing_tag-IsMissing s tags tag (rw (missing_tag, given, some_ants) at h))
    | inl nobody ↦
        subst (IsMissing s (g ∷ tags)) (some-injective g tag (rw (missing_tag, given, nobody) at h))
          (rw (str_eq_refl g) refl, given, λ ant. absent-set ant (set_of g s.ants_by_tag) nobody)
  ]
]

module _ (c : Clock) (s : State) (request_id task_type : String) (method : TaskMethod)
    (tags : List String) where
  abbrev of_ants : List String → Option (List Reservation)
  of_ants = candidates c s request_id task_type method tags

  abbrev listed : KeySet
  listed = set_of method s.ants_by_method

  candidates-Fits :
      (ants : List String) (found : List Reservation)
      → All (λ a. holds a listed ≡ true) ants
      → of_ants ants ≡ some found
      → All (Fits c s method tags) found
  unfolding candidates
  candidates-Fits [] found held h =
      subst (All (Fits c s method tags)) (some-injective [] found h) tt
  candidates-Fits (ant ∷ ants) found (here, held) h = elim (Bool-cases (counted_twice s tags ant)) [
    | inr once ↦ candidates-Fits ants found held (rw (candidates, once) at h)
    | inl twice ↦ elim (Option-cases (get ant s.registrations)) [
      | inl gone ↦ absurd (cc (rw (candidates, twice, gone) at h))
      | inr (r, known) ↦ elim (Option-cases (of_ants ants)) [
        | inl panic ↦ absurd (cc (rw (candidates, twice, known, panic) at h))
        | inr (others, rest) ↦
            elim (Bool-cases (
              is_some (get r.ant_id s.allocations_by_ant)
              && supports c.now c.alive_timeout r method tags)) [
                | inr unfit ↦
                    subst (All (Fits c s method tags))
                      (some-injective others found
                        (rw (candidates, twice, known, rest, unfit) at h))
                      (candidates-Fits ants others held rest)
                | inl fit ↦
                    let (has, able) = and-true _ _ fit in
                    subst (All (Fits c s method tags))
                      (some-injective _ found (rw (candidates, twice, known, rest, fit) at h))
                      (
                        (ant, r, (here, twice, known, has, able), refl, refl),
                        candidates-Fits ants others held rest,
                      )
              ]
      ]
    ]
  ]

  -- A bound on the loads of the candidates bounds the load of every ant that fits.
  candidates-le :
      (ks : KeySet) (found : List Reservation) (bound : ℕ) (ant : String) (r : Registration)
      → of_ants (keys ks) ≡ some found
      → All (λ o. bound ≤ o.current_load) found
      → holds ant ks ≡ true
      → IsFit c s method tags ant r
      → bound ≤ load_of r s
  unfolding candidates get
  candidates-le [] found bound ant r h le held fits = absurd (cc held)
  candidates-le ((k, u) ∷ ks) found bound ant r h le held fits =
      elim (Bool-cases (counted_twice s tags k)) [
        | inr once ↦ elim (Bool-cases (str_eq k ant)) [
          | inr other ↦
              candidates-le ks found bound ant r (rw (candidates, once) at h) le
                (rw (other) at held) fits
          | inl same ↦
              let twice : counted_twice s tags k ≡ true =
                subst (λ x. counted_twice s tags x ≡ true) (sym ((str_eq_iff k ant).0 same))
                  fits.1 in
              absurd (cc (once, twice))
        ]
        | inl twice ↦ elim (Option-cases (get k s.registrations)) [
          | inl gone ↦ absurd (cc (rw (candidates, twice, gone) at h))
          | inr (q, known) ↦ elim (Option-cases (of_ants (keys ks))) [
            | inl panic ↦ absurd (cc (rw (candidates, twice, known, panic) at h))
            | inr (others, rest) ↦
                elim (Bool-cases (
                  is_some (get q.ant_id s.allocations_by_ant)
                  && supports c.now c.alive_timeout q method tags)) [
                    | inr unfit ↦
                        let same_found =
                          some-injective others found
                            (rw (candidates, twice, known, rest, unfit) at h) in
                        elim (Bool-cases (str_eq k ant)) [
                          | inr other ↦
                              candidates-le ks others bound ant r rest
                                (subst (All (λ o. bound ≤ o.current_load)) (sym same_found) le)
                                (rw (other) at held) fits
                          | inl same ↦
                              let alike = same_ant k ant q r same known fits in
                              absurd (clash q r alike unfit fits)
                        ]
                    | inl fit ↦
                        let found_too =
                          some-injective _ found (rw (candidates, twice, known, rest, fit) at h) in
                        let les = subst (All (λ o. bound ≤ o.current_load)) (sym found_too) le in
                        elim (Bool-cases (str_eq k ant)) [
                          | inr other ↦
                              candidates-le ks others bound ant r rest les.1 (rw (other) at held)
                                fits
                          | inl same ↦
                              subst (λ x. bound ≤ load_of x s) (same_ant k ant q r same known fits)
                                les.0
                        ]
                  ]
          ]
        ]
      ]
    where
      same_ant :
          (k ant : String) (q r : Registration)
          → str_eq k ant ≡ true
          → get k s.registrations ≡ some q
          → IsFit c s method tags ant r
          → q ≡ r
      same_ant k ant q r same known (_, _, registered, _, _) =
          some-injective q r
            (sym known ∙ ap (λ x. get x s.registrations) ((str_eq_iff k ant).0 same) ∙ registered)

      clash :
          (q r : Registration)
          → q ≡ r
          → (is_some (get q.ant_id s.allocations_by_ant)
              && supports c.now c.alive_timeout q method tags)
            ≡ false
          → IsFit c s method tags ant r
          → ⊥
      clash q r alike unfit (_, _, _, has, able) =
          let unfit' =
            subst
              (λ x.
                (is_some (get x.ant_id s.allocations_by_ant)
                  && supports c.now c.alive_timeout x method tags)
                ≡ false)
              alike unfit in
          cc (rw (has, able) at unfit')

  -- An ant that is listed and counted twice has no registration.
  abbrev pub IsGone : String → Type 0
  IsGone ant =
      (holds ant listed ≡ true)
      × (counted_twice s tags ant ≡ true)
      × (get ant s.registrations ≡ none)

  candidates-IsGone :
      (ants : List String)
      → All (λ a. holds a listed ≡ true) ants
      → of_ants ants ≡ none
      → (ant : String) × IsGone ant
  unfolding candidates
  candidates-IsGone [] held h = absurd (cc h)
  candidates-IsGone (ant ∷ ants) (here, held) h = elim (Bool-cases (counted_twice s tags ant)) [
    | inr once ↦ candidates-IsGone ants held (rw (candidates, once) at h)
    | inl twice ↦ elim (Option-cases (get ant s.registrations)) [
      | inl gone ↦ (ant, (here, twice, gone))
      | inr (r, known) ↦ elim (Option-cases (of_ants ants)) [
        | inl panic ↦ candidates-IsGone ants held panic
        | inr (others, rest) ↦
            elim (Bool-cases (
              is_some (get r.ant_id s.allocations_by_ant)
              && supports c.now c.alive_timeout r method tags)) [
                | inr unfit ↦ absurd (cc (rw (candidates, twice, known, rest, unfit) at h))
                | inl fit ↦ absurd (cc (rw (candidates, twice, known, rest, fit) at h))
              ]
      ]
    ]
  ]

  -- What an answer says. A reservation is for an ant that fits, of the least load of all that fit, and
  -- the state holds the allocation of the task as RESERVED and the ant under the request. A refusal
  -- says that no ant is listed for the method, or for a tag that is asked for, or that none fits.
  abbrev pub Answered : Answer → Type 0
  Answered panics = (ant : String) × IsGone ant
  Answered no_method_ants = (ant : String) → holds ant listed ≡ false
  Answered (no_tag_ants tag) = IsMissing s tags tag
  Answered no_ants = (ant : String) (r : Registration) → ¬ IsFit c s method tags ant r
  Answered (reserves o s') =
      (ant : String) × (best : Registration) × IsFit c s method tags ant best
      × (o.ant_id ≡ best.ant_id)
      × ((other : String) (r : Registration)
          → IsFit c s method tags other r
          → load_of best s ≤ load_of r s)
      × (allocated o.ant_id request_id task_type s' ≡ some reserved)
      × (holds o.ant_id (set_of request_id s'.ants_by_request) ≡ true)

  keys-listed : All (λ a. holds a listed ≡ true) (keys listed)
  keys-listed = keys-holds listed

  chosen-Answered :
      (r : Reservation) (rs : List Reservation)
      → of_ants (keys listed) ≡ some (r ∷ rs)
      → Answered (chosen c false request_id task_type r rs s)
  unfolding chosen
  chosen-Answered r rs found =
      let fits = candidates-Fits (keys listed) (r ∷ rs) keys-listed found in
      let (ant, best, fit, named, load) = least-All (Fits c s method tags) r rs fits.0 fits.1 in
      (
        ant,
        best,
        fit,
        sym named,
        λ other q fit_too.
            subst (λ n. n ≤ load_of q s) load
              (candidates-le listed (r ∷ rs) (least r rs).current_load other q found
                (least-IsLeast r rs) fit_too.0 fit_too),
        allocated-added c.now request_id task_type (least r rs).ant_id s,
        holds-added request_id (least r rs).ant_id
            (add_allocations_by_ant c.now request_id task_type (least r rs).ant_id s).1,
      )

  none-fits :
      of_ants (keys listed) ≡ some []
      → (ant : String) (r : Registration) → ¬ IsFit c s method tags ant r
  none-fits found ant r fit =
      let le = candidates-le listed [] (suc (load_of r s)) ant r found tt fit.0 fit in
      absurd (omega (arith, le))

  -- `reserve` that is no dry run chooses a registered ant that supports the method and the tags, of
  -- the least load among all the ants that do and are listed for the method and one of the tags, and
  -- records its allocation, or says truly why it does not: no ant has the method, no ant has a tag,
  -- none of the listed ants fits, or a listed ant has no registration, which panics.
  pub reserve-Answered : Answered (reserve c false request_id task_type method tags s)
  unfolding reserve
  reserve-Answered = elim (Bool-cases (length (keys listed) == 0)) [
    | inl nobody ↦ rw (nobody) (λ ant. absent ant listed nobody)
    | inr some_ants ↦ rw (some_ants) (elim (Option-cases (missing_tag s tags)) [
      | inr (tag, missing) ↦ rw (reserve, missing) (missing_tag-IsMissing s tags tag missing)
      | inl tagged ↦ elim (Option-cases (of_ants (keys listed))) [
        | inl panic ↦
            rw (reserve, tagged, panic) (candidates-IsGone (keys listed) keys-listed panic)
        | inr ([], found) ↦ rw (reserve, tagged, found) (none-fits found)
        | inr (r ∷ rs, found) ↦ rw (reserve, tagged, found) (chosen-Answered r rs found)
      ]
    ])
  ]
