-- ===== src/Resources/Jobs/Complete.antt =====
-- The reservations of a job whose tasks all found an ant.
use formicary.Common.{
  String, suc, ◌+◌, ◌≡◌, refl, ap, subst, arith, Bool, true, false, List, [], ◌∷◌, none, is_some,
  str_eq, Map, get, put, get-put, get-put_self, length, length-put, any, All, Option-cases,
  Bool-cases, inl, inr, or-false,
}
use formicary.Supervisor.Launch.{unreserved}
use formicary.Definitions.Tasks.{TaskDefinition}
use formicary.Resources.{
  State, Reservation, Clock, panics, no_method_ants, no_tag_ants, no_ants, reserves,
}
use formicary.Resources.Jobs.{
  Reserved, all_reserved, not_reserved, crashes, do_reserve, reserve_tasks,
}

got_of : Reserved → Map Reservation
got_of (all_reserved got s) = got
got_of (not_reserved got s) = got
got_of crashes = []

all_reserved-got :
    {got got' : Map Reservation} {s s' : State}
    → all_reserved got s ≡ all_reserved got' s'
    → got ≡ got'
unfolding got_of
all_reserved-got h = ap got_of h

-- No two tasks have the same type.
abbrev pub AllApart : List TaskDefinition → Type 0
AllApart [] = Unit
AllApart (t ∷ ts) = (any (λ u. str_eq t.task_type u.task_type) ts ≡ false) × AllApart ts

module _ (c : Clock) (dry_run : Bool) (request : String) where
  -- How the loop goes on when all tasks are reserved.
  reserve_tasks-step :
      (t : TaskDefinition) (ts : List TaskDefinition) (got got' : Map Reservation) (s s' : State)
      → reserve_tasks c dry_run request (t ∷ ts) got s ≡ all_reserved got' s'
      → (r : Reservation) × (next : State) × (reserve_tasks c dry_run request ts
            (put t.task_type r got)
            next
          ≡ all_reserved got' s')
  unfolding reserve_tasks
  reserve_tasks-step t ts got got' s s' h =
      elim (Option-cases (do_reserve c dry_run request t.task_type t.method t.tags s)) [
        | inl missing ↦ absurd (cc (rw (reserve_tasks, missing) at h))
        | inr (panics, e) ↦ absurd (cc (rw (reserve_tasks, e) at h))
        | inr (no_method_ants, e) ↦ absurd (cc (rw (reserve_tasks, e) at h))
        | inr (no_ants, e) ↦ absurd (cc (rw (reserve_tasks, e) at h))
        | inr (no_tag_ants tag, e) ↦ absurd (cc (rw (reserve_tasks, e) at h))
        | inr (reserves r next, e) ↦ (r, next, rw (reserve_tasks, e) at h)
      ]

  -- A reservation that is there stays.
  reserve_tasks-keeps :
      (tasks : List TaskDefinition) (got got' : Map Reservation) (s s' : State) (task : String)
      → reserve_tasks c dry_run request tasks got s ≡ all_reserved got' s'
      → is_some (get task got) ≡ true
      → is_some (get task got') ≡ true
  unfolding reserve_tasks
  reserve_tasks-keeps [] got got' s s' task h there =
      subst (λ m. is_some (get task m) ≡ true) (all_reserved-got h) there
  reserve_tasks-keeps (t ∷ ts) got got' s s' task h there =
      let (r, next, rest) = reserve_tasks-step t ts got got' s s' h in
      reserve_tasks-keeps ts (put t.task_type r got) got' next s' task rest (
        rw (get-put t.task_type task r got) (elim (Bool-cases (str_eq t.task_type task)) [
          | inl same ↦ rw (same) refl
          | inr differs ↦ rw (differs) there
        ]))

  -- Every task of the job has a reservation.
  pub reserve_tasks-reserved :
      (tasks : List TaskDefinition) (got got' : Map Reservation) (s s' : State)
      → reserve_tasks c dry_run request tasks got s ≡ all_reserved got' s'
      → unreserved got' tasks ≡ none
  unfolding unreserved
  reserve_tasks-reserved [] got got' s s' h = refl
  reserve_tasks-reserved (t ∷ ts) got got' s s' h =
      let (r, next, rest) = reserve_tasks-step t ts got got' s s' h in
      let there =
        reserve_tasks-keeps ts (put t.task_type r got) got' next s' t.task_type rest
          (ap is_some (get-put_self t.task_type r got)) in
      elim (Option-cases (get t.task_type got')) [
        | inl gone ↦ absurd (cc (rw (gone) at there))
        | inr (x, found) ↦
            rw (unreserved, found)
              (reserve_tasks-reserved ts (put t.task_type r got) got' next s' rest)
      ]

  -- The tasks have types of their own, and no reservation so far.
  abbrev IsNew : Map Reservation → List TaskDefinition → Type 0
  IsNew got = All λ t. get t.task_type got ≡ none

  IsNew-put :
      (t : TaskDefinition) (r : Reservation) (got : Map Reservation) (ts : List TaskDefinition)
      → any (λ u. str_eq t.task_type u.task_type) ts ≡ false
      → IsNew got ts
      → IsNew (put t.task_type r got) ts
  IsNew-put t r got [] apart new = tt
  IsNew-put t r got (u ∷ us) apart (new, rest) =
      let (differs, others) =
        or-false (str_eq t.task_type u.task_type) (any (λ w. str_eq t.task_type w.task_type) us)
          apart in
      (rw (get-put t.task_type u.task_type r got, differs) new, IsNew-put t r got us others rest)

  -- There are as many reservations as tasks.
  pub reserve_tasks-length :
      (tasks : List TaskDefinition) (got got' : Map Reservation) (s s' : State)
      → AllApart tasks
      → IsNew got tasks
      → reserve_tasks c dry_run request tasks got s ≡ all_reserved got' s'
      → length got' ≡ length got + length tasks
  unfolding reserve_tasks
  reserve_tasks-length [] got got' s s' apart new h =
      subst (λ m. length m ≡ length got + 0) (all_reserved-got h) (omega arith)
  reserve_tasks-length (t ∷ ts) got got' s s' (apart, more) (new, rest) h =
      let (r, next, after) = reserve_tasks-step t ts got got' s s' h in
      let grown : length (put t.task_type r got) ≡ suc (length got) =
        rw (length-put t.task_type r got, new) refl in
      let total =
        reserve_tasks-length ts (put t.task_type r got) got' next s' more
          (IsNew-put t r got ts apart rest) after in
      omega (arith, total, grown)
