-- ===== src/Stats/Balance.antt =====
-- The count of the executing jobs of a type: it goes below 0 when a job that has not started ends.
use formicary.Common.{
  minus, ◌==◌, ◌<◌, ◌≤◌, length, arith, String, ℕ, zero, suc, ◌≡◌, refl, ap, ◌∙◌, Bool, true, false,
  ◌&&◌, List, [], ◌∷◌, Option, none, some, str_eq, str_eq_iff, if◌then◌else◌, ℤ, pos, get, get-put,
  Bool-cases, Option-cases, inl, inr,
}
use formicary.Stats.{
  Summary, JobStats, Registry, Event, starts, cancels, succeeds, fails, pauses, waits, available,
  disables, run, run_all, incr, decr, max_int32, found_or_new, new_job_stats, get_execution_count,
  update_stat, remove_pending_job, pending_job, started_job, cancelled_job, succeeded_job,
  failed_job, paused_job, ended_job, decr_user_org_count, set_ants_available, set_disabled,
  stats_started, stats_cancelled, stats_succeeded, stats_failed, stats_paused,
  stats_reverted_pending,
}

-- How many calls have started a job of the type, and how many have ended one.
unfoldable pub starts_of : String → List Event → ℕ
starts_of key [] = zero
starts_of key (e ∷ es) =
    let rest = starts_of key es in
    elim e [ starts q ↦ if str_eq q.key key then suc rest else rest | _ ↦ rest ]

unfoldable pub ends_of : String → List Event → ℕ
ends_of key [] = zero
ends_of key (e ∷ es) =
    let rest = ends_of key es in
    elim e [
      | starts q ↦ rest
      | cancels q ↦ if str_eq q.key key then suc rest else rest
      | succeeds q _ ↦ if str_eq q.key key then suc rest else rest
      | fails q _ ↦ if str_eq q.key key then suc rest else rest
      | pauses q _ ↦ if str_eq q.key key then suc rest else rest
      | waits q reverted ↦ if reverted && str_eq q.key key then suc rest else rest
      | available _ _ _ ↦ rest
      | disables _ _ ↦ rest
    ]

below : (n : ℕ) → n < max_int32 → (n == max_int32) ≡ false
below n h = ground arith

incr-minus : (a b : ℕ) → a < max_int32 → incr (minus a b) ≡ minus (suc a) b
unfolding minus incr
incr-minus a zero h = rw (below a h) refl
incr-minus zero (suc zero) h = refl
incr-minus zero (suc (suc b)) h = refl
incr-minus (suc a) (suc b) h = incr-minus a b (omega (arith, h))

decr-minus : (a b : ℕ) → b < max_int32 → decr (minus a b) ≡ minus a (suc b)
unfolding minus decr
decr-minus zero zero h = refl
decr-minus (suc a) zero h = refl
decr-minus zero (suc b) h = rw (below b (omega (arith, h))) refl
decr-minus (suc a) (suc b) h = decr-minus a b (omega (arith, h))

counts_more : (b : Bool) {n m : ℕ} → n ≤ m → (if b then suc n else n) ≤ suc m
counts_more true h = omega (arith, h)
counts_more false h = omega (arith, h)

-- No more calls start or end a job than there are calls.
counts-le :
    (key : String) (events : List Event)
    → (starts_of key events ≤ length events) × (ends_of key events ≤ length events)
unfolding starts_of ends_of
counts-le key [] = (omega arith, omega arith)
counts-le key (starts q ∷ es) =
    (counts_more _ (counts-le key es).0, omega (arith, (counts-le key es).1))
counts-le key (cancels q ∷ es) =
    (omega (arith, (counts-le key es).0), counts_more _ (counts-le key es).1)
counts-le key (succeeds q _ ∷ es) =
    (omega (arith, (counts-le key es).0), counts_more _ (counts-le key es).1)
counts-le key (fails q _ ∷ es) =
    (omega (arith, (counts-le key es).0), counts_more _ (counts-le key es).1)
counts-le key (pauses q _ ∷ es) =
    (omega (arith, (counts-le key es).0), counts_more _ (counts-le key es).1)
counts-le key (waits q reverted ∷ es) =
    (omega (arith, (counts-le key es).0), counts_more _ (counts-le key es).1)
counts-le key (available _ _ _ ∷ es) =
    (omega (arith, (counts-le key es).0), omega (arith, (counts-le key es).1))
counts-le key (disables _ _ ∷ es) =
    (omega (arith, (counts-le key es).0), omega (arith, (counts-le key es).1))

-- The count of what a key has.
executing_in : Option JobStats → ℤ
executing_in none = pos zero
executing_in (some j) = j.executing_jobs

found-executing : (o : Option JobStats) → (found_or_new o).executing_jobs ≡ executing_in o
unfolding executing_in new_job_stats
found-executing none = refl
found-executing (some j) = refl

count-executing :
    (key : String) (r : Registry)
    → get_execution_count key r ≡ executing_in (get key r.stats_by_job_type)
unfolding get_execution_count executing_in
count-executing key r = elim (Option-cases (get key r.stats_by_job_type)) [
  | inl gone ↦ rw (get_execution_count, executing_in, gone) refl
  | inr (j, found) ↦ rw (get_execution_count, executing_in, found) refl
]

-- A change of the count of one key.
update_stat-count :
    (name key : String) (f : JobStats → JobStats) (g : ℤ → ℤ) (r : Registry)
    → ((j : JobStats) → (f j).executing_jobs ≡ g j.executing_jobs)
    → get_execution_count key (update_stat name f r)
      ≡ (if str_eq name key then g (get_execution_count key r) else get_execution_count key r)
unfolding update_stat executing_in
update_stat-count name key f g r changes =
    let table = r.stats_by_job_type in
    count-executing key (update_stat name f r)
    ∙ rw (get-put name key (f (found_or_new (get name table))) table, count-executing key r)
        (elim (Bool-cases (str_eq name key)) [
          | inr differs ↦ rw (differs) refl
          | inl same ↦ rw (same) (
              changes (found_or_new (get name table))
              ∙ ap g (found-executing (get name table))
              ∙ ap (λ k. g (executing_in (get k table))) ((str_eq_iff name key).0 same))
        ])

remove_pending_job-count :
    (key : String) (q : Summary) (r : Registry)
    → get_execution_count key (remove_pending_job q r) ≡ get_execution_count key r
unfolding remove_pending_job get_execution_count
remove_pending_job-count key q r = elim (Option-cases (get q.key r.pending_jobs_by_type)) [
  | inl gone ↦ rw (remove_pending_job, gone) refl
  | inr (jobs, found) ↦ rw (remove_pending_job, found) refl
]

module _ (key name : String) (before : ℤ) (a b : ℕ) (balanced : before ≡ minus a b) where
  up :
      a < max_int32
      → (if str_eq name key then incr before else before)
        ≡ minus (if str_eq name key then suc a else a) b
  up less = elim (Bool-cases (str_eq name key)) [
    | inl same ↦ rw (same) (ap incr balanced ∙ incr-minus a b less)
    | inr differs ↦ rw (differs) balanced
  ]

  down :
      b < max_int32
      → (if str_eq name key then decr before else before)
        ≡ minus a (if str_eq name key then suc b else b)
  down less = elim (Bool-cases (str_eq name key)) [
    | inl same ↦ rw (same) (ap decr balanced ∙ decr-minus a b less)
    | inr differs ↦ rw (differs) balanced
  ]

same_either : (c : Bool) (n : ℤ) → (if c then n else n) ≡ n
same_either true n = refl
same_either false n = refl

-- The end of a job, of any kind.
pub ended-count :
    (key : String) (f : JobStats → JobStats) (q : Summary) (r : Registry)
    → ((j : JobStats) → (f j).executing_jobs ≡ decr j.executing_jobs)
    → get_execution_count key (decr_user_org_count q (remove_pending_job q (update_stat q.key f r)))
      ≡ (if str_eq q.key key then decr (get_execution_count key r) else get_execution_count key r)
unfolding decr_user_org_count get_execution_count
ended-count key f q r changes =
    remove_pending_job-count key q (update_stat q.key f r)
    ∙ update_stat-count q.key key f decr r changes

-- After fewer than 2^31 calls, the count of the executing jobs of a type is the number of calls that
-- started one less the number of calls that ended one, also when these are more.
pub run_all-balance :
    (key : String) (events : List Event)
    → length events ≤ max_int32
    → get_execution_count key (run_all events) ≡ minus (starts_of key events) (ends_of key events)
unfolding run_all run starts_of ends_of minus get_execution_count get cancelled_job succeeded_job
    failed_job paused_job ended_job started_job pending_job set_ants_available set_disabled
    stats_started stats_cancelled stats_succeeded stats_failed stats_paused stats_reverted_pending
    decr_user_org_count
run_all-balance key [] few = refl
run_all-balance key (starts q ∷ es) few =
    remove_pending_job-count key q (update_stat q.key stats_started (run_all es))
    ∙ update_stat-count q.key key stats_started incr (run_all es) (λ j. refl)
    ∙ up key q.key _ _ _ (run_all-balance key es (omega (arith, few)))
        (omega (arith, few, (counts-le key es).0))
run_all-balance key (cancels q ∷ es) few =
    ended-count key stats_cancelled q (run_all es) (λ j. refl)
    ∙ down key q.key _ _ _ (run_all-balance key es (omega (arith, few)))
        (omega (arith, few, (counts-le key es).1))
run_all-balance key (succeeds q latency ∷ es) few =
    ended-count key (stats_succeeded latency) q (run_all es) (λ j. refl)
    ∙ down key q.key _ _ _ (run_all-balance key es (omega (arith, few)))
        (omega (arith, few, (counts-le key es).1))
run_all-balance key (fails q latency ∷ es) few =
    ended-count key (stats_failed latency) q (run_all es) (λ j. refl)
    ∙ down key q.key _ _ _ (run_all-balance key es (omega (arith, few)))
        (omega (arith, few, (counts-le key es).1))
run_all-balance key (pauses q latency ∷ es) few =
    ended-count key (stats_paused latency) q (run_all es) (λ j. refl)
    ∙ down key q.key _ _ _ (run_all-balance key es (omega (arith, few)))
        (omega (arith, few, (counts-le key es).1))
run_all-balance key (waits q true ∷ es) few =
    update_stat-count q.key key stats_reverted_pending decr _ (λ j. refl)
    ∙ down key q.key _ _ _ (run_all-balance key es (omega (arith, few)))
        (omega (arith, few, (counts-le key es).1))
run_all-balance key (waits q false ∷ es) few = run_all-balance key es (omega (arith, few))
run_all-balance key (available name b message ∷ es) few =
    update_stat-count name key _ (λ n. n) (run_all es) (λ j. refl)
    ∙ same_either (str_eq name key) _
    ∙ run_all-balance key es (omega (arith, few))
run_all-balance key (disables name b ∷ es) few =
    update_stat-count name key _ (λ n. n) (run_all es) (λ j. refl)
    ∙ same_either (str_eq name key) _
    ∙ run_all-balance key es (omega (arith, few))
