-- ===== src/Stats/Running.antt =====
-- The running requests of a user.
use formicary.Common.{
  String, ◌≡◌, refl, ap, ◌∙◌, subst, Bool, true, false, ◌&&◌, not, List, [], ◌∷◌, str_eq,
  str_eq_iff, if◌then◌else◌, Map, KeySet, get, put, del, set_of, holds, set_of-put, get-put,
  get-del, and-true, ◌⊎◌, Bool-cases, Option-cases, inl, inr,
}
use formicary.Stats.{
  Summary, JobStats, stats_started, stats_cancelled, stats_succeeded, stats_failed, stats_paused,
  Registry, Event, starts, cancels, succeeds, fails, pauses, waits, available, disables, run,
  run_all, less_running, more_running, pending_job, started_job, cancelled_job, succeeded_job,
  failed_job, paused_job, ended_job, remove_pending_job, update_stat, decr_user_org_count,
  set_ants_available, set_disabled,
}

-- Whether the event is about the request of the user.
abbrev pub about : String → String → Summary → Bool
about user id q = not (str_eq q.user_id "") && (str_eq q.user_id user && str_eq q.id id)

-- Whether the last call about the request of the user was that it has started.
unfoldable pub counts_as_running : String → String → List Event → Bool
counts_as_running user id [] = false
counts_as_running user id (e ∷ es) =
    let rest = counts_as_running user id es in
    elim e [
      | starts q ↦ if about user id q then true else rest
      | cancels q ↦ if about user id q then false else rest
      | succeeds q _ ↦ if about user id q then false else rest
      | fails q _ ↦ if about user id q then false else rest
      | pauses q _ ↦ if about user id q then false else rest
      | waits q _ ↦ if about user id q then false else rest
      | available _ _ _ ↦ rest
      | disables _ _ ↦ rest
    ]

more_running-holds :
    (name user id other : String) (table : Map KeySet)
    → holds other (set_of user (more_running name id table)) ≡ (
        if not (str_eq name "") && (str_eq name user && str_eq id other)
        then true
        else holds other (set_of user table))
unfolding more_running
more_running-holds name user id other table = elim (Bool-cases (str_eq name "")) [
  | inl empty ↦ rw (more_running, empty) refl
  | inr given ↦
      rw (more_running, given, set_of-put name user (put id tt (set_of name table)) table)
        (elim (Bool-cases (str_eq name user)) [
          | inr differs ↦ rw (differs) refl
          | inl same ↦
              rw (same, get-put id other tt (set_of name table))
                (elim (Bool-cases (str_eq id other)) [
                  | inl this ↦ rw (this) refl
                  | inr that ↦
                      rw (that)
                        (ap (λ u. holds other (set_of u table)) ((str_eq_iff name user).0 same))
                ])
        ])
]

List-cases :
    (ks : KeySet) → (ks ≡ []) ⊎ ((x : String × Unit {0}) × (rest : KeySet) × (ks ≡ x ∷ rest))
List-cases [] = inl refl
List-cases (x ∷ rest) = inr (x, rest, refl)

-- A name whose set is empty: the entries are as they were.
nobody :
    (name user id other : String) (table : Map KeySet)
    → set_of name table ≡ []
    → holds other (set_of user table) ≡ (
        if not (str_eq name "") && (str_eq name user && str_eq id other)
        then false
        else holds other (set_of user table))
unfolding get
nobody name user id other table none_held =
    elim (Bool-cases (not (str_eq name "") && (str_eq name user && str_eq id other))) [
      | inr differs ↦ rw (differs) refl
      | inl this ↦
          let (_, rest) = and-true _ _ this in
          let same = (str_eq_iff name user).0 (and-true _ _ rest).0 in
          rw (this) (
            subst (λ u. holds other (set_of u table) ≡ false) same
              (ap (λ ks. holds other ks) none_held))
    ]

less_running-holds :
    (name user id other : String) (table : Map KeySet)
    → holds other (set_of user (less_running name id table)) ≡ (
        if not (str_eq name "") && (str_eq name user && str_eq id other)
        then false
        else holds other (set_of user table))
unfolding less_running
less_running-holds name user id other table = elim (Bool-cases (str_eq name "")) [
  | inl empty ↦ rw (less_running, empty) refl
  | inr given ↦ elim (List-cases (set_of name table)) [
    | inl none_held ↦
        rw (less_running, given, none_held)
          (rw (given) at (nobody name user id other table none_held))
    | inr (x, rest, some_held) ↦
        rw (less_running, given, some_held, set_of-put name user (del id (set_of name table)) table)
          (elim (Bool-cases (str_eq name user)) [
            | inr differs ↦ rw (differs) refl
            | inl same ↦
                rw (same, get-del id other (set_of name table))
                  (elim (Bool-cases (str_eq id other)) [
                    | inl this ↦ rw (this) refl
                    | inr that ↦
                        rw (that)
                          (ap (λ u. holds other (set_of u table)) ((str_eq_iff name user).0 same))
                  ])
          ])
  ]
]

remove_pending_job-users :
    (q : Summary) (r : Registry) → (remove_pending_job q r).count_by_user ≡ r.count_by_user
unfolding remove_pending_job
remove_pending_job-users q r = elim (Option-cases (get q.key r.pending_jobs_by_type)) [
  | inl gone ↦ rw (remove_pending_job, gone) refl
  | inr (jobs, found) ↦ rw (remove_pending_job, found) refl
]

-- What the calls do to the table of the users.
ended-users :
    (f : JobStats → JobStats) (q : Summary) (r : Registry)
    → (decr_user_org_count q (remove_pending_job q (update_stat q.key f r))).count_by_user
      ≡ less_running q.user_id q.id r.count_by_user
unfolding decr_user_org_count update_stat
ended-users f q r =
    ap (less_running q.user_id q.id) (remove_pending_job-users q (update_stat q.key f r))

started-users :
    (q : Summary) (r : Registry)
    → (started_job q r).count_by_user ≡ more_running q.user_id q.id r.count_by_user
unfolding started_job update_stat
started-users q r =
    ap (more_running q.user_id q.id)
      (remove_pending_job-users q (update_stat q.key stats_started r))

waits-users :
    (q : Summary) (reverted : Bool) (r : Registry)
    → (pending_job q reverted r).count_by_user ≡ less_running q.user_id q.id r.count_by_user
unfolding pending_job decr_user_org_count update_stat
waits-users q true r = refl
waits-users q false r = refl

module _ (user id : String) (q : Summary) (before after : Map KeySet) (b : Bool) where
  after_end :
      after ≡ less_running q.user_id q.id before
      → holds id (set_of user before) ≡ b
      → holds id (set_of user after) ≡ (if about user id q then false else b)
  after_end e h =
      ap (λ t. holds id (set_of user t)) e
      ∙ less_running-holds q.user_id user q.id id before
      ∙ ap (λ x. if about user id q then false else x) h

  after_start :
      after ≡ more_running q.user_id q.id before
      → holds id (set_of user before) ≡ b
      → holds id (set_of user after) ≡ (if about user id q then true else b)
  after_start e h =
      ap (λ t. holds id (set_of user t)) e
      ∙ more_running-holds q.user_id user q.id id before
      ∙ ap (λ x. if about user id q then true else x) h

-- After any calls, a request is counted as running for its user exactly when the last call about it
-- was that it has started.
pub run_all-counts_as_running :
    (user id : String) (events : List Event)
    → holds id (set_of user (run_all events).count_by_user) ≡ counts_as_running user id events
unfolding run_all run counts_as_running cancelled_job succeeded_job failed_job paused_job ended_job
    set_ants_available set_disabled update_stat get
run_all-counts_as_running user id [] = refl
run_all-counts_as_running user id (starts q ∷ es) =
    after_start user id q _ _ _ (started-users q (run_all es))
      (run_all-counts_as_running user id es)
run_all-counts_as_running user id (cancels q ∷ es) =
    after_end user id q _ _ _ (ended-users stats_cancelled q (run_all es))
      (run_all-counts_as_running user id es)
run_all-counts_as_running user id (succeeds q latency ∷ es) =
    after_end user id q _ _ _ (ended-users (stats_succeeded latency) q (run_all es))
      (run_all-counts_as_running user id es)
run_all-counts_as_running user id (fails q latency ∷ es) =
    after_end user id q _ _ _ (ended-users (stats_failed latency) q (run_all es))
      (run_all-counts_as_running user id es)
run_all-counts_as_running user id (pauses q latency ∷ es) =
    after_end user id q _ _ _ (ended-users (stats_paused latency) q (run_all es))
      (run_all-counts_as_running user id es)
run_all-counts_as_running user id (waits q reverted ∷ es) =
    after_end user id q _ _ _ (waits-users q reverted (run_all es))
      (run_all-counts_as_running user id es)
run_all-counts_as_running user id (available key b message ∷ es) =
    run_all-counts_as_running user id es
run_all-counts_as_running user id (disables key b ∷ es) = run_all-counts_as_running user id es
