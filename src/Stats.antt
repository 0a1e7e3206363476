-- ===== src/Stats.antt =====
-- queen/stats/job_stats_registry.go and job_stats.go: what the server counts of its jobs. Every
-- operation runs under the lock. Times, the backend that persists the counts and the estimates of
-- waiting are left out. The count of the executing jobs wraps around at 32 bits as in the source; those
-- that only grow are unbounded.
pub mod Running
pub mod Balance
use formicary.Common.{
  String, ℕ, suc, zero, ◌+◌, Bool, true, false, List, [], ◌∷◌, Option, none, some, str_eq, ℤ, pos,
  negsuc, ◌==◌, if◌then◌else◌, Map, KeySet, get, put, del, set_of, length,
}
use formicary.Types.RequestState.{RequestState, unknown}
use formicary.Utils.Rolling.{RollingMinMax, new_rolling_min_max, add_min_max}

-- `IJobRequestSummary`, with its key of user and job type.
pub record Summary : Type 0 where
  pub id : String
  pub user_id : String
  pub organization_id : String
  pub key : String
  pub job_state : RequestState

pub record JobStats : Type 0 where
  pub succeeded_jobs : ℕ
  pub failed_jobs : ℕ
  pub paused_jobs : ℕ
  pub executing_jobs : ℤ
  pub ants_available : Bool
  pub ant_unavailable_error : String
  pub job_disabled : Bool
  pub succeeded_latency : RollingMinMax
  pub failed_latency : RollingMinMax
  pub paused_latency : RollingMinMax

pub record Registry : Type 0 where
  pub stats_by_job_type : Map JobStats
  pub count_by_user : Map KeySet
  pub count_by_org : Map KeySet
  pub pending_jobs_by_type : Map (Map Summary)
  pub last_job_status : Map (String × RequestState)

abbrev pub new_registry : Registry
new_registry = record {
  stats_by_job_type = [];
  count_by_user = [];
  count_by_org = [];
  pending_jobs_by_type = [];
  last_job_status = [];
}

-- The greatest number of 32 bits; the least one is -(that number + 1).
abbrev pub max_int32 : ℕ
max_int32 = 2147483647

-- `atomic.AddInt32` of 1 and of -1, which wrap around.
unfoldable pub incr : ℤ → ℤ
incr (pos n) = if n == max_int32 then negsuc max_int32 else pos (suc n)
incr (negsuc zero) = pos zero
incr (negsuc (suc n)) = negsuc n

unfoldable pub decr : ℤ → ℤ
decr (pos zero) = negsuc zero
decr (pos (suc n)) = pos n
decr (negsuc n) = if n == max_int32 then pos max_int32 else negsuc (suc n)

-- `NewJobStats`
unfoldable pub new_job_stats : JobStats
unfolding new_rolling_min_max
new_job_stats = record {
  succeeded_jobs = 0;
  failed_jobs = 0;
  paused_jobs = 0;
  executing_jobs = pos 0;
  ants_available = false;
  ant_unavailable_error = "";
  job_disabled = false;
  succeeded_latency = new_rolling_min_max 20;
  failed_latency = new_rolling_min_max 20;
  paused_latency = new_rolling_min_max 20;
}

-- The methods of `JobStats`: `Started`, `Cancelled`, `Succeeded`, `Failed`, `Paused` and
-- `RevertedPending`.
unfoldable pub stats_started : JobStats → JobStats
stats_started j = record j {
  ants_available = true;
  ant_unavailable_error = "";
  executing_jobs = incr j.executing_jobs;
}

unfoldable pub stats_cancelled : JobStats → JobStats
stats_cancelled j = record j { executing_jobs = decr j.executing_jobs }

unfoldable pub stats_succeeded : ℕ → JobStats → JobStats
unfolding add_min_max
stats_succeeded latency j = record j {
  succeeded_jobs = j.succeeded_jobs + 1;
  executing_jobs = decr j.executing_jobs;
  succeeded_latency = add_min_max latency j.succeeded_latency;
}

unfoldable pub stats_failed : ℕ → JobStats → JobStats
unfolding add_min_max
stats_failed latency j = record j {
  failed_jobs = j.failed_jobs + 1;
  executing_jobs = decr j.executing_jobs;
  failed_latency = add_min_max latency j.failed_latency;
}

unfoldable pub stats_paused : ℕ → JobStats → JobStats
unfolding add_min_max
stats_paused latency j = record j {
  paused_jobs = j.paused_jobs + 1;
  executing_jobs = decr j.executing_jobs;
  paused_latency = add_min_max latency j.paused_latency;
}

unfoldable pub stats_reverted_pending : JobStats → JobStats
stats_reverted_pending j = record j { executing_jobs = decr j.executing_jobs }

abbrev pub found_or_new : Option JobStats → JobStats
found_or_new none = new_job_stats
found_or_new (some j) = j

-- `createOrFindStat` and the change of what it finds.
unfoldable pub update_stat : String → (JobStats → JobStats) → Registry → Registry
update_stat key f r = record r {
  stats_by_job_type = put key (f (found_or_new (get key r.stats_by_job_type))) r.stats_by_job_type;
}

-- `removePendingJob`
unfoldable pub remove_pending_job : Summary → Registry → Registry
remove_pending_job q r = elim (get q.key r.pending_jobs_by_type) [
  | none ↦ r
  | some jobs ↦ record r { pending_jobs_by_type = put q.key (del q.id jobs) r.pending_jobs_by_type }
]

-- The set of a user or an organization without the request, and with it; an empty name has none.
unfoldable pub less_running : String → String → Map KeySet → Map KeySet
less_running name id table = if str_eq name "" then table else elim (set_of name table) [
  | [] ↦ table
  | _ ∷ _ ↦ put name (del id (set_of name table)) table
]

unfoldable pub more_running : String → String → Map KeySet → Map KeySet
more_running name id table =
    if str_eq name "" then table else put name (put id tt (set_of name table)) table

-- `decrUserOrgCount`
unfoldable pub decr_user_org_count : Summary → Registry → Registry
unfolding less_running
decr_user_org_count q r = record r {
  count_by_user = less_running q.user_id q.id r.count_by_user;
  count_by_org = less_running q.organization_id q.id r.count_by_org;
}

-- `Pending`
unfoldable pub pending_job : Summary → Bool → Registry → Registry
pending_job q reverted r =
    let jobs : Map Summary = elim (get q.key r.pending_jobs_by_type) [
      | none ↦ []
      | some jobs ↦ jobs
    ] in
    let kept =
      decr_user_org_count q
        (record r { pending_jobs_by_type = put q.key (put q.id q jobs) r.pending_jobs_by_type }) in
    if reverted then update_stat q.key stats_reverted_pending kept else kept

-- `Started`
unfoldable pub started_job : Summary → Registry → Registry
started_job q r =
    let s = remove_pending_job q (update_stat q.key stats_started r) in
    record s {
      count_by_user = more_running q.user_id q.id s.count_by_user;
      count_by_org = more_running q.organization_id q.id s.count_by_org;
    }

-- `Cancelled`
unfoldable pub cancelled_job : Summary → Registry → Registry
cancelled_job q r =
    decr_user_org_count q (remove_pending_job q (update_stat q.key stats_cancelled r))

-- What `Succeeded`, `Failed` and `Paused` share.
unfoldable pub ended_job : (JobStats → JobStats) → Summary → Registry → Registry
ended_job f q r =
    let s = decr_user_org_count q (remove_pending_job q (update_stat q.key f r)) in
    record s { last_job_status = put q.key (q.id, q.job_state) s.last_job_status }

unfoldable pub succeeded_job : Summary → ℕ → Registry → Registry
succeeded_job q latency r = ended_job (stats_succeeded latency) q r

unfoldable pub failed_job : Summary → ℕ → Registry → Registry
failed_job q latency r = ended_job (stats_failed latency) q r

unfoldable pub paused_job : Summary → ℕ → Registry → Registry
paused_job q latency r = ended_job (stats_paused latency) q r

-- `SetAntsAvailable` and `SetDisabled`.
unfoldable pub set_ants_available : String → Bool → String → Registry → Registry
set_ants_available key available message r =
    update_stat key (λ j. record j { ants_available = available; ant_unavailable_error = message })
      r

unfoldable pub set_disabled : String → Bool → Registry → Registry
set_disabled key disabled r = update_stat key (λ j. record j { job_disabled = disabled }) r

-- `GetExecutionCount`
unfoldable pub get_execution_count : String → Registry → ℤ
get_execution_count key r = elim (get key r.stats_by_job_type) [
  | none ↦ pos 0
  | some j ↦ j.executing_jobs
]

-- `UserOrgExecuting`
unfoldable pub user_org_executing : Summary → Registry → ℕ × ℕ
user_org_executing q r =
    (length (set_of q.user_id r.count_by_user), length (set_of q.organization_id r.count_by_org))

-- `LastJobStatus`
unfoldable pub last_job_status_of : String → Registry → RequestState
last_job_status_of key r = elim (get key r.last_job_status) [ none ↦ unknown | some (_, s) ↦ s ]

-- The calls of the registry.
pub data Event : Type 0 where
  starts cancels : Summary → Event
  succeeds fails pauses : Summary → ℕ → Event
  waits : Summary → Bool → Event
  available : String → Bool → String → Event
  disables : String → Bool → Event

unfoldable pub run : Event → Registry → Registry
run (starts q) r = started_job q r
run (cancels q) r = cancelled_job q r
run (succeeds q latency) r = succeeded_job q latency r
run (fails q latency) r = failed_job q latency r
run (pauses q latency) r = paused_job q latency r
run (waits q reverted) r = pending_job q reverted r
run (available key b message) r = set_ants_available key b message r
run (disables key b) r = set_disabled key b r

-- The calls, the last one first.
unfoldable pub run_all : List Event → Registry
unfolding run
run_all [] = new_registry
run_all (e ∷ es) = run e (run_all es)
