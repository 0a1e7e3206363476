-- ===== src/Scheduler/Quota.antt =====
-- queen/manager/job_manager.go: the check of a user's subscription. The sticky messages that it
-- leaves with the user and the organization are left out.
use formicary.Common.{ℕ, Bool, not, leb, Option, none, some, if◌then◌else◌}

pub record Subscription : Type 0 where
  pub expired : Bool
  pub cpu_quota : ℕ
  pub disk_quota : ℕ

-- A user, with the limits on running jobs of the user and of the organization, if there is one.
pub record User : Type 0 where
  pub is_admin : Bool
  pub subscription : Option Subscription
  pub max_concurrency : ℕ
  pub org_max_concurrency : Option ℕ

pub data QuotaError : Type 0 where
  no_subscription subscription_expired over_cpu_quota over_disk_quota no_usage : QuotaError

-- A nil user is dereferenced in the branches for an error and for none.
pub data Quota : Type 0 where
  crashes : Quota
  exceeded : QuotaError → Quota
  within : ℕ → ℕ → Quota

-- `doCheckSubscriptionQuota`, with the usages that the repositories report, none for an error.
unfoldable pub do_check_subscription_quota : Option User → Option ℕ → Option ℕ → Quota
do_check_subscription_quota none cpu disk = exceeded no_subscription
do_check_subscription_quota (some u) cpu disk =
    if u.is_admin then within 0 0 else elim u.subscription [
      | none ↦ exceeded no_subscription
      | some b ↦ if b.expired then exceeded subscription_expired else elim cpu [
        | none ↦ exceeded no_usage
        | some c ↦ if leb b.cpu_quota c then exceeded over_cpu_quota else elim disk [
          | none ↦ exceeded no_usage
          | some d ↦ if leb b.disk_quota d then exceeded over_disk_quota else within c d
        ]
      ]
    ]

-- `CheckSubscriptionQuota`; `enabled` says that the configuration asks for quotas and users.
unfoldable pub check_subscription_quota : Bool → Option User → Option ℕ → Option ℕ → Quota
unfolding do_check_subscription_quota
check_subscription_quota enabled user cpu disk =
    if not enabled
    then within 0 0
    else elim user [ none ↦ crashes | some u ↦ do_check_subscription_quota (some u) cpu disk ]
