-- ===== src/Manager/Cancelled.antt =====
-- What is left of a request that was cancelled.
use formicary.Common.{◌≡◌, ◌⊎◌, true, false}
use formicary.Types.RequestState.{RequestState, cancelled, is_terminal}
use formicary.Repository.Store.{Store}

-- What is left of the rows: those of a request that had ended are as they were, another is CANCELLED.
abbrev pub Cancels : Store → Store → Type 0
Cancels before after =
    ((is_terminal before.request.job_state ≡ true) × (after ≡ before))
    ⊎ ((is_terminal before.request.job_state ≡ false) × (after.request.job_state ≡ cancelled))
