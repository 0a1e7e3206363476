-- ===== src/Supervisor/Launch/Reverted.antt =====
-- What `RevertRequestToPendingPaused` leaves in the store and with the ants.
use formicary.Common.{◌≡◌, ◌⊎◌}
use formicary.Types.RequestState.{RequestState, pending, paused}
use formicary.Repository.Store.{Store}

-- The states that a request goes back to.
abbrev IsWaiting : RequestState → Type 0
IsWaiting s = (s ≡ pending) ⊎ (s ≡ paused)
