-- ===== src/Examples/States.antt =====
-- The state graph at concrete states.
use formicary.Common.{◌≡◌, ◌↔◌, ◌⊎◌, true}
use formicary.Types.RequestState.{RequestState, pending, completed}
use formicary.Types.RequestState.Transitions.{◌⟶*◌, is_open, reaches_completed_iff}

reaches_completed_iff_example :
    ((pending ⟶* completed) ↔ (pending ≡ completed) ⊎ (is_open pending ≡ true))
    × ((t : RequestState) → completed ⟶* t → t ≡ completed)
reaches_completed_iff_example = reaches_completed_iff pending
