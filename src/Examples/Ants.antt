-- ===== src/Examples/Ants.antt =====
-- Two registered ants, at which the theorems on reservations are applied.
use formicary.Common.{String, ◌≡◌, ◌≢◌, List, true, false, [], ◌∷◌, none, if◌then◌else◌}
use formicary.Types.RequestState.{executing, reserved}
use formicary.Resources.{
  State, Registration, Allocation, Reservation, Clock, reserve, release, panics,
}
use formicary.Resources.Registry.{Operation, registers, leaves, asks, run_all, no_ants_yet}
use formicary.Resources.Registry.Panics.{reserve-no_panic}
use formicary.Resources.Release.{allocated, names, release-allocated}
use formicary.Resources.Choice.{Answered, reserve-Answered}

abbrev pub ant_of : String → Registration
ant_of id = record {
  ant_id = id;
  methods = "SHELL" ∷ [];
  tags = "linux" ∷ [];
  received_at = 90;
  valid = true;
  max_capacity = 4;
  allocations = [];
}

abbrev busy : Allocation
busy = record {
  job_request_id = "r1";
  task_types = ("build", executing) ∷ ("lint", reserved) ∷ [];
  ant_id = "a1";
  allocated_at = 80;
}

abbrev two_ants : State
two_ants = record {
  registrations = ("a1", ant_of "a1") ∷ ("a2", ant_of "a2") ∷ [];
  ants_by_tag = ("linux", (("a1", tt) ∷ ("a2", tt) ∷ [])) ∷ [];
  ants_by_method = ("SHELL", (("a1", tt) ∷ ("a2", tt) ∷ [])) ∷ [];
  ants_by_request = ("r1", (("a1", tt) ∷ [])) ∷ [];
  allocations_by_ant = ("a1", (("r1", busy) ∷ [])) ∷ ("a2", []) ∷ [];
}

abbrev pub clock : Clock
clock = record { now = 100; alive_timeout = 60 }

reserve-Answered_example :
    Answered clock two_ants "r2" "test" "SHELL"
      ("linux" ∷ [])
      (reserve clock false "r2" "test" "SHELL" ("linux" ∷ []) two_ants)
reserve-Answered_example = reserve-Answered clock two_ants "r2" "test" "SHELL" ("linux" ∷ [])

abbrev lint_at_a1 : Reservation
lint_at_a1 = record {
  ant_id = "a1";
  job_request_id = "r1";
  task_type = "lint";
  current_load = 1;
  total_reservations = 2;
}

release-allocated_example :
    allocated "a1" "r1" "build" (release lint_at_a1 two_ants)
    ≡ (if names lint_at_a1 "a1" "r1" "build" then none else allocated "a1" "r1" "build" two_ants)
release-allocated_example = release-allocated lint_at_a1 "a1" "r1" "build" two_ants

abbrev history : List Operation
history =
    registers (ant_of "a1")
    ∷ registers (ant_of "a2")
    ∷ asks clock false "r1" "build" "SHELL" []
    ∷ leaves "a1"
    ∷ []

reserve-no_panic_example :
    reserve clock false "r2" "test" "SHELL" ("linux" ∷ []) (run_all history no_ants_yet) ≢ panics
reserve-no_panic_example = reserve-no_panic history clock false "r2" "test" "SHELL" ("linux" ∷ [])
