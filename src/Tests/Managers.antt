-- ===== src/Tests/Managers.antt =====
-- One backend's manager (plane/src/drone/backend_manager.rs).
use plane.Prelude.{Bool, List, [], false, none, refl, some, true, ◌∷◌, ◌≡◌}
use plane.BackendState.{
  BackendState, BackendStatus, is_terminated, soft, status, swept, to_terminating,
}
use plane.Drone.BackendManager.{
  BackendManager, backend_up, handle_terminating, new, prepared, set_state, set_state_within,
  spawned, terminate_failed, wait_for_backend,
}
use plane.Drone.BackendManager.Lifecycle.{
  Ascends, Event, answer, ask, exit, rank, run, run-Ascends, set_state_within-enough,
}
use plane.Drone.BackendManager.Race
use plane.Drone.BackendManager.Race.{Shared, termination_lost}

abbrev accepts_all : BackendState → Bool
accepts_all s = true

abbrev events : List Event
events =
    answer (prepared true)
    ∷ answer (spawned (some 11))
    ∷ answer backend_up
    ∷ ask soft swept
    ∷ answer terminate_failed
    ∷ exit none
    ∷ []

run-Ascends_example :
    Ascends
      (rank (new accepts_all BackendState.scheduled).0.state)
      (run accepts_all events (new accepts_all BackendState.scheduled).0).1
      (rank (run accepts_all events (new accepts_all BackendState.scheduled).0).0.state)
run-Ascends_example = run-Ascends accepts_all BackendState.scheduled events

abbrev over : BackendManager
over = record {
  state = BackendState.terminated BackendStatus.ready (some soft) (some swept) none;
  handle = none;
}

over_terminated : is_terminated over.state ≡ true
unfolding is_terminated
over_terminated = refl

abbrev stopping : BackendManager
stopping = record {
  state = BackendState.terminating BackendStatus.ready soft swept;
  handle =
      some (handle_terminating (BackendState.terminating BackendStatus.ready soft swept) false);
}

set_state_within-enough_example :
    set_state_within 7 accepts_all BackendState.scheduled
    ≡ set_state accepts_all BackendState.scheduled
set_state_within-enough_example = set_state_within-enough 5 accepts_all BackendState.scheduled

abbrev asked_eleven : Shared
asked_eleven = record {
  manager = (set_state accepts_all (to_terminating (BackendState.waiting 11) swept)).0;
  writes = BackendState.ready 11 ∷ [];
}

termination_lost_example :
    Race.Reach accepts_all
      (record {
        manager = record {
          state = BackendState.waiting 11;
          handle = some (wait_for_backend (BackendState.waiting 11) 11);
        };
        writes = [];
      })
      asked_eleven
    × (status asked_eleven.manager.state ≡ BackendStatus.terminating)
    × Race.Reach accepts_all asked_eleven
        (record { manager = record { state = BackendState.ready 11; handle = none }; writes = [] })
termination_lost_example = termination_lost accepts_all 11 swept
