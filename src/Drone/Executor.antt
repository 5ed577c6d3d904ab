-- ===== src/Drone/Executor.antt =====
-- plane/src/drone/executor.rs: the managers of the running backends and the state store that their
-- callbacks write. An operation runs to its end before the next; what runs between the reads and
-- the writes of one manager is in Drone/BackendManager/Race.antt. `clock n` is the time that is
-- read for the event of id n.
pub mod Consistent
pub mod Startup
use plane.Prelude.{Bool, List, Option, [], false, if◌then◌else◌, none, some, true, ℕ, ◌∷◌}
use plane.Prelude.Table
use plane.Prelude.Table.{Table}
use plane.BackendState.{
  BackendState, BackendStatus, TerminationKind, TerminationReason, ExitCode, scheduled, terminated,
  ready, lost, key_expired, to_hard_terminating, to_terminated,
}
use plane.Protocol.{BackendAction, AcquiredKey}
use plane.Drone.StateStore.{StateStore, register_event}
use plane.Drone.BackendManager.{BackendManager, Answer}
use plane.Drone.BackendManager
use plane.Drone.BackendManager.Lifecycle.{Event, answer, ask, exit, step}

pub record Executor : Type 0 where
  pub store : StateStore
  pub backends : Table BackendManager

-- The callback of a manager registers the state with the store; in the model that never fails.
abbrev pub accept : BackendState → Bool
accept s = true

unfoldable pub write_reports : (ℕ → ℕ) → ℕ → List BackendState → StateStore → StateStore
write_reports clock b [] store = store
write_reports clock b (s ∷ ss) store =
    write_reports clock b ss (register_event b s (clock store.next_id) store)

-- A manager is put back after an operation, and its reports are written.
abbrev put : (ℕ → ℕ) → ℕ → BackendManager × List BackendState → Executor → Executor
put clock b (m, reports) e = record {
  store = write_reports clock b reports e.store;
  backends = Table.insert b m e.backends;
}

-- What is registered for a backend that the executor does not know.
abbrev pub lost_state : BackendState
lost_state = terminated BackendStatus.ready none (some lost) none

-- The arm of `Terminate`; `runtime_ok` is whether `runtime.terminate` succeeds.
terminate_found :
    (ℕ → ℕ)
    → Bool
    → ℕ
    → TerminationKind
    → TerminationReason
    → Option BackendManager
    → Executor
    → Bool × Executor
terminate_found clock runtime_ok b kind reason none e =
    if runtime_ok
    then (true, record e { store = register_event b lost_state (clock e.store.next_id) e.store })
    else (false, e)
terminate_found clock runtime_ok b kind reason (some m) e =
    (true, put clock b (BackendManager.terminate accept kind reason m) e)

unfoldable pub apply_action : (ℕ → ℕ) → Bool → ℕ → BackendAction → Executor → Bool × Executor
unfolding terminate_found
apply_action clock runtime_ok b (BackendAction.spawn executable key static_token) e =
    (true, put clock b (BackendManager.new accept scheduled) e)
apply_action clock runtime_ok b (BackendAction.terminate kind reason) e =
    terminate_found clock runtime_ok b kind reason (Table.get b e.backends) e

exited : (ℕ → ℕ) → ℕ → Option ExitCode → Option BackendManager → Executor → Executor
exited clock b exit_code none e = e
exited clock b exit_code (some m) e =
    let (m', reports) = BackendManager.mark_terminated accept exit_code m in
    record { store = write_reports clock b reports e.store; backends = Table.remove b e.backends }

-- The listener of runtime events: the manager leaves the table and is marked as terminated.
unfoldable pub backend_event : (ℕ → ℕ) → ℕ → Option ExitCode → Executor → Executor
unfolding exited
backend_event clock b exit_code e = exited clock b exit_code (Table.get b e.backends) e

answered : (ℕ → ℕ) → ℕ → Answer → Option BackendManager → Executor → Executor
answered clock b a none e = e
answered clock b a (some m) e = put clock b (step accept (answer a) m) e

-- The task of a backend's manager gets an answer of the runtime.
unfoldable pub runtime_answer : (ℕ → ℕ) → ℕ → Answer → Executor → Executor
unfolding answered
runtime_answer clock b a e = answered clock b a (Table.get b e.backends) e
