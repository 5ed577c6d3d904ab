-- ===== src/Tests/Drones.antt =====
-- A drone's store, its executor and its messages (plane/src/drone).
use mathlib.Core.List.{Mem}
use mathlib.Core.List.Perm
use plane.Prelude.{List, [], false, ltb, none, refl, some, true, ℕ, ◌*◌, ◌∷◌, ◌≡◌, All}
use plane.Prelude.Table
use plane.BackendState.{to_terminated, BackendState, BackendStatus, is_terminated, soft, swept}
use plane.Protocol.{AcquiredKey, BackendAction, second}
use plane.Drone.KeyManager
use plane.Drone.KeyManager.{register_key}
use plane.Drone.BackendManager
use plane.Drone.BackendManager.{Answer, prepared}
use plane.Drone.StateStore
use plane.Drone.StateStore.{
  EventRow, StateStore, ack_event, active, active_backends, backend_state, new, register_event,
  register_listener,
}
use plane.Drone.StateStore.Delivery
use plane.Drone.StateStore.Delivery.{at_least_once, run-IsValid, mem-ack_event}
use plane.Drone.Executor.{Executor, accept}
use plane.Drone.Executor.Consistent
use plane.Drone.Executor.Startup.{
  first_write, second_write, Runs, preexisting_terminated, startup_tasks,
  terminate_preexisting_backends, terminate_preexisting_backends-Runs,
}
use plane.Drone.Messages.{Drone, handle_message}
use plane.Drone.Messages
use plane.Drone.Messages.Spawns.{spawn_applied}

-- A sort that leaves the rows as they are.
abbrev as_is : List EventRow → List EventRow
as_is rows = rows

abbrev calls : List Delivery.Op
calls =
    Delivery.Op.register 3 BackendState.loading 2_000_000
    ∷ Delivery.Op.listen
    ∷ Delivery.Op.register 4 BackendState.loading 3_000_000
    ∷ Delivery.Op.ack 2
    ∷ []

run-IsValid_example : Delivery.IsValid (Delivery.run as_is calls StateStore.new)
run-IsValid_example = run-IsValid as_is (λ rows. Perm.refl rows) calls

acks : All (λ op. Delivery.is_ack 1 op ≡ false) calls
acks = (refl, (refl, (refl, (refl, tt))))

at_least_once_example :
    Mem
      (record {
        event_id = 1;
        backend_id = 3;
        state = BackendState.scheduled;
        timestamp = 1_000_000;
      })
      (register_listener as_is (
        Delivery.run as_is calls
          (register_event 3 BackendState.scheduled 1_500_000 StateStore.new))).delivered
unfolding StateStore.new
at_least_once_example =
    at_least_once as_is (λ rows. Perm.refl rows) 3 BackendState.scheduled 1_500_000 StateStore.new
      calls acks

abbrev row : EventRow
row = record { id = 1; backend_id = 3; event = BackendState.scheduled; timestamp = 1 }

abbrev store : StateStore
store = record {
  backend = (3, BackendState.scheduled) ∷ [];
  event = row ∷ [];
  next_id = 2;
  listener = false;
  delivered = [];
}

abbrev clock : ℕ → ℕ
clock n = n

abbrev empty_executor : Executor
empty_executor = record { store = StateStore.new; backends = [] }

abbrev key : AcquiredKey
key = record {
  key = record { name = 4; namespace = 0; tag = 2 };
  deadlines = record {
    renew_at = 30 * second;
    soft_terminate_at = 40 * second;
    hard_terminate_at = 50 * second;
  };
  token = 9;
}

abbrev ops : List Consistent.Op
ops =
    Consistent.Op.action true 3 (BackendAction.spawn 8 key none)
    ∷ Consistent.Op.answer_of 3 (prepared true)
    ∷ Consistent.Op.action true 3 (BackendAction.terminate soft swept)
    ∷ Consistent.Op.event 3 none
    ∷ []

abbrev after_start : StateStore
after_start = terminate_preexisting_backends clock (startup_tasks store) store

started : Runs clock store (startup_tasks store) after_start
unfolding startup_tasks active_backends active is_terminated
started = terminate_preexisting_backends-Runs clock (startup_tasks store) store (refl, tt)

old_backend :
    backend_state 3 after_start
    ≡ some (BackendState.terminated BackendStatus.scheduled none none none)
unfolding backend_state terminate_preexisting_backends Table.get startup_tasks active_backends
    is_terminated second_write register_event Table.insert first_write to_terminated
old_backend = refl

preexisting_terminated_example :
    is_terminated (BackendState.terminated BackendStatus.scheduled none none none) ≡ true
preexisting_terminated_example =
    preexisting_terminated clock store after_start 3
      (BackendState.terminated BackendStatus.scheduled none none none) started old_backend

abbrev fresh : Drone
fresh = record { keys = KeyManager.new; executor = empty_executor }

no_key : Table.get 3 fresh.keys.handles ≡ none
unfolding KeyManager.new Table.get
no_key = refl

-- A minute after the soft deadline.
spawn_applied_example :
    let (d', reply) =
      handle_message clock true
        (100 * second)
        (Messages.action 5 3 (BackendAction.spawn 8 key none))
        fresh in
    (reply.acked ≡ some 5)
    × (reply.warned ≡ ltb (40 * second) (100 * second))
    × (Table.get 3 d'.executor.backends ≡ some (BackendManager.new accept BackendState.scheduled).0)
spawn_applied_example = spawn_applied clock true (100 * second) 5 3 8 key none fresh no_key
