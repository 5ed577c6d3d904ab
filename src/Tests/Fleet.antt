-- ===== src/Tests/Fleet.antt =====
-- A small cluster: its nodes and drones (plane/src/database/node.rs, drone.rs), the actions that
-- wait for them (backend_actions.rs, plane/src/controller/drone.rs), and a backoff.
use mathlib.Core.List.{Memᴰ, Perm}
use mathlib.Core.List.Perm
use plane.Prelude.{
  All, List, [], arith, false, filterb, find, length, refl, some, true, ℕ, ◌*◌, ◌+◌, ◌∷◌, ◌≡◌, ◌≢◌,
  ◌≤◌, ◌↔◌, ◌⊎◌,
}
use plane.Prelude.Rows.{any_where, delete_where, update_where}
use plane.Protocol.{second, BackendAction}
use plane.BackendState.{soft, external}
use plane.Database.{BackendRow, Database}
use plane.Database.Nodes.{
  ControllerRow, NodeRow, PlaneVersionInfo, mark_offline, register, registered, update_first,
}
use plane.Database.Nodes.Online.Exact.{reach-Shows}
use plane.Database.Nodes.Online.{
  NodeHandle, Shows, World, connect, connects, drops, empty, here, next, Reach,
}
use plane.Database.Drones.{
  Candidate, DroneForSpawn, DroneRow, backend_count, candidate, candidates, drain, for_spawn,
  heartbeat, least, min_by_count, of_drone, or_zero, pick_drone_for_spawn, register_drone,
}
use plane.Database.Drones.Picking.{
  drawn, is_suitable, pick_drone_for_spawn_least, pick_drone_for_spawn-none, stands_for,
}
use plane.Database.Drones.Draining.{Change, beats, drained-not_picked, registers}
use plane.Database.Actions.{ack_pending_action, create_pending_action, pending_actions}
use plane.Database.Actions.Pending
use plane.Database.Actions.Pending.{is_for, pending_until_acked}
use plane.Database.Cleanup.{delete_backends}
use plane.Controller.DroneSocket.{sweep}
use plane.Controller.DroneSocket.Sweeping.{sweep_tells, told}
use plane.Controller.DroneSocket.Sweeping.Overdue.{IsOverdue}
use plane.Backoff
use plane.Backoff.{ExponentialBackoff}
use plane.Backoff.Bounds.{defers, run, run_bounds, waits}
use plane.Tests.Streams.{backend_row, database}

abbrev version : PlaneVersionInfo
version = record { version = 1; git_hash = 1 }

-- A drone connects, connects again to another controller, and then its first handle is dropped.
abbrev once : World
once = connect 10 (some 1) 5 0 100 version 1 empty

abbrev twice : World
twice = connect 20 (some 1) 5 0 200 version 1 once

abbrev handle : ℕ → ℕ → NodeHandle
handle controller start = record { id = 1; controller = controller; connection_start_time = start }

abbrev late_drop : World
late_drop = record twice { nodes = mark_offline 1 100 10 twice.nodes; handles = handle 200 20 ∷ [] }

reconnects : Reach empty late_drop
unfolding register registered update_first find
reconnects =
    next {u = twice}
      (next {u = once}
        (next {u = empty} here (connects 10 (some 1) 5 0 100 version 1 (omega arith) refl))
        (connects 20 (some 1) 5 0 200 version 1 (omega arith) refl))
      (drops (handle 200 20 ∷ []) (handle 100 10) [] refl refl)

reach-Shows_example : All (Shows late_drop.handles) late_drop.nodes.rows
reach-Shows_example = reach-Shows late_drop reconnects

abbrev node : ℕ → ℕ → NodeRow
node id name = record {
  id = id;
  cluster = some 1;
  name = name;
  kind = 0;
  controller = some 100;
  plane_version = 1;
  plane_hash = 1;
  ip = 1;
  last_connection_start_time = some 10;
}

abbrev nodes : List NodeRow
nodes = node 7 70 ∷ node 8 80 ∷ []

abbrev controllers : List ControllerRow
controllers = record { id = 100; is_online = true; last_heartbeat = 100 * second } ∷ []

abbrev drone : ℕ → DroneRow
drone id = record {
  id = id;
  draining = false;
  ready = true;
  pool = 3;
  last_heartbeat = some (100 * second);
  last_local_time = some (99 * second);
}

abbrev drones : List DroneRow
drones = drone 7 ∷ drone 8 ∷ []

-- The draw leaves the order as it is. Drone 7 has a backend.
abbrev as_is : List Candidate → List Candidate
as_is cs = cs

as_is_perm : (cs : List Candidate) → Perm (as_is cs) cs
as_is_perm cs = Perm.refl cs

abbrev idle_drone : DroneForSpawn
idle_drone = record { id = 8; drone = 80; last_local_time = 99 * second }

pick_drone_for_spawn_least_example :
    (c : Candidate) × (for_spawn (some c) ≡ some idle_drone)
    × (any_where (stands_for (110 * second) 1 3 controllers (backend_row ∷ []) drones c) nodes
        ≡ true)
    × All
        (λ (d : Candidate). c.backend_count ≤ d.backend_count)
        (drawn (110 * second) 1 3 controllers (backend_row ∷ []) drones as_is as_is_perm 2 nodes)
unfolding find filterb pick_drone_for_spawn candidates candidate of_drone or_zero backend_count
    min_by_count least
pick_drone_for_spawn_least_example =
    pick_drone_for_spawn_least (110 * second) 1 3 controllers (backend_row ∷ []) drones as_is
      as_is_perm 2 nodes idle_drone refl

-- Nobody is there for the pool 4.
pick_drone_for_spawn-none_example :
    any_where (is_suitable (110 * second) 1 4 controllers drones) nodes ≡ false
unfolding find pick_drone_for_spawn candidates candidate of_drone min_by_count
pick_drone_for_spawn-none_example =
    pick_drone_for_spawn-none (110 * second) 1 4 controllers (backend_row ∷ []) drones as_is
      as_is_perm 2 nodes (omega arith) refl

abbrev busy_drone : DroneForSpawn
busy_drone = record { id = 7; drone = 70; last_local_time = 104 * second }

-- Drone 8 drains, and both send heartbeats; drone 8 registers again.
abbrev later : List Change
later =
    beats (105 * second) 7 (104 * second)
    ∷ registers 8 true 3
    ∷ beats (105 * second) 8 (104 * second)
    ∷ []

drained-not_picked_example : busy_drone.id ≢ 8
unfolding find filterb any_where update_where pick_drone_for_spawn candidates candidate of_drone
    or_zero backend_count min_by_count least drain register_drone heartbeat
drained-not_picked_example =
    drained-not_picked as_is as_is_perm (110 * second) 1 3 2 8 controllers (backend_row ∷ []) nodes
      drones later busy_drone refl refl

abbrev stop_it : BackendAction
stop_it = BackendAction.terminate soft external

-- Another action is created and acknowledged meanwhile, another drone uses the id, and another
-- backend is deleted.
abbrev others : List Pending.Change
others =
    Pending.creates 101 2 51 7 stop_it
    ∷ Pending.acks 102 2 7
    ∷ Pending.acks 103 1 8
    ∷ Pending.cleans 104 (record backend_row { id = 51 } ∷ [])
    ∷ []

pending_until_acked_example :
    any_where (is_for 1 50) (
      pending_actions 7 50
        (Pending.changes others (create_pending_action 100 1 50 7 stop_it database).1))
    ≡ true
unfolding filterb update_where delete_where any_where delete_backends create_pending_action
    ack_pending_action
pending_until_acked_example =
    pending_until_acked 100 1 50 7 50 stop_it others database (refl, (refl, (refl, (refl, tt))))
      (omega arith)

abbrev idle_database : Database
idle_database = record database {
  backend = record backend_row { allowed_idle_seconds = some 30 } ∷ [];
}

sweep_tells_example :
    (any_where (told 7 50) (sweep (200 * second) (λ b. b) 7 idle_database).backend_action ≡ true)
    ↔ (((row : BackendRow) × Memᴰ row idle_database.backend
          × (row.id ≡ 50)
          × IsOverdue (200 * second) 7 row)
        ⊎ (any_where (told 7 50) idle_database.backend_action ≡ true))
sweep_tells_example = sweep_tells (200 * second) (λ b. b) 7 50 idle_database

abbrev fresh : ExponentialBackoff
fresh = Backoff.new (60 * second) (60 * second)

run_bounds_example :
    let calls = waits 0 ∷ waits (2 * second) ∷ defers (5 * second) ∷ waits (70 * second) ∷ [] in
    let (sleeps, b) = run (λ n. 1000 + 100 * n) calls fresh in
    All (λ d. d ≤ fresh.max_duration) sleeps × (b.step ≤ fresh.step + length calls)
run_bounds_example =
    run_bounds (λ n. 1000 + 100 * n)
      (waits 0 ∷ waits (2 * second) ∷ defers (5 * second) ∷ waits (70 * second) ∷ []) fresh
