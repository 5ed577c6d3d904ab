-- ===== src/Database/Drones.antt =====
-- plane/src/database/drone.rs: the table of drones, and the choice of a drone for a new backend.
pub mod Picking
pub mod Draining
use plane.Prelude.{
  Bool, List, Option, [], false, filterb, find, if◌then◌else◌, is_some, length, ltb, none, not,
  some, take, true, ℕ, ◌&&◌, ◌*◌, ◌++◌, ◌+◌, ◌==◌, ◌∷◌,
}
use plane.Prelude.Rows.{any_where, update_where}
use plane.Protocol.{second}
use plane.BackendState.{BackendStatus}
use plane.Database.{BackendRow}
use plane.Database.Backend.{is_terminated_status}
use plane.Database.Nodes.{ControllerRow, NodeRow, joined_controller, unhealthy_seconds}

pub record DroneRow : Type 0 where
  pub id : ℕ
  pub draining : Bool
  pub ready : Bool
  pub pool : ℕ
  pub last_heartbeat : Option ℕ
  pub last_local_time : Option ℕ

abbrev pub is_drone : ℕ → DroneRow → Bool
is_drone id row = row.id == id

-- `insert … on conflict (id) do update set ready = $2`: a drone that returns keeps draining.
unfoldable pub register_drone : ℕ → Bool → ℕ → List DroneRow → List DroneRow
unfolding any_where update_where
register_drone id ready pool rows =
    if any_where (is_drone id) rows
    then update_where (is_drone id) (λ row. record row { ready = ready }) rows
    else rows
      ++ record {
        id = id;
        draining = false;
        ready = ready;
        pool = pool;
        last_heartbeat = none;
        last_local_time = none;
      }
        ∷ []

was_draining : Option DroneRow → Option Bool
was_draining none = none
was_draining (some row) = some (not row.draining)

-- Whether the drone was not draining before; an error (none) where there is no such drone.
unfoldable pub drain : ℕ → List DroneRow → Option Bool × List DroneRow
unfolding find update_where was_draining
drain id rows = (
  was_draining (find (is_drone id) rows),
  update_where (is_drone id) (λ row. record row { draining = true }) rows,
)

unfoldable pub heartbeat : ℕ → ℕ → ℕ → List DroneRow → List DroneRow
unfolding update_where
heartbeat now id local_time rows =
    update_where (is_drone id)
      (λ row. record row { last_heartbeat = some now; last_local_time = some local_time }) rows

-- A row of the query: the drone and the number of its backends that have not terminated.
pub record Candidate : Type 0 where
  pub id : ℕ
  pub name : ℕ
  pub last_local_time : ℕ
  pub backend_count : ℕ

pub record DroneForSpawn : Type 0 where
  pub id : ℕ
  pub drone : ℕ
  pub last_local_time : ℕ

unfoldable pub backend_count : ℕ → List BackendRow → ℕ
unfolding filterb
backend_count id backends = length (
    filterb (λ (row : BackendRow). row.drone_id == id && not (is_terminated_status row.last_status))
      backends)

-- `now() - t < $2`; a null is not.
abbrev is_recent : ℕ → Option ℕ → Bool
is_recent now none = false
is_recent now (some t) = ltb now (t + unhealthy_seconds * second)

abbrev pub is_live : ℕ → Option ControllerRow → Bool
is_live now none = false
is_live now (some c) = is_recent now (some c.last_heartbeat) && c.is_online

abbrev pub in_cluster : ℕ → Option ℕ → Bool
in_cluster cluster none = false
in_cluster cluster (some c) = c == cluster

-- The conditions on the drone itself.
abbrev pub is_eligible : ℕ → ℕ → DroneRow → Bool
is_eligible now pool d =
    d.ready
    && (is_recent now d.last_heartbeat
        && (not d.draining && (is_some d.last_local_time && d.pool == pool)))

-- The conditions on its node and the node's controller.
abbrev pub is_reachable : ℕ → ℕ → List ControllerRow → NodeRow → Bool
is_reachable now cluster controllers node =
    in_cluster cluster node.cluster && is_live now (joined_controller controllers node.controller)

unfoldable pub or_zero : Option ℕ → ℕ
or_zero none = 0
or_zero (some t) = t

abbrev row_of : ℕ → NodeRow → List BackendRow → DroneRow → Candidate
row_of n node backends d = record {
  id = d.id;
  name = node.name;
  last_local_time = n;
  backend_count = backend_count node.id backends;
}

-- The row of a node and its drone, where the conditions hold.
unfoldable pub of_drone :
    ℕ → ℕ → ℕ → List ControllerRow → List BackendRow → NodeRow → Option DroneRow → Option Candidate
unfolding or_zero
of_drone now cluster pool controllers backends node none = none
of_drone now cluster pool controllers backends node (some d) =
    if is_reachable now cluster controllers node && is_eligible now pool d
    then some (row_of (or_zero d.last_local_time) node backends d)
    else none

-- `left join drone on node.id = drone.id`, and the `where`.
unfoldable pub candidate :
    ℕ → ℕ → ℕ → List ControllerRow → List BackendRow → List DroneRow → NodeRow → Option Candidate
unfolding find of_drone
candidate now cluster pool controllers backends drones node =
    of_drone now cluster pool controllers backends node (find (is_drone node.id) drones)

abbrev add_row : Option Candidate → List Candidate → List Candidate
add_row none rows = rows
add_row (some c) rows = c ∷ rows

unfoldable pub candidates :
    ℕ → ℕ → ℕ → List ControllerRow → List BackendRow → List DroneRow → List NodeRow → List Candidate
candidates now cluster pool controllers backends drones [] = []
candidates now cluster pool controllers backends drones (node ∷ nodes) =
    add_row (candidate now cluster pool controllers backends drones node)
      (candidates now cluster pool controllers backends drones nodes)

unfoldable pub least : Candidate → List Candidate → Candidate
least best [] = best
least best (d ∷ ds) = least (if ltb d.backend_count best.backend_count then d else best) ds

-- `min_by_key`: the first of those with the least count.
unfoldable pub min_by_count : List Candidate → Option Candidate
unfolding least
min_by_count [] = none
min_by_count (c ∷ cs) = some (least c cs)

abbrev pub for_spawn : Option Candidate → Option DroneForSpawn
for_spawn none = none
for_spawn (some c) =
    some (record { id = c.id; drone = c.name; last_local_time = c.last_local_time })

-- `shuffle` is the order of the query, `order by random()`.
unfoldable pub pick_drone_for_spawn :
    (List Candidate → List Candidate)
    → ℕ
    → ℕ
    → ℕ
    → ℕ
    → List ControllerRow
    → List BackendRow
    → List DroneRow
    → List NodeRow
    → Option DroneForSpawn
pick_drone_for_spawn shuffle now cluster pool best_of controllers backends drones nodes =
    for_spawn (
      min_by_count
        (take best_of (shuffle (candidates now cluster pool controllers backends drones nodes))))
