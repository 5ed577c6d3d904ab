-- ===== src/Controller/DroneSocket.antt =====
-- plane/src/controller/drone.rs, terminate.rs and drain.rs: what a controller does with the messages
-- of a drone, the actions that it sends to it, and the requests to terminate a backend and to drain
-- a drone. A query of the database that fails is not modelled. Metrics are passed on and not kept.
pub mod Sweeping
pub mod Directed
use mathlib.Core.Option
use plane.Prelude.{Bool, List, Option, [], false, find, map, none, some, true, ℕ, ◌&&◌, ◌==◌, ◌∷◌}
use plane.Protocol.{BackendAction, KeyDeadlines}
use plane.BackendState.{BackendState, TerminationKind, external, hard, soft, swept}
use plane.Database.{ActionRow, BackendRow, Database}
use plane.Database.Keys.{handle_renew_key}
use plane.Database.Nodes.{NodeRow}
use plane.Database.Drones.{DroneRow, drain, heartbeat, in_cluster}
use plane.Database.Actions.{ack_pending_action, create_pending_action, pending_actions}
use plane.Database.Backend.{backend, termination_candidates, update_state}

record Tables : Type 0 where
  pub db : Database
  pub drones : List DroneRow

data MessageFromDrone : Type 0 where
  backend_metrics : MessageFromDrone
  heartbeat_message : (local_time : ℕ) → MessageFromDrone
  backend_event : (event_id backend : ℕ) (state : BackendState) → MessageFromDrone
  ack_action : (action_id : ℕ) → MessageFromDrone
  renew_key_request : (backend local_time : ℕ) → MessageFromDrone

pub data MessageToDrone : Type 0 where
  action : ActionRow → MessageToDrone
  ack_event : (event_id : ℕ) → MessageToDrone
  renew_key_response : (backend : ℕ) (deadlines : KeyDeadlines) → MessageToDrone

renewal : ℕ → Option KeyDeadlines → List MessageToDrone
renewal b none = []
renewal b (some deadlines) = renew_key_response b deadlines ∷ []

-- An event is acknowledged whether its state was taken or was late.
unfoldable handle_message_from_drone :
    ℕ → ℕ → MessageFromDrone → Tables → List MessageToDrone × Tables
unfolding renewal
handle_message_from_drone now drone backend_metrics t = ([], t)
handle_message_from_drone now drone (heartbeat_message local_time) t =
    ([], record t { drones = heartbeat now drone local_time t.drones })
handle_message_from_drone now drone (backend_event event_id b state) t =
    (ack_event event_id ∷ [], record t { db = (update_state now b state t.db).1 })
handle_message_from_drone now drone (ack_action action_id) t =
    ([], record t { db = ack_pending_action now action_id drone t.db })
handle_message_from_drone now drone (renew_key_request b local_time) t =
    let (deadlines, db) = handle_renew_key now b local_time t.db in
    (renewal b deadlines, record t { db = db })

abbrev pending_actions_limit : ℕ
pending_actions_limit = 50

unfoldable process_pending_actions : ℕ → Database → List MessageToDrone
process_pending_actions drone db = map action (pending_actions drone pending_actions_limit db)

abbrev pub swept_action : BackendAction
swept_action = BackendAction.terminate soft swept

-- The candidates of one round; `action_id` gives their actions ids.
unfoldable pub sweep_all : ℕ → (ℕ → ℕ) → ℕ → List BackendRow → Database → Database
sweep_all now action_id drone [] db = db
sweep_all now action_id drone (row ∷ rows) db =
    sweep_all now action_id drone rows
      (create_pending_action now (action_id row.id) row.id drone swept_action db).1

-- One round of `sweep_loop`.
unfoldable pub sweep : ℕ → (ℕ → ℕ) → ℕ → Database → Database
unfolding sweep_all
sweep now action_id drone db =
    sweep_all now action_id drone (termination_candidates now drone db) db

abbrev kind_of : Bool → TerminationKind
kind_of true = hard
kind_of false = soft

terminate_row : ℕ → ℕ → ℕ → Bool → Option BackendRow → Database → Option Database
terminate_row now action_id b is_hard none db = none
terminate_row now action_id b is_hard (some row) db =
    some
      (create_pending_action now action_id b row.drone_id
        (BackendAction.terminate (kind_of is_hard) external) db).1

-- `terminate`: none is the answer `not found`.
unfoldable pub terminate : ℕ → ℕ → ℕ → Bool → Database → Option Database
unfolding terminate_row
terminate now action_id b is_hard db = terminate_row now action_id b is_hard (backend b db) db

abbrev is_node : ℕ → ℕ → NodeRow → Bool
is_node cluster name row = in_cluster cluster row.cluster && (row.name == name)

unfoldable get_id : ℕ → ℕ → List NodeRow → Option ℕ
unfolding find
get_id cluster name rows = Option.map (λ (row : NodeRow). row.id) (find (is_node cluster name) rows)

updated : Option Bool × List DroneRow → Option (Bool × List DroneRow)
updated (none, rows) = none
updated (some was, rows) = some (was, rows)

drain_node : Option ℕ → List DroneRow → Option (Bool × List DroneRow)
unfolding updated
drain_node none drones = none
drain_node (some id) drones = updated (drain id drones)

-- `handle_drain`: whether the drone was not draining; none is an error.
unfoldable handle_drain : ℕ → ℕ → List NodeRow → List DroneRow → Option (Bool × List DroneRow)
unfolding drain_node
handle_drain cluster name nodes drones = drain_node (get_id cluster name nodes) drones
