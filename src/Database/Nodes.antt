-- ===== src/Database/Nodes.antt =====
-- plane/src/database/node.rs and controller.rs: the nodes (drones, proxies, DNS servers) and the
-- controller that each is connected to.
pub mod Online
use plane.Prelude.{
  Bool, List, Option, [], false, find, if◌then◌else◌, is_some, ltb, none, some, suc, true, ℕ, ◌&&◌,
  ◌*◌, ◌++◌, ◌+◌, ◌==◌, ◌∷◌,
}
use plane.Prelude.Rows.{any_where, update_where}
use plane.Protocol.{second}

pub record NodeRow : Type 0 where
  pub id : ℕ
  pub cluster : Option ℕ
  pub name : ℕ
  pub kind : ℕ
  pub controller : Option ℕ
  pub plane_version : ℕ
  pub plane_hash : ℕ
  pub ip : ℕ
  pub last_connection_start_time : Option ℕ

pub record ControllerRow : Type 0 where
  pub id : ℕ
  pub is_online : Bool
  pub last_heartbeat : ℕ

-- `next_id` is the sequence of the ids; `emitted` has the notifications of
-- `NodeConnectionStatusChangeNotification`.
pub record Nodes : Type 0 where
  pub rows : List NodeRow
  pub next_id : ℕ
  pub emitted : List (ℕ × Bool)

pub record PlaneVersionInfo : Type 0 where
  pub version : ℕ
  pub git_hash : ℕ

-- Two clusters of the index are equal; a null is not equal to itself there.
abbrev same_cluster : Option ℕ → Option ℕ → Bool
same_cluster none c = false
same_cluster (some a) none = false
same_cluster (some a) (some b) = a == b

abbrev pub conflicts : Option ℕ → ℕ → NodeRow → Bool
conflicts cluster name row = same_cluster cluster row.cluster && (name == row.name)

abbrev pub connected : ℕ → ℕ → PlaneVersionInfo → ℕ → NodeRow → NodeRow
connected now controller version ip row = record row {
  controller = some controller;
  plane_version = version.version;
  plane_hash = version.git_hash;
  ip = ip;
  last_connection_start_time = some now;
}

-- `on conflict (cluster, name) do update`: the unique index has at most one such row.
unfoldable pub update_first : (NodeRow → Bool) → (NodeRow → NodeRow) → List NodeRow → List NodeRow
update_first p f [] = []
update_first p f (row ∷ rows) =
    let rest = update_first p f rows in if p row then f row ∷ rows else row ∷ rest

abbrev pub new_node : ℕ → ℕ → Option ℕ → ℕ → ℕ → ℕ → PlaneVersionInfo → ℕ → NodeRow
new_node id now cluster name kind controller version ip = record {
  id = id;
  cluster = cluster;
  name = name;
  kind = kind;
  controller = some controller;
  plane_version = version.version;
  plane_hash = version.git_hash;
  ip = ip;
  last_connection_start_time = some now;
}

unfoldable pub registered :
    ℕ → Option ℕ → ℕ → ℕ → ℕ → PlaneVersionInfo → ℕ → Option NodeRow → Nodes → ℕ × Nodes
unfolding update_first
registered now cluster name kind controller version ip none nodes = (
  nodes.next_id,
  record {
    rows = nodes.rows ++ new_node nodes.next_id now cluster name kind controller version ip ∷ [];
    next_id = suc nodes.next_id;
    emitted = nodes.emitted ++ (nodes.next_id, true) ∷ [];
  },
)
registered now cluster name kind controller version ip (some row) nodes = (
  row.id,
  record nodes {
    rows = update_first (conflicts cluster name) (connected now controller version ip) nodes.rows;
    emitted = nodes.emitted ++ (row.id, true) ∷ [];
  },
)

-- The node's id and the time of the connection, which is the time of the transaction.
unfoldable pub register : ℕ → Option ℕ → ℕ → ℕ → ℕ → PlaneVersionInfo → ℕ → Nodes → (ℕ × ℕ) × Nodes
unfolding registered find
register now cluster name kind controller version ip nodes =
    let (id, nodes') =
      registered now cluster name kind controller version ip
        (find (conflicts cluster name) nodes.rows) nodes in
    ((id, now), nodes')

abbrev pub has : Option ℕ → ℕ → Bool
has none n = false
has (some m) n = m == n

abbrev pub is_connection : ℕ → ℕ → ℕ → NodeRow → Bool
is_connection node_id controller start row =
    (row.id == node_id)
    && (has row.controller controller && has row.last_connection_start_time start)

unfoldable pub mark_offline : ℕ → ℕ → ℕ → Nodes → Nodes
unfolding update_where
mark_offline node_id controller start nodes = record nodes {
  rows =
      update_where (is_connection node_id controller start)
        (λ row. record row { controller = none }) nodes.rows;
  emitted = nodes.emitted ++ (node_id, false) ∷ [];
}

abbrev pub unhealthy_seconds : ℕ
unhealthy_seconds = 45

-- `left join controller on controller.id = node.controller`
abbrev pub joined_controller : List ControllerRow → Option ℕ → Option ControllerRow
joined_controller controllers none = none
joined_controller controllers (some c) = find (λ (row : ControllerRow). row.id == c) controllers

-- `controller.is_online and controller.last_heartbeat - now() < $1`
abbrev controller_of : ℕ → Option ControllerRow → Option ℕ
controller_of now none = none
controller_of now (some c) =
    if c.is_online && ltb c.last_heartbeat (now + unhealthy_seconds * second)
    then some c.id
    else none

-- `NodeRow::active` of the row that `get_by_id` and `list` give for a node.
unfoldable pub active : ℕ → List ControllerRow → NodeRow → Bool
unfolding find
active now controllers row =
    is_some (controller_of now (joined_controller controllers row.controller))

-- `ControllerDatabase::heartbeat`
unfoldable controller_heartbeat : ℕ → ℕ → Bool → List ControllerRow → List ControllerRow
unfolding any_where update_where
controller_heartbeat now name is_online rows =
    if any_where (λ (row : ControllerRow). row.id == name) rows
    then update_where (λ (row : ControllerRow). row.id == name)
        (λ row. record row { is_online = is_online; last_heartbeat = now }) rows
    else rows ++ record { id = name; is_online = is_online; last_heartbeat = now } ∷ []
