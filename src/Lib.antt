-- ===== src/Lib.antt =====
-- Plane (jamsocket/plane): a control plane that runs backends, each a process that holds a key, on
-- drones, and a proxy that brings their clients to them. The library models the parts that keep the
-- promises of the system, translated from the Rust source and from the SQL of its queries.
--
-- Common parts. BackendState.antt has the states of a backend and their transitions
-- (common/src/types/backend_state.rs), and BackendState/StreamEntry.antt what the status stream shows
-- of them; Protocol.antt has keys, deadlines and actions (common/src/protocol.rs,
-- common/src/types/mod.rs), and Names.antt the names of nodes and backends (common/src/names.rs).
-- Text.antt has strings as lists of code points, with the methods of `str` that the parsers use, and
-- Prelude.antt tests on numbers, lists, maps as association lists and rows of tables.
--
-- The drone (plane/src/drone). The controller's messages go through `handle_message` (mod.rs,
-- Drone/Messages.antt) to the key manager (key_manager.rs, Drone/KeyManager.antt) and to the
-- executor (executor.rs, Drone/Executor.antt), which has one manager for each backend
-- (backend_manager.rs, Drone/BackendManager.antt). A manager reports each of its states to the state
-- store (state_store.rs, Drone/StateStore.antt), which tells them to the controller until they are
-- acked.
--
-- The database of the controllers (plane/src/database). Database.antt has the tables;
-- Database/Backend.antt the queries on backends (backend.rs), Database/Keys.antt those on keys
-- (backend_key.rs) with the renewal of plane/src/controller/drone.rs, Database/Connect.antt a
-- client's connection (connect.rs), Database/Acme.antt the leases of DNS records (acme.rs).
-- Database/Events.antt is the log of events that every controller follows (subscribe.rs), with the
-- follower and its lost connections as a step relation in Database/Events/Follow.antt.
-- Database/Backend/Stream.antt is the stream of a backend's states and Database/Routes.antt the
-- queries for a token (backend.rs); Database/Nodes.antt has the nodes and their controllers (node.rs,
-- controller.rs, and the handles of plane/src/controller/core.rs), Database/Drones.antt the drones and
-- the choice of one (drone.rs), Database/Actions.antt the actions that wait for a drone
-- (backend_actions.rs), Database/Cleanup.antt the clean-up of old rows (plane/src/cleanup.rs).
-- Database/Keys/Lease.antt puts the row of a key, the loop on the drone and the messages between
-- them together as a step relation with two clocks.
--
-- The controllers (plane/src/controller). Controller/ProxySocket.antt answers a proxy (proxy.rs);
-- a request for a route, which queries, subscribes and queries again, is a step relation among the
-- updates of states in Controller/ProxySocket/Waiting.antt. Controller/DroneSocket.antt answers a
-- drone, sends it its actions and sweeps its backends (drone.rs, terminate.rs, drain.rs);
-- Controller/DroneSocket/Directed.antt runs these with the queries that they share the tables with.
-- Controller/StatusStream.antt resumes a stream (backend_state.rs). Backoff.antt is the wait before a
-- loop tries again (common/src/exponential_backoff.rs).
--
-- The proxy (plane/src/proxy). Proxy/Request.antt reads the host and the path of a request
-- (request.rs), Proxy/Headers.antt prepares its headers (proxy_server.rs), and
-- Proxy/ConnectionMonitor.antt counts connections (connection_monitor.rs). Proxy/RouteMap.antt keeps
-- the controller's answers (route_map.rs) in a cache that is given by its operations and laws.
--
-- Conventions. A name, a token or an address that is only compared is a number; times are
-- nanoseconds. A query is a function on the tables; `now` is the time of its transaction. What the
-- code takes from outside (clocks, random ids, the runtime's answers, what other controllers do,
-- sqlite's sort, a random order, the parser of paths, the tests of header values, powers of floats) is
-- an argument. `set_state` has
-- fuel 2 and `connect` at most three attempts, as in the source; the renewal loop runs for as many
-- rounds as it is given. Counters of connections wrap around at 2^32. A header map is the list of
-- its pairs in the order they were added. The manager of a backend reads and writes its state under
-- two locks: Drone/BackendManager/Race.antt has the schedules of the code, and Lifecycle.antt, which
-- the executor uses, those in which each write follows its read at once.
--
-- Not modelled: the sockets and the HTTP interface of the controller, the container runtimes, TLS
-- and the proxying of bodies, the command line, which are I/O; certificates, the reference counts of
-- subscriptions, and the capacity of channels.
mod Prelude
pub mod BackendState
pub mod Protocol
pub mod Drone
pub mod Text
pub mod Names
pub mod Proxy
pub mod Database
pub mod Controller
pub mod Backoff
mod Tests
