-- ===== src/Controller.antt =====
-- plane/src/controller: what a controller does with the messages of the nodes that are connected to
-- it.
pub mod ProxySocket
pub mod StatusStream
pub mod DroneSocket
