-- ===== src/Drone.antt =====
-- plane/src/drone: the agent that runs backends on one machine.
pub mod StateStore
pub mod KeyManager
pub mod BackendManager
pub mod Executor
pub mod Messages
