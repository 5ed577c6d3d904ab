-- ===== src/Tests.antt =====
-- Runs of the models on concrete inputs, where the conditions of the theorems hold.
mod Acme
mod Leases
mod Connects
mod Rows
mod Drones
mod Managers
mod Proxies
mod Events
mod Streams
mod Routes
mod Fleet
mod Cleanup
