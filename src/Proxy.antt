-- ===== src/Proxy.antt =====
-- The proxy: what it does with a request (plane/src/proxy/request.rs and proxy_server.rs), and the
-- connections that it counts and reports (connection_monitor.rs), and the routes that it caches
-- (route_map.rs).
pub mod Request
pub mod Headers
pub mod ConnectionMonitor
pub mod RouteMap
