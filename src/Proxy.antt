-- ===== src/Proxy.antt =====
-- The WebSocket proxy sidecar, internal/proxy.
pub mod Config
pub mod Metrics
pub mod Slots
pub mod Connections
pub mod Session
pub mod Bridge
pub mod Health
pub mod HealthCheck
pub mod Served
pub mod Writes
pub mod Keepalive
pub mod Serving
pub mod Pages
pub mod Site
