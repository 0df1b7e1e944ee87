-- ===== src/Tunnel.antt =====
-- The tunnel service (tunnel).
pub mod Address
pub mod Mtu
pub mod Watcher
pub mod RuntimeLog
pub mod RuntimeMetrics
pub mod Tests
