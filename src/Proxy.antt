-- ===== src/Proxy.antt =====
-- src/proxy: connections through a proxy.
pub mod Routing
pub mod Stream
pub mod Connector
pub mod Tunnel
