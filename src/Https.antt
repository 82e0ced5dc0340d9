-- ===== src/Https.antt =====
-- src/https: connections over TLS.
pub mod Tls
pub mod Stream
pub mod Client
pub mod Default
