-- ===== src/Http.antt =====
-- src/http: connections over TCP, and the resolution of names.
pub mod Dns
pub mod Tcp
pub mod Connecting
pub mod Gai
pub mod Ares
