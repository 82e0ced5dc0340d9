-- ===== src/Tests.antt =====
-- Runs of the model on concrete inputs, and an instance of each theorem with hypotheses.
mod Connections
mod Destinations
mod Routes
mod Tls
mod Ways
mod Grants
mod Sharing
mod Served
mod Downloads
mod Lookups
mod Clients
mod Targets
mod Tunnels
mod World
mod Parsing
mod Bodies
mod Exchanges
mod Requests
mod Whole
mod Race
mod Secured
