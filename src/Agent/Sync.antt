-- ===== src/Agent/Sync.antt =====
-- node/agent/api/sync.go: the full synchronisation, which builds a shadow map beside the active one
-- and publishes it by one write of a selector.
pub mod Whitelist
pub mod Route
pub mod Rules
pub mod AddRule
mod Tests
