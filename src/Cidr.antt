-- ===== src/Cidr.antt =====
-- node/agent/cidr/manager.go: CIDR prefixes, their numbers and their entries in the LPM tries.
pub mod Manager
mod Tests
