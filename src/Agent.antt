-- ===== src/Agent.antt =====
-- The node agent.
pub mod Types
pub mod Combo
pub mod Wire
pub mod Validate
pub mod State
pub mod Config
pub mod Store
pub mod Convert
pub mod Listing
pub mod Rules
mod Tests
pub mod Whitelist
pub mod Cidrs
pub mod CidrRules
pub mod Clear
pub mod Sync
pub mod Startup
pub mod Handle
pub mod Fixture
