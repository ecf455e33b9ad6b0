-- ===== src/Controller.antt =====
-- The controller in controller/internal: the checks on a rule, and what it stores.
pub mod Types
pub mod Decoder
pub mod Overlap
pub mod Validate
pub mod Create
pub mod Update
pub mod Delete
pub mod Batch
pub mod Steps
pub mod Node
mod Fixture
mod Tests
