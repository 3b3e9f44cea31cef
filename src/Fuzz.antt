-- ===== src/Fuzz.antt =====
-- src/fuzz/fuzz_targets: the scenarios that the fuzz targets drive through the crate's public
-- interface, and the outcomes that they assert.
pub mod Scenario
pub mod Lossy
pub mod Framing
pub mod Names
pub mod Parts
pub mod Schemas
pub mod Built
pub mod Outcomes
pub mod Asserted
pub mod Targets
pub mod Clients
pub mod Context
pub mod Laws
pub mod ContextSound
pub mod Bounds
pub mod ContextTarget
pub mod Values
pub mod FullValid
pub mod Encoded
pub mod LossyText
