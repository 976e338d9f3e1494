-- ===== src/Tests.antt =====
-- Runs of the model on concrete values, and the theorems at concrete inputs.
pub mod Shared
pub mod Boxes
pub mod Cells
pub mod Portals
pub mod Queue
pub mod Uuids
pub mod Values
pub mod Lighting
pub mod Commands
