-- ===== src/Geometry.antt =====
-- Positions, ranges and boxes of blocks: include/je2be/pos2.hpp, src/_closed-range.hpp and
-- src/_volume.hpp.
pub mod Pos
pub mod ClosedRange
pub mod Volume
