-- ===== src/Storage.antt =====
-- The flat arrays over a rectangle or a box of positions: src/_data2d.hpp and src/_data3d.hpp.
pub mod Data2d
pub mod Data3d
