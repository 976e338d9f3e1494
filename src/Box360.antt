-- ===== src/Box360.antt =====
-- The Xbox 360 edition's formats: src/box360.
pub mod Grid
pub mod Savegame
