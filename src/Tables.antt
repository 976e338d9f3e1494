-- ===== src/Tables.antt =====
-- The two-way tables between Java and Bedrock values: src/_reversible-map.hpp,
-- src/_static-reversible-map.hpp and the classes under src/entity and src/item that hold one.
pub mod ReversibleMap
pub mod Entities
pub mod Items
pub mod Paintings
pub mod Inverse
