-- ===== src/Enums.antt =====
-- The enums of src/enums and their names and numbers in the two editions.
pub mod Prefix
pub mod Facing4
pub mod Facing6
pub mod GameMode
pub mod BannerColor
pub mod ColorCode
pub mod VillagerType
pub mod VillagerProfession
pub mod SkullType
pub mod RedFlower
pub mod Names
pub mod Facings
pub mod Numbers
