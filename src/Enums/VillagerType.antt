-- ===== src/Enums/VillagerType.antt =====
-- src/enums/_villager-type.hpp.
use Prim.Native.String.{String}
use text.Mathlib.Text.{◌==◌}
use je2be.Prelude.Int.{ℤ, pos}
use je2be.Prelude.{Option, none, some, if◌then◌else◌}
use je2be.Enums.Prefix.{has_prefix, skip}

pub data VillagerType : Type 0 where
  plains : VillagerType
  desert : VillagerType
  jungle : VillagerType
  savanna : VillagerType
  snow : VillagerType
  swamp : VillagerType
  taiga : VillagerType

-- The value of the enum, which `variant` returns.
unfoldable pub villager_type_variant : VillagerType → ℤ
villager_type_variant plains = pos 0
villager_type_variant desert = pos 1
villager_type_variant jungle = pos 2
villager_type_variant savanna = pos 3
villager_type_variant snow = pos 4
villager_type_variant swamp = pos 5
villager_type_variant taiga = pos 6

unfoldable pub villager_type_from_java : String → Option VillagerType
unfolding has_prefix skip
villager_type_from_java n =
    let t = if has_prefix "minecraft:" n then skip 10 n else n in
    if t == "savanna"
    then some savanna
    else if t == "plains"
    then some plains
    else if t == "desert"
    then some desert
    else if t == "jungle"
    then some jungle
    else if t == "snow"
    then some snow
    else if t == "swamp"
    then some swamp
    else if t == "taiga"
    then some taiga
    else none

unfoldable pub villager_type_string : VillagerType → String
villager_type_string plains = "plains"
villager_type_string desert = "desert"
villager_type_string jungle = "jungle"
villager_type_string savanna = "savanna"
villager_type_string snow = "snow"
villager_type_string swamp = "swamp"
villager_type_string taiga = "taiga"
