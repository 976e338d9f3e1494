-- ===== src/Enums/Names.antt =====
-- The names of the skulls, the flowers and the villagers of src/enums, parsed and printed.
use Prim.Native.String.{String}
use je2be.Prelude.{◌≡◌, ◌↔◌, subst, refl, some}
use je2be.Enums.Prefix.{minecraft, find_named, find_named-name}
use je2be.Enums.SkullType.{
  SkullType, java_name_from_skull_type, skull_type_from_java_name, skull_types, skeleton,
  wither_skeleton, zombie, player, creeper, dragon, piglin,
}
use je2be.Enums.RedFlower.{
  RedFlower, bedrock_name_from_red_flower, java_name_from_red_flower, red_flower_from_bedrock_name,
  red_flower_from_java_name, red_flowers, blue_orchid, azure_bluet, red_tulip, orange_tulip,
  white_tulip, pink_tulip, oxeye_daisy, poppy, allium, cornflower, lily_of_the_valley,
}
use je2be.Enums.VillagerType.{
  VillagerType, villager_type_from_java, villager_type_string, plains, desert, jungle, savanna,
  snow, swamp, taiga,
}
use je2be.Enums.VillagerProfession.{
  VillagerProfession, villager_profession_from_java, villager_profession_string, farmer, fisherman,
  shepherd, fletcher, librarian, cartographer, cleric, armorer, weapon_smith, tool_smith, butcher,
  leather_worker, stone_mason, nitwit,
}

skull_found :
    (s : SkullType)
    → find_named java_name_from_skull_type (java_name_from_skull_type s) skull_types ≡ some s
unfolding find_named java_name_from_skull_type
skull_found skeleton = refl
skull_found wither_skeleton = refl
skull_found zombie = refl
skull_found player = refl
skull_found creeper = refl
skull_found dragon = refl
skull_found piglin = refl

-- A text is parsed to a skull exactly when it is the Java name of that skull.
skull_type_from_java_name_iff :
    (n : String) (s : SkullType)
    → (skull_type_from_java_name n ≡ some s) ↔ (java_name_from_skull_type s ≡ n)
unfolding skull_type_from_java_name
skull_type_from_java_name_iff n s = (
  find_named-name java_name_from_skull_type n skull_types s,
  λ h. subst (λ m. find_named java_name_from_skull_type m skull_types ≡ some s) h (skull_found s),
)

bedrock_flower_found :
    (s : RedFlower)
    → find_named bedrock_name_from_red_flower (bedrock_name_from_red_flower s) red_flowers ≡ some s
unfolding find_named bedrock_name_from_red_flower
bedrock_flower_found blue_orchid = refl
bedrock_flower_found azure_bluet = refl
bedrock_flower_found red_tulip = refl
bedrock_flower_found orange_tulip = refl
bedrock_flower_found white_tulip = refl
bedrock_flower_found pink_tulip = refl
bedrock_flower_found oxeye_daisy = refl
bedrock_flower_found poppy = refl
bedrock_flower_found allium = refl
bedrock_flower_found cornflower = refl
bedrock_flower_found lily_of_the_valley = refl

java_flower_found :
    (s : RedFlower)
    → find_named java_name_from_red_flower (java_name_from_red_flower s) red_flowers ≡ some s
unfolding find_named java_name_from_red_flower
java_flower_found blue_orchid = refl
java_flower_found azure_bluet = refl
java_flower_found red_tulip = refl
java_flower_found orange_tulip = refl
java_flower_found white_tulip = refl
java_flower_found pink_tulip = refl
java_flower_found oxeye_daisy = refl
java_flower_found poppy = refl
java_flower_found allium = refl
java_flower_found cornflower = refl
java_flower_found lily_of_the_valley = refl

-- A text is parsed to a flower as a Bedrock name exactly when it is the Bedrock name of that flower.
red_flower_from_bedrock_name_iff :
    (n : String) (s : RedFlower)
    → (red_flower_from_bedrock_name n ≡ some s) ↔ (bedrock_name_from_red_flower s ≡ n)
unfolding red_flower_from_bedrock_name
red_flower_from_bedrock_name_iff n s = (
  find_named-name bedrock_name_from_red_flower n red_flowers s,
  λ h.
      subst (λ m. find_named bedrock_name_from_red_flower m red_flowers ≡ some s) h
        (bedrock_flower_found s),
)

-- A text is parsed to a flower as a Java name exactly when it is the Java name of that flower.
red_flower_from_java_name_iff :
    (n : String) (s : RedFlower)
    → (red_flower_from_java_name n ≡ some s) ↔ (java_name_from_red_flower s ≡ n)
unfolding red_flower_from_java_name
red_flower_from_java_name_iff n s = (
  find_named-name java_name_from_red_flower n red_flowers s,
  λ h.
      subst (λ m. find_named java_name_from_red_flower m red_flowers ≡ some s) h
        (java_flower_found s),
)

-- The name of a villager's type is parsed back to it, with and without the prefix `minecraft:`.
villager_type_names :
    (v : VillagerType)
    → (villager_type_from_java (villager_type_string v) ≡ some v)
      × (villager_type_from_java (minecraft (villager_type_string v)) ≡ some v)
unfolding villager_type_from_java villager_type_string minecraft
villager_type_names plains = (refl, refl)
villager_type_names desert = (refl, refl)
villager_type_names jungle = (refl, refl)
villager_type_names savanna = (refl, refl)
villager_type_names snow = (refl, refl)
villager_type_names swamp = (refl, refl)
villager_type_names taiga = (refl, refl)

-- The name of a villager's profession is parsed back to it, with and without the prefix `minecraft:`.
villager_profession_names :
    (v : VillagerProfession)
    → (villager_profession_from_java (villager_profession_string v) ≡ some v)
      × (villager_profession_from_java (minecraft (villager_profession_string v)) ≡ some v)
unfolding villager_profession_from_java villager_profession_string minecraft
villager_profession_names farmer = (refl, refl)
villager_profession_names fisherman = (refl, refl)
villager_profession_names shepherd = (refl, refl)
villager_profession_names fletcher = (refl, refl)
villager_profession_names librarian = (refl, refl)
villager_profession_names cartographer = (refl, refl)
villager_profession_names cleric = (refl, refl)
villager_profession_names armorer = (refl, refl)
villager_profession_names weapon_smith = (refl, refl)
villager_profession_names tool_smith = (refl, refl)
villager_profession_names butcher = (refl, refl)
villager_profession_names leather_worker = (refl, refl)
villager_profession_names stone_mason = (refl, refl)
villager_profession_names nitwit = (refl, refl)
