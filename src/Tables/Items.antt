-- ===== src/Tables/Items.antt =====
-- The ids of items: src/item/_goat-horn.hpp, _tipped-arrow-potion.hpp, _potion.hpp and
-- _enchantments.hpp. An `i16` is a signed integer.
use Prim.Native.String.{String}
use je2be.Prelude.{List, [], ◌∷◌, none, some}
use je2be.Prelude.Int.{ℤ, pos}
use je2be.Prelude.Equality.{string_eq, int_eq}
use je2be.Tables.ReversibleMap.{find, from_list, forward_or, backward_or}

abbrev pub goat_horn_table : List (String × ℤ)
goat_horn_table =
    ("minecraft:ponder_goat_horn", pos 0)
    ∷ ("minecraft:sing_goat_horn", pos 1)
    ∷ ("minecraft:seek_goat_horn", pos 2)
    ∷ ("minecraft:feel_goat_horn", pos 3)
    ∷ ("minecraft:admire_goat_horn", pos 4)
    ∷ ("minecraft:call_goat_horn", pos 5)
    ∷ ("minecraft:yearn_goat_horn", pos 6)
    ∷ ("minecraft:dream_goat_horn", pos 7)
    ∷ []

unfoldable pub goat_horn_damage : String → ℤ
unfolding forward_or from_list
goat_horn_damage i = forward_or (from_list goat_horn_table) i (pos 0)

unfoldable pub goat_horn_instrument : ℤ → String
unfolding backward_or from_list
goat_horn_instrument d = backward_or (from_list goat_horn_table) d "minecraft:ponder_goat_horn"

abbrev pub tipped_arrow_table : List (String × ℤ)
tipped_arrow_table =
    ("minecraft:night_vision", pos 6)
    ∷ ("minecraft:long_night_vision", pos 7)
    ∷ ("minecraft:invisibility", pos 8)
    ∷ ("minecraft:long_invisibility", pos 9)
    ∷ ("minecraft:leaping", pos 10)
    ∷ ("minecraft:long_leaping", pos 11)
    ∷ ("minecraft:strong_leaping", pos 12)
    ∷ ("minecraft:fire_resistance", pos 13)
    ∷ ("minecraft:long_fire_resistance", pos 14)
    ∷ ("minecraft:swiftness", pos 15)
    ∷ ("minecraft:long_swiftness", pos 16)
    ∷ ("minecraft:strong_swiftness", pos 17)
    ∷ ("minecraft:slowness", pos 18)
    ∷ ("minecraft:long_slowness", pos 19)
    ∷ ("minecraft:water_breathing", pos 20)
    ∷ ("minecraft:long_water_breathing", pos 21)
    ∷ ("minecraft:healing", pos 22)
    ∷ ("minecraft:strong_healing", pos 23)
    ∷ ("minecraft:harming", pos 24)
    ∷ ("minecraft:strong_harming", pos 25)
    ∷ ("minecraft:poison", pos 26)
    ∷ ("minecraft:long_poison", pos 27)
    ∷ ("minecraft:strong_poison", pos 28)
    ∷ ("minecraft:regeneration", pos 29)
    ∷ ("minecraft:long_regeneration", pos 30)
    ∷ ("minecraft:strong_regeneration", pos 31)
    ∷ ("minecraft:strength", pos 32)
    ∷ ("minecraft:long_strength", pos 33)
    ∷ ("minecraft:strong_strength", pos 34)
    ∷ ("minecraft:weakness", pos 35)
    ∷ ("minecraft:long_weakness", pos 36)
    ∷ ("minecraft:turtle_master", pos 38)
    ∷ ("minecraft:long_turtle_master", pos 39)
    ∷ ("minecraft:strong_turtle_master", pos 40)
    ∷ ("minecraft:slow_falling", pos 41)
    ∷ ("minecraft:long_slow_falling", pos 42)
    ∷ ("minecraft:strong_slowness", pos 43)
    ∷ []

unfoldable pub tipped_arrow_bedrock : String → ℤ
unfolding forward_or from_list
tipped_arrow_bedrock p = forward_or (from_list tipped_arrow_table) p (pos 6)

unfoldable pub tipped_arrow_java : ℤ → String
unfolding backward_or from_list
tipped_arrow_java p = backward_or (from_list tipped_arrow_table) p "minecraft:night_vision"

abbrev pub potion_table : List (String × ℤ)
potion_table =
    ("minecraft:water", pos 0)
    ∷ ("minecraft:mundane", pos 1)
    ∷ ("minecraft:night_vision", pos 5)
    ∷ ("minecraft:long_night_vision", pos 6)
    ∷ ("minecraft:thick", pos 2)
    ∷ ("minecraft:awkward", pos 3)
    ∷ ("minecraft:invisibility", pos 7)
    ∷ ("minecraft:long_invisibility", pos 8)
    ∷ ("minecraft:leaping", pos 9)
    ∷ ("minecraft:long_leaping", pos 10)
    ∷ ("minecraft:strong_leaping", pos 11)
    ∷ ("minecraft:fire_resistance", pos 12)
    ∷ ("minecraft:long_fire_resistance", pos 13)
    ∷ ("minecraft:swiftness", pos 14)
    ∷ ("minecraft:long_swiftness", pos 15)
    ∷ ("minecraft:strong_swiftness", pos 16)
    ∷ ("minecraft:slowness", pos 17)
    ∷ ("minecraft:long_slowness", pos 18)
    ∷ ("minecraft:strong_slowness", pos 42)
    ∷ ("minecraft:water_breathing", pos 19)
    ∷ ("minecraft:long_water_breathing", pos 20)
    ∷ ("minecraft:healing", pos 21)
    ∷ ("minecraft:strong_healing", pos 22)
    ∷ ("minecraft:harming", pos 23)
    ∷ ("minecraft:strong_harming", pos 24)
    ∷ ("minecraft:poison", pos 25)
    ∷ ("minecraft:long_poison", pos 26)
    ∷ ("minecraft:strong_poison", pos 27)
    ∷ ("minecraft:regeneration", pos 28)
    ∷ ("minecraft:long_regeneration", pos 29)
    ∷ ("minecraft:strong_regeneration", pos 30)
    ∷ ("minecraft:strength", pos 31)
    ∷ ("minecraft:long_strength", pos 32)
    ∷ ("minecraft:strong_strength", pos 33)
    ∷ ("minecraft:weakness", pos 34)
    ∷ ("minecraft:long_weakness", pos 35)
    ∷ ("minecraft:turtle_master", pos 37)
    ∷ ("minecraft:long_turtle_master", pos 38)
    ∷ ("minecraft:strong_turtle_master", pos 39)
    ∷ ("minecraft:slow_falling", pos 40)
    ∷ ("minecraft:long_slow_falling", pos 41)
    ∷ []

unfoldable pub potion_bedrock : String → ℤ
unfolding forward_or from_list
potion_bedrock p = forward_or (from_list potion_table) p (pos 0)

unfoldable pub potion_java : ℤ → String
unfolding backward_or from_list
potion_java p = backward_or (from_list potion_table) p "minecraft:water"

abbrev pub enchantment_table : List (String × ℤ)
enchantment_table =
    ("minecraft:protection", pos 0)
    ∷ ("minecraft:fire_protection", pos 1)
    ∷ ("minecraft:feather_falling", pos 2)
    ∷ ("minecraft:blast_protection", pos 3)
    ∷ ("minecraft:projectile_protection", pos 4)
    ∷ ("minecraft:thorns", pos 5)
    ∷ ("minecraft:respiration", pos 6)
    ∷ ("minecraft:depth_strider", pos 7)
    ∷ ("minecraft:aqua_affinity", pos 8)
    ∷ ("minecraft:sharpness", pos 9)
    ∷ ("minecraft:smite", pos 10)
    ∷ ("minecraft:bane_of_arthropods", pos 11)
    ∷ ("minecraft:knockback", pos 12)
    ∷ ("minecraft:fire_aspect", pos 13)
    ∷ ("minecraft:looting", pos 14)
    ∷ ("minecraft:efficiency", pos 15)
    ∷ ("minecraft:silk_touch", pos 16)
    ∷ ("minecraft:unbreaking", pos 17)
    ∷ ("minecraft:fortune", pos 18)
    ∷ ("minecraft:power", pos 19)
    ∷ ("minecraft:punch", pos 20)
    ∷ ("minecraft:flame", pos 21)
    ∷ ("minecraft:infinity", pos 22)
    ∷ ("minecraft:luck_of_the_sea", pos 23)
    ∷ ("minecraft:lure", pos 24)
    ∷ ("minecraft:frost_walker", pos 25)
    ∷ ("minecraft:mending", pos 26)
    ∷ ("minecraft:binding_curse", pos 27)
    ∷ ("minecraft:vanishing_curse", pos 28)
    ∷ ("minecraft:impaling", pos 29)
    ∷ ("minecraft:riptide", pos 30)
    ∷ ("minecraft:loyalty", pos 31)
    ∷ ("minecraft:channeling", pos 32)
    ∷ ("minecraft:multishot", pos 33)
    ∷ ("minecraft:piercing", pos 34)
    ∷ ("minecraft:quick_charge", pos 35)
    ∷ ("minecraft:soul_speed", pos 36)
    ∷ ("minecraft:swift_sneak", pos 37)
    ∷ []

unfoldable pub enchantment_bedrock : String → ℤ
unfolding forward_or from_list
enchantment_bedrock e = forward_or (from_list enchantment_table) e (pos 0)

unfoldable pub enchantment_java : ℤ → String
unfolding backward_or from_list
enchantment_java i = backward_or (from_list enchantment_table) i ""

-- The cases of the `switch`.
abbrev pub box360_enchantments : List (ℤ × String)
box360_enchantments =
    (pos 5, "minecraft:respiration")
    ∷ (pos 6, "minecraft:aqua_affinity")
    ∷ (pos 7, "minecraft:thorns")
    ∷ (pos 8, "minecraft:depth_strider")
    ∷ (pos 9, "minecraft:frost_walker")
    ∷ (pos 10, "minecraft:binding_curse")
    ∷ (pos 16, "minecraft:sharpness")
    ∷ (pos 17, "minecraft:smite")
    ∷ (pos 18, "minecraft:bane_of_arthropods")
    ∷ (pos 19, "minecraft:knockback")
    ∷ (pos 20, "minecraft:fire_aspect")
    ∷ (pos 21, "minecraft:looting")
    ∷ (pos 32, "minecraft:efficiency")
    ∷ (pos 33, "minecraft:silk_touch")
    ∷ (pos 34, "minecraft:unbreaking")
    ∷ (pos 35, "minecraft:fortune")
    ∷ (pos 48, "minecraft:power")
    ∷ (pos 49, "minecraft:punch")
    ∷ (pos 50, "minecraft:flame")
    ∷ (pos 51, "minecraft:infinity")
    ∷ (pos 61, "minecraft:luck_of_the_sea")
    ∷ (pos 62, "minecraft:lure")
    ∷ (pos 70, "minecraft:mending")
    ∷ (pos 71, "minecraft:vanishing_curse")
    ∷ (pos 80, "minecraft:impaling")
    ∷ (pos 81, "minecraft:riptide")
    ∷ (pos 82, "minecraft:loyalty")
    ∷ (pos 83, "minecraft:channeling")
    ∷ []

unfoldable pub enchantment_of_box360 : ℤ → String
unfolding find enchantment_java
enchantment_of_box360 i = elim (find i box360_enchantments) [
  | some name ↦ name
  | none ↦ enchantment_java i
]
