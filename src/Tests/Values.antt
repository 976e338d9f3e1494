-- ===== src/Tests/Values.antt =====
-- Tables and enums: src/entity, src/item and src/enums.
use je2be.Prelude.{ℕ, suc, ◌≡◌, ◌↔◌, refl, some, Bool, true, false}
use je2be.Prelude.Int.{pos, eqb_ℤ}
use je2be.Prelude.Equality.{string_eq, int_eq}
use je2be.Tables.ReversibleMap.{forward, backward, from_list, is_bijective, forward_iff_backward}
use je2be.Tables.Entities.{
  boat_table, frog_table, cat_table, cat_table_java, panda_table, axolotl_table, cat_table_bedrock,
}
use je2be.Tables.Items.{goat_horn_table, tipped_arrow_table, potion_table, enchantment_table}
use je2be.Tables.Paintings.{painting_size, motive_from_java, java_from_motive, size_of}
use je2be.Tables.Inverse.{Inverse, entity_names-Inverse, entity_numbers-Inverse, item_names-Inverse}
use je2be.Enums.Facing4
use je2be.Enums.Facing4.{
  facing4_from_java_name, java_name_from_facing4, facing4_from_bedrock_direction,
  bedrock_direction_from_facing4, facing4_from_pos2, pos2_from_facing4,
}
use je2be.Enums.Facing6.{
  Facing6, facing6_from_java_name, java_name_from_facing6, facing6_from_direction_a,
  direction_a_from_facing6, facing6_from_direction_b, direction_b_from_facing6, facing6_enumerate,
}
use je2be.Enums.Facings.{facing4_round_trips, facing6_round_trips}
use je2be.Enums.ColorCode
use je2be.Enums.ColorCode.{
  color_code_java_from_java_name, java_name_from_color_code_java, color_code_java_from_bedrock_name,
  bedrock_name_from_color_code_java, color_code_java_from_banner_color_code,
  banner_color_code_from_java,
}
use je2be.Enums.BannerColor.{banner_color_code_from_name}
use je2be.Enums.Numbers.{color_code_round_trips}

forward_iff_backward_example :
    (forward (from_list boat_table) "bamboo" ≡ some (pos 7))
    ↔ (backward (from_list boat_table) (pos 7) ≡ some "bamboo")
unfolding is_bijective eqb_ℤ
forward_iff_backward_example = forward_iff_backward boat_table "bamboo" (pos 7) refl

entity_names-Inverse_example :
    Inverse boat_table "lazy" (pos 0)
    × Inverse frog_table "lazy" (pos 0)
    × Inverse cat_table "lazy" (pos 0)
    × Inverse cat_table_java "lazy" (pos 0)
    × Inverse panda_table "lazy" (pos 0)
entity_names-Inverse_example = entity_names-Inverse "lazy" (pos 0)

entity_numbers-Inverse_example :
    Inverse axolotl_table (pos 1) (pos 3) × Inverse cat_table_bedrock (pos 1) (pos 3)
entity_numbers-Inverse_example = entity_numbers-Inverse (pos 1) (pos 3)

item_names-Inverse_example :
    Inverse goat_horn_table "minecraft:lure" (pos 24)
    × Inverse tipped_arrow_table "minecraft:lure" (pos 24)
    × Inverse potion_table "minecraft:lure" (pos 24)
    × Inverse enchantment_table "minecraft:lure" (pos 24)
item_names-Inverse_example = item_names-Inverse "minecraft:lure" (pos 24)

facing4_round_trips_example :
    (facing4_from_java_name (java_name_from_facing4 Facing4.west) ≡ Facing4.west)
    × (facing4_from_bedrock_direction (bedrock_direction_from_facing4 Facing4.west) ≡ Facing4.west)
    × (facing4_from_pos2 (pos2_from_facing4 Facing4.west) ≡ some Facing4.west)
facing4_round_trips_example = facing4_round_trips Facing4.west

facing6_round_trips_example :
    (facing6_from_java_name (java_name_from_facing6 Facing6.up) ≡ Facing6.up)
    × (facing6_from_direction_a (direction_a_from_facing6 Facing6.up) ≡ Facing6.up)
    × (facing6_from_direction_b (direction_b_from_facing6 Facing6.up) ≡ Facing6.up)
facing6_round_trips_example = facing6_round_trips Facing6.up

-- It counts the facings and refuses west.
abbrev count_to_west : Facing6 → ℕ → Bool × ℕ
count_to_west Facing6.west n = (false, n)
count_to_west _ n = (true, suc n)

count_to_west_test : facing6_enumerate count_to_west 0 ≡ (false, 3)
unfolding facing6_enumerate
count_to_west_test = refl

color_code_round_trips_example :
    (color_code_java_from_java_name (java_name_from_color_code_java ColorCode.light_gray)
      ≡ ColorCode.light_gray)
    × (color_code_java_from_bedrock_name (bedrock_name_from_color_code_java ColorCode.light_gray)
        ≡ ColorCode.light_gray)
    × (color_code_java_from_banner_color_code (banner_color_code_from_java ColorCode.light_gray)
        ≡ ColorCode.light_gray)
    × (banner_color_code_from_name (java_name_from_color_code_java ColorCode.light_gray)
        ≡ banner_color_code_from_java ColorCode.light_gray)
color_code_round_trips_example = color_code_round_trips ColorCode.light_gray

painting_size-pool :
    painting_size (motive_from_java "minecraft:pool") ≡ some (size_of (pos 2) (pos 1))
unfolding painting_size motive_from_java eqb_ℤ
painting_size-pool = refl

-- A name that the table does not have.
java_from_motive-unknown : java_from_motive (motive_from_java "minecraft:orb") ≡ "minecraft:aztec"
unfolding java_from_motive motive_from_java eqb_ℤ
java_from_motive-unknown = refl
