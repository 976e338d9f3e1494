-- ===== src/Enums/Facing4.antt =====
-- src/enums/_facing4.hpp. `default` stands for the constructors without a case, as an enum has no
-- other values here.
use Prim.Native.String.{String}
use text.Mathlib.Text.{◌==◌}
use je2be.Prelude.{◌&&◌, not, Option, none, some, if◌then◌else◌}
use je2be.Prelude.Int.{ℤ, pos, negsuc, eqb_ℤ, ltb_ℤ}
use je2be.Geometry.Pos.{Pos2}

pub data Facing4 : Type 0 where
  north : Facing4
  east : Facing4
  south : Facing4
  west : Facing4

unfoldable pub java_name_from_facing4 : Facing4 → String
java_name_from_facing4 north = "north"
java_name_from_facing4 east = "east"
java_name_from_facing4 south = "south"
java_name_from_facing4 west = "west"

unfoldable pub facing4_from_java_name : String → Facing4
facing4_from_java_name n =
    if n == "north"
    then north
    else if n == "east"
    then east
    else if n == "west"
    then west
    else south

unfoldable pub bedrock_direction_from_facing4 : Facing4 → ℤ
bedrock_direction_from_facing4 north = pos 2
bedrock_direction_from_facing4 east = pos 3
bedrock_direction_from_facing4 south = pos 0
bedrock_direction_from_facing4 west = pos 1

unfoldable pub facing4_from_bedrock_direction : ℤ → Facing4
facing4_from_bedrock_direction v =
    if eqb_ℤ v (pos 2)
    then north
    else if eqb_ℤ v (pos 3)
    then east
    else if eqb_ℤ v (pos 1)
    then west
    else if eqb_ℤ v (pos 0)
    then south
    else south

-- In whole degrees.
unfoldable pub yaw_from_facing4 : Facing4 → ℤ
yaw_from_facing4 north = negsuc 179
yaw_from_facing4 east = negsuc 89
yaw_from_facing4 south = pos 0
yaw_from_facing4 west = pos 90

unfoldable pub pos2_from_facing4 : Facing4 → Pos2
pos2_from_facing4 north = record { x = pos 0; z = negsuc 0 }
pos2_from_facing4 east = record { x = pos 1; z = pos 0 }
pos2_from_facing4 south = record { x = pos 0; z = pos 1 }
pos2_from_facing4 west = record { x = negsuc 0; z = pos 0 }

unfoldable pub facing4_from_pos2 : Pos2 → Option Facing4
facing4_from_pos2 p =
    if eqb_ℤ p.x (pos 0) && eqb_ℤ p.z (pos 0)
    then none
    else if not (eqb_ℤ p.x (pos 0)) && not (eqb_ℤ p.z (pos 0))
    then none
    else if ltb_ℤ (pos 0) p.x
    then some east
    else if ltb_ℤ p.x (pos 0)
    then some west
    else if ltb_ℤ (pos 0) p.z
    then some south
    else some north
