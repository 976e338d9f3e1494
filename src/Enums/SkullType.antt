-- ===== src/Enums/SkullType.antt =====
-- src/enums/_skull-type.hpp. The loop over the values of the enum is one over their list.
use Prim.Native.String.{String}
use je2be.Prelude.{List, [], ◌∷◌, Option}
use je2be.Enums.Prefix.{find_named}

pub data SkullType : Type 0 where
  skeleton : SkullType
  wither_skeleton : SkullType
  zombie : SkullType
  player : SkullType
  creeper : SkullType
  dragon : SkullType
  piglin : SkullType

abbrev pub skull_types : List SkullType
skull_types = skeleton ∷ wither_skeleton ∷ zombie ∷ player ∷ creeper ∷ dragon ∷ piglin ∷ []

unfoldable pub java_name_from_skull_type : SkullType → String
java_name_from_skull_type skeleton = "skeleton_skull"
java_name_from_skull_type wither_skeleton = "wither_skeleton_skull"
java_name_from_skull_type zombie = "zombie_head"
java_name_from_skull_type player = "player_head"
java_name_from_skull_type creeper = "creeper_head"
java_name_from_skull_type dragon = "dragon_head"
java_name_from_skull_type piglin = "piglin_head"

unfoldable pub skull_type_from_java_name : String → Option SkullType
unfolding find_named java_name_from_skull_type
skull_type_from_java_name name = find_named java_name_from_skull_type name skull_types
