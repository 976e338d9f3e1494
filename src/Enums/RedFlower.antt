-- ===== src/Enums/RedFlower.antt =====
-- src/enums/_red-flower.hpp. A loop over the values of the enum is one over their list.
use Prim.Native.String.{String}
use je2be.Prelude.{List, [], ◌∷◌, Option}
use je2be.Enums.Prefix.{find_named}

pub data RedFlower : Type 0 where
  blue_orchid : RedFlower
  azure_bluet : RedFlower
  red_tulip : RedFlower
  orange_tulip : RedFlower
  white_tulip : RedFlower
  pink_tulip : RedFlower
  oxeye_daisy : RedFlower
  poppy : RedFlower
  allium : RedFlower
  cornflower : RedFlower
  lily_of_the_valley : RedFlower

abbrev pub red_flowers : List RedFlower
red_flowers =
    blue_orchid ∷ azure_bluet ∷ red_tulip ∷ orange_tulip ∷ white_tulip ∷ pink_tulip ∷ oxeye_daisy
    ∷ poppy ∷ allium ∷ cornflower ∷ lily_of_the_valley ∷ []

unfoldable pub bedrock_name_from_red_flower : RedFlower → String
bedrock_name_from_red_flower blue_orchid = "orchid"
bedrock_name_from_red_flower azure_bluet = "houstonia"
bedrock_name_from_red_flower red_tulip = "tulip_red"
bedrock_name_from_red_flower orange_tulip = "tulip_orange"
bedrock_name_from_red_flower white_tulip = "tulip_white"
bedrock_name_from_red_flower pink_tulip = "tulip_pink"
bedrock_name_from_red_flower oxeye_daisy = "oxeye"
bedrock_name_from_red_flower poppy = "poppy"
bedrock_name_from_red_flower allium = "allium"
bedrock_name_from_red_flower cornflower = "cornflower"
bedrock_name_from_red_flower lily_of_the_valley = "lily_of_the_valley"

unfoldable pub java_name_from_red_flower : RedFlower → String
java_name_from_red_flower blue_orchid = "blue_orchid"
java_name_from_red_flower azure_bluet = "azure_bluet"
java_name_from_red_flower red_tulip = "red_tulip"
java_name_from_red_flower orange_tulip = "orange_tulip"
java_name_from_red_flower white_tulip = "white_tulip"
java_name_from_red_flower pink_tulip = "pink_tulip"
java_name_from_red_flower oxeye_daisy = "oxeye_daisy"
java_name_from_red_flower poppy = "poppy"
java_name_from_red_flower allium = "allium"
java_name_from_red_flower cornflower = "cornflower"
java_name_from_red_flower lily_of_the_valley = "lily_of_the_valley"

unfoldable pub red_flower_from_bedrock_name : String → Option RedFlower
unfolding find_named bedrock_name_from_red_flower
red_flower_from_bedrock_name name = find_named bedrock_name_from_red_flower name red_flowers

unfoldable pub red_flower_from_java_name : String → Option RedFlower
unfolding find_named java_name_from_red_flower
red_flower_from_java_name name = find_named java_name_from_red_flower name red_flowers
