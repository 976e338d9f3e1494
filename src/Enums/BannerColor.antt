-- ===== src/Enums/BannerColor.antt =====
-- src/enums/_banner-color-code-bedrock.hpp.
use Prim.Native.String.{String}
use je2be.Prelude.{List, [], ◌∷◌, none, some}
use je2be.Prelude.Equality.{string_eq}
use je2be.Tables.ReversibleMap.{find}

pub data BannerColorCodeBedrock : Type 0 where
  red : BannerColorCodeBedrock
  black : BannerColorCodeBedrock
  green : BannerColorCodeBedrock
  brown : BannerColorCodeBedrock
  blue : BannerColorCodeBedrock
  purple : BannerColorCodeBedrock
  cyan : BannerColorCodeBedrock
  light_gray : BannerColorCodeBedrock
  gray : BannerColorCodeBedrock
  pink : BannerColorCodeBedrock
  lime : BannerColorCodeBedrock
  yellow : BannerColorCodeBedrock
  light_blue : BannerColorCodeBedrock
  magenta : BannerColorCodeBedrock
  orange : BannerColorCodeBedrock
  white : BannerColorCodeBedrock

abbrev pub banner_color_code_from_name_mapping : List (String × BannerColorCodeBedrock)
banner_color_code_from_name_mapping =
    ("white", white)
    ∷ ("orange", orange)
    ∷ ("magenta", magenta)
    ∷ ("light_blue", light_blue)
    ∷ ("yellow", yellow)
    ∷ ("lime", lime)
    ∷ ("pink", pink)
    ∷ ("gray", gray)
    ∷ ("light_gray", light_gray)
    ∷ ("cyan", cyan)
    ∷ ("purple", purple)
    ∷ ("blue", blue)
    ∷ ("brown", brown)
    ∷ ("green", green)
    ∷ ("red", red)
    ∷ ("black", black)
    ∷ []

unfoldable pub banner_color_code_from_name : String → BannerColorCodeBedrock
unfolding find
banner_color_code_from_name color = elim (find color banner_color_code_from_name_mapping) [
  | none ↦ white
  | some c ↦ c
]
