-- ===== src/Enums/ColorCode.antt =====
-- src/enums/_color-code-java.hpp.
use Prim.Native.String.{String}
use je2be.Prelude.{List, [], ◌∷◌, none, some}
use je2be.Prelude.Equality.{string_eq}
use je2be.Tables.ReversibleMap.{find}
use je2be.Enums.BannerColor
use je2be.Enums.BannerColor.{BannerColorCodeBedrock}

pub data ColorCodeJava : Type 0 where
  white : ColorCodeJava
  orange : ColorCodeJava
  magenta : ColorCodeJava
  light_blue : ColorCodeJava
  yellow : ColorCodeJava
  lime : ColorCodeJava
  pink : ColorCodeJava
  gray : ColorCodeJava
  light_gray : ColorCodeJava
  cyan : ColorCodeJava
  purple : ColorCodeJava
  blue : ColorCodeJava
  brown : ColorCodeJava
  green : ColorCodeJava
  red : ColorCodeJava
  black : ColorCodeJava

abbrev pub color_code_java_from_java_name_mapping : List (String × ColorCodeJava)
color_code_java_from_java_name_mapping =
    ("white", white)
    ∷ ("orange", orange)
    ∷ ("magenta", magenta)
    ∷ ("light_blue", light_blue)
    ∷ ("yellow", yellow)
    ∷ ("lime", lime)
    ∷ ("pink", pink)
    ∷ ("gray", gray)
    ∷ ("light_gray", light_gray)
    ∷ ("cyan", cyan)
    ∷ ("purple", purple)
    ∷ ("blue", blue)
    ∷ ("brown", brown)
    ∷ ("green", green)
    ∷ ("red", red)
    ∷ ("black", black)
    ∷ []

unfoldable pub color_code_java_from_java_name : String → ColorCodeJava
unfolding find
color_code_java_from_java_name color = elim (find color color_code_java_from_java_name_mapping) [
  | none ↦ white
  | some c ↦ c
]

abbrev pub color_code_java_from_bedrock_name_mapping : List (String × ColorCodeJava)
color_code_java_from_bedrock_name_mapping =
    ("white", white)
    ∷ ("orange", orange)
    ∷ ("magenta", magenta)
    ∷ ("light_blue", light_blue)
    ∷ ("yellow", yellow)
    ∷ ("lime", lime)
    ∷ ("pink", pink)
    ∷ ("gray", gray)
    ∷ ("silver", light_gray)
    ∷ ("cyan", cyan)
    ∷ ("purple", purple)
    ∷ ("blue", blue)
    ∷ ("brown", brown)
    ∷ ("green", green)
    ∷ ("red", red)
    ∷ ("black", black)
    ∷ []

unfoldable pub color_code_java_from_bedrock_name : String → ColorCodeJava
unfolding find
color_code_java_from_bedrock_name color =
    elim (find color color_code_java_from_bedrock_name_mapping) [ none ↦ white | some c ↦ c ]

unfoldable pub java_name_from_color_code_java : ColorCodeJava → String
java_name_from_color_code_java white = "white"
java_name_from_color_code_java orange = "orange"
java_name_from_color_code_java magenta = "magenta"
java_name_from_color_code_java light_blue = "light_blue"
java_name_from_color_code_java yellow = "yellow"
java_name_from_color_code_java lime = "lime"
java_name_from_color_code_java pink = "pink"
java_name_from_color_code_java gray = "gray"
java_name_from_color_code_java light_gray = "light_gray"
java_name_from_color_code_java cyan = "cyan"
java_name_from_color_code_java purple = "purple"
java_name_from_color_code_java blue = "blue"
java_name_from_color_code_java brown = "brown"
java_name_from_color_code_java green = "green"
java_name_from_color_code_java red = "red"
java_name_from_color_code_java black = "black"

unfoldable pub bedrock_name_from_color_code_java : ColorCodeJava → String
bedrock_name_from_color_code_java white = "white"
bedrock_name_from_color_code_java orange = "orange"
bedrock_name_from_color_code_java magenta = "magenta"
bedrock_name_from_color_code_java light_blue = "light_blue"
bedrock_name_from_color_code_java yellow = "yellow"
bedrock_name_from_color_code_java lime = "lime"
bedrock_name_from_color_code_java pink = "pink"
bedrock_name_from_color_code_java gray = "gray"
bedrock_name_from_color_code_java light_gray = "silver"
bedrock_name_from_color_code_java cyan = "cyan"
bedrock_name_from_color_code_java purple = "purple"
bedrock_name_from_color_code_java blue = "blue"
bedrock_name_from_color_code_java brown = "brown"
bedrock_name_from_color_code_java green = "green"
bedrock_name_from_color_code_java red = "red"
bedrock_name_from_color_code_java black = "black"

unfoldable pub banner_color_code_from_java : ColorCodeJava → BannerColorCodeBedrock
banner_color_code_from_java white = BannerColor.white
banner_color_code_from_java orange = BannerColor.orange
banner_color_code_from_java magenta = BannerColor.magenta
banner_color_code_from_java light_blue = BannerColor.light_blue
banner_color_code_from_java yellow = BannerColor.yellow
banner_color_code_from_java lime = BannerColor.lime
banner_color_code_from_java pink = BannerColor.pink
banner_color_code_from_java gray = BannerColor.gray
banner_color_code_from_java light_gray = BannerColor.light_gray
banner_color_code_from_java cyan = BannerColor.cyan
banner_color_code_from_java purple = BannerColor.purple
banner_color_code_from_java blue = BannerColor.blue
banner_color_code_from_java brown = BannerColor.brown
banner_color_code_from_java green = BannerColor.green
banner_color_code_from_java red = BannerColor.red
banner_color_code_from_java black = BannerColor.black

unfoldable pub color_code_java_from_banner_color_code : BannerColorCodeBedrock → ColorCodeJava
color_code_java_from_banner_color_code BannerColor.red = red
color_code_java_from_banner_color_code BannerColor.black = black
color_code_java_from_banner_color_code BannerColor.green = green
color_code_java_from_banner_color_code BannerColor.brown = brown
color_code_java_from_banner_color_code BannerColor.blue = blue
color_code_java_from_banner_color_code BannerColor.purple = purple
color_code_java_from_banner_color_code BannerColor.cyan = cyan
color_code_java_from_banner_color_code BannerColor.light_gray = light_gray
color_code_java_from_banner_color_code BannerColor.gray = gray
color_code_java_from_banner_color_code BannerColor.pink = pink
color_code_java_from_banner_color_code BannerColor.lime = lime
color_code_java_from_banner_color_code BannerColor.yellow = yellow
color_code_java_from_banner_color_code BannerColor.light_blue = light_blue
color_code_java_from_banner_color_code BannerColor.magenta = magenta
color_code_java_from_banner_color_code BannerColor.orange = orange
color_code_java_from_banner_color_code BannerColor.white = white
