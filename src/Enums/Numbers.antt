-- ===== src/Enums/Numbers.antt =====
-- The numbers of game modes and the names and numbers of colours: src/enums/_game-mode.hpp,
-- _color-code-java.hpp and _banner-color-code-bedrock.hpp.
use je2be.Prelude.{◌≡◌, ◌↔◌, refl, sym, subst, some, arith}
use je2be.Prelude.Int.{ℤ, pos, eqb_ℤ, eqb_ℤ_iff}
use je2be.Enums.GameMode.{
  GameMode, survival, creative, adventure, spectator, game_mode_from_java, game_mode_from_bedrock,
  java_from_game_mode, bedrock_from_game_mode,
}
use je2be.Enums.BannerColor
use je2be.Enums.ColorCode
use je2be.Enums.BannerColor.{BannerColorCodeBedrock, banner_color_code_from_name}
use je2be.Enums.ColorCode.{
  ColorCodeJava, color_code_java_from_java_name, color_code_java_from_bedrock_name,
  java_name_from_color_code_java, bedrock_name_from_color_code_java, banner_color_code_from_java,
  color_code_java_from_banner_color_code,
}
use je2be.Tables.ReversibleMap.{find}

-- A number is read as a game mode exactly when it is the number of that mode, in both editions.
game_mode_iff :
    (n : ℤ) (m : GameMode)
    → ((game_mode_from_java n ≡ some m) ↔ (n ≡ java_from_game_mode m))
      × ((game_mode_from_bedrock n ≡ some m) ↔ (n ≡ bedrock_from_game_mode m))
unfolding eqb_ℤ game_mode_from_java game_mode_from_bedrock java_from_game_mode
    bedrock_from_game_mode
game_mode_iff n survival = (
  (
    λ h. ground (
      arith,
      h,
      eqb_ℤ_iff n (pos 0),
      eqb_ℤ_iff n (pos 1),
      eqb_ℤ_iff n (pos 2),
      eqb_ℤ_iff n (pos 3),
    ),
    λ h. subst (λ k. game_mode_from_java k ≡ some survival) (sym h) refl,
  ),
  (
    λ h. ground (
      arith,
      h,
      eqb_ℤ_iff n (pos 0),
      eqb_ℤ_iff n (pos 1),
      eqb_ℤ_iff n (pos 2),
      eqb_ℤ_iff n (pos 6),
    ),
    λ h. subst (λ k. game_mode_from_bedrock k ≡ some survival) (sym h) refl,
  ),
)
game_mode_iff n creative = (
  (
    λ h. ground (
      arith,
      h,
      eqb_ℤ_iff n (pos 0),
      eqb_ℤ_iff n (pos 1),
      eqb_ℤ_iff n (pos 2),
      eqb_ℤ_iff n (pos 3),
    ),
    λ h. subst (λ k. game_mode_from_java k ≡ some creative) (sym h) refl,
  ),
  (
    λ h. ground (
      arith,
      h,
      eqb_ℤ_iff n (pos 0),
      eqb_ℤ_iff n (pos 1),
      eqb_ℤ_iff n (pos 2),
      eqb_ℤ_iff n (pos 6),
    ),
    λ h. subst (λ k. game_mode_from_bedrock k ≡ some creative) (sym h) refl,
  ),
)
game_mode_iff n adventure = (
  (
    λ h. ground (
      arith,
      h,
      eqb_ℤ_iff n (pos 0),
      eqb_ℤ_iff n (pos 1),
      eqb_ℤ_iff n (pos 2),
      eqb_ℤ_iff n (pos 3),
    ),
    λ h. subst (λ k. game_mode_from_java k ≡ some adventure) (sym h) refl,
  ),
  (
    λ h. ground (
      arith,
      h,
      eqb_ℤ_iff n (pos 0),
      eqb_ℤ_iff n (pos 1),
      eqb_ℤ_iff n (pos 2),
      eqb_ℤ_iff n (pos 6),
    ),
    λ h. subst (λ k. game_mode_from_bedrock k ≡ some adventure) (sym h) refl,
  ),
)
game_mode_iff n spectator = (
  (
    λ h. ground (
      arith,
      h,
      eqb_ℤ_iff n (pos 0),
      eqb_ℤ_iff n (pos 1),
      eqb_ℤ_iff n (pos 2),
      eqb_ℤ_iff n (pos 3),
    ),
    λ h. subst (λ k. game_mode_from_java k ≡ some spectator) (sym h) refl,
  ),
  (
    λ h. ground (
      arith,
      h,
      eqb_ℤ_iff n (pos 0),
      eqb_ℤ_iff n (pos 1),
      eqb_ℤ_iff n (pos 2),
      eqb_ℤ_iff n (pos 6),
    ),
    λ h. subst (λ k. game_mode_from_bedrock k ≡ some spectator) (sym h) refl,
  ),
)

-- The Java name, the Bedrock name and the banner colour of a colour each give it back, and a Java
-- name read as that of a banner gives the banner's colour.
pub color_code_round_trips :
    (c : ColorCodeJava)
    → (color_code_java_from_java_name (java_name_from_color_code_java c) ≡ c)
      × (color_code_java_from_bedrock_name (bedrock_name_from_color_code_java c) ≡ c)
      × (color_code_java_from_banner_color_code (banner_color_code_from_java c) ≡ c)
      × (banner_color_code_from_name (java_name_from_color_code_java c)
          ≡ banner_color_code_from_java c)
unfolding color_code_java_from_java_name java_name_from_color_code_java
    color_code_java_from_bedrock_name bedrock_name_from_color_code_java
    color_code_java_from_banner_color_code banner_color_code_from_java banner_color_code_from_name
    find
color_code_round_trips ColorCode.white = (refl, refl, refl, refl)
color_code_round_trips ColorCode.orange = (refl, refl, refl, refl)
color_code_round_trips ColorCode.magenta = (refl, refl, refl, refl)
color_code_round_trips ColorCode.light_blue = (refl, refl, refl, refl)
color_code_round_trips ColorCode.yellow = (refl, refl, refl, refl)
color_code_round_trips ColorCode.lime = (refl, refl, refl, refl)
color_code_round_trips ColorCode.pink = (refl, refl, refl, refl)
color_code_round_trips ColorCode.gray = (refl, refl, refl, refl)
color_code_round_trips ColorCode.light_gray = (refl, refl, refl, refl)
color_code_round_trips ColorCode.cyan = (refl, refl, refl, refl)
color_code_round_trips ColorCode.purple = (refl, refl, refl, refl)
color_code_round_trips ColorCode.blue = (refl, refl, refl, refl)
color_code_round_trips ColorCode.brown = (refl, refl, refl, refl)
color_code_round_trips ColorCode.green = (refl, refl, refl, refl)
color_code_round_trips ColorCode.red = (refl, refl, refl, refl)
color_code_round_trips ColorCode.black = (refl, refl, refl, refl)

-- The Java colour of a banner colour gives it back.
banner_color_round_trip :
    (c : BannerColorCodeBedrock)
    → banner_color_code_from_java (color_code_java_from_banner_color_code c) ≡ c
unfolding color_code_java_from_banner_color_code banner_color_code_from_java
banner_color_round_trip BannerColor.white = refl
banner_color_round_trip BannerColor.orange = refl
banner_color_round_trip BannerColor.magenta = refl
banner_color_round_trip BannerColor.light_blue = refl
banner_color_round_trip BannerColor.yellow = refl
banner_color_round_trip BannerColor.lime = refl
banner_color_round_trip BannerColor.pink = refl
banner_color_round_trip BannerColor.gray = refl
banner_color_round_trip BannerColor.light_gray = refl
banner_color_round_trip BannerColor.cyan = refl
banner_color_round_trip BannerColor.purple = refl
banner_color_round_trip BannerColor.blue = refl
banner_color_round_trip BannerColor.brown = refl
banner_color_round_trip BannerColor.green = refl
banner_color_round_trip BannerColor.red = refl
banner_color_round_trip BannerColor.black = refl
