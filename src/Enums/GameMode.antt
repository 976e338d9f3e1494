-- ===== src/Enums/GameMode.antt =====
-- src/enums/_game-mode.hpp.
use je2be.Prelude.{Option, none, some, if◌then◌else◌}
use je2be.Prelude.Int.{ℤ, pos, eqb_ℤ}

pub data GameMode : Type 0 where
  survival : GameMode
  creative : GameMode
  adventure : GameMode
  spectator : GameMode

unfoldable pub game_mode_from_java : ℤ → Option GameMode
game_mode_from_java v =
    if eqb_ℤ v (pos 0)
    then some survival
    else if eqb_ℤ v (pos 1)
    then some creative
    else if eqb_ℤ v (pos 2)
    then some adventure
    else if eqb_ℤ v (pos 3)
    then some spectator
    else none

unfoldable pub game_mode_from_bedrock : ℤ → Option GameMode
game_mode_from_bedrock v =
    if eqb_ℤ v (pos 0)
    then some survival
    else if eqb_ℤ v (pos 1)
    then some creative
    else if eqb_ℤ v (pos 2)
    then some adventure
    else if eqb_ℤ v (pos 6)
    then some spectator
    else none

unfoldable pub java_from_game_mode : GameMode → ℤ
java_from_game_mode survival = pos 0
java_from_game_mode creative = pos 1
java_from_game_mode adventure = pos 2
java_from_game_mode spectator = pos 3

unfoldable pub bedrock_from_game_mode : GameMode → ℤ
bedrock_from_game_mode survival = pos 0
bedrock_from_game_mode creative = pos 1
bedrock_from_game_mode adventure = pos 2
bedrock_from_game_mode spectator = pos 6
