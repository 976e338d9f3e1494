-- ===== src/Enums/Facing6.antt =====
-- src/enums/_facing6.hpp. `default` stands for the constructors without a case.
use Prim.Native.String.{String}
use text.Mathlib.Text.{◌==◌}
use je2be.Prelude.{Bool, true, false, if◌then◌else◌}
use je2be.Prelude.Int.{ℤ, pos, negsuc, eqb_ℤ}
use je2be.Geometry.Pos.{Pos3}

pub data Facing6 : Type 0 where
  north : Facing6
  east : Facing6
  south : Facing6
  west : Facing6
  up : Facing6
  down : Facing6

unfoldable pub java_name_from_facing6 : Facing6 → String
java_name_from_facing6 north = "north"
java_name_from_facing6 east = "east"
java_name_from_facing6 south = "south"
java_name_from_facing6 west = "west"
java_name_from_facing6 up = "up"
java_name_from_facing6 down = "down"

unfoldable pub facing6_from_java_name : String → Facing6
facing6_from_java_name n =
    if n == "north"
    then north
    else if n == "east"
    then east
    else if n == "south"
    then south
    else if n == "west"
    then west
    else if n == "up"
    then up
    else down

unfoldable pub pos3_from_facing6 : Facing6 → Pos3
pos3_from_facing6 north = record { x = pos 0; y = pos 0; z = negsuc 0 }
pos3_from_facing6 east = record { x = pos 1; y = pos 0; z = pos 0 }
pos3_from_facing6 south = record { x = pos 0; y = pos 0; z = pos 1 }
pos3_from_facing6 west = record { x = negsuc 0; y = pos 0; z = pos 0 }
pos3_from_facing6 up = record { x = pos 0; y = pos 1; z = pos 0 }
pos3_from_facing6 down = record { x = pos 0; y = negsuc 0; z = pos 0 }

unfoldable pub direction_a_from_facing6 : Facing6 → ℤ
direction_a_from_facing6 north = pos 2
direction_a_from_facing6 east = pos 5
direction_a_from_facing6 south = pos 3
direction_a_from_facing6 west = pos 4
direction_a_from_facing6 up = pos 1
direction_a_from_facing6 down = pos 0

unfoldable pub facing6_from_direction_a : ℤ → Facing6
facing6_from_direction_a v =
    if eqb_ℤ v (pos 1)
    then up
    else if eqb_ℤ v (pos 2)
    then north
    else if eqb_ℤ v (pos 3)
    then south
    else if eqb_ℤ v (pos 4)
    then west
    else if eqb_ℤ v (pos 5)
    then east
    else if eqb_ℤ v (pos 0)
    then down
    else down

unfoldable pub facing6_from_direction_b : ℤ → Facing6
facing6_from_direction_b v =
    if eqb_ℤ v (pos 4)
    then east
    else if eqb_ℤ v (pos 2)
    then south
    else if eqb_ℤ v (pos 5)
    then west
    else if eqb_ℤ v (pos 3)
    then north
    else if eqb_ℤ v (pos 1)
    then up
    else if eqb_ℤ v (pos 0)
    then down
    else down

unfoldable pub direction_b_from_facing6 : Facing6 → ℤ
direction_b_from_facing6 north = pos 3
direction_b_from_facing6 east = pos 4
direction_b_from_facing6 south = pos 2
direction_b_from_facing6 west = pos 5
direction_b_from_facing6 up = pos 1
direction_b_from_facing6 down = pos 0

unfoldable pub facing6_invert : Facing6 → Facing6
facing6_invert north = south
facing6_invert east = west
facing6_invert south = north
facing6_invert west = east
facing6_invert up = down
facing6_invert down = up

-- `if (!action(f)) return false;` before the rest.
unfoldable pub and_then {ℓ} : {S : Type ℓ} → Bool × S → (S → Bool × S) → Bool × S
and_then (false, s) rest = (false, s)
and_then (true, s) rest = rest s

-- The action may change a state.
unfoldable pub facing6_enumerate {ℓ} : {S : Type ℓ} → (Facing6 → S → Bool × S) → S → Bool × S
unfolding and_then
facing6_enumerate action s = and_then (action north s) (λ s1. and_then (action east s1) (λ s2.
    and_then (action south s2)
      (λ s3. and_then (action west s3) (λ s4. and_then (action up s4) (λ s5. action down s5)))))
