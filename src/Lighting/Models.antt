-- ===== src/Lighting/Models.antt =====
-- src/toje/lighting/_lighting-model.hpp, and the tests of src/toje/lighting/_lighting.hpp on the
-- faces of a block. A model has four bits for each of the six faces; an unsigned integer is a
-- number, and the operators on its bits are written out.
use je2be.Prelude.{ℕ, zero, suc, ◌+◌, ◌-◌, ◌*◌, ◌/◌, ◌%◌, ◌^◌, Bool, not, ◌==◌}
use je2be.Enums.Facing6.{Facing6, north, east, south, west, up, down}

pub data Transparency : Type 0 where
  clear translucent solid : Transparency

pub record LightingModel : Type 0 where
  pub emission : ℕ
  pub behave_as_air_when_open_up : Bool
  pub transparency : Transparency
  pub model : ℕ

-- The `w` low bits of `a & b`, of `a | b` and of `~a`.
unfoldable pub bit_and : ℕ → ℕ → ℕ → ℕ
bit_and zero a b = 0
bit_and (suc w) a b = (a % 2) * (b % 2) + 2 * bit_and w (a / 2) (b / 2)

unfoldable pub bit_or : ℕ → ℕ → ℕ → ℕ
bit_or zero a b = 0
bit_or (suc w) a b = (a % 2 + b % 2 - (a % 2) * (b % 2)) + 2 * bit_or w (a / 2) (b / 2)

unfoldable pub bit_not : ℕ → ℕ → ℕ
bit_not w a = 2 ^ w - 1 - a % 2 ^ w

unfoldable pub mask_facing6 : Facing6 → ℕ
mask_facing6 north = 0xf
mask_facing6 south = 0xf0
mask_facing6 east = 0xf00
mask_facing6 west = 0xf000
mask_facing6 down = 0xf0000
mask_facing6 up = 0xf00000

-- `Invert`: the faces of the block on the other side.
unfoldable pub invert : ℕ → ℕ
unfolding bit_and bit_or
invert m = bit_or 32 (bit_and 32 0x0f0f0f (m / 2 ^ 4)) (bit_and 32 0xf0f0f0 (m * 2 ^ 4 % 2 ^ 32))

unfoldable pub can_light_passthrough : Facing6 → ℕ → ℕ → Bool
unfolding mask_facing6 bit_and bit_not invert
can_light_passthrough face model target_model = not (
    bit_and 32 (mask_facing6 face)
      (bit_and 32 (bit_not 32 model) (bit_not 32 (invert target_model)))
    == 0)

unfoldable pub is_face_opened : Facing6 → LightingModel → Bool
unfolding mask_facing6 bit_and bit_not
is_face_opened face m = not (bit_and 32 (bit_not 32 m.model) (mask_facing6 face) == 0)
