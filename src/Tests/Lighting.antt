-- ===== src/Tests/Lighting.antt =====
-- Light: src/toje/lighting.
use je2be.Prelude.{ℕ, ◌≤◌, ◌≡◌, refl, Option, some, [], ◌∷◌, map, false, arith, if◌then◌else◌}
use je2be.Prelude.Int.{eqb_ℤ, leb_ℤ, ◌+ℤ◌, ◌-ℤ◌, ◌*ℤ◌, pos_part, min_ℤ, max_ℤ}
use je2be.Geometry.Pos.{Pos3, eq_pos3}
use je2be.Geometry.Volume.{Volume}
use je2be.Geometry.ClosedRange.{intersection}
use je2be.Storage.Data2d
use je2be.Storage.Data2d.{Data2d}
use je2be.Lighting.Models.{LightingModel, clear}
use je2be.Lighting.Diffuse.{Levels, Models, diffuse_light, limits}
use je2be.Lighting.Diffuse.Settles.{Least, edges_of, diffuse_light-Least}
use je2be.Prelude.{true, Bool, ◌==◌, none, subst}
use je2be.Prelude.Int.{eq_of_parts, pos}
use je2be.Lighting.Models.{solid}
use je2be.Prelude.Int.{int_laws}
use je2be.Geometry.Volume.Boxes.{Inside}
use je2be.Lighting.Initialize.{Filling, cached_at, lets_sky}
use je2be.Lighting.Initialize.Bounds.{FourBits}
use je2be.Lighting.Initialize.Chunks.{HasVolume}
use je2be.Lighting.Initialize.Sky.{Open}
use je2be.Lighting.Initialize.Pipeline.{
  sky_light, block_light, block_light_bounds, block_light_lights, sky_light_lights,
}
use je2be.Tests.Shared.{at2, at3, box_of}

abbrev block_of : ℕ → LightingModel
block_of m = record {
  emission = 0;
  behave_as_air_when_open_up = false;
  transparency = if m == 0 then clear else solid;
  model = m;
}

abbrev lamp_block : LightingModel
lamp_block = record {
  emission = 14;
  behave_as_air_when_open_up = false;
  transparency = clear;
  model = 0;
}

-- A row of blocks along x, of which the fourth is solid.
abbrev row_models : Models
row_models p = if eq_pos3 p (at3 3 0 0) then block_of 0xffffff else block_of 0

-- A lamp at the first.
abbrev lamp : Levels
lamp p = if eq_pos3 p (at3 0 0 0) then 15 else 0

abbrev row_box : Volume
row_box = box_of (at3 0 0 0) (at3 4 0 0)

abbrev row_volumes : Data2d (Option Volume)
row_volumes = Data2d.create (at2 0 0) (at2 0 0) (some row_box)

diffuse_row :
    map
      (diffuse_light row_models row_box lamp row_volumes)
      (at3 0 0 0 ∷ at3 1 0 0 ∷ at3 2 0 0 ∷ at3 3 0 0 ∷ at3 4 0 0 ∷ [])
    ≡ 15 ∷ 14 ∷ 13 ∷ 0 ∷ 0 ∷ []
unfolding diffuse_light eqb_ℤ leb_ℤ ◌+ℤ◌ ◌-ℤ◌ ◌*ℤ◌ pos_part min_ℤ max_ℤ intersection Data2d.create
    Data2d.at
diffuse_row = refl

lamp_low : (q : Pos3) → lamp q ≤ 15
lamp_low q = ground arith

diffuse_light-Least_example :
    Least row_models
      (edges_of (limits row_box row_volumes))
      lamp
      (diffuse_light row_models row_box lamp row_volumes)
diffuse_light-Least_example = diffuse_light-Least row_models row_box lamp row_volumes lamp_low

-- A lamp of level 14 in the second block, in the dark.
abbrev lamp_models : Models
lamp_models p = if eq_pos3 p (at3 1 0 0) then lamp_block else block_of 0

abbrev dark : Filling
dark = record { out = λ q. 0; diffuse_volumes = Data2d.create (at2 0 0) (at2 0 0) none }

abbrev uncached : Data2d Bool
uncached = Data2d.create (at2 0 0) (at2 0 0) false

block_light_row :
    map
      (block_light lamp_models row_box uncached row_volumes dark)
      (at3 0 0 0 ∷ at3 1 0 0 ∷ at3 2 0 0 ∷ at3 4 0 0 ∷ [])
    ≡ 13 ∷ 14 ∷ 13 ∷ 11 ∷ []
unfolding block_light eqb_ℤ leb_ℤ ◌+ℤ◌ ◌-ℤ◌ ◌*ℤ◌ pos_part min_ℤ max_ℤ intersection Data2d.create
block_light_row = refl

sky_light_row :
    map (sky_light row_models row_box uncached row_volumes dark) (at3 0 0 0 ∷ at3 3 0 0 ∷ [])
    ≡ 15 ∷ 0 ∷ []
unfolding sky_light eqb_ℤ leb_ℤ ◌+ℤ◌ ◌-ℤ◌ ◌*ℤ◌ pos_part min_ℤ max_ℤ intersection Data2d.create
sky_light_row = refl

dark_low : (q : Pos3) → dark.out q ≤ 15
dark_low q = omega arith

lamp_models-FourBits : FourBits lamp_models
lamp_models-FourBits p = either (eq_pos3 p (at3 1 0 0))
  where
    either : (b : Bool) → (if b then lamp_block else block_of 0).emission ≤ 15
    either true = omega arith
    either false = omega arith

row-HasVolume : HasVolume row_volumes (at2 0 0) row_box
unfolding Data2d.create Data2d.at ◌+ℤ◌ ◌-ℤ◌ ◌*ℤ◌ pos_part
row-HasVolume = (omega arith, omega arith, omega arith, omega arith, refl)

second_Inside : Inside row_box (at3 1 0 0)
second_Inside = (
  (omega int_laws, omega int_laws),
  (omega int_laws, omega int_laws),
  (omega int_laws, omega int_laws),
)

block_light_bounds_example :
    (0 ≤ block_light lamp_models row_box uncached row_volumes dark (at3 2 0 0))
    × (block_light lamp_models row_box uncached row_volumes dark (at3 2 0 0) ≤ 15)
block_light_bounds_example =
    block_light_bounds lamp_models row_box uncached row_volumes dark lamp_models-FourBits dark_low
      (at3 2 0 0)

block_light_lights_example :
    (lamp_models (at3 1 0 0)).emission
    ≤ block_light lamp_models row_box uncached row_volumes dark (at3 1 0 0)
block_light_lights_example =
    block_light_lights lamp_models row_box uncached row_volumes dark lamp_models-FourBits dark_low
      (at2 0 0) row_box (at3 1 0 0) row-HasVolume second_Inside second_Inside

fresh_chunk : cached_at uncached (at2 0 0) ≡ false
unfolding Data2d.create Data2d.at ◌+ℤ◌ ◌-ℤ◌ ◌*ℤ◌ pos_part
fresh_chunk = refl

lit_first : lets_sky (row_models (at3 1 0 0)) ≡ true
unfolding lets_sky eqb_ℤ eq_pos3
lit_first = refl

row-Open : Open row_models row_box (pos 1) (pos 0) (pos 0) (pos 0)
row-Open = record {
  lit = λ i a b.
      subst (λ u. lets_sky (row_models (record { x = pos 1; y = u; z = pos 0 })) ≡ true)
        (eq_of_parts (pos 0) i (omega (int_laws, a, b))) lit_first;
  clear_below = λ i a b. absurd (omega (arith, a, b));
}

sky_light_lights_example : sky_light row_models row_box uncached row_volumes dark (at3 1 0 0) ≡ 15
sky_light_lights_example =
    sky_light_lights row_models row_box uncached row_volumes dark dark_low (at2 0 0) row_box
      (at3 1 0 0) row-HasVolume fresh_chunk second_Inside row-Open
