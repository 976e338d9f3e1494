-- ===== src/Lighting/Initialize/Block.antt =====
-- `InitializeBlockLight` of src/toje/lighting/_lighting.hpp.
use je2be.Prelude.{
  ℕ, ◌-◌, Bool, ◌&&◌, ltb, ◌==◌, max, Option, none, some, List, [], ◌∷◌, if◌then◌else◌,
}
use je2be.Prelude.Int.{pos, ◌+ℤ◌, ◌-ℤ◌}
use je2be.Prelude.Loops.{for_range, for_each}
use je2be.Geometry.Pos.{Pos3, Pos2}
use je2be.Geometry.Volume.{Volume, contains}
use je2be.Storage.Data2d.{Data2d}
use je2be.Enums.Facing6.{Facing6, north, east, south, west, up, down, facing6_invert}
use je2be.Enums.Facing6.{pos3_from_facing6}
use je2be.Lighting.Models.{is_face_opened}
use je2be.Lighting.Diffuse.{Models, Levels, put}
use je2be.Lighting.Initialize.{Volumes, Filling, plus, grown, add_volume, for_chunks}

-- One of the six parts for the neighbours, by the face of the block.
unfoldable pub light_neighbor : Models → Volume → Pos3 → ℕ → Facing6 → Levels → Levels
unfolding contains is_face_opened put pos3_from_facing6 facing6_invert
light_neighbor models v p emission f out =
    let target = plus p (pos3_from_facing6 f) in
    if contains v target && is_face_opened (facing6_invert f) (models target)
    then put out target (max (out target) (emission - 1))
    else out

-- The level of the block itself.
unfoldable pub light_self : Volume → Pos3 → ℕ → Levels → Levels
unfolding contains put
light_self v p emission out =
    if contains v p && ltb (out p) emission then put out p emission else out

-- The order of the parts in the code.
abbrev pub block_faces : List Facing6
block_faces = up ∷ down ∷ north ∷ east ∷ south ∷ west ∷ []

-- A round of the three loops over a chunk, whose volume is `v`; `box` is that of the models.
unfoldable pub block_at :
    Models → Volume → Data2d Bool → Volumes → Volume → Pos3 → Filling → Filling
unfolding contains light_neighbor light_self add_volume
block_at models box cached volumes v p s =
    let emission = (models p).emission in
    if contains box p
    then (if emission == 0 then s else record {
      out =
          for_each (light_neighbor models v p emission) block_faces (light_self v p emission s.out);
      diffuse_volumes =
          if ltb 1 emission
          then add_volume (grown (pos (emission - 1)) p p) cached volumes s.diffuse_volumes
          else s.diffuse_volumes;
    })
    else s

-- The loops over `by`, `bz` and `bx`, with a margin of one block on the sides.
abbrev pub block_chunk :
    Models → Volume → Data2d Bool → Volumes → Pos2 → Option Volume → Filling → Filling
block_chunk models box cached volumes c none s = s
block_chunk models box cached volumes c (some v) s =
    for_each
      (λ by.
        for_each
          (λ bz.
            for_each
              (λ bx. block_at models box cached volumes v (record { x = bx; y = by; z = bz }))
              (for_range (v.first.x -ℤ pos 1) (v.last.x +ℤ pos 1)))
          (for_range (v.first.z -ℤ pos 1) (v.last.z +ℤ pos 1)))
      (for_range v.first.y v.last.y) s

unfoldable pub initialize_block_light : Models → Volume → Data2d Bool → Volumes → Filling → Filling
unfolding block_at
initialize_block_light models box cached volumes s =
    for_chunks volumes (block_chunk models box cached volumes) s
