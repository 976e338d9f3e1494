-- ===== src/Lighting/Initialize.antt =====
-- `InitializeSkyLight` and `InitializeBlockLight` of src/toje/lighting/_lighting.hpp: the first
-- levels, and the volumes in which light is spread. A volume that is absent, which the code
-- asserts against, is skipped.
pub mod Block
pub mod Bounds
pub mod Rounds
pub mod Chunks
pub mod SkyChunks
pub mod Sky
pub mod Pipeline
use package.je2be.Prelude.{
  ℕ, zero, suc, ◌-◌, ◌<◌, Bool, true, false, not, ◌&&◌, ◌||◌, ltb, ◌==◌, max,
}
use package.je2be.Prelude.{Option, none, some, List, [], ◌∷◌, if◌then◌else◌}
use package.je2be.Prelude.Int.{ℤ, pos, pos_part, ◌+ℤ◌, ◌-ℤ◌, eqb_ℤ, min_ℤ, max_ℤ}
use package.je2be.Prelude.Loops.{for_range, for_each}
use package.je2be.Geometry.Pos.{Pos3, Pos2}
use package.je2be.Geometry.Volume.{Volume, intersection_volume, union, contains}
use package.je2be.Storage.Data2d
use package.je2be.Storage.Data2d.{Data2d}
use package.je2be.Enums.Facing6.{Facing6, north, east, south, west, up, down, facing6_invert}
use package.je2be.Enums.Facing6.{pos3_from_facing6}
use package.je2be.Lighting.Models.{LightingModel, Transparency, clear, translucent, solid}
use package.je2be.Lighting.Models.{is_face_opened}
use package.je2be.Lighting.Diffuse.{Models, Levels, put, volume_at}

abbrev pub Volumes : Type 0
Volumes = Data2d (Option Volume)

abbrev pub cached_at : Data2d Bool → Pos2 → Bool
cached_at cached p = elim (Data2d.at cached p) [ none ↦ false | some b ↦ b ]

abbrev pub plus : Pos3 → Pos3 → Pos3
plus p q = record { x = p.x +ℤ q.x; y = p.y +ℤ q.y; z = p.z +ℤ q.z }

-- `Volume(p - r, q + r)` for a radius that is the same on each axis.
abbrev pub grown : ℤ → Pos3 → Pos3 → Volume
grown r p q = record {
  first = record { x = p.x -ℤ r; y = p.y -ℤ r; z = p.z -ℤ r };
  last = record { x = q.x +ℤ r; y = q.y +ℤ r; z = q.z +ℤ r };
}

abbrev pub hull : Volume → Option Volume → Volume
hull v none = v
hull v (some current) = union v current

abbrev pub add_part : Pos2 → Option Volume → Volumes → Volumes
add_part p none dv = dv
add_part p (some part) dv = Data2d.assign dv p (some (hull part (volume_at dv p)))

abbrev pub add_within : Volume → Pos2 → Option Volume → Volumes → Volumes
add_within calc p none dv = dv
add_within calc p (some vv) dv = add_part p (intersection_volume calc vv) dv

-- The two loops over `diffuseVolumes`, which add the box `calc` to the volumes of the chunks that
-- are not cached.
unfoldable pub add_volume : Volume → Data2d Bool → Volumes → Volumes → Volumes
unfolding for_range intersection_volume union Data2d.at Data2d.assign
add_volume calc cached volumes dv =
    for_each
      (λ x.
        for_each
          (λ z d.
            let p : Pos2 = record { x = x; z = z } in
            if cached_at cached p then d else add_within calc p (volume_at volumes p) d)
          (for_range dv.start.z dv.end.z))
      (for_range dv.start.x dv.end.x) dv

-- `out`, `minY` and `maxY` in the loops over a chunk.
pub record Columns : Type 0 where
  pub out : Levels
  pub min_y : Option ℤ
  pub max_y : Option ℤ

abbrev pub is_clear : Transparency → Bool
is_clear clear = true
is_clear translucent = false
is_clear solid = false

abbrev pub is_translucent : Transparency → Bool
is_translucent clear = false
is_translucent translucent = true
is_translucent solid = false

-- The two conditions under which a block has the light of the sky.
unfoldable pub lets_sky : LightingModel → Bool
unfolding is_face_opened
lets_sky m =
    is_clear m.transparency
    || (is_translucent m.transparency && (m.behave_as_air_when_open_up && is_face_opened up m))

abbrev pub least_y : Option ℤ → ℤ → ℤ
least_y none y = y
least_y (some m) y = min_ℤ m y

abbrev pub greatest_y : Option ℤ → ℤ → ℤ
greatest_y none y = y
greatest_y (some m) y = max_ℤ m y

-- The loop over `by`, downwards, with the rounds that are left.
unfoldable pub sky_column : Models → Bool → Volume → ℤ → ℤ → ℕ → ℤ → Columns → Columns
unfolding put lets_sky is_face_opened
sky_column models is_cached v bx bz zero by s = s
sky_column models is_cached v bx bz (suc n) by s =
    let p : Pos3 = record { x = bx; y = by; z = bz } in
    let lit = lets_sky (models p) in
    let out = if lit && not is_cached then put s.out p 15 else s.out in
    let next =
      sky_column models is_cached v bx bz n (by -ℤ pos 1)
        (record { out = out; min_y = s.min_y; max_y = s.max_y }) in
    if not lit || (not (is_face_opened down (models p)) || eqb_ℤ by v.first.y)
    then record {
      out = out;
      min_y = some (least_y s.min_y by);
      max_y = some (greatest_y s.max_y by);
    }
    else next

-- The levels and the volumes that a function fills.
pub record Filling : Type 0 where
  pub out : Levels
  pub diffuse_volumes : Volumes

abbrev pub sky_volumes : Volume → Option ℤ → Option ℤ → Data2d Bool → Volumes → Volumes → Volumes
sky_volumes v (some low) (some high) cached volumes dv =
    add_volume
      (grown (pos 14) (record { x = v.first.x; y = low; z = v.first.z })
        (record { x = v.last.x; y = high; z = v.last.z }))
      cached volumes dv
sky_volumes v low high cached volumes dv = dv

abbrev pub sky_columns : Models → Bool → Volume → Levels → Columns
sky_columns models is_cached v out =
    for_each
      (λ bz.
        for_each
          (λ bx s.
            sky_column models is_cached v bx bz (pos_part (v.last.y -ℤ v.first.y +ℤ pos 1)) v.last.y
              s)
          (for_range v.first.x v.last.x))
      (for_range v.first.z v.last.z) (record { out = out; min_y = none; max_y = none })

abbrev pub sky_chunk : Models → Data2d Bool → Volumes → Pos2 → Option Volume → Filling → Filling
sky_chunk models cached volumes c none s = s
sky_chunk models cached volumes c (some v) s =
    let columns = sky_columns models (cached_at cached c) v s.out in
    record {
      out = columns.out;
      diffuse_volumes = sky_volumes v columns.min_y columns.max_y cached volumes s.diffuse_volumes;
    }

-- The loops over `cz` and `cx`.
abbrev pub for_chunks : {S : Type 0} → Volumes → (Pos2 → Option Volume → S → S) → S → S
for_chunks volumes f s =
    for_each
      (λ cz.
        for_each (λ cx. let c : Pos2 = record { x = cx; z = cz } in f c (volume_at volumes c))
          (for_range volumes.start.x volumes.end.x))
      (for_range volumes.start.z volumes.end.z) s

unfoldable pub initialize_sky_light : Models → Data2d Bool → Volumes → Filling → Filling
unfolding sky_column add_volume
initialize_sky_light models cached volumes s =
    for_chunks volumes (sky_chunk models cached volumes) s
