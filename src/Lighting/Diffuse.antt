-- ===== src/Lighting/Diffuse.antt =====
-- `DiffuseLight` and `DiffuseRecursive` of src/toje/lighting/_lighting.hpp. An array is a function
-- of the position: every access lies in the box of the array, by the limits. A level is a number,
-- which no step raises, so a `u8` holds it.
pub mod Steps
pub mod Faces
pub mod Recursive
pub mod Rounds
pub mod Settles
use package.je2be.Prelude.{ℕ, zero, suc, ◌+◌, ◌*◌, Bool, true, false, not, ◌&&◌, ltb, ◌==◌}
use package.je2be.Prelude.{Option, none, some, List, [], ◌∷◌, ◌++◌, map, length, if◌then◌else◌}
use package.je2be.Prelude.Int.{ℤ, pos, pos_part, ◌+ℤ◌, ◌-ℤ◌, leb_ℤ}
use package.je2be.Prelude.Loops.{for_range, concat_map}
use package.je2be.Geometry.Pos.{Pos3, Pos2, eq_pos3}
use package.je2be.Geometry.Volume.{Volume, intersection_volume}
use package.je2be.Storage.Data2d
use package.je2be.Storage.Data2d.{Data2d}
use package.je2be.Enums.Facing6.{Facing6, north, east, south, west, up, down}
use package.je2be.Lighting.Models.{LightingModel, can_light_passthrough}

abbrev pub Models : Type 0
Models = Pos3 → LightingModel

abbrev pub Levels : Type 0
Levels = Pos3 → ℕ

unfoldable pub put : Levels → Pos3 → ℕ → Levels
unfolding eq_pos3
put out p l q = if eq_pos3 p q then l else out q

-- The array `out` and the counter `changed`, which the calls share.
pub record Lights : Type 0 where
  pub out : Levels
  pub changed : ℕ

pub data IgnoreFace : Type 0 where
  ignore_none : IgnoreFace
  ignore_up : IgnoreFace
  ignore_down : IgnoreFace
  ignore_north : IgnoreFace
  ignore_east : IgnoreFace
  ignore_south : IgnoreFace
  ignore_west : IgnoreFace

-- `Ignore != IgnoreUp`, and so on.
unfoldable pub ignores : IgnoreFace → Facing6 → Bool
ignores ignore_up up = true
ignores ignore_down down = true
ignores ignore_north north = true
ignores ignore_east east = true
ignores ignore_south south = true
ignores ignore_west west = true
ignores i f = false

-- The face that the call for the neighbour ignores.
abbrev pub way_back : Facing6 → IgnoreFace
way_back up = ignore_down
way_back down = ignore_up
way_back east = ignore_west
way_back west = ignore_east
way_back south = ignore_north
way_back north = ignore_south

abbrev pub neighbor : Facing6 → Pos3 → Pos3
neighbor up p = record { x = p.x; y = p.y +ℤ pos 1; z = p.z }
neighbor down p = record { x = p.x; y = p.y -ℤ pos 1; z = p.z }
neighbor east p = record { x = p.x +ℤ pos 1; y = p.y; z = p.z }
neighbor west p = record { x = p.x -ℤ pos 1; y = p.y; z = p.z }
neighbor south p = record { x = p.x; y = p.y; z = p.z +ℤ pos 1 }
neighbor north p = record { x = p.x; y = p.y; z = p.z -ℤ pos 1 }

abbrev pub in_limit : Facing6 → Volume → Pos3 → Bool
in_limit up limit p = leb_ℤ (p.y +ℤ pos 1) limit.last.y
in_limit down limit p = leb_ℤ limit.first.y (p.y -ℤ pos 1)
in_limit east limit p = leb_ℤ (p.x +ℤ pos 1) limit.last.x
in_limit west limit p = leb_ℤ limit.first.x (p.x -ℤ pos 1)
in_limit south limit p = leb_ℤ (p.z +ℤ pos 1) limit.last.z
in_limit north limit p = leb_ℤ limit.first.z (p.z -ℤ pos 1)

-- `CanLightPassthrough` from a block to its neighbour.
abbrev pub passes : Models → Facing6 → Pos3 → Bool
passes models f p = can_light_passthrough f (models p).model (models (neighbor f p)).model

-- The conditions under which a block of level `n + 1` sets its neighbour to `n`.
abbrev pub spreads : Models → Volume → IgnoreFace → Facing6 → Pos3 → ℕ → Levels → Bool
spreads models limit skip f p n out =
    not (ignores skip f)
    && (in_limit f limit p && (ltb (out (neighbor f p) + 1) (suc n) && passes models f p))

abbrev pub raise : Lights → Pos3 → ℕ → Lights
raise s p n = record { out = put s.out p n; changed = s.changed + 1 }

-- One of the six parts of `DiffuseRecursive`; `again` is the call for the neighbour.
abbrev pub spread :
    Models
    → Volume
    → IgnoreFace
    → Facing6
    → Pos3
    → ℕ
    → (IgnoreFace → Pos3 → Lights → Lights)
    → Lights
    → Lights
spread models limit skip f p n again s = elim (spreads models limit skip f p n s.out) [
  | false ↦ s
  | true ↦ elim (ltb 1 n) [
    | true ↦ again (way_back f) (neighbor f p) (raise s (neighbor f p) n)
    | false ↦ raise s (neighbor f p) n
  ]
]

-- The level `center` is above 1, and each call has a lower one.
unfoldable pub diffuse_recursive : Models → Volume → ℕ → IgnoreFace → Pos3 → Lights → Lights
unfolding ignores can_light_passthrough put
diffuse_recursive models limit zero skip p s = s
diffuse_recursive models limit (suc n) skip p s =
    let again = diffuse_recursive models limit n in
    let s1 = spread models limit skip up p n again s in
    let s2 = spread models limit skip down p n again s1 in
    let s3 = spread models limit skip east p n again s2 in
    let s4 = spread models limit skip west p n again s3 in
    let s5 = spread models limit skip south p n again s4 in
    spread models limit skip north p n again s5

-- The positions of a box in the order of the three loops, y, z and x.
unfoldable pub positions : Volume → List Pos3
unfolding for_range
positions v =
    concat_map
      (λ y.
        concat_map (λ z. map (λ x. record { x = x; y = y; z = z }) (for_range v.first.x v.last.x))
          (for_range v.first.z v.last.z))
      (for_range v.first.y v.last.y)

unfoldable pub diffuse_at : Models → Volume → Pos3 → Lights → Lights
unfolding diffuse_recursive
diffuse_at models limit p s = elim (ltb 1 (s.out p)) [
  | true ↦ diffuse_recursive models limit (s.out p) ignore_none p s
  | false ↦ s
]

abbrev pub diffuse_each : Models → Volume → List Pos3 → Lights → Lights
diffuse_each models limit [] s = s
diffuse_each models limit (p ∷ ps) s = diffuse_each models limit ps (diffuse_at models limit p s)

-- `limit`: the volume with a margin of one block, within the array.
unfoldable pub limit_of : Volume → Option Volume → Option Volume
unfolding intersection_volume
limit_of all none = none
limit_of all (some v) =
    intersection_volume
      (record {
        first = record { x = v.first.x -ℤ pos 1; y = v.first.y -ℤ pos 1; z = v.first.z -ℤ pos 1 };
        last = record { x = v.last.x +ℤ pos 1; y = v.last.y +ℤ pos 1; z = v.last.z +ℤ pos 1 };
      })
      all

-- The limits in the order of the loops over `volumes`; `continue` leaves one out.
abbrev pub keep_some : Option Volume → List Volume → List Volume
keep_some none l = l
keep_some (some v) l = v ∷ l

abbrev pub volume_at : Data2d (Option Volume) → Pos2 → Option Volume
volume_at volumes p = elim (Data2d.at volumes p) [ none ↦ none | some v ↦ v ]

abbrev pub limits_of : Volume → List (Option Volume) → List Volume
limits_of all [] = []
limits_of all (v ∷ vs) = keep_some (limit_of all v) (limits_of all vs)

unfoldable pub volumes_of : Data2d (Option Volume) → List (Option Volume)
unfolding for_range
volumes_of volumes =
    concat_map
      (λ cz.
        map (λ cx. volume_at volumes (record { x = cx; z = cz }))
          (for_range volumes.start.x volumes.end.x))
      (for_range volumes.start.z volumes.end.z)

unfoldable pub limits : Volume → Data2d (Option Volume) → List Volume
unfolding volumes_of limit_of
limits all volumes = limits_of all (volumes_of volumes)

abbrev pub diffuse_round : Models → List Volume → Lights → Lights
diffuse_round models [] s = s
diffuse_round models (limit ∷ ls) s =
    diffuse_round models ls (diffuse_each models limit (positions limit) s)

-- `while (true)` of `DiffuseLight`.
unfoldable pub diffuse_loop : ℕ → Models → List Volume → Levels → Levels
unfolding diffuse_at positions
diffuse_loop zero models ls out = out
diffuse_loop (suc fuel) models ls out =
    let s = diffuse_round models ls (record { out = out; changed = 0 }) in
    elim (s.changed == 0) [ true ↦ s.out | false ↦ diffuse_loop fuel models ls s.out ]

-- Each round but the last raises a level, and the levels are at most 15.
unfoldable pub diffuse_light : Models → Volume → Levels → Data2d (Option Volume) → Levels
unfolding diffuse_loop limits
diffuse_light models all out volumes =
    diffuse_loop (suc (15 * length (positions all))) models (limits all volumes) out
