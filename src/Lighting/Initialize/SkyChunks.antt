-- ===== src/Lighting/Initialize/SkyChunks.antt =====
-- The loops of `InitializeSkyLight` over the chunks.
use je2be.Prelude.{ℕ, ◌≤◌, ◌≡◌, sym, subst, Bool, false, Option, none, some, arith}
use je2be.Prelude.Int.{ℤ, pos, pos_part, ◌+ℤ◌, ◌-ℤ◌, ◌≤ℤ◌, ◌<ℤ◌, +ℤ_parts, -ℤ_parts, pos-parts}
use je2be.Prelude.Int.{parts_normal}
use je2be.Prelude.Loops.{for_range, for_each, In-for_range}
use je2be.Geometry.Pos.{Pos3, Pos2}
use je2be.Geometry.Volume.{Volume}
use je2be.Geometry.Volume.Boxes.{Inside}
use je2be.Storage.Data2d.{Data2d}
use je2be.Lighting.Diffuse.{Models, volume_at}
use je2be.Lighting.Initialize.{Volumes, Filling, Columns, sky_column, sky_columns, sky_chunk}
use je2be.Lighting.Initialize.{cached_at, initialize_sky_light}
use je2be.Lighting.Initialize.Bounds.{Raises, Raises-refl}
use je2be.Lighting.Initialize.Rounds.{filling_out, columns_out, loop-Raises, loop_lights}
use je2be.Lighting.Initialize.Sky.{Open, sky_column-Raises, sky_column_lights}
use je2be.Lighting.Initialize.Chunks.{HasVolume}

module _ (models : Models) (cached : Data2d Bool) (volumes : Volumes) where
  abbrev rows : Volume → ℕ
  rows v = pos_part (v.last.y -ℤ v.first.y +ℤ pos 1)

  abbrev column_at : Bool → Volume → ℤ → ℤ → Columns → Columns
  column_at is_cached v bz bx s = sky_column models is_cached v bx bz (rows v) v.last.y s

  abbrev column_row : Bool → Volume → ℤ → Columns → Columns
  column_row is_cached v bz = for_each (column_at is_cached v bz) (for_range v.first.x v.last.x)

  column_at-Raises :
      (is_cached : Bool) (v : Volume) (bz bx : ℤ) (s : Columns)
      → Raises s.out (column_at is_cached v bz bx s).out
  column_at-Raises is_cached v bz bx s =
      sky_column-Raises models v bx bz is_cached (rows v) v.last.y s

  column_row-Raises :
      (is_cached : Bool) (v : Volume) (bz : ℤ) (s : Columns)
      → Raises s.out (column_row is_cached v bz s).out
  column_row-Raises is_cached v bz s =
      loop-Raises columns_out (column_at is_cached v bz) (column_at-Raises is_cached v bz)
        (for_range v.first.x v.last.x) s

  sky_chunk-Raises :
      (c : Pos2) (o : Option Volume) (s : Filling)
      → Raises s.out (sky_chunk models cached volumes c o s).out
  sky_chunk-Raises c none s = Raises-refl s.out
  sky_chunk-Raises c (some v) s =
      loop-Raises columns_out (column_row (cached_at cached c) v)
        (column_row-Raises (cached_at cached c) v) (for_range v.first.z v.last.z) _

  sky_chunk_lights :
      (c : Pos2) (v : Volume) (p : Pos3)
      → cached_at cached c ≡ false
      → Inside v p
      → Open models v p.x p.z p.y v.last.y
      → (s : Filling) → ((q : Pos3) → s.out q ≤ 15)
      → 15 ≤ (sky_chunk models cached volumes c (some v) s).out p
  sky_chunk_lights c v p fresh i o s low =
      subst (λ b. 15 ≤ (sky_columns models b v s.out).out p) (sym fresh)
        (loop_lights columns_out (column_row false v) (column_row-Raises false v) p.z
          (for_range v.first.z v.last.z) p 15 (In-for_range v.first.z v.last.z p.z i.2.0 i.2.1)
          (loop_lights columns_out (column_at false v p.z) (column_at-Raises false v p.z) p.x
            (for_range v.first.x v.last.x) p 15 (In-for_range v.first.x v.last.x p.x i.0.0 i.0.1)
            (λ t low'.
              sky_column_lights models v p.x p.z p.y (rows v) v.last.y t i.1.0 i.1.1
                (high_enough v p i.1.0) o low'))
          (record { out = s.out; min_y = none; max_y = none }) low)
    where
      high_enough : (u : Volume) (q : Pos3) → u.first.y ≤ℤ q.y → u.last.y <ℤ q.y +ℤ pos (rows u)
      high_enough u q a = omega (
        arith,
        a,
        +ℤ_parts q.y (pos (rows u)),
        pos-parts (rows u),
        -ℤ_parts u.last.y u.first.y,
        +ℤ_parts (u.last.y -ℤ u.first.y) (pos 1),
        pos-parts 1,
        parts_normal (u.last.y -ℤ u.first.y +ℤ pos 1),
      )

  abbrev chunk_at : ℤ → ℤ → Filling → Filling
  chunk_at cz cx =
      let c : Pos2 = record { x = cx; z = cz } in
      sky_chunk models cached volumes c (volume_at volumes c)

  abbrev chunk_row : ℤ → Filling → Filling
  chunk_row cz = for_each (chunk_at cz) (for_range volumes.start.x volumes.end.x)

  chunk_at-Raises : (cz cx : ℤ) (s : Filling) → Raises s.out (chunk_at cz cx s).out
  chunk_at-Raises cz cx s =
      let c : Pos2 = record { x = cx; z = cz } in sky_chunk-Raises c (volume_at volumes c) s

  chunk_row-Raises : (cz : ℤ) (s : Filling) → Raises s.out (chunk_row cz s).out
  chunk_row-Raises cz s =
      loop-Raises filling_out (chunk_at cz) (chunk_at-Raises cz)
        (for_range volumes.start.x volumes.end.x) s

  pub initialize_sky_light-Raises :
      (s : Filling) → Raises s.out (initialize_sky_light models cached volumes s).out
  unfolding initialize_sky_light
  initialize_sky_light-Raises s =
      loop-Raises filling_out chunk_row chunk_row-Raises (for_range volumes.start.z volumes.end.z) s

  pub initialize_sky_light_lights :
      (c : Pos2) (v : Volume) (p : Pos3)
      → HasVolume volumes c v
      → cached_at cached c ≡ false
      → Inside v p
      → Open models v p.x p.z p.y v.last.y
      → (s : Filling) → ((q : Pos3) → s.out q ≤ 15)
      → 15 ≤ (initialize_sky_light models cached volumes s).out p
  unfolding initialize_sky_light
  initialize_sky_light_lights c v p (x0, x1, z0, z1, has) fresh i o s low =
      loop_lights filling_out chunk_row chunk_row-Raises c.z
        (for_range volumes.start.z volumes.end.z) p 15
        (In-for_range volumes.start.z volumes.end.z c.z z0 z1)
        (loop_lights filling_out (chunk_at c.z) (chunk_at-Raises c.z) c.x
          (for_range volumes.start.x volumes.end.x) p 15
          (In-for_range volumes.start.x volumes.end.x c.x x0 x1)
          (λ t low'.
            subst (λ w. 15 ≤ (sky_chunk models cached volumes c w t).out p) (sym has)
              (sky_chunk_lights c v p fresh i o t low')))
        s low
