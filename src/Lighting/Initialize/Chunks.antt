-- ===== src/Lighting/Initialize/Chunks.antt =====
-- The loops of `InitializeBlockLight` over the chunks: every lamp is visited.
use je2be.Prelude.{◌≤◌, ◌≡◌, sym, subst, Bool, true, Option, none, some, arith}
use je2be.Prelude.Int.{ℤ, pos, ◌+ℤ◌, ◌-ℤ◌, ◌≤ℤ◌, +ℤ_parts, -ℤ_parts, pos-parts}
use je2be.Prelude.Loops.{for_range, for_each, In, In-for_range}
use je2be.Geometry.Pos.{Pos3, Pos2}
use je2be.Geometry.Volume.{Volume, contains}
use je2be.Geometry.Volume.Boxes.{Inside, contains_iff}
use je2be.Storage.Data2d.{Data2d}
use je2be.Lighting.Diffuse.{Models, volume_at}
use je2be.Lighting.Initialize.{Volumes, Filling}
use je2be.Lighting.Initialize.Block.{block_at, block_chunk, initialize_block_light}
use je2be.Lighting.Initialize.Bounds.{Raises-refl, FillingRaises, FourBits}
use je2be.Lighting.Initialize.Rounds.{filling_out, loop-Raises, loop_lights}
use je2be.Lighting.Initialize.Bounds.{block_at-Raises, block_at_lights}

-- The chunk of the volumes that has the box.
abbrev pub HasVolume : Volumes → Pos2 → Volume → Type 0
HasVolume volumes c v =
    (volumes.start.x ≤ℤ c.x)
    × (c.x ≤ℤ volumes.end.x)
    × (volumes.start.z ≤ℤ c.z)
    × (c.z ≤ℤ volumes.end.z)
    × (volume_at volumes c ≡ some v)

module _ (models : Models) (box : Volume) (cached : Data2d Bool) (volumes : Volumes)
    (bits : FourBits models) where
  abbrev at_x : Volume → ℤ → ℤ → ℤ → Filling → Filling
  at_x v by bz bx = block_at models box cached volumes v (record { x = bx; y = by; z = bz })

  abbrev at_z : Volume → ℤ → ℤ → Filling → Filling
  at_z v by bz = for_each (at_x v by bz) (for_range (v.first.x -ℤ pos 1) (v.last.x +ℤ pos 1))

  abbrev at_y : Volume → ℤ → Filling → Filling
  at_y v by = for_each (at_z v by) (for_range (v.first.z -ℤ pos 1) (v.last.z +ℤ pos 1))

  at_x-Raises : (v : Volume) (by bz bx : ℤ) (s : Filling) → FillingRaises s (at_x v by bz bx s)
  at_x-Raises v by bz bx s =
      block_at-Raises models box cached volumes bits v (record { x = bx; y = by; z = bz }) s

  at_z-Raises : (v : Volume) (by bz : ℤ) (s : Filling) → FillingRaises s (at_z v by bz s)
  at_z-Raises v by bz s =
      loop-Raises filling_out (at_x v by bz) (at_x-Raises v by bz)
        (for_range (v.first.x -ℤ pos 1) (v.last.x +ℤ pos 1)) s

  at_y-Raises : (v : Volume) (by : ℤ) (s : Filling) → FillingRaises s (at_y v by s)
  at_y-Raises v by s =
      loop-Raises filling_out (at_z v by) (at_z-Raises v by)
        (for_range (v.first.z -ℤ pos 1) (v.last.z +ℤ pos 1)) s

  block_chunk-Raises :
      (c : Pos2) (o : Option Volume) (s : Filling)
      → FillingRaises s (block_chunk models box cached volumes c o s)
  block_chunk-Raises c none s = Raises-refl s.out
  block_chunk-Raises c (some v) s =
      loop-Raises filling_out (at_y v) (at_y-Raises v) (for_range v.first.y v.last.y) s

  block_chunk_lights :
      (c : Pos2) (v : Volume) (p : Pos3)
      → Inside v p
      → contains box p ≡ true
      → (s : Filling) → ((q : Pos3) → s.out q ≤ 15)
      → (models p).emission ≤ (block_chunk models box cached volumes c (some v) s).out p
  block_chunk_lights c v p i h s low =
      let e = (models p).emission in
      loop_lights filling_out (at_y v) (at_y-Raises v) p.y (for_range v.first.y v.last.y) p e
        (In-for_range v.first.y v.last.y p.y i.1.0 i.1.1)
        (loop_lights filling_out (at_z v p.y) (at_z-Raises v p.y) p.z
          (for_range (v.first.z -ℤ pos 1) (v.last.z +ℤ pos 1)) p e
          (beside v.first.z v.last.z p.z i.2.0 i.2.1)
          (loop_lights filling_out (at_x v p.y p.z) (at_x-Raises v p.y p.z) p.x
            (for_range (v.first.x -ℤ pos 1) (v.last.x +ℤ pos 1)) p e
            (beside v.first.x v.last.x p.x i.0.0 i.0.1)
            (λ t low'.
              block_at_lights models box cached volumes bits v p t h ((contains_iff v p).1 i)
                low')))
        s low
    where
      beside : (a b i : ℤ) → a ≤ℤ i → i ≤ℤ b → In i (for_range (a -ℤ pos 1) (b +ℤ pos 1))
      beside a b i l h =
          In-for_range (a -ℤ pos 1) (b +ℤ pos 1) i
            (omega (arith, l, -ℤ_parts a (pos 1), pos-parts 1))
            (omega (arith, h, +ℤ_parts b (pos 1), pos-parts 1))

  abbrev chunk_at : ℤ → ℤ → Filling → Filling
  chunk_at cz cx =
      let c : Pos2 = record { x = cx; z = cz } in
      block_chunk models box cached volumes c (volume_at volumes c)

  chunk_at-Raises : (cz cx : ℤ) (s : Filling) → FillingRaises s (chunk_at cz cx s)
  chunk_at-Raises cz cx s =
      let c : Pos2 = record { x = cx; z = cz } in block_chunk-Raises c (volume_at volumes c) s

  abbrev chunk_row : ℤ → Filling → Filling
  chunk_row cz = for_each (chunk_at cz) (for_range volumes.start.x volumes.end.x)

  chunk_row-Raises : (cz : ℤ) (s : Filling) → FillingRaises s (chunk_row cz s)
  chunk_row-Raises cz s =
      loop-Raises filling_out (chunk_at cz) (chunk_at-Raises cz)
        (for_range volumes.start.x volumes.end.x) s

  pub initialize_block_light-Raises :
      (s : Filling) → FillingRaises s (initialize_block_light models box cached volumes s)
  unfolding initialize_block_light
  initialize_block_light-Raises s =
      loop-Raises filling_out chunk_row chunk_row-Raises (for_range volumes.start.z volumes.end.z) s

  pub initialize_block_light_lights :
      (c : Pos2) (v : Volume) (p : Pos3)
      → HasVolume volumes c v
      → Inside v p
      → contains box p ≡ true
      → (s : Filling) → ((q : Pos3) → s.out q ≤ 15)
      → (models p).emission ≤ (initialize_block_light models box cached volumes s).out p
  unfolding initialize_block_light
  initialize_block_light_lights c v p (x0, x1, z0, z1, has) i h s low =
      loop_lights filling_out chunk_row chunk_row-Raises c.z
        (for_range volumes.start.z volumes.end.z) p (models p).emission
        (In-for_range volumes.start.z volumes.end.z c.z z0 z1)
        (loop_lights filling_out (chunk_at c.z) (chunk_at-Raises c.z) c.x
          (for_range volumes.start.x volumes.end.x) p (models p).emission
          (In-for_range volumes.start.x volumes.end.x c.x x0 x1)
          (λ t low'.
            subst (λ o. (models p).emission ≤ (block_chunk models box cached volumes c o t).out p)
              (sym has) (block_chunk_lights c v p i h t low')))
        s low
