-- ===== src/Lighting/Initialize/Pipeline.antt =====
-- The two lights of `Lighting::Do`: the first levels, then `DiffuseLight` over the volumes filled.
-- `all` is the box that the models and the levels share.
use je2be.Prelude.{◌≤◌, ◌≡◌, Bool, false, List, arith}
use je2be.Geometry.Pos.{Pos3, Pos2}
use je2be.Geometry.Volume.{Volume}
use je2be.Geometry.Volume.Boxes.{Inside, contains_iff}
use je2be.Storage.Data2d.{Data2d}
use je2be.Lighting.Diffuse.{Models, Levels, diffuse_light}
use je2be.Lighting.Diffuse.Settles.{Least, edges_of, diffuse_light-Least}
use je2be.Lighting.Initialize.{Volumes, Filling, initialize_sky_light, cached_at}
use je2be.Lighting.Initialize.Block.{initialize_block_light}
use je2be.Lighting.Initialize.Bounds.{FourBits}
use je2be.Lighting.Initialize.Chunks.{HasVolume, initialize_block_light-Raises}
use je2be.Lighting.Initialize.Chunks.{initialize_block_light_lights}
use je2be.Lighting.Initialize.Sky.{Open}
use je2be.Lighting.Initialize.SkyChunks.{initialize_sky_light-Raises, initialize_sky_light_lights}

unfoldable pub sky_light : Models → Volume → Data2d Bool → Volumes → Filling → Levels
unfolding initialize_sky_light diffuse_light
sky_light models all cached volumes s =
    let first = initialize_sky_light models cached volumes s in
    diffuse_light models all first.out first.diffuse_volumes

unfoldable pub block_light : Models → Volume → Data2d Bool → Volumes → Filling → Levels
unfolding initialize_block_light diffuse_light
block_light models all cached volumes s =
    let first = initialize_block_light models all cached volumes s in
    diffuse_light models all first.out first.diffuse_volumes

-- The levels that `DiffuseLight` leaves stay within 15, as the constant field 15 is settled.
Least-low :
    (models : Models) (ls : List Volume) (out out' : Levels)
    → Least models (edges_of ls) out out'
    → ((q : Pos3) → out q ≤ 15)
    → (q : Pos3) → out' q ≤ 15
Least-low models ls out out' l low = l.least (λ q. 15) low (λ f p e o. omega arith)

-- From levels up to 15, with models of four-bit emissions, no level of the block light falls and
-- none passes 15.
pub block_light_bounds :
    (models : Models) (all : Volume) (cached : Data2d Bool) (volumes : Volumes) (s : Filling)
    → FourBits models
    → ((q : Pos3) → s.out q ≤ 15)
    → (q : Pos3)
    → (s.out q ≤ block_light models all cached volumes s q)
      × (block_light models all cached volumes s q ≤ 15)
unfolding block_light
block_light_bounds models all cached volumes s bits low q =
    let first = initialize_block_light models all cached volumes s in
    let raised = initialize_block_light-Raises models all cached volumes bits s low in
    let low1 = λ (r : Pos3). (raised r).1 in
    let spread = diffuse_light-Least models all first.out first.diffuse_volumes low1 in
    (omega (arith, raised q, spread.above q), Least-low models _ first.out _ spread low1 q)

-- From levels up to 15, with models of four-bit emissions, each block of a chunk's volume, in the
-- box of the models, ends with at least the level that it emits.
pub block_light_lights :
    (models : Models) (all : Volume) (cached : Data2d Bool) (volumes : Volumes) (s : Filling)
    → FourBits models
    → ((q : Pos3) → s.out q ≤ 15)
    → (c : Pos2) (v : Volume) (p : Pos3) → HasVolume volumes c v
    → Inside v p
    → Inside all p
    → (models p).emission ≤ block_light models all cached volumes s p
unfolding block_light
block_light_lights models all cached volumes s bits low c v p has i j =
    let first = initialize_block_light models all cached volumes s in
    let raised = initialize_block_light-Raises models all cached volumes bits s low in
    let spread =
      diffuse_light-Least models all first.out first.diffuse_volumes (λ q. (raised q).1) in
    let lit =
      initialize_block_light_lights models all cached volumes bits c v p has i
        ((contains_iff all p).1 j) s low in
    omega (arith, lit, spread.above p)

-- From levels up to 15, a block ends with 15 in the sky light where its chunk has a volume and is
-- not cached, each block from it up to the top of the volume has the light of the sky, and each
-- above it is open at its lower face.
pub sky_light_lights :
    (models : Models) (all : Volume) (cached : Data2d Bool) (volumes : Volumes) (s : Filling)
    → ((q : Pos3) → s.out q ≤ 15)
    → (c : Pos2) (v : Volume) (p : Pos3) → HasVolume volumes c v
    → cached_at cached c ≡ false
    → Inside v p
    → Open models v p.x p.z p.y v.last.y
    → sky_light models all cached volumes s p ≡ 15
unfolding sky_light
sky_light_lights models all cached volumes s low c v p has fresh i o =
    let first = initialize_sky_light models cached volumes s in
    let raised = initialize_sky_light-Raises models cached volumes s low in
    let low1 = λ (q : Pos3). (raised q).1 in
    let spread = diffuse_light-Least models all first.out first.diffuse_volumes low1 in
    let lit = initialize_sky_light_lights models cached volumes c v p has fresh i o s low in
    omega (arith, lit, spread.above p, Least-low models _ first.out _ spread low1 p)
