-- ===== src/Lighting/Diffuse/Faces.antt =====
-- The neighbours of a block within a limit, and the tests of `DiffuseRecursive`.
use je2be.Prelude.{ℕ, suc, ◌≤◌, ◌<◌, ◌≡◌, ◌≢◌, refl}
use je2be.Prelude.{Bool, true, false, ◌&&◌, ltb, arith}
use je2be.Prelude.Int.{pos, ◌+ℤ◌, ◌-ℤ◌, leb_ℤ_iff, +ℤ_parts, -ℤ_parts, pos-parts}
use je2be.Geometry.Pos.{Pos3}
use je2be.Geometry.Volume.{Volume}
use je2be.Geometry.Volume.Boxes.{Inside}
use je2be.Enums.Facing6.{Facing6, north, east, south, west, up, down}
use je2be.Lighting.Diffuse.{neighbor}
use je2be.Lighting.Diffuse.{in_limit}

pub and_parts : (a b : Bool) → (a && b) ≡ true → (a ≡ true) × (b ≡ true)
and_parts true b h = (refl, h)
and_parts false b h = ground arith

pub Inside-neighbor :
    (f : Facing6) (v : Volume) (p : Pos3)
    → Inside v p
    → in_limit f v p ≡ true
    → Inside v (neighbor f p)
Inside-neighbor up v p i h =
    let test = (leb_ℤ_iff (p.y +ℤ pos 1) v.last.y).0 h in
    (i.0, omega (arith, i.1, test, +ℤ_parts p.y (pos 1), pos-parts 1), i.2)
Inside-neighbor down v p i h =
    let test = (leb_ℤ_iff v.first.y (p.y -ℤ pos 1)).0 h in
    (i.0, omega (arith, i.1, test, -ℤ_parts p.y (pos 1), pos-parts 1), i.2)
Inside-neighbor east v p i h =
    let test = (leb_ℤ_iff (p.x +ℤ pos 1) v.last.x).0 h in
    (omega (arith, i.0, test, +ℤ_parts p.x (pos 1), pos-parts 1), i.1, i.2)
Inside-neighbor west v p i h =
    let test = (leb_ℤ_iff v.first.x (p.x -ℤ pos 1)).0 h in
    (omega (arith, i.0, test, -ℤ_parts p.x (pos 1), pos-parts 1), i.1, i.2)
Inside-neighbor south v p i h =
    let test = (leb_ℤ_iff (p.z +ℤ pos 1) v.last.z).0 h in
    (i.0, i.1, omega (arith, i.2, test, +ℤ_parts p.z (pos 1), pos-parts 1))
Inside-neighbor north v p i h =
    let test = (leb_ℤ_iff v.first.z (p.z -ℤ pos 1)).0 h in
    (i.0, i.1, omega (arith, i.2, test, -ℤ_parts p.z (pos 1), pos-parts 1))

pub and_both : (a b : Bool) → a ≡ true → b ≡ true → (a && b) ≡ true
and_both true b h g = g
and_both false b h g = h

pub true≢false : true ≢ false
true≢false e = ground arith

pub low_level : (n : ℕ) → ltb 1 (suc n) ≡ false → n ≤ 0
low_level n h = ground arith

pub lt→ltb : (a b : ℕ) → a < b → ltb a b ≡ true
lt→ltb a b h = ground arith
