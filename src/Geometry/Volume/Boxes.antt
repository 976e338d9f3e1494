-- ===== src/Geometry/Volume/Boxes.antt =====
-- The points of a box: `contains`, `Union` and `Intersection`.
use je2be.Prelude.{◌≡◌, true, ◌↔◌, ◌⊎◌, Option, none, some, arith}
use je2be.Prelude.Int.{
  ℤ, pos, ◌+ℤ◌, +ℤ_parts, pos-parts, ◌≤ℤ◌, leb_ℤ_iff, min_ℤ, max_ℤ, min_ℤ_cases, max_ℤ_cases,
}
use je2be.Geometry.Pos.{Pos3}
use je2be.Geometry.ClosedRange.{
  ClosedRange, closed, Within, WithinSome, intersection, intersection_lem,
}
use je2be.Geometry.Volume.{Volume, Axis, axis_x, axis_y, axis_z, range, contains, union}
use je2be.Geometry.Volume.{intersection_volume, from_ranges}

-- The point lies between the corners on each axis.
abbrev pub Inside : Volume → Pos3 → Type 0
Inside v p = Within (range axis_x v) p.x × Within (range axis_y v) p.y × Within (range axis_z v) p.z

pub contains_iff : (v : Volume) (p : Pos3) → (contains v p ≡ true) ↔ Inside v p
unfolding contains
contains_iff v p =
    let x0 = leb_ℤ_iff v.first.x p.x in
    let x1 = leb_ℤ_iff p.x v.last.x in
    let y0 = leb_ℤ_iff v.first.y p.y in
    let y1 = leb_ℤ_iff p.y v.last.y in
    let z0 = leb_ℤ_iff v.first.z p.z in
    let z1 = leb_ℤ_iff p.z v.last.z in
    (ground (arith, x0, x1, y0, y1, z0, z1), ground (arith, x0, x1, y0, y1, z0, z1))

-- The points of an intersection that may be missing.
abbrev pub InsideSome : Option Volume → Pos3 → Type 0
InsideSome none p = ⊥
InsideSome (some v) p = Inside v p

from_ranges_lem :
    (x y z : Option ClosedRange) (p : Pos3)
    → InsideSome (from_ranges x y z) p ↔ (WithinSome x p.x × WithinSome y p.y × WithinSome z p.z)
from_ranges_lem (some x) (some y) (some z) p = (λ h. h, λ h. h)
from_ranges_lem (some x) (some y) none p = (λ h. absurd h, λ h. h.2)
from_ranges_lem (some x) none z p = (λ h. absurd h, λ h. h.1)
from_ranges_lem none y z p = (λ h. absurd h, λ h. h.0)

-- A point lies in the intersection exactly when it lies in both boxes.
pub intersection_volume_lem :
    (a b : Volume) (p : Pos3) → InsideSome (intersection_volume a b) p ↔ (Inside a p × Inside b p)
unfolding intersection_volume
intersection_volume_lem a b p =
    let all = from_ranges_lem (common axis_x) (common axis_y) (common axis_z) p in
    let x = intersection_lem (range axis_x a) (range axis_x b) p.x in
    let y = intersection_lem (range axis_y a) (range axis_y b) p.y in
    let z = intersection_lem (range axis_z a) (range axis_z b) p.z in
    (
      λ h.
          let both = all.0 h in
          (
            ((x.0 both.0).0, (y.0 both.1).0, (z.0 both.2).0),
            ((x.0 both.0).1, (y.0 both.1).1, (z.0 both.2).1),
          ),
      λ h. all.1 (x.1 (h.0.0, h.1.0), y.1 (h.0.1, h.1.1), z.1 (h.0.2, h.1.2)),
    )
  where
    common : Axis → Option ClosedRange
    common d = intersection (range d a) (range d b)

-- The corners are in order, as `Volume` is used.
abbrev pub IsValid : Volume → Type 0
IsValid v = (v.first.x ≤ℤ v.last.x) × (v.first.y ≤ℤ v.last.y) × (v.first.z ≤ℤ v.last.z)

module _ (s t e f : ℤ) where
  -- The hull of two ranges holds both.
  pub hull_of_either :
      (p : ℤ)
      → Within (closed s e) p ⊎ Within (closed t f) p
      → Within (closed (min_ℤ s t) (max_ℤ e f)) p
  hull_of_either p h = ground (arith, min_ℤ_cases s t, max_ℤ_cases e f)

  -- The hull of two ranges that touch holds nothing else.
  pub hull_adjacent :
      (p : ℤ)
      → s ≤ℤ e
      → t ≤ℤ f
      → (e +ℤ pos 1 ≡ t) ⊎ (f +ℤ pos 1 ≡ s)
      → Within (closed (min_ℤ s t) (max_ℤ e f)) p
      → Within (closed s e) p ⊎ Within (closed t f) p
  hull_adjacent p v w touch h =
      ground (
        arith,
        min_ℤ_cases s t,
        max_ℤ_cases e f,
        +ℤ_parts e (pos 1),
        +ℤ_parts f (pos 1),
        pos-parts 1,
      )

pub min_ℤ_self : (a : ℤ) → min_ℤ a a ≡ a
min_ℤ_self a = ground (arith, min_ℤ_cases a a)

pub max_ℤ_self : (a : ℤ) → max_ℤ a a ≡ a
max_ℤ_self a = ground (arith, max_ℤ_cases a a)

-- One axis of the law below.
hull-Within_iff :
    (r : ClosedRange) (s t e f : ℤ)
    → s ≤ℤ e
    → t ≤ℤ f
    → (Within r (min_ℤ s t) × Within r (max_ℤ e f))
      ↔ ((Within r s × Within r e) × (Within r t × Within r f))
hull-Within_iff r s t e f v w =
    let least = min_ℤ_cases s t in
    let greatest = max_ℤ_cases e f in
    (ground (arith, least, greatest), ground (arith, least, greatest))

-- Both corners of `v` lie in `c`, so that `c` holds the whole box.
abbrev pub Encloses : Volume → Volume → Type 0
Encloses c v = Inside c v.first × Inside c v.last

-- `Union` is the least box around two boxes that are in order: a box encloses it exactly when it
-- encloses both.
pub union_least :
    (a b c : Volume)
    → IsValid a
    → IsValid b
    → Encloses c (union a b) ↔ (Encloses c a × Encloses c b)
unfolding union
union_least a b c va vb =
    let x = hull-Within_iff (range axis_x c) a.first.x b.first.x a.last.x b.last.x va.0 vb.0 in
    let y = hull-Within_iff (range axis_y c) a.first.y b.first.y a.last.y b.last.y va.1 vb.1 in
    let z = hull-Within_iff (range axis_z c) a.first.z b.first.z a.last.z b.last.z va.2 vb.2 in
    (
      λ h.
          let hx = x.0 (h.0.0, h.1.0) in
          let hy = y.0 (h.0.1, h.1.1) in
          let hz = z.0 (h.0.2, h.1.2) in
          (
            ((hx.0.0, hy.0.0, hz.0.0), (hx.0.1, hy.0.1, hz.0.1)),
            ((hx.1.0, hy.1.0, hz.1.0), (hx.1.1, hy.1.1, hz.1.1)),
          ),
      λ h.
          let gx = x.1 ((h.0.0.0, h.0.1.0), (h.1.0.0, h.1.1.0)) in
          let gy = y.1 ((h.0.0.1, h.0.1.1), (h.1.0.1, h.1.1.1)) in
          let gz = z.1 ((h.0.0.2, h.0.1.2), (h.1.0.2, h.1.1.2)) in
          ((gx.0, gy.0, gz.0), (gx.1, gy.1, gz.1)),
    )
