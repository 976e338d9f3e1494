-- ===== src/Geometry/Volume/Connect/Joined.antt =====
-- The box that joins two boxes of one group that touch.
use je2be.Prelude.{◌≡◌, sym, ap, ◌∙◌, true, ◌↔◌, ◌⊎◌, inl, inr, arith}
use je2be.Prelude.Int.{ℤ, pos, ◌+ℤ◌, ◌≤ℤ◌, eqb_ℤ_iff, min_ℤ, max_ℤ}
use je2be.Prelude.Int.{min_ℤ_cases, max_ℤ_cases}
use je2be.Geometry.Pos.{Pos3}
use je2be.Geometry.ClosedRange.{Within, closed}
use je2be.Geometry.Volume.{Volume, Axis, axis_x, axis_y, axis_z, start, end, range, union}
use je2be.Geometry.Volume.{adjacent}
use je2be.Geometry.Volume.Boxes.{Inside, IsValid, hull_of_either}
use je2be.Geometry.Volume.Boxes.{hull_adjacent}
use je2be.Geometry.Volume.Connect.{
  Pass, pass_xy, pass_xz, pass_yz, Key, key, third_axis, first_axis,
}
use je2be.Geometry.Volume.Connect.{second_axis}

-- A box of the group with key `k`, its corners in order.
abbrev pub Fits : Pass → Key → Volume → Type 0
Fits t k v = (key t v ≡ k) × IsValid v

pub adjacent_lem :
    (d : Axis) (v w : Volume)
    → adjacent d v w ≡ true
    → (end d v +ℤ pos 1 ≡ start d w) ⊎ (end d w +ℤ pos 1 ≡ start d v)
unfolding adjacent
adjacent_lem d v w h =
    ground
      (arith, eqb_ℤ_iff (end d v +ℤ pos 1) (start d w), eqb_ℤ_iff (end d w +ℤ pos 1) (start d v))

same_axis :
    (s t e f p : ℤ)
    → s ≡ t
    → e ≡ f
    → (Within (closed (min_ℤ s t) (max_ℤ e f)) p ↔ Within (closed s e) p)
      × (Within (closed s e) p ↔ Within (closed t f) p)
same_axis s t e f p a b =
    let least = min_ℤ_cases s t in
    let greatest = max_ℤ_cases e f in
    (
      (ground (arith, least, greatest), ground (arith, least, greatest)),
      (ground arith, ground arith),
    )

touching_axis :
    (d : Axis) (v w : Volume) (p : ℤ)
    → start d v ≤ℤ end d v
    → start d w ≤ℤ end d w
    → adjacent d v w ≡ true
    → Within (closed (min_ℤ (start d v) (start d w)) (max_ℤ (end d v) (end d w))) p
      ↔ (Within (range d v) p ⊎ Within (range d w) p)
touching_axis d v w p a b touch = (
  hull_adjacent (start d v) (start d w) (end d v) (end d w) p a b (adjacent_lem d v w touch),
  hull_of_either (start d v) (start d w) (end d v) (end d w) p,
)

-- The joined box holds exactly the points of the two.
pub union_exact :
    (t : Pass) (k : Key) (v w : Volume) (p : Pos3)
    → Fits t k v
    → Fits t k w
    → adjacent (third_axis t) v w ≡ true
    → Inside (union v w) p ↔ (Inside v p ⊎ Inside w p)
unfolding union
union_exact pass_xy k v w p fv fw touch =
    let e = fv.0 ∙ sym fw.0 in
    let x =
      same_axis (start axis_x v) (start axis_x w) (end axis_x v) (end axis_x w) p.x
        (ap (λ (l : Key). l.s1) e) (ap (λ (l : Key). l.e1) e) in
    let y =
      same_axis (start axis_y v) (start axis_y w) (end axis_y v) (end axis_y w) p.y
        (ap (λ (l : Key). l.s2) e) (ap (λ (l : Key). l.e2) e) in
    let z = touching_axis axis_z v w p.z fv.1.2 fw.1.2 touch in
    (
      λ h. elim (z.0 h.2) [
        | inl a ↦ inl (x.0.0 h.0, y.0.0 h.1, a)
        | inr b ↦ inr (x.1.0 (x.0.0 h.0), y.1.0 (y.0.0 h.1), b)
      ],
      λ h. elim h [
        | inl a ↦ (x.0.1 a.0, y.0.1 a.1, z.1 (inl a.2))
        | inr b ↦ (x.0.1 (x.1.1 b.0), y.0.1 (y.1.1 b.1), z.1 (inr b.2))
      ],
    )
union_exact pass_xz k v w p fv fw touch =
    let e = fv.0 ∙ sym fw.0 in
    let x =
      same_axis (start axis_x v) (start axis_x w) (end axis_x v) (end axis_x w) p.x
        (ap (λ (l : Key). l.s1) e) (ap (λ (l : Key). l.e1) e) in
    let z =
      same_axis (start axis_z v) (start axis_z w) (end axis_z v) (end axis_z w) p.z
        (ap (λ (l : Key). l.s2) e) (ap (λ (l : Key). l.e2) e) in
    let y = touching_axis axis_y v w p.y fv.1.1 fw.1.1 touch in
    (
      λ h. elim (y.0 h.1) [
        | inl a ↦ inl (x.0.0 h.0, a, z.0.0 h.2)
        | inr b ↦ inr (x.1.0 (x.0.0 h.0), b, z.1.0 (z.0.0 h.2))
      ],
      λ h. elim h [
        | inl a ↦ (x.0.1 a.0, y.1 (inl a.1), z.0.1 a.2)
        | inr b ↦ (x.0.1 (x.1.1 b.0), y.1 (inr b.1), z.0.1 (z.1.1 b.2))
      ],
    )
union_exact pass_yz k v w p fv fw touch =
    let e = fv.0 ∙ sym fw.0 in
    let y =
      same_axis (start axis_y v) (start axis_y w) (end axis_y v) (end axis_y w) p.y
        (ap (λ (l : Key). l.s1) e) (ap (λ (l : Key). l.e1) e) in
    let z =
      same_axis (start axis_z v) (start axis_z w) (end axis_z v) (end axis_z w) p.z
        (ap (λ (l : Key). l.s2) e) (ap (λ (l : Key). l.e2) e) in
    let x = touching_axis axis_x v w p.x fv.1.0 fw.1.0 touch in
    (
      λ h. elim (x.0 h.0) [
        | inl a ↦ inl (a, y.0.0 h.1, z.0.0 h.2)
        | inr b ↦ inr (b, y.1.0 (y.0.0 h.1), z.1.0 (z.0.0 h.2))
      ],
      λ h. elim h [
        | inl a ↦ (x.1 (inl a.0), y.0.1 a.1, z.0.1 a.2)
        | inr b ↦ (x.1 (inr b.0), y.0.1 (y.1.1 b.1), z.0.1 (z.1.1 b.2))
      ],
    )

hull_valid : (s t e f : ℤ) → s ≤ℤ e → t ≤ℤ f → min_ℤ s t ≤ℤ max_ℤ e f
hull_valid s t e f v w = ground (arith, min_ℤ_cases s t, max_ℤ_cases e f)

union-IsValid : (v w : Volume) → IsValid v → IsValid w → IsValid (union v w)
unfolding union
union-IsValid v w a b = (
  hull_valid v.first.x w.first.x v.last.x w.last.x a.0 b.0,
  hull_valid v.first.y w.first.y v.last.y w.last.y a.1 b.1,
  hull_valid v.first.z w.first.z v.last.z w.last.z a.2 b.2,
)

hull_same : (s t : ℤ) → s ≡ t → (min_ℤ s t ≡ s) × (max_ℤ s t ≡ s)
hull_same s t e = (ground (arith, min_ℤ_cases s t), ground (arith, max_ℤ_cases s t))

union_ends :
    (d : Axis) (v w : Volume)
    → start d v ≡ start d w
    → end d v ≡ end d w
    → (start d (union v w) ≡ start d v) × (end d (union v w) ≡ end d v)
unfolding union
union_ends axis_x v w a b = ((hull_same _ _ a).0, (hull_same _ _ b).1)
union_ends axis_y v w a b = ((hull_same _ _ a).0, (hull_same _ _ b).1)
union_ends axis_z v w a b = ((hull_same _ _ a).0, (hull_same _ _ b).1)

key-union : (t : Pass) (v w : Volume) → key t v ≡ key t w → key t (union v w) ≡ key t v
key-union t v w e =
    let a = union_ends (first_axis t) v w (ap (λ (l : Key). l.s1) e) (ap (λ (l : Key). l.e1) e) in
    let b = union_ends (second_axis t) v w (ap (λ (l : Key). l.s2) e) (ap (λ (l : Key). l.e2) e) in
    λ i. record { s1 = a.0 i; e1 = a.1 i; s2 = b.0 i; e2 = b.1 i }

-- It belongs to the group of the two.
pub union-Fits :
    (t : Pass) (k : Key) (v w : Volume) → Fits t k v → Fits t k w → Fits t k (union v w)
union-Fits t k v w fv fw = (key-union t v w (fv.0 ∙ sym fw.0) ∙ fv.0, union-IsValid v w fv.1 fw.1)
