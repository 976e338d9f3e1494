-- ===== src/Prelude/Offset.antt =====
-- Differences of integers as numbers, and the index arithmetic of flat arrays.
use Prim.Native.Nat.{ℕ, ◌+◌, ◌*◌, ◌<◌}
use mathlib.Core.Path.{◌≡◌}
use native.Mathlib.Omega.{arith}
use je2be.Prelude.Int.{ℤ, pos, pos_part, neg_part, ◌+ℤ◌, ◌-ℤ◌, ◌*ℤ◌, ◌≤ℤ◌}
use je2be.Prelude.Int.{+ℤ_parts, -ℤ_parts, pos-parts, parts_normal, eq_of_parts}

-- p - s, where it is not negative.
abbrev pub dist : ℤ → ℤ → ℕ
dist s p = pos_part (p -ℤ s)

pub dist_lem : (s p : ℤ) → s ≤ℤ p → p -ℤ s ≡ pos (dist s p)
dist_lem s p h =
    eq_of_parts (p -ℤ s) (pos (dist s p))
      (omega (arith, -ℤ_parts p s, pos-parts (dist s p), parts_normal (p -ℤ s)))

pub pos-+ℤ : (a b : ℕ) → pos a +ℤ pos b ≡ pos (a + b)
unfolding ◌+ℤ◌
pos-+ℤ a b = ground arith

pub pos-*ℤ : (a b : ℕ) → pos a *ℤ pos b ≡ pos (a * b)
unfolding ◌*ℤ◌
pos-*ℤ a b = ground arith

pub dist_parts : (s p : ℤ) → s ≤ℤ p → dist s p + neg_part p + pos_part s ≡ pos_part p + neg_part s
dist_parts s p h = omega (arith, -ℤ_parts p s, parts_normal (p -ℤ s))

pub cell-lt : (x z w h : ℕ) → x < w → z < h → z * w + x < h * w
cell-lt x z w h a b = grind arith

cell-lt-cell : (w x z x' z' : ℕ) → x < w → z < z' → z * w + x < z' * w + x'
cell-lt-cell w x z x' z' hx hz = grind arith

pub cell_inj : (w x z x' z' : ℕ) → x < w → x' < w → z * w + x ≡ z' * w + x' → (x ≡ x') × (z ≡ z')
cell_inj w x z x' z' hx hx' e = ground (arith, cell-lt-cell w x z x' z', cell-lt-cell w x' z' x z)

-- The number of coordinates from `s` to `e`, both included, as the code computes it.
pub dist-lt-extent : (s e p : ℤ) → s ≤ℤ p → p ≤ℤ e → dist s p < pos_part (e -ℤ s +ℤ pos 1)
dist-lt-extent s e p a b = omega (
  arith,
  -ℤ_parts p s,
  parts_normal (p -ℤ s),
  -ℤ_parts e s,
  +ℤ_parts (e -ℤ s) (pos 1),
  pos-parts 1,
  parts_normal (e -ℤ s +ℤ pos 1),
)

pub extent_lem : (s e p : ℤ) → s ≤ℤ p → p ≤ℤ e → e -ℤ s +ℤ pos 1 ≡ pos (pos_part (e -ℤ s +ℤ pos 1))
extent_lem s e p a b = eq_of_parts (e -ℤ s +ℤ pos 1) (pos (pos_part (e -ℤ s +ℤ pos 1))) (
    omega (
      arith,
      -ℤ_parts e s,
      +ℤ_parts (e -ℤ s) (pos 1),
      pos-parts 1,
      pos-parts (pos_part (e -ℤ s +ℤ pos 1)),
      parts_normal (e -ℤ s +ℤ pos 1),
    ))

pub dist_inj : (s p q : ℤ) → s ≤ℤ p → s ≤ℤ q → dist s p ≡ dist s q → p ≡ q
dist_inj s p q a b e = eq_of_parts p q (omega (arith, e, dist_parts s p a, dist_parts s q b))
