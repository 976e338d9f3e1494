-- ===== src/Portals/Directions.antt =====
-- The cells that a search of `lookupCorner` meets, and the directions of its calls.
use je2be.Prelude.{ℕ, suc, ◌*◌, ◌≡◌, refl, ap}
use je2be.Prelude.{Bool, true, false, arith}
use je2be.Prelude.Int.{ℤ, pos, negsuc, pos_part, neg_part, ◌+ℤ◌, ◌*ℤ◌}
use je2be.Prelude.Int.{+ℤ_parts, eq_of_parts}
use je2be.Geometry.Pos.{Pos3, pos3_eq}
use je2be.Portals.{Direction, Corner}
use je2be.Portals.{corner_at}
use je2be.Portals.{bottom_north_west, top_south_east}

-- The cell `i` steps aside and `j` steps up.
abbrev pub cell : Direction → Pos3 → ℕ → ℕ → Pos3
cell d p i j = record {
  x = p.x +ℤ d.dx *ℤ pos i;
  y = p.y +ℤ d.dy *ℤ pos j;
  z = p.z +ℤ d.dz *ℤ pos i;
}

abbrev pub corner : Direction → Pos3 → ℕ → ℕ → Corner
corner d p w h =
    let q = cell d p w h in
    record { current_x = q.x; current_y = q.y; current_z = q.z; width = suc w; height = suc h }

pub *ℤ-pos :
    (d : ℤ) (n : ℕ)
    → (pos_part (d *ℤ pos n) ≡ pos_part d * n) × (neg_part (d *ℤ pos n) ≡ neg_part d * n)
unfolding ◌*ℤ◌
*ℤ-pos (pos m) n = (ground arith, ground arith)
*ℤ-pos (negsuc m) n = (ground arith, ground arith)

pub step_ℤ : (a d : ℤ) (n : ℕ) → a +ℤ d *ℤ pos n +ℤ d ≡ a +ℤ d *ℤ pos (suc n)
step_ℤ a d n = eq_of_parts _ _ (
    omega (
      arith,
      *ℤ-pos d n,
      *ℤ-pos d (suc n),
      +ℤ_parts (a +ℤ d *ℤ pos n) d,
      +ℤ_parts a (d *ℤ pos n),
      +ℤ_parts a (d *ℤ pos (suc n)),
    ))

start_ℤ : (a d : ℤ) → a +ℤ d *ℤ pos 0 ≡ a
start_ℤ a d = eq_of_parts _ _ (omega (arith, *ℤ-pos d 0, +ℤ_parts a (d *ℤ pos 0)))

pub corner_start : (d : Direction) (p : Pos3) → corner d p 0 0 ≡ corner_at p
corner_start d p = rw (start_ℤ p.x d.dx, start_ℤ p.y d.dy, start_ℤ p.z d.dz) refl

-- Different steps lead to different cells.
pub record Walks (d : Direction) : Type 0 where
  pub aside : (p : Pos3) (i j : ℕ) → cell d p i 0 ≡ cell d p j 0 → i ≡ j
  pub up : (p : Pos3) (i j : ℕ) → cell d p 0 i ≡ cell d p 0 j → i ≡ j

east_inj : (a : ℤ) (i j : ℕ) → a +ℤ pos 1 *ℤ pos i ≡ a +ℤ pos 1 *ℤ pos j → i ≡ j
unfolding pos_part neg_part
east_inj a i j e = omega (
  arith,
  ap pos_part e,
  ap neg_part e,
  *ℤ-pos (pos 1) i,
  *ℤ-pos (pos 1) j,
  +ℤ_parts a (pos 1 *ℤ pos i),
  +ℤ_parts a (pos 1 *ℤ pos j),
)

west_inj : (a : ℤ) (i j : ℕ) → a +ℤ negsuc 0 *ℤ pos i ≡ a +ℤ negsuc 0 *ℤ pos j → i ≡ j
unfolding pos_part neg_part
west_inj a i j e = omega (
  arith,
  ap pos_part e,
  ap neg_part e,
  *ℤ-pos (negsuc 0) i,
  *ℤ-pos (negsuc 0) j,
  +ℤ_parts a (negsuc 0 *ℤ pos i),
  +ℤ_parts a (negsuc 0 *ℤ pos j),
)

pub bottom_north_west-Walks : (a : Bool) → Walks (bottom_north_west a)
bottom_north_west-Walks true = record {
  aside = λ p i j e. west_inj p.x i j (ap (λ q. q.x) e);
  up = λ p i j e. west_inj p.y i j (ap (λ q. q.y) e);
}
bottom_north_west-Walks false = record {
  aside = λ p i j e. west_inj p.z i j (ap (λ q. q.z) e);
  up = λ p i j e. west_inj p.y i j (ap (λ q. q.y) e);
}

pub top_south_east-Walks : (a : Bool) → Walks (top_south_east a)
top_south_east-Walks true = record {
  aside = λ p i j e. east_inj p.x i j (ap (λ q. q.x) e);
  up = λ p i j e. east_inj p.y i j (ap (λ q. q.y) e);
}
top_south_east-Walks false = record {
  aside = λ p i j e. east_inj p.z i j (ap (λ q. q.z) e);
  up = λ p i j e. east_inj p.y i j (ap (λ q. q.y) e);
}
