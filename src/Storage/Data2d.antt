-- ===== src/Storage/Data2d.antt =====
-- src/_data2d.hpp: a rectangle of values, row by row. An index outside the vector, which C++
-- leaves undefined, is `none` for a read and no change for a write.
pub mod Cells
use package.je2be.Prelude.{ℕ, ◌*◌, ◌&&◌, Option, none, List, get_elem?, set, replicate}
use package.je2be.Prelude.{if◌then◌else◌}
use package.je2be.Prelude.Int.{ℤ, pos, negsuc, pos_part, ◌+ℤ◌, ◌-ℤ◌, ◌*ℤ◌, leb_ℤ}
use package.je2be.Geometry.Pos.{Pos2}

pub record Data2d {ℓ} (A : Type ℓ) : Type ℓ where
  pub start : Pos2
  pub end : Pos2
  pub storage : List A

-- The index that `operator[]` computes.
unfoldable pub index {ℓ} : {A : Type ℓ} → Data2d A → Pos2 → ℤ
index d p = (p.z -ℤ d.start.z) *ℤ (d.end.x -ℤ d.start.x +ℤ pos 1) +ℤ (p.x -ℤ d.start.x)

abbrev pub read {ℓ} : {A : Type ℓ} → List A → ℤ → Option A
read s (pos i) = get_elem? s i
read s (negsuc i) = none

abbrev pub write {ℓ} : {A : Type ℓ} → List A → ℤ → A → List A
write s (pos i) v = set s i v
write s (negsuc i) v = s

module _ {ℓ} {A : Type ℓ} where
  -- Both constructors, for an end that does not lie before the start; the second gives the end by
  -- a width and a height.
  unfoldable pub create : Pos2 → Pos2 → A → Data2d A
  create start end v = record {
    start = start;
    end = end;
    storage =
        replicate (pos_part (end.x -ℤ start.x +ℤ pos 1) * pos_part (end.z -ℤ start.z +ℤ pos 1)) v;
  }

  unfoldable pub create_sized : Pos2 → ℕ → ℕ → A → Data2d A
  create_sized start width height v = record {
    start = start;
    end = record { x = start.x +ℤ pos width -ℤ pos 1; z = start.z +ℤ pos height -ℤ pos 1 };
    storage = replicate (width * height) v;
  }

  -- `d[p]`, as a value and as a target of an assignment.
  unfoldable pub at : Data2d A → Pos2 → Option A
  unfolding index
  at d p = read d.storage (index d p)

  unfoldable pub assign : Data2d A → Pos2 → A → Data2d A
  unfolding index
  assign d p v = record d { storage = write d.storage (index d p) v }

  unfoldable pub get : Data2d A → Pos2 → Option A
  unfolding index
  get d p =
      if leb_ℤ d.start.x p.x && (leb_ℤ p.x d.end.x && (leb_ℤ d.start.z p.z && leb_ℤ p.z d.end.z))
      then read d.storage (index d p)
      else none
