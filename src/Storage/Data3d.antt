-- ===== src/Storage/Data3d.antt =====
-- The class `Data3d` of src/_data3d.hpp: boxes of values, whose index is -1 outside the box.
pub mod Cells
use package.je2be.Prelude.{ℕ, zero, suc, ◌+◌, ◌*◌, ◌&&◌, ◌||◌, Option, none, some, List, length}
use package.je2be.Prelude.{get_elem?, set, replicate, if◌then◌else◌}
use package.je2be.Prelude.Int.{ℤ, pos, negsuc, pos_part, ◌+ℤ◌, ◌-ℤ◌, ◌*ℤ◌, leb_ℤ, ltb_ℤ}
use package.je2be.Geometry.Pos.{Pos3}
use package.je2be.Geometry.Volume.{Volume, intersection_volume}
use package.je2be.Storage.Data2d.{read, write}

pub record Data3d {ℓ} (A : Type ℓ) : Type ℓ where
  pub start : Pos3
  pub end : Pos3
  pub storage : List A

-- The number of cells along one axis, `fEnd - fStart + 1`.
abbrev pub extent : ℤ → ℤ → ℤ
extent start end = end -ℤ start +ℤ pos 1

module _ {ℓ} {A : Type ℓ} where
  -- The constructor, which asserts that no extent is zero or negative.
  unfoldable pub create : Pos3 → Pos3 → A → Data3d A
  create start end v = record {
    start = start;
    end = end;
    storage =
        replicate
          (pos_part (extent start.x end.x)
            * pos_part (extent start.y end.y)
            * pos_part (extent start.z end.z))
          v;
  }

  unfoldable pub index : Data3d A → Pos3 → ℤ
  index d p =
      let x = p.x -ℤ d.start.x in
      let y = p.y -ℤ d.start.y in
      let z = p.z -ℤ d.start.z in
      let dx = extent d.start.x d.end.x in
      let dy = extent d.start.y d.end.y in
      let dz = extent d.start.z d.end.z in
      if ltb_ℤ x (pos 0) || (ltb_ℤ y (pos 0) || ltb_ℤ z (pos 0))
      then negsuc 0
      else if leb_ℤ dx x || (leb_ℤ dy y || leb_ℤ dz z)
      then negsuc 0
      else (y *ℤ dz +ℤ z) *ℤ dx +ℤ x

  -- An index of -1 is refused, so `read` and `write` meet none.
  unfoldable pub get : Data3d A → Pos3 → Option A
  unfolding index
  get d p = read d.storage (index d p)

  unfoldable pub set_cell : Data3d A → Pos3 → A → Data3d A
  unfolding index
  set_cell d p v = record d { storage = write d.storage (index d p) v }

  unfoldable pub fill : Data3d A → A → Data3d A
  fill d v = record d {
    storage =
        replicate
          (pos_part (extent d.start.x d.end.x)
            * pos_part (extent d.start.y d.end.y)
            * pos_part (extent d.start.z d.end.z))
          v;
  }
