-- ===== src/Geometry/Volume.antt =====
-- src/_volume.hpp: boxes of blocks, both corners included, and the two passes that join boxes.
-- The coordinates are `int`s that do not overflow; `volume` wraps modulo 2 ^ 64 as its `u64` does.
-- The template's dimension 0, 1, 2 is an `Axis`.
pub mod Boxes
pub mod Connect
pub mod Greedy
use package.je2be.Prelude.{ℕ, zero, suc, ◌-◌, ◌*◌, ◌%◌, ◌^◌, Bool, true, false, not, ◌&&◌, ◌||◌}
use package.je2be.Prelude.{Option, none, some, List, [], ◌∷◌, ◌++◌, length, ◌==◌, if◌then◌else◌}
use package.je2be.Prelude.Int.{ℤ, pos, ◌+ℤ◌, ◌-ℤ◌, leb_ℤ, ltb_ℤ, eqb_ℤ, min_ℤ, max_ℤ}
use package.je2be.Prelude.Words.{to_word}
use package.je2be.Geometry.Pos.{Pos3, eq_pos3}
use package.je2be.Geometry.ClosedRange.{ClosedRange, closed, intersection}

pub record Volume : Type 0 where
  pub first : Pos3
  pub last : Pos3

pub data Axis : Type 0 where
  axis_x axis_y axis_z : Axis

abbrev pub coordinate : Axis → Pos3 → ℤ
coordinate axis_x p = p.x
coordinate axis_y p = p.y
coordinate axis_z p = p.z

abbrev pub start : Axis → Volume → ℤ
start d v = coordinate d v.first

abbrev pub end : Axis → Volume → ℤ
end d v = coordinate d v.last

unfoldable pub contains : Volume → Pos3 → Bool
contains v p =
    leb_ℤ v.first.x p.x
    && (leb_ℤ p.x v.last.x
        && (leb_ℤ v.first.y p.y
            && (leb_ℤ p.y v.last.y && (leb_ℤ v.first.z p.z && leb_ℤ p.z v.last.z))))

unfoldable pub union : Volume → Volume → Volume
union a b = record {
  first = record {
    x = min_ℤ a.first.x b.first.x;
    y = min_ℤ a.first.y b.first.y;
    z = min_ℤ a.first.z b.first.z;
  };
  last = record {
    x = max_ℤ a.last.x b.last.x;
    y = max_ℤ a.last.y b.last.y;
    z = max_ℤ a.last.z b.last.z;
  };
}

abbrev from_ranges : Option ClosedRange → Option ClosedRange → Option ClosedRange → Option Volume
from_ranges (some x) (some y) (some z) = some (record {
  first = record { x = x.minimum; y = y.minimum; z = z.minimum };
  last = record { x = x.maximum; y = y.maximum; z = z.maximum };
})
from_ranges _ _ _ = none

abbrev pub range : Axis → Volume → ClosedRange
range d v = closed (start d v) (end d v)

unfoldable pub intersection_volume : Volume → Volume → Option Volume
unfolding intersection
intersection_volume a b =
    from_ranges (intersection (range axis_x a) (range axis_x b))
      (intersection (range axis_y a) (range axis_y b))
      (intersection (range axis_z a) (range axis_z b))

unfoldable pub equals : Volume → Volume → Bool
unfolding eq_pos3
equals a b = eq_pos3 a.first b.first && eq_pos3 a.last b.last

unfoldable pub size : Axis → Volume → ℤ
size d v = end d v -ℤ start d v +ℤ pos 1

unfoldable pub volume : Volume → ℕ
unfolding size to_word
volume v =
    to_word 64 (size axis_x v) * to_word 64 (size axis_y v) * to_word 64 (size axis_z v) % 2 ^ 64

unfoldable pub touches : Axis → Volume → Volume → Bool
touches d v w = eqb_ℤ (end d v +ℤ pos 1) (start d w)

unfoldable pub adjacent : Axis → Volume → Volume → Bool
unfolding touches
adjacent d v w = touches d v w || touches d w v
