-- ===== src/Geometry/Volume/Greedy.antt =====
-- `Volume::ConnectGreed` of src/_volume.hpp: boxes are joined while the box around two of them
-- stays within the maximum sizes. `std::stable_sort` is an insertion sort with the code's
-- comparator. The `while` loop takes fuel, of which the number of boxes is enough.
pub mod Laws
pub mod Loop
use package.je2be.Prelude.{ℕ, zero, suc, Bool, true, false, ◌&&◌, Option, none, some}
use package.je2be.Prelude.{List, [], ◌∷◌, length, ◌==◌, ltb, if◌then◌else◌}
use package.je2be.Prelude.Int.{ℤ, ◌-ℤ◌, leb_ℤ, min_ℤ, max_ℤ}
use package.je2be.Geometry.Volume.{Volume, Axis, axis_x, axis_y, axis_z, start, end, union, volume}

-- The parameters maxSizeX, maxSizeY and maxSizeZ.
pub record MaxSize : Type 0 where
  pub x : ℤ
  pub y : ℤ
  pub z : ℤ

-- The test of the inner loop.
unfoldable pub joins_within : MaxSize → Volume → Volume → Bool
joins_within m a b = leb_ℤ (span axis_x) m.x && (leb_ℤ (span axis_y) m.y && leb_ℤ (span axis_z) m.z)
  where
    span : Axis → ℤ
    span d = max_ℤ (end d a) (end d b) -ℤ min_ℤ (start d a) (start d b)

-- The loop over `j`: the first box that joins `a`, with the boxes behind it.
unfoldable pub find_match : MaxSize → Volume → List Volume → Option (Volume × List Volume)
unfolding joins_within
find_match m a [] = none
find_match m a (b ∷ r) = elim (joins_within m a b) [
  | true ↦ some (union a b, r)
  | false ↦ find_match m a r
]

-- The loop over `i`, which fills `tmp`: at a match the joined box and the boxes behind the match
-- are pushed, and the loop is left.
unfoldable pub greedy_scan : MaxSize → List Volume → List Volume
unfolding find_match
greedy_scan m [] = []
greedy_scan m (a ∷ r) = elim (find_match m a r) [
  | some (joined, behind) ↦ joined ∷ behind
  | none ↦ a ∷ greedy_scan m r
]

unfoldable pub insert_by_volume : Volume → List Volume → List Volume
insert_by_volume v [] = v ∷ []
insert_by_volume v (w ∷ r) =
    if ltb (volume v) (volume w) then w ∷ insert_by_volume v r else v ∷ w ∷ r

unfoldable pub sort_by_volume : List Volume → List Volume
unfolding insert_by_volume
sort_by_volume [] = []
sort_by_volume (v ∷ r) = insert_by_volume v (sort_by_volume r)

unfoldable pub greedy_loop : MaxSize → ℕ → List Volume → List Volume
unfolding sort_by_volume greedy_scan
greedy_loop m zero vs = vs
greedy_loop m (suc fuel) vs =
    let next = greedy_scan m (sort_by_volume vs) in
    let again = greedy_loop m fuel next in
    let body = if length vs == length next then next else again in
    if ltb 1 (length vs) then body else vs

unfoldable pub connect_greed : MaxSize → List Volume → List Volume
unfolding greedy_loop
connect_greed m vs = greedy_loop m (suc (length vs)) vs
