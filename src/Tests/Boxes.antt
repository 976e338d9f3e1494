-- ===== src/Tests/Boxes.antt =====
-- Boxes: src/_volume.hpp and src/_closed-range.hpp.
use je2be.Prelude.{All}
use je2be.Prelude.{◌≤◌, ◌≡◌, refl, ◌↔◌, ◌⊎◌, length, List, [], ◌∷◌, arith}
use je2be.Prelude.Int.{int_laws, pos, leb_ℤ, eqb_ℤ, ltb_ℤ, min_ℤ, max_ℤ, ◌+ℤ◌, ◌-ℤ◌}
use je2be.Geometry.Volume.{Volume, adjacent, union, intersection_volume, volume}
use je2be.Geometry.Volume.Boxes.{
  Inside, InsideSome, IsValid, Encloses, intersection_volume_lem, union_least,
}
use je2be.Geometry.Volume.Connect.{
  connect, connect_loop, connect_adjacent, adjacent_round, pass_xy, third_axis, key,
}
use je2be.Geometry.Volume.Connect.Rounds.{Covered}
use je2be.Geometry.Volume.Connect.Groups.{connect_adjacent_settles}
use je2be.Geometry.Volume.Connect.Cover.{Covered-connect, connect_shrinks, connect_terminates}
use je2be.Geometry.Volume.Greedy.{MaxSize, connect_greed, greedy_loop, joins_within}
use je2be.Geometry.Volume.Greedy.Laws.{SizedWithin, In, connect_greed_bounds}
use je2be.Geometry.Volume.Greedy.Loop.{connect_greed_terminates, connect_greed_drops}
use je2be.Tests.Shared.{at3, box_of}

-- Two cubes side by side.
abbrev left_cube : Volume
left_cube = box_of (at3 0 0 0) (at3 1 1 1)

abbrev right_cube : Volume
right_cube = box_of (at3 0 0 2) (at3 1 1 3)

abbrev two_cubes : List Volume
two_cubes = left_cube ∷ right_cube ∷ []

left_cube-IsValid : IsValid left_cube
left_cube-IsValid = (omega (int_laws), omega (int_laws), omega (int_laws))

right_cube-IsValid : IsValid right_cube
right_cube-IsValid = (omega (int_laws), omega (int_laws), omega (int_laws))

two_cubes-IsValid : All IsValid two_cubes
two_cubes-IsValid = (left_cube-IsValid, (right_cube-IsValid, tt))

connect_two : connect two_cubes ≡ box_of (at3 0 0 0) (at3 1 1 3) ∷ []
unfolding connect ltb_ℤ adjacent eqb_ℤ ◌+ℤ◌ union min_ℤ max_ℤ
connect_two = refl

Covered-connect_example : Covered (at3 1 0 2) (connect two_cubes) ↔ Covered (at3 1 0 2) two_cubes
Covered-connect_example = Covered-connect two_cubes (at3 1 0 2) two_cubes-IsValid

connect_shrinks_example : All IsValid (connect two_cubes) × (length (connect two_cubes) ≤ 2)
connect_shrinks_example = connect_shrinks two_cubes two_cubes-IsValid

connect_terminates_example : connect_loop 9 two_cubes ≡ connect two_cubes
connect_terminates_example = connect_terminates 9 two_cubes two_cubes-IsValid (omega arith)

connect_adjacent_settles_example :
    length (adjacent_round (third_axis pass_xy) (connect_adjacent (third_axis pass_xy) 2 two_cubes))
    ≡ length (connect_adjacent (third_axis pass_xy) 2 two_cubes)
connect_adjacent_settles_example =
    connect_adjacent_settles pass_xy (key pass_xy left_cube) 2 two_cubes
      ((refl, left_cube-IsValid), ((refl, right_cube-IsValid), tt)) (omega arith)

-- With these sizes the first box joins the third and not the second.
abbrev sizes : MaxSize
sizes = record { x = pos 58; y = pos 23; z = pos 58 }

abbrev near_box : Volume
near_box = box_of (at3 0 0 0) (at3 9 9 9)

abbrev far_box : Volume
far_box = box_of (at3 100 0 0) (at3 104 4 4)

abbrev close_box : Volume
close_box = box_of (at3 10 0 0) (at3 11 1 1)

connect_greed_bounds_example :
    All (λ v. In v two_cubes ⊎ SizedWithin sizes v) (connect_greed sizes two_cubes)
connect_greed_bounds_example = connect_greed_bounds sizes two_cubes

-- Where the maximum is 58 a joined box may have the size 59.
connect_greed-size :
    connect_greed sizes (box_of (at3 0 0 0) (at3 1 1 1) ∷ box_of (at3 58 0 0) (at3 58 1 1) ∷ [])
    ≡ box_of (at3 0 0 0) (at3 58 1 1) ∷ []
unfolding connect_greed volume joins_within union ◌+ℤ◌ ◌-ℤ◌ leb_ℤ min_ℤ max_ℤ
connect_greed-size = refl

connect_greed_terminates_example : greedy_loop sizes 7 two_cubes ≡ connect_greed sizes two_cubes
connect_greed_terminates_example = connect_greed_terminates sizes 7 two_cubes (omega arith)

connect_greed_drops_example :
    connect_greed sizes (near_box ∷ far_box ∷ close_box ∷ []) ≡ union near_box close_box ∷ []
unfolding volume joins_within ◌+ℤ◌ ◌-ℤ◌ leb_ℤ max_ℤ min_ℤ
connect_greed_drops_example =
    connect_greed_drops sizes near_box far_box close_box (omega arith) (omega arith) refl refl

union_least_example :
    Encloses near_box (union left_cube right_cube)
    ↔ (Encloses near_box left_cube × Encloses near_box right_cube)
union_least_example = union_least left_cube right_cube near_box left_cube-IsValid right_cube-IsValid

intersection_volume_lem_example :
    InsideSome (intersection_volume left_cube near_box) (at3 1 1 1)
    ↔ (Inside left_cube (at3 1 1 1) × Inside near_box (at3 1 1 1))
intersection_volume_lem_example = intersection_volume_lem left_cube near_box (at3 1 1 1)
