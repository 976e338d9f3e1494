-- ===== src/Geometry/Volume/Connect/Cover.antt =====
-- `Connect` as a whole: the points of its boxes, their number, and the end of its loop.
use je2be.Prelude.{All}
use je2be.Prelude.{ℕ, zero, suc, ◌≤◌, ◌<◌, ◌≡◌, ◌↔◌, inl, inr, Bool-cases}
use je2be.Prelude.{◌==◌, List, length, arith}
use je2be.Geometry.Pos.{Pos3}
use je2be.Geometry.Volume.{Volume}
use je2be.Geometry.Volume.Boxes.{IsValid}
use je2be.Geometry.Volume.Connect.{Pass, pass_xy, pass_xz, pass_yz, collect_and_connect}
use je2be.Geometry.Volume.Connect.{connect_round, connect_loop, connect}
use je2be.Geometry.Volume.Connect.Rounds.{Covered, Keeps}
use je2be.Geometry.Volume.Connect.Groups.{connect_groups-Keeps, Keeps-refl, Keeps-trans}

collect_and_connect-Keeps :
    (t : Pass) (vs : List Volume) → All IsValid vs → Keeps IsValid vs (collect_and_connect t vs)
unfolding collect_and_connect
collect_and_connect-Keeps t vs v = connect_groups-Keeps t vs v

connect_round-Keeps : (vs : List Volume) → All IsValid vs → Keeps IsValid vs (connect_round vs)
unfolding connect_round
connect_round-Keeps vs v =
    let xy = collect_and_connect-Keeps pass_xy vs v in
    let xz = collect_and_connect-Keeps pass_xz (collect_and_connect pass_xy vs) xy.each in
    Keeps-trans IsValid IsValid (Keeps-trans IsValid IsValid xy xz)
      (collect_and_connect-Keeps pass_yz _ xz.each)

connect_loop-Keeps :
    (fuel : ℕ) (vs : List Volume) → All IsValid vs → Keeps IsValid vs (connect_loop fuel vs)
unfolding connect_loop
connect_loop-Keeps zero vs v = Keeps-refl IsValid vs v
connect_loop-Keeps (suc fuel) vs v =
    let round = connect_round-Keeps vs v in
    elim (Bool-cases (length vs == length (connect_round vs))) [
      | inl same ↦ rw same round
      | inr fewer ↦ rw fewer (
          Keeps-trans IsValid IsValid round (connect_loop-Keeps fuel (connect_round vs) round.each))
    ]

connect_loop_agree :
    (fuel more : ℕ) (vs : List Volume)
    → All IsValid vs
    → length vs < fuel
    → length vs < more
    → connect_loop fuel vs ≡ connect_loop more vs
unfolding connect_loop
connect_loop_agree zero more vs v f m = absurd (omega arith)
connect_loop_agree (suc fuel) zero vs v f m = absurd (omega arith)
connect_loop_agree (suc fuel) (suc more) vs v f m =
    let round = connect_round-Keeps vs v in
    elim (Bool-cases (length vs == length (connect_round vs))) [
      | inl same ↦ rw same
      | inr fewer ↦ rw fewer (
          connect_loop_agree fuel more (connect_round vs) round.each (ground (arith, round.shrinks))
            (ground (arith, round.shrinks)))
    ]

-- For boxes that are in order, a point lies in some box of the result of `Connect` exactly when it
-- lay in some box of the input.
pub Covered-connect :
    (vs : List Volume) (p : Pos3) → All IsValid vs → Covered p (connect vs) ↔ Covered p vs
unfolding connect
Covered-connect vs p v =
    let all = (connect_loop-Keeps (suc (length vs)) vs v).cover p in (all.1, all.0)

-- For boxes that are in order, `Connect` returns boxes that are in order, and no more of them.
pub connect_shrinks :
    (vs : List Volume)
    → All IsValid vs
    → All IsValid (connect vs) × (length (connect vs) ≤ length vs)
unfolding connect
connect_shrinks vs v =
    let all = connect_loop-Keeps (suc (length vs)) vs v in (all.each, all.shrinks)

-- For boxes that are in order, the `while (true)` of `Connect` ends by its own test: with any fuel
-- above the number of boxes the loop has the same result.
pub connect_terminates :
    (fuel : ℕ) (vs : List Volume)
    → All IsValid vs
    → length vs < fuel
    → connect_loop fuel vs ≡ connect vs
unfolding connect
connect_terminates fuel vs v f = connect_loop_agree fuel (suc (length vs)) vs v f (omega arith)
