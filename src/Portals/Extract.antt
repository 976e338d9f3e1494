-- ===== src/Portals/Extract.antt =====
-- `OrientedPortalBlocks::extract`: every block of the set ends up in a portal.
use je2be.Prelude.{ℕ, zero, suc, ◌≤◌, ◌≡◌, refl, sym, ◌∙◌, inl, inr, Bool}
use je2be.Prelude.{List, [], ◌∷◌, ◌++◌, length, append_nil, append_snoc, Any, Any-map, Bool-cases}
use je2be.Prelude.{arith}
use je2be.Prelude.Int.{ℤ}
use je2be.Prelude.Sets.{Has, Has-nil, Has-cons}
use je2be.Geometry.Pos.{Pos3, pos3_eq}
use je2be.Geometry.Volume.{contains}
use je2be.Geometry.Volume.Boxes.{contains_iff}
use je2be.Portals.{Portal, OrientedPortalBlocks, extract, extract_loop, erase_box, portal_of}
use je2be.Portals.{lookup_bottom_north_west_corner, lookup_top_south_east_corner}
use je2be.Portals.{bottom_north_west, top_south_east}
use je2be.Portals.Lookup.{lookup_corner-Rectangle}
use je2be.Portals.Directions.{bottom_north_west-Walks, top_south_east-Walks}
use je2be.Portals.Erasing.{erase_box_iff, length-erase_box_lt}
use je2be.Portals.Frames.{Frames, Round, corners-Round}

Frames-subset :
    (a : Bool) (s s' : List Pos3) (dim : ℤ) (t : Portal) (r : Pos3)
    → ((q : Pos3) → Has s' q → Has s q)
    → Frames a s' dim t r
    → Frames a s dim t r
Frames-subset a s s' dim t r sub f = record {
  n = f.n;
  y = f.y;
  in_dimension = f.in_dimension;
  on_axis = f.on_axis;
  span = f.span;
  height = f.height;
  u = f.u;
  row = λ i b. sub _ (f.row i b);
  column = λ j b. sub _ (f.column j b);
  row_in = f.row_in;
  column_in = f.column_in;
  beside = f.beside;
  between = f.between;
  level = f.level;
}

-- What the loop leaves: no blocks, and behind the buffer at most one portal for each block, one of
-- which frames it.
pub record Extracted (a : Bool) (s : List Pos3) (buffer : List Portal) (dim : ℤ)
    (result : OrientedPortalBlocks × List Portal) : Type 0 where
  pub portals : List Portal
  pub empties : result.0 ≡ record { x_axis = a; blocks = [] }
  pub pushes : result.1 ≡ buffer ++ portals
  pub few : length portals ≤ length s
  pub frames : (r : Pos3) → Has s r → Any (λ t. Frames a s dim t r) portals

corners_meet :
    (a : Bool) (start : Pos3) (s : List Pos3) (dim : ℤ)
    → let b : OrientedPortalBlocks = record { x_axis = a; blocks = start ∷ s } in
      Round a
        (start ∷ s)
        dim
        start
        (lookup_bottom_north_west_corner b start)
        (lookup_top_south_east_corner b start)
unfolding lookup_bottom_north_west_corner lookup_top_south_east_corner
corners_meet a start s dim =
    let here = (Has-cons start start s).1 (inl refl) in
    corners-Round a (start ∷ s) dim start _ _
      (lookup_corner-Rectangle (start ∷ s) (bottom_north_west a) start (bottom_north_west-Walks a)
        here)
      (lookup_corner-Rectangle (start ∷ s) (top_south_east a) start (top_south_east-Walks a) here)

nothing_left :
    (a : Bool) (buffer : List Portal) (dim : ℤ)
    → Extracted a [] buffer dim (record { x_axis = a; blocks = [] }, buffer)
nothing_left a buffer dim = record {
  portals = [];
  empties = refl;
  pushes = sym (append_nil buffer);
  few = omega arith;
  frames = λ r h. absurd (Has-nil r h);
}

extract_loop-Extracted :
    (fuel : ℕ) (a : Bool) (s : List Pos3) (buffer : List Portal) (dim : ℤ)
    → length s ≤ fuel
    → Extracted a s buffer dim (extract_loop fuel a s buffer dim)
unfolding extract_loop
extract_loop-Extracted zero a [] buffer dim h = nothing_left a buffer dim
extract_loop-Extracted zero a (start ∷ s) buffer dim h = absurd (omega (arith, h))
extract_loop-Extracted (suc fuel) a [] buffer dim h = nothing_left a buffer dim
extract_loop-Extracted (suc fuel) a (start ∷ s) buffer dim h =
    let b : OrientedPortalBlocks = record { x_axis = a; blocks = start ∷ s } in
    let p = lookup_bottom_north_west_corner b start in
    let q = lookup_top_south_east_corner b start in
    let left = erase_box p q (start ∷ s) in
    let t = portal_of a dim p q in
    let here = (Has-cons start start s).1 (inl refl) in
    let round = corners_meet a start s dim in
    let less = length-erase_box_lt p q (start ∷ s) start here round.holds_start in
    let ih = extract_loop-Extracted fuel a left (buffer ++ t ∷ []) dim (omega (arith, h, less)) in
    record {
      portals = t ∷ ih.portals;
      empties = ih.empties;
      pushes = ih.pushes ∙ append_snoc buffer t ih.portals;
      few = omega (arith, ih.few, less);
      frames = λ r m. elim (Bool-cases (contains (record { first = p; last = q }) r)) [
        | inl i ↦ inl (round.frames r ((contains_iff _ r).0 i))
        | inr o ↦ inr (
            Any-map (λ u. Frames a left dim u r) _ ih.portals
              (λ u.
                Frames-subset a (start ∷ s) left dim u r
                  (λ c k. ((erase_box_iff p q (start ∷ s) c).0 k).0))
              (ih.frames r (
                (erase_box_iff p q (start ∷ s) r).1
                  (m, λ i. cc (o, (contains_iff (record { first = p; last = q }) r).1 i)))))
      ];
    }

-- `extract` ends with an empty set. Behind what was in the buffer it pushes at most one portal for
-- each block, and each block of the set is framed by one of them: the portal has the axis of the
-- set and the dimension given, its span is modulo 256 the width of a rectangle that starts at its
-- first corner and holds the block, and of this rectangle one whole row and one whole column are
-- blocks of the set.
pub extract-Extracted :
    (b : OrientedPortalBlocks) (buffer : List Portal) (dim : ℤ)
    → Extracted b.x_axis b.blocks buffer dim (extract b buffer dim)
unfolding extract
extract-Extracted b buffer dim =
    extract_loop-Extracted (length b.blocks) b.x_axis b.blocks buffer dim (omega arith)
