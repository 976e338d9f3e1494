-- ===== src/Tests/Portals.antt =====
-- Portals: src/tobe/portal.
use je2be.Prelude.{◌≡◌, ◌≢◌, refl, inl, true, false, Any, List, [], ◌∷◌, arith}
use je2be.Prelude.Int.{ℤ, pos, negsuc, pos_part, eqb_ℤ, eqb_ℤ_iff, ◌+ℤ◌, ◌-ℤ◌, ◌*ℤ◌, max_ℤ}
use je2be.Prelude.Equality.{int_eq}
use je2be.Prelude.Sets.{Has, has}
use je2be.Geometry.Pos.{Pos3, pos3_eq, eq_pos3}
use je2be.Portals.{OrientedPortalBlocks, extract, top_south_east, lookup_corner, Portal}
use je2be.Portals.Lookup.{lookup_corner-Rectangle, Rectangle}
use je2be.Portals.Directions.{top_south_east-Walks}
use je2be.Portals.Frames.{Frames}
use je2be.Portals.Extract.{Extracted, extract-Extracted}
use je2be.Portals.Worlds.{Dimensions, PortalBlocks, put_portals, add_chunks}
use je2be.Portals.Gather.{put_portals-add_chunks, world, no_portals, side}
use je2be.Tests.Shared.{at3}

-- A frame of two by three blocks along x, with one block beside it.
abbrev frame_blocks : List Pos3
frame_blocks =
    at3 5 1 0 ∷ at3 5 2 0 ∷ at3 5 3 0 ∷ at3 6 1 0 ∷ at3 6 2 0 ∷ at3 6 3 0 ∷ at3 6 1 4 ∷ []

abbrev frame : OrientedPortalBlocks
frame = record { x_axis = true; blocks = frame_blocks }

abbrev big_portal : Portal
big_portal = record {
  dim_id = pos 0;
  span = 2;
  tp_x = pos 5;
  tp_y = pos 1;
  tp_z = pos 0;
  xa = 1;
  za = 0;
}

abbrev small_portal : Portal
small_portal = record {
  dim_id = pos 0;
  span = 1;
  tp_x = pos 6;
  tp_y = pos 1;
  tp_z = pos 4;
  xa = 1;
  za = 0;
}

extract-frame :
    extract frame [] (pos 0)
    ≡ (record { x_axis = true; blocks = [] }, big_portal ∷ small_portal ∷ [])
unfolding extract pos_part eqb_ℤ ◌+ℤ◌ ◌-ℤ◌ ◌*ℤ◌ max_ℤ eq_pos3
extract-frame = refl

frame_Has : Has frame_blocks (at3 5 1 0)
unfolding has eq_pos3 eqb_ℤ
frame_Has = refl

lookup_corner-Rectangle_example :
    Rectangle frame_blocks
      (top_south_east true)
      (at3 5 1 0)
      (lookup_corner frame_blocks (top_south_east true) (at3 5 1 0))
lookup_corner-Rectangle_example =
    lookup_corner-Rectangle frame_blocks (top_south_east true) (at3 5 1 0)
      (top_south_east-Walks true) frame_Has

extract-Extracted_example : Extracted true frame_blocks [] (pos 0) (extract frame [] (pos 0))
extract-Extracted_example = extract-Extracted frame [] (pos 0)

abbrev two_worlds : Dimensions
two_worlds = record {
  Dimension = ℤ;
  dimension_eq = int_eq;
  overworld = pos 0;
  nether = negsuc 0;
  to_i32 = λ d. d;
}

apart : pos 0 ≢ negsuc 0
unfolding eqb_ℤ
apart e = ground (arith, (eqb_ℤ_iff (pos 0) (negsuc 0)).1 e)

abbrev chunk : PortalBlocks
chunk = record { fx = frame; fz = record { x_axis = false; blocks = [] } }

put_portals-add_chunks_example :
    Any
      (λ t.
        Frames true
          (side true (
            world two_worlds false
              (add_chunks two_worlds (no_portals two_worlds) ((chunk, negsuc 0) ∷ []))))
          (negsuc 0)
          t
          (at3 5 1 0))
      (put_portals two_worlds
        (add_chunks two_worlds (no_portals two_worlds) ((chunk, negsuc 0) ∷ []))).1
put_portals-add_chunks_example =
    put_portals-add_chunks two_worlds apart false true ((chunk, negsuc 0) ∷ []) (at3 5 1 0)
      (inl (refl, frame_Has))
