-- ===== src/Portals/Worlds.antt =====
-- src/tobe/portal/_portal-blocks.hpp and src/tobe/portal/_portals.hpp: the portal blocks of both
-- axes, of a chunk and of a dimension, and the records that `Portals::putInto` writes.
-- `mcfile::Dimension` is a parameter.
use je2be.Prelude.{Bool, true, false}
use je2be.Prelude.{List, [], ◌∷◌, if◌then◌else◌}
use je2be.Prelude.Int.{ℤ}
use je2be.Prelude.Equality.{Eq}
use je2be.Prelude.Sets.{emplace}
use je2be.Geometry.Pos.{Pos3, pos3_eq}
use je2be.Portals.{Portal, OrientedPortalBlocks, extract}

-- `mcfile::Dimension`, with its cast to `i32`.
pub record Dimensions : Type 1 where
  pub Dimension : Type 0
  pub dimension_eq : Eq Dimension
  pub overworld : Dimension
  pub nether : Dimension
  pub to_i32 : Dimension → ℤ

unfoldable pub add_oriented : OrientedPortalBlocks → Pos3 → OrientedPortalBlocks
unfolding emplace
add_oriented b p = record { x_axis = b.x_axis; blocks = emplace p b.blocks }

-- The loop of `OrientedPortalBlocks::drain`.
unfoldable pub insert_all : List Pos3 → List Pos3 → List Pos3
unfolding emplace
insert_all [] out = out
insert_all (p ∷ s) out = insert_all s (emplace p out)

-- The two sets after the call: the one drained and `out`.
unfoldable pub drain_oriented :
    OrientedPortalBlocks → OrientedPortalBlocks → OrientedPortalBlocks × OrientedPortalBlocks
unfolding insert_all
drain_oriented b out = (
  record { x_axis = b.x_axis; blocks = [] },
  record { x_axis = out.x_axis; blocks = insert_all b.blocks out.blocks },
)

pub record PortalBlocks : Type 0 where
  pub fx : OrientedPortalBlocks
  pub fz : OrientedPortalBlocks

abbrev pub no_portal_blocks : PortalBlocks
no_portal_blocks = record {
  fx = record { x_axis = true; blocks = [] };
  fz = record { x_axis = false; blocks = [] };
}

unfoldable pub add_block : PortalBlocks → Pos3 → Bool → PortalBlocks
unfolding add_oriented
add_block b p x_axis =
    if x_axis
    then record { fx = add_oriented b.fx p; fz = b.fz }
    else record { fx = b.fx; fz = add_oriented b.fz p }

unfoldable pub extract_both : PortalBlocks → List Portal → ℤ → PortalBlocks × List Portal
unfolding extract
extract_both b buffer dim =
    let x = extract b.fx buffer dim in
    let z = extract b.fz x.1 dim in (record { fx = x.0; fz = z.0 }, z.1)

unfoldable pub drain_both : PortalBlocks → PortalBlocks → PortalBlocks × PortalBlocks
unfolding drain_oriented
drain_both b out =
    let x = drain_oriented b.fx out.fx in
    let z = drain_oriented b.fz out.fz in
    (record { fx = x.0; fz = z.0 }, record { fx = x.1; fz = z.1 })

pub record Portals : Type 0 where
  pub overworld : PortalBlocks
  pub nether : PortalBlocks

module _ (D : Dimensions) where
  -- `Portals::add`: the portals and the blocks that are handed over, after the call.
  unfoldable pub add : Portals → PortalBlocks → D.Dimension → Portals × PortalBlocks
  unfolding drain_both
  add ps pb dim =
      if D.dimension_eq.beq dim D.overworld
      then (
        record { overworld = (drain_both pb ps.overworld).1; nether = ps.nether },
        (drain_both pb ps.overworld).0,
      )
      else if D.dimension_eq.beq dim D.nether
      then (
        record { overworld = ps.overworld; nether = (drain_both pb ps.nether).1 },
        (drain_both pb ps.nether).0,
      )
      else (ps, pb)

  -- The vector that `putInto` writes, and the portals after it.
  unfoldable pub put_portals : Portals → Portals × List Portal
  unfolding extract_both
  put_portals ps =
      let o = extract_both ps.overworld [] (D.to_i32 D.overworld) in
      let n = extract_both ps.nether o.1 (D.to_i32 D.nether) in
      (record { overworld = o.0; nether = n.0 }, n.1)

  -- The calls of `add` that a conversion makes, one for each chunk.
  abbrev pub add_chunks : Portals → List (PortalBlocks × D.Dimension) → Portals
  add_chunks ps [] = ps
  add_chunks ps ((pb, dim) ∷ cs) = add_chunks (add ps pb dim).0 cs
