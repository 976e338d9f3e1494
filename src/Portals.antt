-- ===== src/Portals.antt =====
-- src/tobe/portal: the portal blocks of a world, gathered by axis, and the portal records that
-- are read off them. Coordinates are `int`s that do not overflow. The dimension is a value of
-- `mcfile::Dimension`, of which the code names two; `toCompoundTag` and the database write of
-- `putInto` only pass the records to libraries.
pub mod Directions
pub mod Lookup
pub mod Erasing
pub mod Axes
pub mod Frames
pub mod Extract
pub mod Worlds
pub mod Gather
use package.je2be.Prelude.{ℕ, zero, suc, ◌+◌, ◌*◌, ◌%◌, ◌^◌, Bool, true, false, not, ◌&&◌}
use package.je2be.Prelude.{List, [], ◌∷◌, ◌++◌, length, if◌then◌else◌}
use package.je2be.Prelude.Int.{ℤ, pos, negsuc, pos_part, ◌+ℤ◌, ◌-ℤ◌, ◌*ℤ◌, max_ℤ}
use package.je2be.Prelude.Words.{to_word}
use package.je2be.Prelude.Sets.{has, emplace, erase}
use package.je2be.Geometry.Pos.{Pos3, pos3_eq}

pub record Portal : Type 0 where
  pub dim_id : ℤ
  pub span : ℕ
  pub tp_x : ℤ
  pub tp_y : ℤ
  pub tp_z : ℤ
  pub xa : ℕ
  pub za : ℕ

pub record OrientedPortalBlocks : Type 0 where
  pub x_axis : Bool
  pub blocks : List Pos3

-- The template arguments of `lookupCorner`.
pub record Direction : Type 0 where
  pub dx : ℤ
  pub dy : ℤ
  pub dz : ℤ

-- The local variables of `lookupCorner`.
pub record Corner : Type 0 where
  pub current_x : ℤ
  pub current_y : ℤ
  pub current_z : ℤ
  pub width : ℕ
  pub height : ℕ

-- The inner loops: whether the `n` cells from the `i`th on are all in the set.
unfoldable pub expand : List Pos3 → (ℕ → Pos3) → ℕ → ℕ → Bool
unfolding has
expand s cell i zero = true
expand s cell i (suc n) =
    let rest = expand s cell (suc i) n in if has (cell i) s then rest else false

abbrev pub vertical_cell : Direction → Pos3 → Corner → ℕ → Pos3
vertical_cell d p c i = record {
  x = p.x +ℤ d.dx *ℤ pos i;
  y = c.current_y +ℤ d.dy;
  z = p.z +ℤ d.dz *ℤ pos i;
}

abbrev pub horizontal_cell : Direction → Pos3 → Corner → ℕ → Pos3
horizontal_cell d p c i = record {
  x = c.current_x +ℤ d.dx;
  y = p.y +ℤ d.dy *ℤ pos i;
  z = c.current_z +ℤ d.dz;
}

unfoldable pub expand_vertical : List Pos3 → Direction → Pos3 → Corner → Bool
unfolding expand
expand_vertical s d p c = expand s (vertical_cell d p c) 0 c.width

unfoldable pub expand_horizontal : List Pos3 → Direction → Pos3 → Corner → Bool
unfolding expand
expand_horizontal s d p c = expand s (horizontal_cell d p c) 0 c.height

abbrev pub taller : Direction → Corner → Corner
taller d c = record {
  current_x = c.current_x;
  current_y = c.current_y +ℤ d.dy;
  current_z = c.current_z;
  width = c.width;
  height = suc c.height;
}

abbrev pub wider : Direction → Corner → Corner
wider d c = record {
  current_x = c.current_x +ℤ d.dx;
  current_y = c.current_y;
  current_z = c.current_z +ℤ d.dz;
  width = suc c.width;
  height = c.height;
}

-- `while (true)` of `lookupCorner`, which ends when no side expands.
unfoldable pub lookup_loop : ℕ → List Pos3 → Direction → Pos3 → Corner → Corner
unfolding expand_vertical expand_horizontal
lookup_loop zero s d p c = c
lookup_loop (suc fuel) s d p c =
    let v = expand_vertical s d p c in
    let c1 = if v then taller d c else c in
    let h = expand_horizontal s d p c1 in
    let c2 = if h then wider d c1 else c1 in
    let rest = lookup_loop fuel s d p c2 in if not v && not h then c1 else rest

abbrev pub corner_at : Pos3 → Corner
corner_at p = record { current_x = p.x; current_y = p.y; current_z = p.z; width = 1; height = 1 }

abbrev pub position : Corner → Pos3
position c = record { x = c.current_x; y = c.current_y; z = c.current_z }

-- Each round but the last makes the rectangle wider or taller, and neither side is longer than
-- the set.
unfoldable pub lookup_corner : List Pos3 → Direction → Pos3 → Pos3
unfolding lookup_loop
lookup_corner s d p = position (lookup_loop (2 * length s) s d p (corner_at p))

abbrev pub bottom_north_west : Bool → Direction
bottom_north_west true = record { dx = negsuc 0; dy = negsuc 0; dz = pos 0 }
bottom_north_west false = record { dx = pos 0; dy = negsuc 0; dz = negsuc 0 }

abbrev pub top_south_east : Bool → Direction
top_south_east true = record { dx = pos 1; dy = pos 1; dz = pos 0 }
top_south_east false = record { dx = pos 0; dy = pos 1; dz = pos 1 }

unfoldable pub lookup_bottom_north_west_corner : OrientedPortalBlocks → Pos3 → Pos3
unfolding lookup_corner
lookup_bottom_north_west_corner b start = lookup_corner b.blocks (bottom_north_west b.x_axis) start

unfoldable pub lookup_top_south_east_corner : OrientedPortalBlocks → Pos3 → Pos3
unfolding lookup_corner
lookup_top_south_east_corner b start = lookup_corner b.blocks (top_south_east b.x_axis) start

-- The three `for` loops of `extract`, each given the number of its rounds.
unfoldable pub erase_y : ℕ → Pos3 → List Pos3 → List Pos3
unfolding erase
erase_y zero p s = s
erase_y (suc n) p s = erase_y n (record { x = p.x; y = p.y +ℤ pos 1; z = p.z }) (erase p s)

unfoldable pub erase_z : ℕ → ℕ → Pos3 → List Pos3 → List Pos3
unfolding erase_y
erase_z zero h p s = s
erase_z (suc n) h p s = erase_z n h (record { x = p.x; y = p.y; z = p.z +ℤ pos 1 }) (erase_y h p s)

unfoldable pub erase_x : ℕ → ℕ → ℕ → Pos3 → List Pos3 → List Pos3
unfolding erase_z
erase_x zero d h p s = s
erase_x (suc n) d h p s =
    erase_x n d h (record { x = p.x +ℤ pos 1; y = p.y; z = p.z }) (erase_z d h p s)

-- The rounds of `for (int i = from; i <= to; i++)`.
abbrev pub rounds : ℤ → ℤ → ℕ
rounds from to = pos_part (to -ℤ from +ℤ pos 1)

unfoldable pub erase_box : Pos3 → Pos3 → List Pos3 → List Pos3
unfolding erase_x
erase_box p q s = erase_x (rounds p.x q.x) (rounds p.z q.z) (rounds p.y q.y) p s

unfoldable pub portal_of : Bool → ℤ → Pos3 → Pos3 → Portal
unfolding to_word max_ℤ
portal_of x_axis dim p q = record {
  dim_id = dim;
  span = to_word 8 (max_ℤ (q.x -ℤ p.x) (q.z -ℤ p.z) +ℤ pos 1);
  tp_x = p.x;
  tp_y = p.y;
  tp_z = p.z;
  xa = if x_axis then 1 else 0;
  za = if x_axis then 0 else 1;
}

-- `while (!fBlocks.empty())` of `extract`: the blocks left and the buffer.
unfoldable pub extract_loop :
    ℕ → Bool → List Pos3 → List Portal → ℤ → OrientedPortalBlocks × List Portal
unfolding lookup_bottom_north_west_corner lookup_top_south_east_corner erase_box portal_of
extract_loop zero a s buffer dim = (record { x_axis = a; blocks = s }, buffer)
extract_loop (suc fuel) a [] buffer dim = (record { x_axis = a; blocks = [] }, buffer)
extract_loop (suc fuel) a (start ∷ s) buffer dim =
    let b : OrientedPortalBlocks = record { x_axis = a; blocks = start ∷ s } in
    let p = lookup_bottom_north_west_corner b start in
    let q = lookup_top_south_east_corner b start in
    extract_loop fuel a (erase_box p q (start ∷ s)) (buffer ++ portal_of a dim p q ∷ []) dim

-- Each round erases at least its first block.
unfoldable pub extract : OrientedPortalBlocks → List Portal → ℤ → OrientedPortalBlocks × List Portal
unfolding extract_loop
extract b buffer dim = extract_loop (length b.blocks) b.x_axis b.blocks buffer dim
