-- ===== src/Geometry/Volume/Connect.antt =====
-- `Volume::Connect` of src/_volume.hpp: boxes with the same extent on two axes that touch on the
-- third are joined until no round joins any. `while (true)` loops take fuel, of which the number of
-- boxes is enough.
pub mod Joined
pub mod Rounds
pub mod Groups
pub mod Cover
use package.je2be.Prelude.{ℕ, zero, suc, ◌-◌, Bool, true, false, not, ◌&&◌, ◌||◌}
use package.je2be.Prelude.{Option, none, some, List, [], ◌∷◌, ◌++◌, length, ◌==◌, if◌then◌else◌}
use package.je2be.Prelude.Int.{ℤ, ltb_ℤ}
use package.je2be.Geometry.Volume.{
  Volume, Axis, axis_x, axis_y, axis_z, start, end, union, adjacent,
}

-- A box with its mark in the vector `used`.
abbrev pub Slot : Type 0
Slot = Volume × Bool

abbrev keep_slot : Slot → Option (Volume × List Slot) → Option (Volume × List Slot)
keep_slot s none = none
keep_slot s (some (w, r)) = some (w, s ∷ r)

-- The inner loop, over the slots behind that of `v`: the first free box that touches `v`, and the
-- slots with that box marked.
unfoldable pub take_adjacent : Axis → Volume → List Slot → Option (Volume × List Slot)
take_adjacent d v [] = none
take_adjacent d v ((w, used) ∷ r) = elim (not used && adjacent d v w) [
  | true ↦ some (w, (w, true) ∷ r)
  | false ↦ keep_slot (w, used) (take_adjacent d v r)
]

-- What a pass over the slots leaves: the boxes joined so far and the slots with their marks.
pub record Pairs : Type 0 where
  pub buffer : List Volume
  pub slots : List Slot

abbrev join_first : Volume → Option (Volume × List Slot) → List Slot → (List Slot → Pairs) → Pairs
join_first v none r next =
    let p = next r in record { buffer = p.buffer; slots = (v, false) ∷ p.slots }
join_first v (some (w, r')) r next =
    let p = next r' in record { buffer = union v w ∷ p.buffer; slots = (v, true) ∷ p.slots }

-- The outer loop `for (int i = 0; i < inout.size() - 1; i++)`, with the rounds that are left.
unfoldable pub join_pairs : Axis → ℕ → List Slot → Pairs
unfolding take_adjacent
join_pairs d zero s = record { buffer = []; slots = s }
join_pairs d (suc n) [] = record { buffer = []; slots = [] }
join_pairs d (suc n) ((v, true) ∷ r) =
    let p = join_pairs d n r in record { buffer = p.buffer; slots = (v, true) ∷ p.slots }
join_pairs d (suc n) ((v, false) ∷ r) = join_first v (take_adjacent d v r) r (join_pairs d n)

-- The boxes that the last loop of a round pushes: those that no join has used.
abbrev pub unused : List Slot → List Volume
unused [] = []
unused ((v, true) ∷ r) = unused r
unused ((v, false) ∷ r) = v ∷ unused r

abbrev pub fresh : List Volume → List Slot
fresh [] = []
fresh (v ∷ vs) = (v, false) ∷ fresh vs

-- One round of the `while` of `ConnectAdjacentCuboids`: the new buffer. The groups that reach it
-- are never empty, so `inout.size() - 1` does not wrap.
unfoldable pub adjacent_round : Axis → List Volume → List Volume
unfolding join_pairs
adjacent_round d vs = let p = join_pairs d (length vs - 1) (fresh vs) in p.buffer ++ unused p.slots

unfoldable pub connect_adjacent : Axis → ℕ → List Volume → List Volume
unfolding adjacent_round
connect_adjacent d zero vs = vs
connect_adjacent d (suc fuel) vs =
    let next = adjacent_round d vs in
    let again = connect_adjacent d fuel next in if length next == length vs then vs else again

-- The template arguments of the three calls of `CollectAndConnect`, <0, 1, 2>, <0, 2, 1> and
-- <1, 2, 0>.
pub data Pass : Type 0 where
  pass_xy pass_xz pass_yz : Pass

abbrev pub first_axis : Pass → Axis
first_axis pass_xy = axis_x
first_axis pass_xz = axis_x
first_axis pass_yz = axis_y

abbrev pub second_axis : Pass → Axis
second_axis pass_xy = axis_y
second_axis pass_xz = axis_z
second_axis pass_yz = axis_z

abbrev pub third_axis : Pass → Axis
third_axis pass_xy = axis_z
third_axis pass_xz = axis_y
third_axis pass_yz = axis_x

pub record Key : Type 0 where
  pub s1 : ℤ
  pub e1 : ℤ
  pub s2 : ℤ
  pub e2 : ℤ

abbrev pub key : Pass → Volume → Key
key t v = record {
  s1 = start (first_axis t) v;
  e1 = end (first_axis t) v;
  s2 = start (second_axis t) v;
  e2 = end (second_axis t) v;
}

-- The order of `std::tuple`, by which the `std::map` keeps its keys.
unfoldable pub key_lt : Key → Key → Bool
key_lt k l =
    ltb_ℤ k.s1 l.s1
    || not (ltb_ℤ l.s1 k.s1)
      && (ltb_ℤ k.e1 l.e1
          || not (ltb_ℤ l.e1 k.e1) && (ltb_ℤ k.s2 l.s2 || not (ltb_ℤ l.s2 k.s2) && ltb_ℤ k.e2 l.e2))

abbrev pub Group : Type 0
Group = Key × List Volume

-- `categorized[key].push_back(v)` in the ordered map.
unfoldable pub categorize : Key → Volume → List Group → List Group
unfolding key_lt
categorize k v [] = (k, v ∷ []) ∷ []
categorize k v ((l, vs) ∷ g) = elim (key_lt k l) [
  | true ↦ (k, v ∷ []) ∷ (l, vs) ∷ g
  | false ↦ elim (key_lt l k) [ true ↦ (l, vs) ∷ categorize k v g | false ↦ (l, vs ++ v ∷ []) ∷ g ]
]

unfoldable pub collect : Pass → List Volume → List Group → List Group
unfolding categorize
collect t [] g = g
collect t (v ∷ vs) g = collect t vs (categorize (key t v) v g)

-- The groups joined one after the other. Each round but the last makes a group shorter, so its
-- length is fuel enough.
unfoldable pub connect_groups : Pass → List Group → List Volume
unfolding connect_adjacent
connect_groups t [] = []
connect_groups t ((k, vs) ∷ g) =
    connect_adjacent (third_axis t) (length vs) vs ++ connect_groups t g

unfoldable pub collect_and_connect : Pass → List Volume → List Volume
unfolding collect connect_groups
collect_and_connect t vs = connect_groups t (collect t vs [])

unfoldable pub connect_round : List Volume → List Volume
unfolding collect_and_connect
connect_round vs =
    collect_and_connect pass_yz (collect_and_connect pass_xz (collect_and_connect pass_xy vs))

unfoldable pub connect_loop : ℕ → List Volume → List Volume
unfolding connect_round
connect_loop zero vs = vs
connect_loop (suc fuel) vs =
    let next = connect_round vs in
    let again = connect_loop fuel next in if length vs == length next then next else again

unfoldable pub connect : List Volume → List Volume
unfolding connect_loop
connect vs = connect_loop (suc (length vs)) vs
