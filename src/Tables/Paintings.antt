-- ===== src/Tables/Paintings.antt =====
-- src/entity/_painting.hpp: the motives of paintings, their sizes and their names in the Java
-- edition. A motive stands for its value. The list of a hash map leaves out the second entry for a
-- key, as its constructor does.
use Prim.Native.String.{String}
use je2be.Prelude.{Option, none, some, List, [], ◌∷◌}
use je2be.Prelude.Int.{ℤ, pos}
use je2be.Prelude.Equality.{string_eq, int_eq}
use je2be.Tables.ReversibleMap.{find, from_map, forward, backward}

abbrev pub motive_bust : ℤ
motive_bust = pos 0

abbrev pub motive_pigscene : ℤ
motive_pigscene = pos 1

abbrev pub motive_burning_skull : ℤ
motive_burning_skull = pos 2

abbrev pub motive_pointer : ℤ
motive_pointer = pos 3

abbrev pub motive_skeleton : ℤ
motive_skeleton = pos 4

abbrev pub motive_donkey_kong : ℤ
motive_donkey_kong = pos 5

abbrev pub motive_fighters : ℤ
motive_fighters = pos 6

abbrev pub motive_skull_and_roses : ℤ
motive_skull_and_roses = pos 7

abbrev pub motive_match : ℤ
motive_match = pos 8

abbrev pub motive_stage : ℤ
motive_stage = pos 9

abbrev pub motive_void : ℤ
motive_void = pos 10

abbrev pub motive_wither : ℤ
motive_wither = pos 11

abbrev pub motive_sunset : ℤ
motive_sunset = pos 12

abbrev pub motive_courbet : ℤ
motive_courbet = pos 13

abbrev pub motive_creebet : ℤ
motive_creebet = pos 14

abbrev pub motive_sea : ℤ
motive_sea = pos 15

abbrev pub motive_wanderer : ℤ
motive_wanderer = pos 16

abbrev pub motive_graham : ℤ
motive_graham = pos 17

abbrev pub motive_aztec2 : ℤ
motive_aztec2 = pos 18

abbrev pub motive_alban : ℤ
motive_alban = pos 19

abbrev pub motive_bomb : ℤ
motive_bomb = pos 20

abbrev pub motive_kebab : ℤ
motive_kebab = pos 21

abbrev pub motive_wasteland : ℤ
motive_wasteland = pos 22

abbrev pub motive_aztec : ℤ
motive_aztec = pos 23

abbrev pub motive_plant : ℤ
motive_plant = pos 24

abbrev pub motive_pool : ℤ
motive_pool = pos 25

abbrev pub motive_earth : ℤ
motive_earth = pos 26

abbrev pub motive_wind : ℤ
motive_wind = pos 27

abbrev pub motive_fire : ℤ
motive_fire = pos 28

abbrev pub motive_water : ℤ
motive_water = pos 29

pub record Size : Type 0 where
  pub width : ℤ
  pub height : ℤ

abbrev pub size_of : ℤ → ℤ → Size
size_of w h = record { width = w; height = h }

abbrev pub painting_sizes : List (ℤ × Size)
painting_sizes =
    (motive_pigscene, size_of (pos 4) (pos 4))
    ∷ (motive_burning_skull, size_of (pos 4) (pos 4))
    ∷ (motive_pointer, size_of (pos 4) (pos 4))
    ∷ (motive_skeleton, size_of (pos 4) (pos 3))
    ∷ (motive_donkey_kong, size_of (pos 4) (pos 3))
    ∷ (motive_fighters, size_of (pos 4) (pos 2))
    ∷ (motive_skull_and_roses, size_of (pos 2) (pos 2))
    ∷ (motive_match, size_of (pos 2) (pos 2))
    ∷ (motive_bust, size_of (pos 2) (pos 2))
    ∷ (motive_stage, size_of (pos 2) (pos 2))
    ∷ (motive_void, size_of (pos 2) (pos 2))
    ∷ (motive_wither, size_of (pos 2) (pos 2))
    ∷ (motive_sunset, size_of (pos 2) (pos 1))
    ∷ (motive_courbet, size_of (pos 2) (pos 1))
    ∷ (motive_creebet, size_of (pos 2) (pos 1))
    ∷ (motive_sea, size_of (pos 2) (pos 1))
    ∷ (motive_wanderer, size_of (pos 1) (pos 2))
    ∷ (motive_graham, size_of (pos 1) (pos 2))
    ∷ (motive_aztec2, size_of (pos 1) (pos 1))
    ∷ (motive_alban, size_of (pos 1) (pos 1))
    ∷ (motive_bomb, size_of (pos 1) (pos 1))
    ∷ (motive_kebab, size_of (pos 1) (pos 1))
    ∷ (motive_wasteland, size_of (pos 1) (pos 1))
    ∷ (motive_aztec, size_of (pos 1) (pos 1))
    ∷ (motive_plant, size_of (pos 1) (pos 1))
    ∷ (motive_pool, size_of (pos 2) (pos 1))
    ∷ (motive_earth, size_of (pos 2) (pos 2))
    ∷ (motive_wind, size_of (pos 2) (pos 2))
    ∷ (motive_fire, size_of (pos 2) (pos 2))
    ∷ (motive_water, size_of (pos 2) (pos 2))
    ∷ []

unfoldable pub painting_size : ℤ → Option Size
unfolding find
painting_size m = find m painting_sizes

abbrev pub painting_table : List (String × ℤ)
painting_table =
    ("minecraft:bust", motive_bust)
    ∷ ("minecraft:pigscene", motive_pigscene)
    ∷ ("minecraft:burning_skull", motive_burning_skull)
    ∷ ("minecraft:pointer", motive_pointer)
    ∷ ("minecraft:skeleton", motive_skeleton)
    ∷ ("minecraft:donkey_kong", motive_donkey_kong)
    ∷ ("minecraft:fighters", motive_fighters)
    ∷ ("minecraft:skull_and_roses", motive_skull_and_roses)
    ∷ ("minecraft:match", motive_match)
    ∷ ("minecraft:stage", motive_stage)
    ∷ ("minecraft:void", motive_void)
    ∷ ("minecraft:wither", motive_wither)
    ∷ ("minecraft:sunset", motive_sunset)
    ∷ ("minecraft:courbet", motive_courbet)
    ∷ ("minecraft:creebet", motive_creebet)
    ∷ ("minecraft:sea", motive_sea)
    ∷ ("minecraft:wanderer", motive_wanderer)
    ∷ ("minecraft:graham", motive_graham)
    ∷ ("minecraft:aztec2", motive_aztec2)
    ∷ ("minecraft:alban", motive_alban)
    ∷ ("minecraft:bomb", motive_bomb)
    ∷ ("minecraft:kebab", motive_kebab)
    ∷ ("minecraft:wasteland", motive_wasteland)
    ∷ ("minecraft:aztec", motive_aztec)
    ∷ ("minecraft:plant", motive_plant)
    ∷ ("minecraft:pool", motive_pool)
    ∷ ("minecraft:earth", motive_earth)
    ∷ ("minecraft:wind", motive_wind)
    ∷ ("minecraft:fire", motive_fire)
    ∷ ("minecraft:water", motive_water)
    ∷ []

unfoldable pub motive_from_java : String → ℤ
unfolding forward from_map
motive_from_java s = elim (forward (from_map painting_table) s) [ none ↦ motive_aztec | some m ↦ m ]

unfoldable pub java_from_motive : ℤ → String
unfolding backward from_map
java_from_motive m = elim (backward (from_map painting_table) m) [
  | none ↦ "minecraft:aztec"
  | some s ↦ s
]
