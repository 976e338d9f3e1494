-- ===== src/Lib.antt =====
-- A model of parts of je2be, a converter of Minecraft worlds between the Java, Bedrock and Xbox 360
-- editions.
--
-- The program reads a world of one edition chunk by chunk, converts its blocks, entities and
-- items, and writes a world of another. The parts modelled are those that the converters share.
-- The boxes that mark structures are joined when a Bedrock world is read (src/toje-context.cpp).
-- The arrays hold flags and light by position. The queue hands out chunks to threads that must
-- not work next to each other (src/box360-terraform.cpp), and regions in the order of their size
-- (src/toje-converter.cpp). The grids hold the blocks of an Xbox 360 chunk, and a palette those
-- of a Bedrock section. Portal blocks are gathered chunk by chunk and become the portal records of
-- the Bedrock world, and entities get ids from their UUIDs. The light of a Java chunk is computed
-- from the models of its blocks. Tables and enums translate the values of one edition to another.
--
-- Files and sources:
-- - Geometry: include/je2be/pos2.hpp (Pos), src/_closed-range.hpp (ClosedRange) and src/_volume.hpp
--   (Volume). Volume/Connect follows Connect and its template helpers, with a constructor for each
--   pass over two axes; Volume/Greedy follows ConnectGreed.
-- - Storage: src/_data2d.hpp and the class Data3d of src/_data3d.hpp.
-- - Portals: src/tobe/portal, the search and the extraction of src/tobe/portal/_oriented-portal-blocks.hpp
--   in the root and the sets of both axes and both dimensions in Worlds.
-- - Lighting: the tests of src/toje/lighting/_lighting.hpp on the faces of a block (Models), and
--   DiffuseLight with DiffuseRecursive (Diffuse), whose six parts are one function of the face, and
--   InitializeSkyLight, InitializeBlockLight and their use in Lighting::Do (Initialize).
-- - UuidRegistrar: src/tobe/_uuid-registrar.hpp, with the two hashes as parameters and an id as an
--   i64 (Prelude/Int64).
-- - Commands: the arguments of target selectors, src/command/_target-selector.hpp, from the pairs of a
--   key and a value on; the tokenizer stands on std::regex.
-- - Queue2d: src/_queue2d.hpp, one function for each loop of next(); Workers has the threads as
--   steps in any order, each atomic under the mutex as in the code.
-- - BlockPalette: src/tobe/_block-palette.hpp.
-- - Box360: src/box360/_grid.hpp (Grid) and DecodeDecompressedChunk of src/box360-savegame.cpp
--   (Savegame).
-- - Tables: src/_reversible-map.hpp, src/_static-reversible-map.hpp, and of the tables that stand on
--   them those of the boats, axolotls, frogs, cats and pandas of src/entity (Entities), the Java
--   table and the sizes of src/entity/_painting.hpp (Paintings), and the goat horns, tipped arrows,
--   potions and enchantments of src/item (Items).
-- - Enums: src/enums.
-- - Prelude: signed integers, Boolean tests and lists over the native numbers, and equality tests
--   as instances. Tests: runs of the model, and the theorems at concrete inputs.
--
-- Choices of the model. Coordinates and sizes are integers that do not overflow, where C++ leaves
-- an overflow undefined; the u32 product of width and height of an array is taken below 2 ^ 32, and
-- the lock radius of the queue, a u32 in an int, below 2 ^ 31; the u64 volume of a box wraps modulo
-- 2 ^ 64. An index outside a vector is an absent read and a write without effect. The float weights
-- of the queue are a parameter: a type with zero, sum and an irreflexive and transitive order, as
-- `<` on float is. A while loop takes fuel. Connect and ConnectGreed start with one more than the
-- number of boxes, which is enough because each round but the last leaves fewer boxes.
-- std::stable_sort is an insertion sort with the comparator of the code, and std::map a list in the
-- order of its keys. A hash map is an association list without repeated keys, and a hash set a list
-- in the order of its iteration. The search for a portal's corner has twice the size of the set as
-- fuel, as neither side of the rectangle is longer than the set, and the extraction has its size,
-- as each round erases a block. AvoidCollision has one more than the number of used ids: after as
-- many rounds the hash has left the set or repeats itself within it for ever. DiffuseLight has 15
-- for each cell, as a round that changes something raises a level and no level is above 15; its
-- recursion is on the level itself. The arrays of light are functions of the position, as every
-- access lies in their box.
--
-- Not modelled: the class Data3dSq, the Bedrock table of the paintings, whose names a submodule
-- splits, and their positions, which are doubles, the NBT tags of the portals, the other parts of
-- the save files, the models and the cache of the light, the tokenizer of commands and the
-- database; the converters of blocks, entities and items, which work on NBT trees of the submodule
-- minecraft-file; files, archives and allocation, which are input and output; and the copies of
-- other projects in src/box360/_stfs.hpp and src/box360/_lzx-decoder.hpp.
pub mod Prelude
pub mod Geometry
pub mod Storage
pub mod Portals
pub mod Lighting
pub mod UuidRegistrar
pub mod Commands
pub mod Queue2d
pub mod BlockPalette
pub mod Box360
pub mod Tables
pub mod Enums
pub mod Tests
