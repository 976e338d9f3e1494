-- ===== src/Tests/Cells.antt =====
-- Arrays and grids: src/_data2d.hpp, src/_data3d.hpp and src/box360/_grid.hpp.
use je2be.Prelude.{ℕ, ◌+◌, ◌*◌, ◌<◌, ◌≤◌, ◌≡◌, refl, ◌&&◌, some, [], ◌∷◌, if◌then◌else◌, arith, ◌%◌}
use je2be.Prelude.Int.{◌+ℤ◌, ◌-ℤ◌}
use je2be.Geometry.Pos.{eq_pos2, eq_pos3}
use je2be.Geometry.Volume.{contains}
use je2be.Storage.Data2d.{Data2d, at, assign}
use je2be.Storage.Data2d.Cells.{at-assign}
use je2be.Storage.Data3d
use je2be.Storage.Data3d.{Data3d, set_cell}
use je2be.Storage.Data3d.Cells.{get-set_cell, box}
use je2be.Box360.Grid.{block_data_from_bytes, parse_format_f, parse}
use je2be.Box360.Grid.Cells.{
  block_data_from_bytes_lem, parse-cells, parse_format_f-cells, entry, Packed,
}
use Prim.Native.String.{String}
use je2be.Prelude.{◌≢◌, ◌==◌}
use je2be.Prelude.Equality.{string_eq}
use je2be.BlockPalette.{BlockPalette, set}
use je2be.BlockPalette.Cells.{view, IsValid, view-set, set-IsValid}
use je2be.Box360.Savegame.{decode_decompressed_chunk}
use je2be.Box360.Savegame.Runs.{
  literal, marks, repeated, encode, expand, decode_decompressed_chunk-encode,
}
use je2be.Tests.Shared.{at2, at3}

abbrev sheet : Data2d ℕ
sheet = record { start = at2 1 1; end = at2 2 3; storage = 10 ∷ 11 ∷ 12 ∷ 13 ∷ 14 ∷ 15 ∷ [] }

at-assign_example :
    at (assign sheet (at2 2 2) 7) (at2 1 3)
    ≡ (if eq_pos2 (at2 2 2) (at2 1 3) then some 7 else at sheet (at2 1 3))
unfolding ◌+ℤ◌ ◌-ℤ◌
at-assign_example =
    at-assign sheet (at2 2 2) (at2 1 3) 7 refl (omega arith, omega arith, omega arith, omega arith)
      (omega arith, omega arith, omega arith, omega arith)

abbrev block : Data3d ℕ
block = record { start = at3 0 0 0; end = at3 1 0 1; storage = 10 ∷ 11 ∷ 12 ∷ 13 ∷ [] }

get-set_cell_example : Data3d.get (set_cell block (at3 1 0 1) 7) (at3 1 0 1) ≡ (
    if eq_pos3 (at3 1 0 1) (at3 1 0 1) && contains (box block) (at3 1 0 1)
    then some 7
    else Data3d.get block (at3 1 0 1))
unfolding ◌+ℤ◌ ◌-ℤ◌
get-set_cell_example = get-set_cell block (at3 1 0 1) (at3 1 0 1) 7 refl

block_data_from_bytes_lem_example : block_data_from_bytes 51 64 ≡ 3 * 256 + 67
block_data_from_bytes_lem_example = block_data_from_bytes_lem 3 67 (omega arith) (omega arith)

-- A buffer whose bytes count up, and a grid of zeros.
abbrev counting : ℕ → ℕ
counting n = n % 256

abbrev zeros : ℕ → ℕ
zeros n = 0

parse-cells_example :
    (g : ℕ → ℕ) × (parse 2 counting zeros ≡ some g)
    × ((r m : ℕ) → r < 8 → m < 8 → Packed 2 counting g r m)
parse-cells_example = parse-cells 2 counting zeros

parse_format_f-cells_example :
    (5 < 64 → parse_format_f counting zeros 5 ≡ entry counting 5)
    × (64 ≤ 5 → parse_format_f counting zeros 5 ≡ zeros 5)
parse_format_f-cells_example = parse_format_f-cells counting zeros 5

-- Decoding a literal, two marks and a run of nines.
decode_decompressed_chunk-encode_example :
    decode_decompressed_chunk (encode (literal 7 ∷ marks 1 ∷ repeated 4 9 ∷ []))
    ≡ expand (literal 7 ∷ marks 1 ∷ repeated 4 9 ∷ [])
decode_decompressed_chunk-encode_example =
    decode_decompressed_chunk-encode (literal 7 ∷ marks 1 ∷ repeated 4 9 ∷ [])
      (differ, (omega arith, (omega arith, tt)))
  where
    differ : ◌≢◌ {A = ℕ} 7 255
    differ = λ h. omega arith

decode_test :
    decode_decompressed_chunk (7 ∷ 255 ∷ 1 ∷ 255 ∷ 4 ∷ 9 ∷ [])
    ≡ 7 ∷ 255 ∷ 255 ∷ 9 ∷ 9 ∷ 9 ∷ 9 ∷ 9 ∷ []
unfolding decode_decompressed_chunk
decode_test = refl

-- Three cells with the tags "air", "stone" and "stone".
abbrev three_cells : BlockPalette String
three_cells = record { palette = "air" ∷ "stone" ∷ []; indices = 0 ∷ 1 ∷ 1 ∷ [] }

view-set_example :
    view (set three_cells 2 "dirt") 1 ≡ (if 2 == 1 then some "dirt" else view three_cells 1)
view-set_example =
    view-set three_cells 2 "dirt" 1 (omega arith, (omega arith, (omega arith, tt))) (omega arith)
      (omega arith)

set-IsValid_example : IsValid (set three_cells 2 "dirt")
set-IsValid_example =
    set-IsValid three_cells 2 "dirt" (omega arith, (omega arith, (omega arith, tt))) (omega arith)
