-- ===== src/Box360/Grid.antt =====
-- src/box360/_grid.hpp. A buffer and a grid are the memory from a pointer on, as functions of the
-- index; a byte is a number below 2 ^ 8. `|` joins numbers without common bits, so it is `+`.
use je2be.Prelude.{ℕ, zero, suc, ◌+◌, ◌-◌, ◌*◌, ◌/◌, ◌%◌, ◌^◌, ltb, ◌==◌, List, [], ◌∷◌, ◌++◌}
use je2be.Prelude.{Option, none, some, get_elem?, if◌then◌else◌}
pub mod Digits
pub mod Cells

unfoldable pub block_data_from_bytes : ℕ → ℕ → ℕ
block_data_from_bytes v1 v2 =
    let t1 = v1 / 16 in
    let t2 = v1 % 16 in
    let t3 = v2 / 16 in
    let t4 = v2 % 16 in
    let block_id = (t4 * 16 + t1) % 2 ^ 8 in
    let data_value = (t3 * 16 + t2) % 2 ^ 8 in block_id * 256 + data_value

-- The rounds of the loop from round `i` on, `n` of them.
unfoldable pub parse_palette_from : (ℕ → ℕ) → ℕ → ℕ → List ℕ
unfolding block_data_from_bytes
parse_palette_from buffer i zero = []
parse_palette_from buffer i (suc n) =
    block_data_from_bytes (buffer (i * 2)) (buffer (i * 2 + 1))
    ∷ parse_palette_from buffer (suc i) n

unfoldable pub parse_palette : (ℕ → ℕ) → ℕ → List ℕ
unfolding parse_palette_from
parse_palette buffer max_size = parse_palette_from buffer 0 max_size

unfoldable pub store : ℕ → ℕ → (ℕ → ℕ) → ℕ → ℕ
store at value grid n = if n == at then value else grid n

unfoldable pub parse_format0 : ℕ → ℕ → (ℕ → ℕ) → ℕ → ℕ
unfolding block_data_from_bytes
parse_format0 v1 v2 grid n = if ltb n 64 then block_data_from_bytes v1 v2 else grid n

-- `copy_n` of the palette's 64 entries.
unfoldable pub parse_format_f : (ℕ → ℕ) → (ℕ → ℕ) → ℕ → ℕ
unfolding parse_palette
parse_format_f buffer grid n = elim (get_elem? (parse_palette buffer 64) n) [
  | some block ↦ block
  | none ↦ grid n
]

-- `(v & (0x80 >> j)) >> (7 - j)`.
unfoldable pub bit : ℕ → ℕ → ℕ
bit v j = v / 2 ^ (7 - j) % 2

-- `idx` after `k` rounds of its loop.
unfoldable pub palette_index : (ℕ → ℕ) → ℕ → ℕ → ℕ
unfolding bit
palette_index v j zero = 0
palette_index v j (suc k) = palette_index v j k + bit (v k) j * 2 ^ k

-- The rounds of the loop over the columns of row `i` from column `j` on, `n` of them. `none` is
-- `return false`.
unfoldable pub parse_columns : ℕ → List ℕ → (ℕ → ℕ) → ℕ → ℕ → ℕ → (ℕ → ℕ) → Option (ℕ → ℕ)
unfolding palette_index store
parse_columns bits palette v i j zero grid = some grid
parse_columns bits palette v i j (suc n) grid = elim (get_elem? palette (palette_index v j bits)) [
  | none ↦ none
  | some block ↦ parse_columns bits palette v i (suc j) n (store (i * 8 + j) block grid)
]

unfoldable pub parse_rows : ℕ → List ℕ → (ℕ → ℕ) → ℕ → ℕ → (ℕ → ℕ) → Option (ℕ → ℕ)
unfolding parse_columns
parse_rows bits palette buffer i zero grid = some grid
parse_rows bits palette buffer i (suc n) grid =
    elim (parse_columns bits palette (λ j. buffer (2 ^ bits * 2 + i + j * 8)) i 0 8 grid) [
      | none ↦ none
      | some grid2 ↦ parse_rows bits palette buffer (suc i) n grid2
    ]

unfoldable pub parse : ℕ → (ℕ → ℕ) → (ℕ → ℕ) → Option (ℕ → ℕ)
unfolding parse_palette parse_rows
parse bits buffer grid = parse_rows bits (parse_palette buffer (2 ^ bits)) buffer 0 8 grid
