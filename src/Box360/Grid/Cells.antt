-- ===== src/Box360/Grid/Cells.antt =====
-- What the parsers of a grid leave in its cells.
use je2be.Prelude.{ℕ, zero, suc, ◌+◌, ◌-◌, ◌*◌, ◌/◌, ◌%◌, ◌^◌, ◌<◌, ◌≤◌}
use je2be.Prelude.{◌≡◌, refl, ap, ◌∙◌, ◌⊎◌, inl, inr, none, some, get_elem?, arith}
use je2be.Box360.Grid.Digits.{digit, palette_index-lt, digit-palette_index, bit-digit}
use je2be.Box360.Grid.{
  block_data_from_bytes, parse_palette_from, parse_palette, store, parse_format_f, palette_index,
  parse_columns, parse_rows, parse,
}

-- A block id and its data, each a byte, spread over two bytes as the format does, are read back.
pub block_data_from_bytes_lem :
    (block_id data_value : ℕ)
    → block_id < 256
    → data_value < 256
    → block_data_from_bytes
        (block_id % 16 * 16 + data_value % 16)
        (data_value / 16 * 16 + block_id / 16)
      ≡ block_id * 256 + data_value
unfolding block_data_from_bytes
block_data_from_bytes_lem block_id data_value hi hd = omega arith

-- The block that entry `k` of the palette at the start of the buffer stands for.
abbrev pub entry : (ℕ → ℕ) → ℕ → ℕ
entry buffer k = block_data_from_bytes (buffer (k * 2)) (buffer (k * 2 + 1))

get_elem-palette :
    (buffer : ℕ → ℕ) (i n k : ℕ)
    → k < n
    → get_elem? (parse_palette_from buffer i n) k ≡ some (entry buffer (i + k))
unfolding parse_palette_from
get_elem-palette buffer i zero k h = elim h [ ]
get_elem-palette buffer i (suc n) zero h = ap (λ m. some (entry buffer m)) (omega arith)
get_elem-palette buffer i (suc n) (suc k) h =
    get_elem-palette buffer (suc i) n k (omega arith)
    ∙ ap (λ m. some (entry buffer m)) (omega arith)

get_elem-parse_palette :
    (buffer : ℕ → ℕ) (n k : ℕ)
    → k < n
    → get_elem? (parse_palette buffer n) k ≡ some (entry buffer k)
unfolding parse_palette
get_elem-parse_palette buffer n k h =
    get_elem-palette buffer 0 n k h ∙ ap (λ m. some (entry buffer m)) (omega arith)

get_elem-palette_end :
    (buffer : ℕ → ℕ) (i n k : ℕ) → n ≤ k → get_elem? (parse_palette_from buffer i n) k ≡ none
unfolding parse_palette_from
get_elem-palette_end buffer i zero k h = refl
get_elem-palette_end buffer i (suc n) zero h = ground arith
get_elem-palette_end buffer i (suc n) (suc k) h =
    get_elem-palette_end buffer (suc i) n k (omega arith)

get_elem-parse_palette_end :
    (buffer : ℕ → ℕ) (n k : ℕ) → n ≤ k → get_elem? (parse_palette buffer n) k ≡ none
unfolding parse_palette
get_elem-parse_palette_end buffer n k h = get_elem-palette_end buffer 0 n k h

zero_or_suc : (m : ℕ) → (m ≡ 0) ⊎ ((k : ℕ) × (m ≡ suc k))
zero_or_suc zero = inl refl
zero_or_suc (suc k) = inr (k, refl)

store_at : (at value : ℕ) (grid : ℕ → ℕ) → store at value grid at ≡ value
unfolding store
store_at at value grid = ground arith

store_lt : (at value c : ℕ) (grid : ℕ → ℕ) → c < at → store at value grid c ≡ grid c
unfolding store
store_lt at value c grid h = ground arith

module _ (bits : ℕ) (buffer : ℕ → ℕ) where
  -- The columns are read to the end, each gets its entry, and no cell before them changes.
  abbrev ColumnsDone : (ℕ → ℕ) → ℕ → ℕ → ℕ → (ℕ → ℕ) → (ℕ → ℕ) → Type 0
  ColumnsDone v i j n grid g =
      ((m : ℕ) → m < n → g (i * 8 + j + m) ≡ entry buffer (palette_index v (j + m) bits))
      × ((c : ℕ) → c < i * 8 + j → g c ≡ grid c)

  columns_done :
      (v : ℕ → ℕ) (i j n : ℕ) (grid : ℕ → ℕ)
      → (g : ℕ → ℕ) × (parse_columns bits (parse_palette buffer (2 ^ bits)) v i j n grid ≡ some g)
        × ColumnsDone v i j n grid g
  unfolding parse_columns
  columns_done v i j zero grid = (grid, refl, (λ m h. elim h [ ], λ c h. refl))
  columns_done v i j (suc n) grid =
      let found =
        get_elem-parse_palette buffer (2 ^ bits) (palette_index v j bits)
          (palette_index-lt v j bits) in
      let block = entry buffer (palette_index v j bits) in
      let (g, run, (cells, rest)) = columns_done v i (suc j) n (store (i * 8 + j) block grid) in
      (
        g,
        rw (found, parse_columns) run,
        (
          λ m h. elim (zero_or_suc m) [
            | inl e ↦
                ap g (omega arith)
                ∙ rest (i * 8 + j) (omega arith)
                ∙ store_at (i * 8 + j) block grid
                ∙ ap (λ x. entry buffer (palette_index v x bits)) (omega arith)
            | inr (k, e) ↦
                ap g (omega arith)
                ∙ cells k (omega arith)
                ∙ ap (λ x. entry buffer (palette_index v x bits)) (omega arith)
          ],
          λ c h. rest c (omega arith) ∙ store_lt (i * 8 + j) block c grid h,
        ),
      )

  -- The bytes from which the indices of a row are put together.
  abbrev pub row : ℕ → ℕ → ℕ
  row i k = buffer (2 ^ bits * 2 + i + k * 8)

  abbrev RowsDone : ℕ → ℕ → (ℕ → ℕ) → (ℕ → ℕ) → Type 0
  RowsDone i n grid g =
      ((r m : ℕ)
        → r < n
        → m < 8
        → g ((i + r) * 8 + m) ≡ entry buffer (palette_index (row (i + r)) m bits))
      × ((c : ℕ) → c < i * 8 → g c ≡ grid c)

  rows_done :
      (i n : ℕ) (grid : ℕ → ℕ)
      → (g : ℕ → ℕ) × (parse_rows bits (parse_palette buffer (2 ^ bits)) buffer i n grid ≡ some g)
        × RowsDone i n grid g
  unfolding parse_rows
  rows_done i zero grid = (grid, refl, (λ r m h. elim h [ ], λ c h. refl))
  rows_done i (suc n) grid =
      let (g1, run1, (cells1, rest1)) = columns_done (row i) i 0 8 grid in
      let (g, run, (cells, rest)) = rows_done (suc i) n g1 in
      (
        g,
        rw (run1, parse_rows) run,
        (
          λ r m hr hm. elim (zero_or_suc r) [
            | inl e ↦
                ap g (omega arith)
                ∙ rest (i * 8 + 0 + m) (omega arith)
                ∙ cells1 m hm
                ∙ ap (λ x. entry buffer (palette_index (row i) x bits)) (omega arith)
                ∙ ap (λ x. entry buffer (palette_index (row x) m bits)) (omega arith)
            | inr (k, e) ↦
                ap g (omega arith)
                ∙ cells k m (omega arith) hm
                ∙ ap (λ x. entry buffer (palette_index (row x) m bits)) (omega arith)
          ],
          λ c h. rest c (omega arith) ∙ rest1 c (omega arith),
        ),
      )

  -- What the cell of row `r` and column `m` of a packed grid holds: the palette's entry under an
  -- index below 2 ^ bits, whose digit `k`, from the lowest, is the digit `m`, from the highest, of
  -- the byte `r` of plane `k`.
  pub record Packed (g : ℕ → ℕ) (r m : ℕ) : Type 0 where
    pub index : ℕ
    pub bounded : index < 2 ^ bits
    pub digits : (k : ℕ) → k < bits → digit index k ≡ digit (row r k) (7 - m)
    pub cell : g (r * 8 + m) ≡ entry buffer index

  -- Parsing a packed grid never fails, and each of the 64 cells of the result holds the palette's
  -- entry under the index below 2 ^ bits whose digit `k`, from the lowest, is for each `k` below
  -- `bits` the digit of the cell's column, from the highest, of the byte of the cell's row in plane
  -- `k`; the planes of 8 bytes follow the palette.
  pub parse-cells :
      (grid : ℕ → ℕ)
      → (g : ℕ → ℕ) × (parse bits buffer grid ≡ some g) × ((r m : ℕ) → r < 8 → m < 8 → Packed g r m)
  unfolding parse
  parse-cells grid =
      let (g, run, (cells, rest)) = rows_done 0 8 grid in
      (
        g,
        run,
        λ r m hr hm. record {
          index = palette_index (row r) m bits;
          bounded = palette_index-lt (row r) m bits;
          digits = λ k hk. digit-palette_index (row r) m bits k hk ∙ bit-digit (row r k) m hm;
          cell =
              ap g (omega arith)
              ∙ cells r m hr hm
              ∙ ap (λ x. entry buffer (palette_index (row x) m bits)) (omega arith);
        },
      )

-- A grid in format F is 64 blocks in the order of its cells, and no other cell changes.
pub parse_format_f-cells :
    (buffer grid : ℕ → ℕ) (n : ℕ)
    → (n < 64 → parse_format_f buffer grid n ≡ entry buffer n)
      × (64 ≤ n → parse_format_f buffer grid n ≡ grid n)
unfolding parse_format_f
parse_format_f-cells buffer grid n = (
  λ h. rw (get_elem-parse_palette buffer 64 n h) refl,
  λ h. rw (get_elem-parse_palette_end buffer 64 n h) refl,
)
