-- ===== src/Box360/Savegame.antt =====
-- `DecodeDecompressedChunk` of src/box360-savegame.cpp, which undoes a run-length code. A byte is a
-- number below 2 ^ 8; the bytes from index `i` on are the list that is left.
pub mod Runs
use package.je2be.Prelude.{ℕ, suc, leb, ◌==◌, true, false, List, [], ◌∷◌, ◌++◌, replicate}

unfoldable pub decode_decompressed_chunk : List ℕ → List ℕ
decode_decompressed_chunk [] = []
decode_decompressed_chunk (b ∷ []) = b ∷ []
decode_decompressed_chunk (b ∷ count ∷ []) = elim (b == 255) [
  | false ↦ b ∷ decode_decompressed_chunk (count ∷ [])
  | true ↦ elim (leb 3 count) [ true ↦ count ∷ [] | false ↦ replicate (suc count) 255 ]
]
decode_decompressed_chunk (b ∷ count ∷ repeat ∷ rest) = elim (b == 255) [
  | false ↦ b ∷ decode_decompressed_chunk (count ∷ repeat ∷ rest)
  | true ↦ elim (leb 3 count) [
    | true ↦ replicate (suc count) repeat ++ decode_decompressed_chunk rest
    | false ↦ replicate (suc count) 255 ++ decode_decompressed_chunk (repeat ∷ rest)
  ]
]
