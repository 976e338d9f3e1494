-- ===== src/Box360/Savegame/Runs.antt =====
-- The run-length code of a chunk, described by its runs.
use je2be.Prelude.{
  ℕ, suc, ◌<◌, ◌≤◌, ◌≡◌, ◌≢◌, refl, sym, append_nil, ap, ◌∙◌, leb, ◌==◌, true, false, List, [], ◌∷◌,
  ◌++◌, replicate, All, arith,
}
use je2be.Box360.Savegame.{decode_decompressed_chunk}

pub data Run : Type 0 where
  literal : ℕ → Run
  marks : ℕ → Run
  repeated : ℕ → ℕ → Run

-- A literal is not the mark 255; a run with a count up to 2 repeats the mark, and one with a
-- greater count repeats the byte that follows.
abbrev pub IsRun : Run → Type 0
IsRun (literal b) = b ≢ 255
IsRun (marks count) = count < 3
IsRun (repeated count b) = 3 ≤ count

abbrev pub encode : List Run → List ℕ
encode [] = []
encode (literal b ∷ rs) = b ∷ encode rs
encode (marks count ∷ rs) = 255 ∷ count ∷ encode rs
encode (repeated count b ∷ rs) = 255 ∷ count ∷ b ∷ encode rs

-- The bytes that the runs stand for.
abbrev pub expand : List Run → List ℕ
expand [] = []
expand (literal b ∷ rs) = b ∷ expand rs
expand (marks count ∷ rs) = replicate (suc count) 255 ++ expand rs
expand (repeated count b ∷ rs) = replicate (suc count) b ++ expand rs

decode_literal :
    (b : ℕ) (r : List ℕ)
    → b ≢ 255
    → decode_decompressed_chunk (b ∷ r) ≡ b ∷ decode_decompressed_chunk r
unfolding decode_decompressed_chunk
decode_literal b [] h = refl
decode_literal b (c ∷ []) h =
    let e : (b == 255) ≡ false = ground arith in rw (e, decode_decompressed_chunk) refl
decode_literal b (c ∷ v ∷ r) h =
    let e : (b == 255) ≡ false = ground arith in rw (e, decode_decompressed_chunk) refl

decode_marks :
    (count : ℕ) (r : List ℕ)
    → count < 3
    → decode_decompressed_chunk (255 ∷ count ∷ r)
      ≡ replicate (suc count) 255 ++ decode_decompressed_chunk r
unfolding decode_decompressed_chunk
decode_marks count [] h =
    let e : leb 3 count ≡ false = ground arith in
    rw (e, decode_decompressed_chunk) (sym (append_nil (replicate (suc count) 255)))
decode_marks count (v ∷ r) h =
    let e : leb 3 count ≡ false = ground arith in rw (e, decode_decompressed_chunk) refl

decode_repeated :
    (count b : ℕ) (r : List ℕ)
    → 3 ≤ count
    → decode_decompressed_chunk (255 ∷ count ∷ b ∷ r)
      ≡ replicate (suc count) b ++ decode_decompressed_chunk r
unfolding decode_decompressed_chunk
decode_repeated count b r h =
    let e : leb 3 count ≡ true = ground arith in rw (e, decode_decompressed_chunk) refl

-- Decoding the code of any list of runs of the three kinds, their counts in range, gives the bytes
-- that the runs stand for.
pub decode_decompressed_chunk-encode :
    (rs : List Run) → All IsRun rs → decode_decompressed_chunk (encode rs) ≡ expand rs
unfolding decode_decompressed_chunk
decode_decompressed_chunk-encode [] h = refl
decode_decompressed_chunk-encode (literal b ∷ rs) h =
    decode_literal b (encode rs) h.0 ∙ ap (λ r. b ∷ r) (decode_decompressed_chunk-encode rs h.1)
decode_decompressed_chunk-encode (marks count ∷ rs) h =
    decode_marks count (encode rs) h.0
    ∙ ap (λ r. replicate (suc count) 255 ++ r) (decode_decompressed_chunk-encode rs h.1)
decode_decompressed_chunk-encode (repeated count b ∷ rs) h =
    decode_repeated count b (encode rs) h.0
    ∙ ap (λ r. replicate (suc count) b ++ r) (decode_decompressed_chunk-encode rs h.1)
