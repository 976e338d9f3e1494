-- ===== src/Tests/Uuids.antt =====
-- Entity ids: src/tobe/_uuid-registrar.hpp.
use je2be.Prelude.{suc, ◌≡◌, refl, inl, inr, none, some, List, [], ◌∷◌}
use je2be.Prelude.Int64.{Int64, to_int64, int64_eq}
use je2be.UuidRegistrar.{Hashes, no_ids, to_id, leasher_id_for}
use je2be.UuidRegistrar.Ids.{Key}
use je2be.UuidRegistrar.Calls.{calls}

-- Every UUID has the same first candidate, and the next one follows.
abbrev crowded : Hashes
crowded = record {
  Uuid = Int64;
  uuid_eq = int64_eq;
  first_candidate = λ u. to_int64 7;
  digest = λ h. to_int64 (suc h.word);
}

abbrev three_keys : List (Key crowded)
three_keys = inl (to_int64 1) ∷ inr (to_int64 6) ∷ inl (to_int64 2) ∷ inl (to_int64 1) ∷ []

calls_three :
    calls crowded (no_ids crowded) three_keys
    ≡ some (
      to_int64 7 ∷ to_int64 8 ∷ to_int64 9 ∷ to_int64 7 ∷ [],
      record {
        id_lut = (to_int64 1, to_int64 7) ∷ (to_int64 2, to_int64 9) ∷ [];
        leasher_lut = (to_int64 6, to_int64 8) ∷ [];
        used = to_int64 9 ∷ to_int64 8 ∷ to_int64 7 ∷ [];
      },
    )
unfolding to_id leasher_id_for to_int64
calls_three = refl

-- A hash that gives one value alone.
abbrev constant : Hashes
constant = record {
  Uuid = Int64;
  uuid_eq = int64_eq;
  first_candidate = λ u. to_int64 7;
  digest = λ h. to_int64 7;
}

calls_stop : calls constant (no_ids constant) (inl (to_int64 1) ∷ inl (to_int64 2) ∷ []) ≡ none
unfolding to_id to_int64
calls_stop = refl
