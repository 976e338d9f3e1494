-- ===== src/UuidRegistrar/Calls.antt =====
-- Sequences of calls of `ToId` and `LeasherIdFor`: they answer as one fixed injective table does.
use je2be.Prelude.{◌≡◌, ◌++◌, Option, none, some}
use je2be.Prelude.{List, [], ◌∷◌, map}
use je2be.Prelude.Int64.{Int64}
use je2be.UuidRegistrar.{Hashes, Registrar, no_ids}
use je2be.UuidRegistrar.Ids.{Key, call, lookup, IsValid, Stuck}

module _ (H : Hashes) where
  abbrev then_id : Int64 → Option (List Int64 × Registrar H) → Option (List Int64 × Registrar H)
  then_id v none = none
  then_id v (some (vs, r)) = some (v ∷ vs, r)

  -- One call after the other; `none` where a call does not end.
  abbrev pub calls : Registrar H → List (Key H) → Option (List Int64 × Registrar H)
  calls r [] = some ([], r)
  calls r (k ∷ ks) = elim (call H r k) [ none ↦ none | some (v, r') ↦ then_id v (calls r' ks) ]

  record Answers (r : Registrar H) (ks : List (Key H)) (vs : List Int64) (r' : Registrar H)
      : Type 0 where
    answers : map (lookup H r') ks ≡ map some vs
    keeps : (k : Key H) (v : Int64) → lookup H r k ≡ some v → lookup H r' k ≡ some v
    valid : IsValid H r'

  -- The calls up to one that does not end: its key is new, and all values that the hash gives for
  -- it were handed out before.
  pub record Stops (r : Registrar H) (ks : List (Key H)) : Type 0 where
    pub earlier : List (Key H)
    pub key : Key H
    pub later : List (Key H)
    pub ids : List Int64
    pub reached : Registrar H
    pub splits : ks ≡ earlier ++ key ∷ later
    pub runs : calls r earlier ≡ some (ids, reached)
    pub stuck : Stuck H reached key

  abbrev AnswersIn : Registrar H → List (Key H) → Option (List Int64 × Registrar H) → Type 0
  AnswersIn r ks none = Stops r ks
  AnswersIn r ks (some (vs, r')) = Answers r ks vs r'

  -- A table of ids in which no two keys share one.
  pub record Table : Type 0 where
    pub id_of : Key H → Option Int64
    pub injective : (k k' : Key H) (v : Int64) → id_of k ≡ some v → id_of k' ≡ some v → k ≡ k'

  -- The calls end, with the ids that one table has for their keys, or they stop.
  abbrev pub Implements : List (Key H) → Option (List Int64 × Registrar H) → Type 0
  Implements ks none = Stops (no_ids H) ks
  Implements ks (some (vs, r)) = (t : Table) × (map t.id_of ks ≡ map some vs)
