-- ===== src/Commands/RoundTrip.antt =====
-- Arguments in the Bedrock edition's names, cut into pairs, are read back as they were.
use Prim.Native.String.{String}
use text.Mathlib.Text.{◌==◌}
use text.Mathlib.TextEquality.{eq_iff}
use je2be.Prelude.{if◌then◌else◌}
use je2be.Prelude.Equality.{string_eq}
use je2be.Prelude.Sets.{has}
use je2be.Prelude.{◌≡◌, refl, ap, sym, subst, ◌∙◌, inl, inr, Bool-cases}
use je2be.Prelude.{List, [], ◌∷◌, ◌++◌, All}
use je2be.Commands.{Pair, Argument, simple_argument, dedicated_argument, erase_key, get_key}
use je2be.Commands.{ranged_number_argument, NumberArgumentType}
use je2be.Commands.{limit, game_mode, bedrock, to_raw_argument, raw_arguments}
use je2be.Commands.{take_argument, parse_loop, parse_raw_arguments, bedrock_min, bedrock_max}
use je2be.Commands.Pairs.{same_key, Lacks, erase_key-Lacks, get_key-Lacks, erase_key_same}
use je2be.Commands.Pairs.{parse_raw_arguments-cons}
use je2be.Commands.Reading.{IsProper, AreProper, take_min, take_max, min≢max, max≢min, take_simple}
use je2be.Commands.Reading.{parse-simple, parse-dedicated, parse-ranged}

module _ (t : NumberArgumentType) (ps : List Pair) (no_min : Lacks (bedrock_min t) ps)
    (no_max : Lacks (bedrock_max t) ps) where
  erased_both :
      (v w : String)
      → erase_key (bedrock_min t) (
          erase_key
            (bedrock_min t)
            (erase_key (bedrock_max t) ((bedrock_min t, v) ∷ (bedrock_max t, w) ∷ ps)))
        ≡ ps
  unfolding erase_key
  erased_both v w =
      rw
        (
          max≢min t,
          same_key (bedrock_max t),
          erase_key-Lacks (bedrock_max t) ps no_max,
          same_key (bedrock_min t),
        )
        (ap (erase_key (bedrock_min t)) (erase_key-Lacks (bedrock_min t) ps no_min)
          ∙ erase_key-Lacks (bedrock_min t) ps no_min)

  parse-both :
      (v w : String)
      → parse_raw_arguments ((bedrock_min t, v) ∷ (bedrock_max t, w) ∷ ps)
        ≡ ranged_number_argument t v w ∷ parse_raw_arguments ps
  unfolding get_key
  parse-both v w =
      parse-ranged t (bedrock_min t) v ((bedrock_max t, w) ∷ ps) ps v w (take_min t v _)
        (rw (same_key (bedrock_min t)) refl) (rw (max≢min t, same_key (bedrock_max t)) refl)
        (erased_both v w)

  parse-min :
      (v : String)
      → parse_raw_arguments ((bedrock_min t, v) ∷ ps)
        ≡ ranged_number_argument t v "" ∷ parse_raw_arguments ps
  unfolding get_key erase_key
  parse-min v =
      parse-ranged t (bedrock_min t) v ps ps v "" (take_min t v _)
        (rw (same_key (bedrock_min t)) refl)
        (rw (max≢min t) (get_key-Lacks (bedrock_max t) ps no_max))
        (rw (max≢min t, erase_key-Lacks (bedrock_max t) ps no_max, same_key (bedrock_min t))
          (ap (erase_key (bedrock_min t)) (erase_key-Lacks (bedrock_min t) ps no_min)
            ∙ erase_key-Lacks (bedrock_min t) ps no_min))

  parse-max :
      (w : String)
      → parse_raw_arguments ((bedrock_max t, w) ∷ ps)
        ≡ ranged_number_argument t "" w ∷ parse_raw_arguments ps
  unfolding get_key erase_key
  parse-max w =
      parse-ranged t (bedrock_max t) w ps ps "" w (take_max t w _)
        (rw (min≢max t) (get_key-Lacks (bedrock_min t) ps no_min))
        (rw (same_key (bedrock_max t)) refl)
        (rw (same_key (bedrock_max t)) (
          ap (λ l. erase_key (bedrock_max t) (erase_key (bedrock_min t) l))
            (erase_key-Lacks (bedrock_max t) ps no_max)
          ∙ ap (erase_key (bedrock_max t)) (erase_key-Lacks (bedrock_min t) ps no_min)
          ∙ erase_key-Lacks (bedrock_max t) ps no_max))

  -- The pairs of a range before pairs with other keys.
  parse_range :
      (v w : String)
      → IsProper (ranged_number_argument t v w)
      → parse_raw_arguments (to_raw_argument bedrock (ranged_number_argument t v w) ++ ps)
        ≡ ranged_number_argument t v w ∷ parse_raw_arguments ps
  unfolding to_raw_argument
  parse_range v w h = elim (Bool-cases (v == "")) [
    | inl a ↦ elim (Bool-cases (w == "")) [
      | inl b ↦ absurd (elim h [ inl k ↦ k ((eq_iff v "").0 a) | inr k ↦ k ((eq_iff w "").0 b) ])
      | inr b ↦
          rw (a, b)
            (parse-max w
              ∙ ap (λ u. ranged_number_argument t u w ∷ parse_raw_arguments ps)
                  (sym ((eq_iff v "").0 a)))
    ]
    | inr a ↦ elim (Bool-cases (w == "")) [
      | inl b ↦
          rw (a, b)
            (parse-min v
              ∙ ap (λ u. ranged_number_argument t v u ∷ parse_raw_arguments ps)
                  (sym ((eq_iff w "").0 b)))
      | inr b ↦ rw (a, b) (parse-both v w)
    ]
  ]

no_pairs : parse_raw_arguments [] ≡ []
unfolding parse_raw_arguments parse_loop
no_pairs = refl

take_limit :
    (v : String) (ps : List Pair) → take_argument "c" v ps ≡ (dedicated_argument limit v, ps)
unfolding take_argument
take_limit v ps = refl

take_mode :
    (v : String) (ps : List Pair) → take_argument "m" v ps ≡ (dedicated_argument game_mode v, ps)
unfolding take_argument
take_mode v ps = refl

-- Proper arguments with different names, in the pairs of the Bedrock edition, are read back by
-- `ParseRawArguments` as they were, in their order.
pub parse_raw_arguments-raw_arguments :
    (l : List Argument) → AreProper l → parse_raw_arguments (raw_arguments bedrock l) ≡ l
unfolding raw_arguments
parse_raw_arguments-raw_arguments [] h = no_pairs
parse_raw_arguments-raw_arguments (simple_argument k v ∷ l) (p, n, h) =
    parse-simple k v (raw_arguments bedrock l) p n.0
    ∙ ap (λ r. simple_argument k v ∷ r) (parse_raw_arguments-raw_arguments l h)
parse_raw_arguments-raw_arguments (dedicated_argument limit v ∷ l) (p, n, h) =
    parse-dedicated limit "c" v (raw_arguments bedrock l) (take_limit v) n.0
    ∙ ap (λ r. dedicated_argument limit v ∷ r) (parse_raw_arguments-raw_arguments l h)
parse_raw_arguments-raw_arguments (dedicated_argument game_mode v ∷ l) (p, n, h) =
    parse-dedicated game_mode "m" v (raw_arguments bedrock l) (take_mode v) n.0
    ∙ ap (λ r. dedicated_argument game_mode v ∷ r) (parse_raw_arguments-raw_arguments l h)
parse_raw_arguments-raw_arguments (ranged_number_argument t v w ∷ l) (p, n, h) =
    parse_range t (raw_arguments bedrock l) n.0 n.1.0 v w p
    ∙ ap (λ r. ranged_number_argument t v w ∷ r) (parse_raw_arguments-raw_arguments l h)

-- A round at a key that names no other kind of argument.
parse-first :
    (k v : String) (ps : List Pair)
    → IsProper (simple_argument k v)
    → parse_raw_arguments ((k, v) ∷ ps) ≡ simple_argument k v ∷ parse_raw_arguments (erase_key k ps)
parse-first k v ps h =
    parse_raw_arguments-cons k v ps
    ∙ subst
        (λ c.
          c.0 ∷ parse_raw_arguments (erase_key k c.1)
          ≡ simple_argument k v ∷ parse_raw_arguments (erase_key k ps))
        (sym (take_simple k v ((k, v) ∷ ps) h))
        (ap (λ r. simple_argument k v ∷ parse_raw_arguments r) (erase_key_same k v ps))

-- One argument for each key that is not among the seen ones, with the first of its values.
abbrev pub first_of_each : List String → List Pair → List Argument
first_of_each seen [] = []
first_of_each seen ((k, v) ∷ ps) =
    if has k seen then first_of_each seen ps else simple_argument k v ∷ first_of_each (k ∷ seen) ps

-- The pairs whose keys are not among the seen ones.
abbrev unseen : List String → List Pair → List Pair
unseen seen [] = []
unseen seen ((k, v) ∷ ps) = if has k seen then unseen seen ps else (k, v) ∷ unseen seen ps

erase_key-unseen :
    (k : String) (seen : List String) (ps : List Pair)
    → erase_key k (unseen seen ps) ≡ unseen (k ∷ seen) ps
unfolding erase_key has
erase_key-unseen k seen [] = refl
erase_key-unseen k seen ((l, v) ∷ ps) = elim (Bool-cases (has l seen)) [
  | inl m ↦ elim (Bool-cases (l == k)) [
    | inl a ↦ rw (m, a) (erase_key-unseen k seen ps)
    | inr a ↦ rw (m, a) (erase_key-unseen k seen ps)
  ]
  | inr m ↦ elim (Bool-cases (l == k)) [
    | inl a ↦ rw (m, a) (erase_key-unseen k seen ps)
    | inr a ↦ rw (m, a) (ap (λ r. (l, v) ∷ r) (erase_key-unseen k seen ps))
  ]
]

unseen_all : (ps : List Pair) → unseen [] ps ≡ ps
unfolding has
unseen_all [] = refl
unseen_all ((k, v) ∷ ps) = ap (λ r. (k, v) ∷ r) (unseen_all ps)

parse-unseen :
    (seen : List String) (ps : List Pair)
    → All (λ p. IsProper (simple_argument p.0 p.1)) ps
    → parse_raw_arguments (unseen seen ps) ≡ first_of_each seen ps
parse-unseen seen [] h = no_pairs
parse-unseen seen ((k, v) ∷ ps) (h, hs) = elim (Bool-cases (has k seen)) [
  | inl m ↦ rw m (parse-unseen seen ps hs)
  | inr m ↦ rw m (
      parse-first k v (unseen seen ps) h
      ∙ ap (λ r. simple_argument k v ∷ parse_raw_arguments r) (erase_key-unseen k seen ps)
      ∙ ap (λ r. simple_argument k v ∷ r) (parse-unseen (k ∷ seen) ps hs))
]

-- Of pairs whose keys all name no other kind of argument, `ParseRawArguments` reads one simple
-- argument for each different key, in the order in which the keys first occur and with the value
-- that stands there: a later value under the same key is dropped, wherever it stands.
pub parse_raw_arguments_drops :
    (ps : List Pair)
    → All (λ p. IsProper (simple_argument p.0 p.1)) ps
    → parse_raw_arguments ps ≡ first_of_each [] ps
parse_raw_arguments_drops ps h = ap parse_raw_arguments (sym (unseen_all ps)) ∙ parse-unseen [] ps h
