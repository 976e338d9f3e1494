-- ===== src/Commands/Reading.antt =====
-- What one round of `ParseRawArguments` reads, by the key that it starts at.
use Prim.Native.String.{String}
use text.Mathlib.Text.{◌==◌}
use je2be.Prelude.{◌≡◌, ◌≢◌, refl, ap, sym, subst, ◌∙◌, ◌⊎◌, false}
use je2be.Prelude.{List, [], ◌∷◌, All}
use je2be.Commands.{Pair, Argument, ranged, simple_argument, dedicated_argument, erase_key, get_key}
use je2be.Commands.{
  ranged_number_argument, NumberArgumentType, distance, level, x_rotation, y_rotation,
}
use je2be.Commands.{DedicatedArgumentType, limit, game_mode, bedrock, raw_arguments}
use je2be.Commands.{take_argument, parse_raw_arguments, bedrock_min, bedrock_max}
use je2be.Commands.Pairs.{Lacks, erase_key-Lacks, erase_key_same}
use je2be.Commands.Pairs.{parse_raw_arguments-cons}

abbrev pub reserved : List String
reserved =
    "distance" ∷ "r" ∷ "rm" ∷ "level" ∷ "l" ∷ "lm" ∷ "x_rotation" ∷ "rx" ∷ "rxm" ∷ "y_rotation"
    ∷ "ry" ∷ "rym" ∷ "gamemode" ∷ "m" ∷ "limit" ∷ "c" ∷ []

-- The keys under which an argument may stand in the Bedrock edition.
abbrev pub names : Argument → List String
names (simple_argument k v) = k ∷ []
names (dedicated_argument limit v) = "c" ∷ []
names (dedicated_argument game_mode v) = "m" ∷ []
names (ranged_number_argument t min max) = bedrock_min t ∷ bedrock_max t ∷ []

-- A simple argument has no name of another kind, and a range is not empty on both sides.
abbrev pub IsProper : Argument → Type 0
IsProper (simple_argument k v) = All (λ n. (k == n) ≡ false) reserved
IsProper (dedicated_argument t v) = Unit
IsProper (ranged_number_argument t min max) = (min ≢ "") ⊎ (max ≢ "")

-- Each argument is proper, and those behind it have other names.
abbrev pub AreProper : List Argument → Type 0
AreProper [] = Unit
AreProper (a ∷ l) =
    IsProper a × All (λ n. Lacks n (raw_arguments bedrock l)) (names a) × AreProper l

pub take_min :
    (t : NumberArgumentType) (v : String) (ps : List Pair)
    → take_argument (bedrock_min t) v ps ≡ ranged t ps
unfolding take_argument
take_min distance v ps = refl
take_min level v ps = refl
take_min x_rotation v ps = refl
take_min y_rotation v ps = refl

pub take_max :
    (t : NumberArgumentType) (v : String) (ps : List Pair)
    → take_argument (bedrock_max t) v ps ≡ ranged t ps
unfolding take_argument
take_max distance v ps = refl
take_max level v ps = refl
take_max x_rotation v ps = refl
take_max y_rotation v ps = refl

pub min≢max : (t : NumberArgumentType) → (bedrock_max t == bedrock_min t) ≡ false
min≢max distance = refl
min≢max level = refl
min≢max x_rotation = refl
min≢max y_rotation = refl

pub max≢min : (t : NumberArgumentType) → (bedrock_min t == bedrock_max t) ≡ false
max≢min distance = refl
max≢min level = refl
max≢min x_rotation = refl
max≢min y_rotation = refl

pub take_simple :
    (k v : String) (ps : List Pair)
    → All (λ n. (k == n) ≡ false) reserved
    → take_argument k v ps ≡ (simple_argument k v, ps)
unfolding take_argument
take_simple k v ps
      (d, (r, (rm, (l, (a, (lm, (x, (rx, (rxm, (y, (ry, (rym, (g, (m, (i, (c, u)))))))))))))))) =
    rw (d, r, rm, l, a, lm, x, rx, rxm, y, ry, rym, g, m, i, c) refl

pub parse-simple :
    (k v : String) (ps : List Pair)
    → IsProper (simple_argument k v)
    → Lacks k ps
    → parse_raw_arguments ((k, v) ∷ ps) ≡ simple_argument k v ∷ parse_raw_arguments ps
parse-simple k v ps h g =
    parse_raw_arguments-cons k v ps
    ∙ subst
        (λ c.
          c.0 ∷ parse_raw_arguments (erase_key k c.1)
          ≡ simple_argument k v ∷ parse_raw_arguments ps)
        (sym (take_simple k v ((k, v) ∷ ps) h))
        (ap (λ r. simple_argument k v ∷ parse_raw_arguments r)
          (erase_key_same k v ps ∙ erase_key-Lacks k ps g))

pub parse-dedicated :
    (t : DedicatedArgumentType) (k v : String) (ps : List Pair)
    → ((l : List Pair) → take_argument k v l ≡ (dedicated_argument t v, l))
    → Lacks k ps
    → parse_raw_arguments ((k, v) ∷ ps) ≡ dedicated_argument t v ∷ parse_raw_arguments ps
parse-dedicated t k v ps h g =
    parse_raw_arguments-cons k v ps
    ∙ subst
        (λ c.
          c.0 ∷ parse_raw_arguments (erase_key k c.1)
          ≡ dedicated_argument t v ∷ parse_raw_arguments ps)
        (sym (h ((k, v) ∷ ps)))
        (ap (λ r. dedicated_argument t v ∷ parse_raw_arguments r)
          (erase_key_same k v ps ∙ erase_key-Lacks k ps g))

-- A round at a key of a range, from what `Get` and `Erase` give.
pub parse-ranged :
    (t : NumberArgumentType) (k v : String) (ps rest : List Pair) (min max : String)
    → take_argument k v ((k, v) ∷ ps) ≡ ranged t ((k, v) ∷ ps)
    → get_key (bedrock_min t) ((k, v) ∷ ps) ≡ min
    → get_key (bedrock_max t) ((k, v) ∷ ps) ≡ max
    → erase_key k (ranged t ((k, v) ∷ ps)).1 ≡ rest
    → parse_raw_arguments ((k, v) ∷ ps)
      ≡ ranged_number_argument t min max ∷ parse_raw_arguments rest
parse-ranged t k v ps rest min max h a b c =
    parse_raw_arguments-cons k v ps
    ∙ subst
        (λ d.
          d.0 ∷ parse_raw_arguments (erase_key k d.1)
          ≡ ranged_number_argument t min max ∷ parse_raw_arguments rest)
        (sym h) (λ i. ranged_number_argument t (a i) (b i) ∷ parse_raw_arguments (c i))
