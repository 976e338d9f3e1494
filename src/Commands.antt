-- ===== src/Commands.antt =====
-- The arguments of a target selector, src/command/_target-selector.hpp: their names in the two
-- editions, and the pairs of a key and a value that the text between the brackets is cut into.
-- `ParseJava` never fails, so neither does `ParseRawArguments`.
pub mod Pairs
pub mod Reading
pub mod RoundTrip
use Prim.Native.String.{String, String.[], String.◌∷◌}
use text.Mathlib.Text.{◌==◌}
use package.je2be.Prelude.{ℕ, zero, suc, Bool, true, false, not, ◌&&◌, ◌||◌, Option, none, some}
use package.je2be.Prelude.{List, [], ◌∷◌, ◌++◌, length, if◌then◌else◌}
use package.je2be.Enums.Prefix.{has_prefix, skip, append}

pub data Mode : Type 0 where
  java bedrock : Mode

pub data DedicatedArgumentType : Type 0 where
  limit game_mode : DedicatedArgumentType

pub data NumberArgumentType : Type 0 where
  distance level x_rotation y_rotation : NumberArgumentType

-- `SimpleArgument`, `DedicatedArgument` and `RangedNumberArgument`.
pub data Argument : Type 0 where
  simple_argument : String → String → Argument
  dedicated_argument : DedicatedArgumentType → String → Argument
  ranged_number_argument : NumberArgumentType → String → String → Argument

abbrev pub Pair : Type 0
Pair = String × String

abbrev pub bedrock_min : NumberArgumentType → String
bedrock_min distance = "rm"
bedrock_min level = "lm"
bedrock_min x_rotation = "rxm"
bedrock_min y_rotation = "rym"

abbrev pub bedrock_max : NumberArgumentType → String
bedrock_max distance = "r"
bedrock_max level = "l"
bedrock_max x_rotation = "rx"
bedrock_max y_rotation = "ry"

abbrev pub java_name : NumberArgumentType → String
java_name distance = "distance"
java_name level = "level"
java_name x_rotation = "x_rotation"
java_name y_rotation = "y_rotation"

abbrev pub java_game_mode : String → String
java_game_mode v =
    if v == "0" || v == "s"
    then "survival"
    else if v == "1" || v == "c"
    then "creative"
    else if v == "2" || v == "a"
    then "adventure"
    else v

-- `toRawArgument`, as the pairs that it pushes.
unfoldable pub to_raw_argument : Mode → Argument → List Pair
unfolding append
to_raw_argument m (simple_argument k v) = (k, v) ∷ []
to_raw_argument bedrock (dedicated_argument limit v) = ("c", v) ∷ []
to_raw_argument java (dedicated_argument limit v) = ("limit", v) ∷ []
to_raw_argument bedrock (dedicated_argument game_mode v) = ("m", v) ∷ []
to_raw_argument java (dedicated_argument game_mode v) = ("gamemode", java_game_mode v) ∷ []
to_raw_argument bedrock (ranged_number_argument t min max) =
    (if min == "" then [] else (bedrock_min t, min) ∷ [])
    ++ (if max == "" then [] else (bedrock_max t, max) ∷ [])
to_raw_argument java (ranged_number_argument t min max) =
    if not (min == "") && not (max == "")
    then (if min == max
        then (java_name t, max) ∷ []
        else (java_name t, append min (append ".." max)) ∷ [])
    else if not (min == "")
    then (java_name t, append min "..") ∷ []
    else if not (max == "")
    then (java_name t, append ".." max) ∷ []
    else []

-- `value.find("..")`, with what stands before it and behind it.
unfoldable pub find_range : String → Option (String × String)
unfolding has_prefix skip
find_range String.[] = none
find_range (String.◌∷◌ c s) =
    let rest = find_range s in
    if has_prefix ".." (String.◌∷◌ c s)
    then some (String.[], skip 2 (String.◌∷◌ c s))
    else elim rest [ none ↦ none | some (a, b) ↦ some (String.◌∷◌ c a, b) ]

unfoldable pub parse_java : NumberArgumentType → String → Argument
unfolding find_range
parse_java t value = elim (find_range value) [
  | some (min, max) ↦ ranged_number_argument t min max
  | none ↦ ranged_number_argument t value value
]

-- `Erase` and `Get`.
unfoldable pub erase_key : String → List Pair → List Pair
erase_key k [] = []
erase_key k ((l, v) ∷ ps) = let rest = erase_key k ps in if l == k then rest else (l, v) ∷ rest

unfoldable pub get_key : String → List Pair → String
get_key k [] = ""
get_key k ((l, v) ∷ ps) = if l == k then v else get_key k ps

-- The argument for the first pair, and the pairs after the calls of `Erase` in its branch.
abbrev pub ranged : NumberArgumentType → List Pair → Argument × List Pair
ranged t args = (
  ranged_number_argument t (get_key (bedrock_min t) args) (get_key (bedrock_max t) args),
  erase_key (bedrock_min t) (erase_key (bedrock_max t) args),
)

unfoldable pub take_argument : String → String → List Pair → Argument × List Pair
unfolding parse_java erase_key get_key
take_argument k v args =
    if k == "distance"
    then (parse_java distance v, args)
    else if k == "r" || k == "rm"
    then ranged distance args
    else if k == "level"
    then (parse_java level v, args)
    else if k == "l" || k == "lm"
    then ranged level args
    else if k == "x_rotation"
    then (parse_java x_rotation v, args)
    else if k == "rx" || k == "rxm"
    then ranged x_rotation args
    else if k == "y_rotation"
    then (parse_java y_rotation v, args)
    else if k == "ry" || k == "rym"
    then ranged y_rotation args
    else if k == "gamemode" || k == "m"
    then (dedicated_argument game_mode v, args)
    else if k == "limit" || k == "c"
    then (dedicated_argument limit v, args)
    else (simple_argument k v, args)

-- `while (!args.empty())`, which erases at least the first pair: the arguments it pushes.
unfoldable pub parse_loop : ℕ → List Pair → List Argument
unfolding take_argument erase_key
parse_loop zero args = []
parse_loop (suc fuel) [] = []
parse_loop (suc fuel) ((k, v) ∷ ps) =
    let taken = take_argument k v ((k, v) ∷ ps) in taken.0 ∷ parse_loop fuel (erase_key k taken.1)

unfoldable pub parse_raw_arguments : List Pair → List Argument
unfolding parse_loop
parse_raw_arguments raw = parse_loop (length raw) raw

-- The pairs of all arguments, as `toString` collects them.
unfoldable pub raw_arguments : Mode → List Argument → List Pair
unfolding to_raw_argument
raw_arguments m [] = []
raw_arguments m (a ∷ args) = to_raw_argument m a ++ raw_arguments m args
