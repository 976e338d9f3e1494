-- ===== src/Tests/Commands.antt =====
-- Target selectors: src/command/_target-selector.hpp.
use je2be.Prelude.{◌≡◌, ◌≢◌, refl, inl, inr, List, [], ◌∷◌, All, arith, false}
use Prim.Native.String.{String}
use text.Mathlib.Text.{◌==◌}
use text.Mathlib.TextEquality.{eq_iff}
use je2be.Commands.{Argument, simple_argument, dedicated_argument, ranged_number_argument, distance}
use je2be.Commands.{
  level, limit, Pair, bedrock, java, raw_arguments, parse_raw_arguments, parse_loop,
}
use je2be.Commands.{to_raw_argument}
use je2be.Commands.Pairs.{parse_loop-enough}
use je2be.Commands.Reading.{AreProper, reserved}
use je2be.Commands.RoundTrip.{
  parse_raw_arguments-raw_arguments, parse_raw_arguments_drops, first_of_each,
}
use je2be.Prelude.Sets.{has}

abbrev cows : List Argument
cows =
    simple_argument "type" "cow"
    ∷ ranged_number_argument distance "1" "5"
    ∷ dedicated_argument limit "3"
    ∷ ranged_number_argument level "" "7"
    ∷ []

cows_bedrock :
    raw_arguments bedrock cows
    ≡ ("type", "cow") ∷ ("rm", "1") ∷ ("r", "5") ∷ ("c", "3") ∷ ("l", "7") ∷ []
unfolding raw_arguments
cows_bedrock = refl

cows_java :
    raw_arguments java cows
    ≡ ("type", "cow") ∷ ("distance", "1..5") ∷ ("limit", "3") ∷ ("level", "..7") ∷ []
unfolding raw_arguments
cows_java = refl

cows_read : parse_raw_arguments (raw_arguments java cows) ≡ cows
unfolding raw_arguments parse_raw_arguments
cows_read = refl

filled : (s : String) → (s == "") ≡ false → s ≢ ""
filled s h e = ground (arith, h, (eq_iff s "").1 e)

cows-AreProper : AreProper cows
unfolding raw_arguments to_raw_argument
cows-AreProper = (
  (
    refl,
    (
      refl,
      (
        refl,
        (
          refl,
          (
            refl,
            (
              refl,
              (refl, (refl, (refl, (refl, (refl, (refl, (refl, (refl, (refl, (refl, tt)))))))))),
            ),
          ),
        ),
      ),
    ),
  ),
  ((refl, (refl, (refl, (refl, tt)))), tt),
  (
    inl (filled "1" refl),
    ((refl, (refl, tt)), ((refl, (refl, tt)), tt)),
    (tt, ((refl, tt), tt), (inr (filled "7" refl), (tt, (tt, tt)), tt)),
  ),
)

parse_raw_arguments-raw_arguments_example : parse_raw_arguments (raw_arguments bedrock cows) ≡ cows
parse_raw_arguments-raw_arguments_example = parse_raw_arguments-raw_arguments cows cows-AreProper

abbrev two_tags : List Pair
two_tags = ("tag", "a") ∷ ("tag", "b") ∷ []

parse_loop-enough_example : parse_loop 7 two_tags ≡ parse_raw_arguments two_tags
parse_loop-enough_example = parse_loop-enough 7 two_tags (omega arith)

tag_free : All (λ n. ("tag" == n) ≡ false) reserved
tag_free = (
  refl,
  (
    refl,
    (
      refl,
      (
        refl,
        (
          refl,
          (
            refl,
            (refl, (refl, (refl, (refl, (refl, (refl, (refl, (refl, (refl, (refl, tt)))))))))),
          ),
        ),
      ),
    ),
  ),
)

type_free : All (λ n. ("type" == n) ≡ false) reserved
type_free = (
  refl,
  (
    refl,
    (
      refl,
      (
        refl,
        (
          refl,
          (
            refl,
            (refl, (refl, (refl, (refl, (refl, (refl, (refl, (refl, (refl, (refl, tt)))))))))),
          ),
        ),
      ),
    ),
  ),
)

-- A second tag behind another key.
abbrev apart_tags : List Pair
apart_tags = ("tag", "a") ∷ ("type", "cow") ∷ ("tag", "b") ∷ []

parse_raw_arguments_drops_example : parse_raw_arguments apart_tags ≡ first_of_each [] apart_tags
parse_raw_arguments_drops_example =
    parse_raw_arguments_drops apart_tags (tag_free, (type_free, (tag_free, tt)))

first_of_each-apart :
    first_of_each [] apart_tags ≡ simple_argument "tag" "a" ∷ simple_argument "type" "cow" ∷ []
unfolding has
first_of_each-apart = refl

-- The second tag is lost.
two_tags_read : parse_raw_arguments two_tags ≡ simple_argument "tag" "a" ∷ []
unfolding parse_raw_arguments
two_tags_read = refl
