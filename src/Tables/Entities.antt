-- ===== src/Tables/Entities.antt =====
-- The variants of entities: src/entity/_boat.hpp, _axolotl.hpp, _frog.hpp, _cat.hpp and
-- _panda.hpp. An `i32` is a signed integer, and an enum stands for its value.
use Prim.Native.String.{String}
use je2be.Prelude.{◌&&◌, List, [], ◌∷◌, if◌then◌else◌}
use je2be.Prelude.Int.{ℤ, pos, leb_ℤ, eqb_ℤ}
use je2be.Prelude.Equality.{string_eq, int_eq}
use je2be.Tables.ReversibleMap.{from_list, forward_or, backward_or}

abbrev pub boat_table : List (String × ℤ)
boat_table =
    ("oak", pos 0)
    ∷ ("spruce", pos 1)
    ∷ ("birch", pos 2)
    ∷ ("jungle", pos 3)
    ∷ ("acacia", pos 4)
    ∷ ("dark_oak", pos 5)
    ∷ ("mangrove", pos 6)
    ∷ ("bamboo", pos 7)
    ∷ []

unfoldable pub boat_variant : String → ℤ
unfolding forward_or from_list
boat_variant t = forward_or (from_list boat_table) t (pos 0)

unfoldable pub boat_type : ℤ → String
unfolding backward_or from_list
boat_type v = backward_or (from_list boat_table) v "oak"

abbrev pub axolotl_table : List (ℤ × ℤ)
axolotl_table =
    (pos 0, pos 0) ∷ (pos 1, pos 3) ∷ (pos 2, pos 2) ∷ (pos 3, pos 1) ∷ (pos 4, pos 4) ∷ []

unfoldable pub axolotl_bedrock : ℤ → ℤ
unfolding forward_or from_list
axolotl_bedrock v = forward_or (from_list axolotl_table) v (pos 0)

unfoldable pub axolotl_java : ℤ → ℤ
unfolding backward_or from_list
axolotl_java v = backward_or (from_list axolotl_table) v (pos 0)

abbrev pub frog_table : List (String × ℤ)
frog_table =
    ("minecraft:temperate", pos 0) ∷ ("minecraft:cold", pos 1) ∷ ("minecraft:warm", pos 2) ∷ []

unfoldable pub frog_bedrock : String → ℤ
unfolding forward_or from_list
frog_bedrock v = forward_or (from_list frog_table) v (pos 0)

unfoldable pub frog_java : ℤ → String
unfolding backward_or from_list
frog_java v = backward_or (from_list frog_table) v "minecraft:temperate"

-- `Cat::Type`.
abbrev pub cat_tabby : ℤ
cat_tabby = pos 0

abbrev pub cat_tuxedo : ℤ
cat_tuxedo = pos 1

abbrev pub cat_red : ℤ
cat_red = pos 2

abbrev pub cat_siamese : ℤ
cat_siamese = pos 3

abbrev pub cat_british : ℤ
cat_british = pos 4

abbrev pub cat_calico : ℤ
cat_calico = pos 5

abbrev pub cat_persian : ℤ
cat_persian = pos 6

abbrev pub cat_ragdoll : ℤ
cat_ragdoll = pos 7

abbrev pub cat_white : ℤ
cat_white = pos 8

abbrev pub cat_jellie : ℤ
cat_jellie = pos 9

abbrev pub cat_black : ℤ
cat_black = pos 10

abbrev pub cat_table_bedrock : List (ℤ × ℤ)
cat_table_bedrock =
    (cat_tabby, pos 8)
    ∷ (cat_tuxedo, pos 1)
    ∷ (cat_red, pos 2)
    ∷ (cat_siamese, pos 3)
    ∷ (cat_british, pos 4)
    ∷ (cat_calico, pos 5)
    ∷ (cat_persian, pos 6)
    ∷ (cat_ragdoll, pos 7)
    ∷ (cat_white, pos 0)
    ∷ (cat_jellie, pos 10)
    ∷ (cat_black, pos 9)
    ∷ []

abbrev pub cat_table : List (String × ℤ)
cat_table =
    ("tuxedo", cat_tuxedo)
    ∷ ("red", cat_red)
    ∷ ("siamese", cat_siamese)
    ∷ ("british", cat_british)
    ∷ ("calico", cat_calico)
    ∷ ("persian", cat_persian)
    ∷ ("ragdoll", cat_ragdoll)
    ∷ ("white", cat_white)
    ∷ ("jellie", cat_jellie)
    ∷ ("black", cat_black)
    ∷ ("tabby", cat_tabby)
    ∷ []

abbrev pub cat_table_java : List (String × ℤ)
cat_table_java =
    ("black", cat_tuxedo)
    ∷ ("red", cat_red)
    ∷ ("siamese", cat_siamese)
    ∷ ("british_shorthair", cat_british)
    ∷ ("calico", cat_calico)
    ∷ ("persian", cat_persian)
    ∷ ("ragdoll", cat_ragdoll)
    ∷ ("white", cat_white)
    ∷ ("jellie", cat_jellie)
    ∷ ("all_black", cat_black)
    ∷ ("tabby", cat_tabby)
    ∷ []

unfoldable pub cat_bedrock_variant : ℤ → ℤ
unfolding forward_or from_list
cat_bedrock_variant t = forward_or (from_list cat_table_bedrock) t (pos 8)

unfoldable pub cat_of_bedrock : ℤ → ℤ
unfolding backward_or from_list
cat_of_bedrock v = backward_or (from_list cat_table_bedrock) v cat_tabby

unfoldable pub cat_definition_key : ℤ → String
unfolding backward_or from_list
cat_definition_key t = backward_or (from_list cat_table) t "tabby"

unfoldable pub cat_of_java : String → ℤ
unfolding forward_or from_list
cat_of_java v = forward_or (from_list cat_table_java) v cat_tabby

unfoldable pub cat_java_variant : ℤ → String
unfolding backward_or from_list
cat_java_variant t = backward_or (from_list cat_table_java) t "tabby"

-- `Panda::Gene`.
abbrev pub panda_lazy : ℤ
panda_lazy = pos 0

abbrev pub panda_brown : ℤ
panda_brown = pos 1

abbrev pub panda_weak : ℤ
panda_weak = pos 2

abbrev pub panda_aggressive : ℤ
panda_aggressive = pos 3

abbrev pub panda_normal : ℤ
panda_normal = pos 4

abbrev pub panda_playful : ℤ
panda_playful = pos 5

abbrev pub panda_worried : ℤ
panda_worried = pos 6

abbrev pub panda_table : List (String × ℤ)
panda_table =
    ("lazy", panda_lazy)
    ∷ ("brown", panda_brown)
    ∷ ("weak", panda_weak)
    ∷ ("aggressive", panda_aggressive)
    ∷ ("normal", panda_normal)
    ∷ ("playful", panda_playful)
    ∷ ("worried", panda_worried)
    ∷ []

unfoldable pub panda_java_name : ℤ → String
unfolding backward_or from_list
panda_java_name g = backward_or (from_list panda_table) g "normal"

unfoldable pub panda_gene_of_java : String → ℤ
unfolding forward_or from_list
panda_gene_of_java n = forward_or (from_list panda_table) n panda_normal

unfoldable pub panda_gene_of_allele : ℤ → ℤ
panda_gene_of_allele a =
    if eqb_ℤ a (pos 0)
    then panda_lazy
    else if eqb_ℤ a (pos 1)
    then panda_worried
    else if eqb_ℤ a (pos 2)
    then panda_playful
    else if eqb_ℤ a (pos 3)
    then panda_aggressive
    else if leb_ℤ (pos 4) a && leb_ℤ a (pos 7)
    then panda_weak
    else if leb_ℤ (pos 8) a && leb_ℤ a (pos 9)
    then panda_brown
    else panda_normal

unfoldable pub panda_allele : ℤ → ℤ
panda_allele g =
    if eqb_ℤ g panda_lazy
    then pos 0
    else if eqb_ℤ g panda_worried
    then pos 1
    else if eqb_ℤ g panda_playful
    then pos 2
    else if eqb_ℤ g panda_aggressive
    then pos 3
    else if eqb_ℤ g panda_weak
    then pos 4
    else if eqb_ℤ g panda_brown
    then pos 8
    else pos 10
