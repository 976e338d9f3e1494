-- ===== src/Tables/Inverse.antt =====
-- The two directions of the tables of the entities and the items.
use Prim.Native.String.{String}
use je2be.Prelude.{◌≡◌, ◌↔◌, refl, subst, some, List, arith}
use je2be.Prelude.Int.{ℤ, pos, eqb_ℤ, leb_ℤ, ◌≤ℤ◌}
use je2be.Prelude.Equality.{Eq, string_eq, int_eq}
use je2be.Tables.ReversibleMap.{
  forward, backward, from_list, from_map, is_bijective, forward_iff_backward,
}
use je2be.Tables.Entities.{
  boat_table, frog_table, axolotl_table, cat_table, cat_table_java, cat_table_bedrock, panda_table,
  panda_gene_of_allele, panda_allele,
}
use je2be.Tables.Paintings.{painting_table}
use je2be.Tables.Items.{goat_horn_table, tipped_arrow_table, potion_table, enchantment_table}

module _ {A B : Type 0} ⦃ea : Eq A⦄ ⦃eb : Eq B⦄ where
  -- The two directions of the map of a table agree on a pair.
  abbrev pub Inverse : List (A × B) → A → B → Type 0
  Inverse t a b = (forward (from_list t) a ≡ some b) ↔ (backward (from_list t) b ≡ some a)

-- In the tables of boats, frogs, cats and pandas, a name stands for a number exactly when the
-- number stands for the name.
pub entity_names-Inverse :
    (s : String) (v : ℤ)
    → Inverse boat_table s v
      × Inverse frog_table s v
      × Inverse cat_table s v
      × Inverse cat_table_java s v
      × Inverse panda_table s v
unfolding is_bijective eqb_ℤ
entity_names-Inverse s v = (
  forward_iff_backward boat_table s v refl,
  forward_iff_backward frog_table s v refl,
  forward_iff_backward cat_table s v refl,
  forward_iff_backward cat_table_java s v refl,
  forward_iff_backward panda_table s v refl,
)

-- In the tables of axolotls and cats, a Java number stands for a Bedrock number exactly when the
-- Bedrock number stands for the Java number.
pub entity_numbers-Inverse : (j b : ℤ) → Inverse axolotl_table j b × Inverse cat_table_bedrock j b
unfolding is_bijective eqb_ℤ
entity_numbers-Inverse j b =
    (forward_iff_backward axolotl_table j b refl, forward_iff_backward cat_table_bedrock j b refl)

-- In the tables of goat horns, tipped arrows, potions and enchantments, a name stands for a number
-- exactly when the number stands for the name.
pub item_names-Inverse :
    (s : String) (v : ℤ)
    → Inverse goat_horn_table s v
      × Inverse tipped_arrow_table s v
      × Inverse potion_table s v
      × Inverse enchantment_table s v
unfolding is_bijective eqb_ℤ
item_names-Inverse s v = (
  forward_iff_backward goat_horn_table s v refl,
  forward_iff_backward tipped_arrow_table s v refl,
  forward_iff_backward potion_table s v refl,
  forward_iff_backward enchantment_table s v refl,
)

-- A Java name stands for a motive of a painting exactly when the motive stands for the name.
painting_names-Inverse :
    (s : String) (v : ℤ)
    → (forward (from_map painting_table) s ≡ some v)
      ↔ (backward (from_map painting_table) v ≡ some s)
unfolding is_bijective eqb_ℤ from_map from_list
painting_names-Inverse s v =
    subst (λ t. (forward t s ≡ some v) ↔ (backward t v ≡ some s)) same
      (forward_iff_backward painting_table s v refl)
  where
    same : from_list painting_table ≡ from_map painting_table
    same = refl

-- The allele that is chosen for one of the seven genes is read as that gene.
panda_gene_round_trip :
    (g : ℤ) → pos 0 ≤ℤ g → g ≤ℤ pos 6 → panda_gene_of_allele (panda_allele g) ≡ g
unfolding panda_gene_of_allele panda_allele eqb_ℤ leb_ℤ
panda_gene_round_trip g lo hi = ground arith
