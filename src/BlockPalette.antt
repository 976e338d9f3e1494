-- ===== src/BlockPalette.antt =====
-- src/tobe/_block-palette.hpp: the blocks of a section as indices into a palette. A tag is a value
-- of a type with an equality test, `equals`; an index is a `u16`. An index outside a vector, which
-- C++ leaves undefined, changes nothing.
pub mod Cells
use package.je2be.Prelude.{ℕ, zero, suc, ◌%◌, ◌^◌, ◌==◌, List, [], ◌∷◌, ◌++◌, Option, none, some}
use package.je2be.Prelude.{true, false, length, get_elem?, replicate, if◌then◌else◌}
use package.je2be.Prelude as Lists
use package.je2be.Prelude.Equality.{Eq}

pub record BlockPalette (A : Type 0) : Type 0 where
  pub palette : List A
  pub indices : List ℕ

-- `std::count`.
unfoldable pub count : ℕ → List ℕ → ℕ
count a [] = 0
count a (x ∷ xs) = if x == a then suc (count a xs) else count a xs

module _ {A : Type 0} where
  unfoldable pub create : BlockPalette A
  create = record { palette = []; indices = replicate 4096 0 }

  unfoldable pub append : BlockPalette A → A → BlockPalette A
  append p tag = record p { palette = p.palette ++ tag ∷ [] }

module _ {A : Type 0} ⦃e : Eq A⦄ where
  -- The loop that looks for `tag`, from index `i` on.
  unfoldable pub find_from : ℕ → A → List A → Option ℕ
  find_from i tag [] = none
  find_from i tag (x ∷ xs) = elim (e.beq x tag) [ true ↦ some i | false ↦ find_from (suc i) tag xs ]

  unfoldable pub set : BlockPalette A → ℕ → A → BlockPalette A
  unfolding count find_from
  set p idx tag = elim (get_elem? p.indices idx) [
    | none ↦ p
    | some current ↦ elim (count current p.indices == 1) [
      | true ↦ record p { palette = Lists.set p.palette current tag }
      | false ↦ elim (find_from 0 tag p.palette) [
        | none ↦ record {
          palette = p.palette ++ tag ∷ [];
          indices = Lists.set p.indices idx (length p.palette % 2 ^ 16);
        }
        | some found ↦ record p { indices = Lists.set p.indices idx (found % 2 ^ 16) }
      ]
    ]
  ]
