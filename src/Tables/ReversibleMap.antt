-- ===== src/Tables/ReversibleMap.antt =====
-- src/_reversible-map.hpp and src/_static-reversible-map.hpp. A hash map is an association list
-- without repeated keys, in which `m[k] = v` replaces or adds an entry.
use je2be.Prelude.{◌≡◌, ◌↔◌, refl, ◌∙◌, Bool, true, not, ◌&&◌}
use je2be.Prelude.{Option, none, some, List, [], ◌∷◌, if◌then◌else◌, arith}
use je2be.Prelude.Equality.{Eq}

module _ {A B : Type 0} ⦃e : Eq A⦄ where
  unfoldable pub find : A → List (A × B) → Option B
  find a [] = none
  find a ((k, v) ∷ m) = if e.beq k a then some v else find a m

  unfoldable pub insert : A → B → List (A × B) → List (A × B)
  insert a b [] = (a, b) ∷ []
  insert a b ((k, v) ∷ m) = if e.beq k a then (k, b) ∷ m else (k, v) ∷ insert a b m

  pub find-insert :
      (a a' : A) (b : B) (m : List (A × B))
      → find a' (insert a b m) ≡ (if e.beq a a' then some b else find a' m)
  unfolding find insert
  find-insert a a' b [] = refl
  find-insert a a' b ((k, v) ∷ m) =
      ground (arith, e.beq_iff a a', e.beq_iff k a, e.beq_iff k a', find-insert a a' b m)

pub record ReversibleMap (A B : Type 0) : Type 0 where
  pub forward_table : List (A × B)
  pub backward_table : List (B × A)

module _ {A B : Type 0} ⦃ea : Eq A⦄ ⦃eb : Eq B⦄ where
  -- The loop of the constructor.
  unfoldable pub fill : ReversibleMap A B → List (A × B) → ReversibleMap A B
  unfolding insert
  fill m [] = m
  fill m ((a, b) ∷ l) =
      fill
        (record {
          forward_table = insert a b m.forward_table;
          backward_table = insert b a m.backward_table;
        })
        l

  unfoldable pub from_list : List (A × B) → ReversibleMap A B
  unfolding fill
  from_list l = fill (record { forward_table = []; backward_table = [] }) l

  -- The constructor from a hash map, whose entries come in the order of its iteration.
  unfoldable pub fill_backward : List (B × A) → List (A × B) → List (B × A)
  unfolding insert
  fill_backward m [] = m
  fill_backward m ((a, b) ∷ l) = fill_backward (insert b a m) l

  unfoldable pub from_map : List (A × B) → ReversibleMap A B
  unfolding fill_backward
  from_map l = record { forward_table = l; backward_table = fill_backward [] l }

  unfoldable pub forward : ReversibleMap A B → A → Option B
  unfolding find
  forward m a = find a m.forward_table

  unfoldable pub backward : ReversibleMap A B → B → Option A
  unfolding find
  backward m b = find b m.backward_table

  -- `StaticReversibleMap::Forward` and `Backward`, over the table that the class creates.
  unfoldable pub forward_or : ReversibleMap A B → A → B → B
  unfolding forward
  forward_or m a default = elim (forward m a) [ none ↦ default | some b ↦ b ]

  unfoldable pub backward_or : ReversibleMap A B → B → A → A
  unfolding backward
  backward_or m b default = elim (backward m b) [ none ↦ default | some a ↦ a ]

  -- Neither a key nor a value of the list is that of the entry.
  unfoldable pub is_new : A → B → List (A × B) → Bool
  is_new a b [] = true
  is_new a b ((a', b') ∷ l) = not (ea.beq a a') && (not (eb.beq b b') && is_new a b l)

  -- No key and no value stands twice in the list.
  unfoldable pub is_bijective : List (A × B) → Bool
  unfolding is_new
  is_bijective [] = true
  is_bijective ((a, b) ∷ l) = is_new a b l && is_bijective l

  -- The two tables say the same.
  abbrev Agree : ReversibleMap A B → Type 0
  Agree m = (a : A) (b : B) → (forward m a ≡ some b) ↔ (backward m b ≡ some a)

  -- Neither table has an entry of the list.
  abbrev Fresh : ReversibleMap A B → List (A × B) → Type 0
  Fresh m [] = Unit
  Fresh m ((a, b) ∷ l) = (forward m a ≡ none) × (backward m b ≡ none) × Fresh m l

  abbrev added : A → B → ReversibleMap A B → ReversibleMap A B
  added a b m = record {
    forward_table = insert a b m.forward_table;
    backward_table = insert b a m.backward_table;
  }

  added-Agree :
      (a : A) (b : B) (m : ReversibleMap A B)
      → Agree m
      → forward m a ≡ none
      → backward m b ≡ none
      → Agree (added a b m)
  unfolding forward backward
  added-Agree a b m agree fa fb x y =
      let f = find-insert a x b m.forward_table in
      let g = find-insert b y a m.backward_table in
      let both = agree x y in
      (
        ground (arith, f, g, both, ea.beq_iff a x, eb.beq_iff b y),
        ground (arith, f, g, both, ea.beq_iff a x, eb.beq_iff b y),
      )

  added-Fresh :
      (a : A) (b : B) (m : ReversibleMap A B) (l : List (A × B))
      → is_new a b l ≡ true
      → Fresh m l
      → Fresh (added a b m) l
  unfolding is_new forward backward
  added-Fresh a b m [] n f = tt
  added-Fresh a b m ((x, y) ∷ l) n f =
      let rest = added-Fresh a b m l in
      (
        find-insert a x b m.forward_table ∙ ground arith,
        find-insert b y a m.backward_table ∙ ground arith,
        rest (ground arith) f.2,
      )

  fill-Agree :
      (m : ReversibleMap A B) (l : List (A × B))
      → Agree m
      → Fresh m l
      → is_bijective l ≡ true
      → Agree (fill m l)
  unfolding fill is_bijective
  fill-Agree m [] agree f b = agree
  fill-Agree m ((x, y) ∷ l) agree f b =
      fill-Agree (added x y m) l (added-Agree x y m agree f.0 f.1)
        (added-Fresh x y m l (ground arith) f.2) (ground arith)

  empty-Fresh : (l : List (A × B)) → Fresh (record { forward_table = []; backward_table = [] }) l
  unfolding forward backward
  empty-Fresh [] = tt
  empty-Fresh ((a, b) ∷ l) = (refl, refl, empty-Fresh l)

  empty-Agree : Agree (record { forward_table = []; backward_table = [] })
  unfolding forward backward
  empty-Agree a b = (ground arith, ground arith)

  -- For a list in which no key and no value stands twice, the two directions of the map are
  -- inverse: `forward` takes `a` to `b` exactly when `backward` takes `b` to `a`.
  pub forward_iff_backward :
      (l : List (A × B)) (a : A) (b : B)
      → is_bijective l ≡ true
      → (forward (from_list l) a ≡ some b) ↔ (backward (from_list l) b ≡ some a)
  unfolding from_list
  forward_iff_backward l a b h =
      fill-Agree (record { forward_table = []; backward_table = [] }) l empty-Agree (empty-Fresh l)
        h a b
