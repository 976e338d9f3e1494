-- ===== src/Portals/Lookup.antt =====
-- `lookupCorner` of src/tobe/portal/_oriented-portal-blocks.hpp: the rectangle it walks over.
use je2be.Prelude.{ℕ, zero, suc, ◌+◌, ◌*◌, ◌≤◌, ◌<◌, ◌≡◌, refl, ap, ◌↔◌, inl, inr}
use je2be.Prelude.{subst, sym, ◌∙◌, ℕ_discrete, true, false, Bool-cases, List, length, arith}
use je2be.Prelude.Sets.{has, Has, distinct-le-length}
use je2be.Geometry.Pos.{Pos3, pos3_eq}
use je2be.Portals.{Direction, Corner, expand, vertical_cell, horizontal_cell, expand_vertical}
use je2be.Portals.{expand_horizontal, taller, wider, lookup_loop, position}
use je2be.Portals.{lookup_corner}
use je2be.Portals.Directions.{cell, corner, step_ℤ, corner_start, Walks}

expand_iff :
    (s : List Pos3) (f : ℕ → Pos3) (i n : ℕ)
    → (expand s f i n ≡ true) ↔ ((k : ℕ) → i ≤ k → k < i + n → Has s (f k))
unfolding expand
expand_iff s f i zero = (λ h k a b. ground arith, λ h. refl)
expand_iff s f i (suc n) = elim (Bool-cases (has (f i) s)) [
  | inl e ↦
      let ih = expand_iff s f (suc i) n in
      rw (e, expand)
        (
          λ h k a b. elim (ℕ_discrete i k) [
            | yes same ↦ subst (λ m. Has s (f m)) same e
            | no apart ↦ ih.0 h k (omega arith) (omega arith)
          ],
          λ h. ih.1 (λ k a b. h k (omega arith) (omega arith)),
        )
  | inr e ↦ rw (e, expand) (λ h k a b. ground arith, λ h. cc (e, h i (omega arith) (omega arith)))
]

module _ (s : List Pos3) (d : Direction) (p : Pos3) where
  abbrev pub Filled : ℕ → ℕ → Type 0
  Filled w h = (i j : ℕ) → i ≤ w → j ≤ h → Has s (cell d p i j)

  -- The cells from `p` to `q` are all in the set, and neither the next row nor the next column is.
  pub record Rectangle (q : Pos3) : Type 0 where
    pub w : ℕ
    pub h : ℕ
    pub ends : q ≡ cell d p w h
    pub filled : Filled w h
    pub row_ends : ¬ ((i : ℕ) → i ≤ w → Has s (cell d p i (suc h)))
    pub column_ends : ¬ ((j : ℕ) → j ≤ h → Has s (cell d p (suc w) j))

  expand_vertical_iff :
      (w h : ℕ)
      → (expand_vertical s d p (corner d p w h) ≡ true)
        ↔ ((i : ℕ) → i ≤ w → Has s (cell d p i (suc h)))
  unfolding expand_vertical
  expand_vertical_iff w h = (
    λ e i b. subst (λ c. Has s c) (same i) (all.0 e i (omega arith) (omega arith)),
    λ e. all.1 (λ k a b. subst (λ c. Has s c) (sym (same k)) (e k (omega arith))),
  )
    where
      all :
          (expand s (vertical_cell d p (corner d p w h)) 0 (suc w) ≡ true)
          ↔ ((k : ℕ) → 0 ≤ k → k < 0 + suc w → Has s (vertical_cell d p (corner d p w h) k))
      all = expand_iff s (vertical_cell d p (corner d p w h)) 0 (suc w)

      same : (i : ℕ) → vertical_cell d p (corner d p w h) i ≡ cell d p i (suc h)
      same i = rw (step_ℤ p.y d.dy h) refl

  expand_horizontal_iff :
      (w h : ℕ)
      → (expand_horizontal s d p (corner d p w h) ≡ true)
        ↔ ((j : ℕ) → j ≤ h → Has s (cell d p (suc w) j))
  unfolding expand_horizontal
  expand_horizontal_iff w h = (
    λ e j b. subst (λ c. Has s c) (same j) (all.0 e j (omega arith) (omega arith)),
    λ e. all.1 (λ k a b. subst (λ c. Has s c) (sym (same k)) (e k (omega arith))),
  )
    where
      all :
          (expand s (horizontal_cell d p (corner d p w h)) 0 (suc h) ≡ true)
          ↔ ((k : ℕ) → 0 ≤ k → k < 0 + suc h → Has s (horizontal_cell d p (corner d p w h) k))
      all = expand_iff s (horizontal_cell d p (corner d p w h)) 0 (suc h)

      same : (j : ℕ) → horizontal_cell d p (corner d p w h) j ≡ cell d p (suc w) j
      same j = rw (step_ℤ p.x d.dx w, step_ℤ p.z d.dz w) refl

  taller-corner : (w h : ℕ) → taller d (corner d p w h) ≡ corner d p w (suc h)
  taller-corner w h = rw (step_ℤ p.y d.dy h) refl

  wider-corner : (w h : ℕ) → wider d (corner d p w h) ≡ corner d p (suc w) h
  wider-corner w h = rw (step_ℤ p.x d.dx w, step_ℤ p.z d.dz w) refl

  Filled-taller :
      (w h : ℕ) → Filled w h → ((i : ℕ) → i ≤ w → Has s (cell d p i (suc h))) → Filled w (suc h)
  Filled-taller w h f row i j a b = elim (ℕ_discrete j (suc h)) [
    | yes e ↦ rw e (row i a)
    | no ne ↦ f i j a (omega (arith, ne))
  ]

  Filled-wider :
      (w h : ℕ) → Filled w h → ((j : ℕ) → j ≤ h → Has s (cell d p (suc w) j)) → Filled (suc w) h
  Filled-wider w h f column i j a b = elim (ℕ_discrete i (suc w)) [
    | yes e ↦ rw e (column j b)
    | no ne ↦ f i j (omega (arith, ne)) b
  ]

  Filled-lt : Walks d → (w h : ℕ) → Filled w h → (w < length s) × (h < length s)
  Filled-lt walks w h f = (
    distinct-le-length (suc w) (λ i. cell d p i 0) s (λ i j a b. walks.aside p i j)
        (λ i a. f i 0 (omega arith) (omega arith)),
    distinct-le-length (suc h) (λ j. cell d p 0 j) s (λ i j a b. walks.up p i j)
        (λ j a. f 0 j (omega arith) (omega arith)),
  )

  abbrev after : ℕ → ℕ → ℕ → Corner
  after fuel w h = lookup_loop fuel s d p (corner d p w h)

  -- The rounds of the loop by what expands.
  loop_ends :
      (fuel w h : ℕ)
      → expand_vertical s d p (corner d p w h) ≡ false
      → expand_horizontal s d p (corner d p w h) ≡ false
      → after (suc fuel) w h ≡ corner d p w h
  unfolding lookup_loop
  loop_ends fuel w h v g = rw (v, g) refl

  loop_widens :
      (fuel w h : ℕ)
      → expand_vertical s d p (corner d p w h) ≡ false
      → expand_horizontal s d p (corner d p w h) ≡ true
      → after (suc fuel) w h ≡ after fuel (suc w) h
  unfolding lookup_loop
  loop_widens fuel w h v g = rw (v, g) (ap (lookup_loop fuel s d p) (wider-corner w h))

  loop_rises :
      (fuel w h : ℕ)
      → expand_vertical s d p (corner d p w h) ≡ true
      → expand_horizontal s d p (corner d p w (suc h)) ≡ false
      → after (suc fuel) w h ≡ after fuel w (suc h)
  unfolding lookup_loop
  loop_rises fuel w h v g =
      let g' = ap (expand_horizontal s d p) (taller-corner w h) ∙ g in
      rw (v, g') (ap (lookup_loop fuel s d p) (taller-corner w h))

  loop_grows :
      (fuel w h : ℕ)
      → expand_vertical s d p (corner d p w h) ≡ true
      → expand_horizontal s d p (corner d p w (suc h)) ≡ true
      → after (suc fuel) w h ≡ after fuel (suc w) (suc h)
  unfolding lookup_loop
  loop_grows fuel w h v g =
      let g' = ap (expand_horizontal s d p) (taller-corner w h) ∙ g in
      rw (v, g')
        (ap (λ c. lookup_loop fuel s d p (wider d c)) (taller-corner w h)
          ∙ ap (lookup_loop fuel s d p) (wider-corner w (suc h)))

  lookup_loop-Rectangle :
      Walks d
      → (fuel w h : ℕ) → Filled w h
      → 2 * length s ≤ w + h + fuel
      → Rectangle (position (lookup_loop fuel s d p (corner d p w h)))
  lookup_loop-Rectangle walks zero w h f b = absurd (omega (arith, Filled-lt walks w h f, b))
  lookup_loop-Rectangle walks (suc fuel) w h f b =
      elim (Bool-cases (expand_vertical s d p (corner d p w h))) [
        | inl v ↦
            let f1 = Filled-taller w h f ((expand_vertical_iff w h).0 v) in
            elim (Bool-cases (expand_horizontal s d p (corner d p w (suc h)))) [
              | inl g ↦
                  let f2 = Filled-wider w (suc h) f1 ((expand_horizontal_iff w (suc h)).0 g) in
                  subst (λ c. Rectangle (position c)) (sym (loop_grows fuel w h v g))
                    (lookup_loop-Rectangle walks fuel (suc w) (suc h) f2 (omega arith))
              | inr g ↦
                  subst (λ c. Rectangle (position c)) (sym (loop_rises fuel w h v g))
                    (lookup_loop-Rectangle walks fuel w (suc h) f1 (omega arith))
            ]
        | inr v ↦ elim (Bool-cases (expand_horizontal s d p (corner d p w h))) [
          | inl g ↦
              let f1 = Filled-wider w h f ((expand_horizontal_iff w h).0 g) in
              subst (λ c. Rectangle (position c)) (sym (loop_widens fuel w h v g))
                (lookup_loop-Rectangle walks fuel (suc w) h f1 (omega arith))
          | inr g ↦ record {
            w = w;
            h = h;
            ends = ap position (loop_ends fuel w h v g);
            filled = f;
            row_ends = λ k. cc (v, (expand_vertical_iff w h).1 k);
            column_ends = λ k. cc (g, (expand_horizontal_iff w h).1 k);
          }
        ]
      ]

  -- In a direction whose steps lead to different cells, from a block of the set, the search ends at
  -- a corner such that the cells of the rectangle between the two are all in the set, and neither
  -- those of the next row nor those of the next column all are.
  pub lookup_corner-Rectangle : Walks d → Has s p → Rectangle (lookup_corner s d p)
  unfolding lookup_corner
  lookup_corner-Rectangle walks here =
      subst (λ c. Rectangle (position (lookup_loop (2 * length s) s d p c))) (corner_start d p)
        (lookup_loop-Rectangle walks (2 * length s) 0 0 only (omega arith))
    where
      only : Filled 0 0
      only zero zero a b = subst (λ q. Has s q) (sym (ap position (corner_start d p))) here
      only zero (suc j) a b = absurd (omega arith)
      only (suc i) j a b = absurd (omega arith)
