-- ===== src/Queue2d/Sweep.antt =====
-- The invariant rule of the two loops over a rectangle.
use je2be.Prelude.{ℕ, zero, suc, ◌≡◌, ◌≢◌, ◌⊎◌, inl, inr, ap, ◌∙◌, sym, refl, subst, Bool, arith}
use je2be.Prelude.Int.{
  ℤ, pos, pos_part, neg_part, ◌+ℤ◌, ◌≤ℤ◌, ◌<ℤ◌, +ℤ_parts, pos-parts, eqb_ℤ_cases,
}
use je2be.Geometry.Pos.{Pos2}
use je2be.Queue2d.{for_column, for_columns}

abbrev pub InColumn : ℤ → ℕ → ℤ → Pos2 → Type 0
InColumn x n z r = (r.x ≡ x) × (z ≤ℤ r.z) × (r.z <ℤ z +ℤ pos n)

abbrev pub InColumns : ℕ → ℤ → ℕ → ℤ → Pos2 → Type 0
InColumns n x m z r = (x ≤ℤ r.x) × (r.x <ℤ x +ℤ pos n) × (z ≤ℤ r.z) × (r.z <ℤ z +ℤ pos m)

module _ (x : ℤ) (n : ℕ) (z : ℤ) where
  column_first : InColumn x (suc n) z (record { x = x; z = z })
  column_first = (refl, omega arith, omega (arith, +ℤ_parts z (pos (suc n)), pos-parts (suc n)))

  column_split :
      (r : Pos2)
      → InColumn x (suc n) z r
      → (record { x = x; z = z } ≡ r) ⊎ InColumn x n (z +ℤ pos 1) r
  column_split r h = elim (eqb_ℤ_cases z r.z) [
    | inl e ↦ inl (λ i. record { x = sym h.0 i; z = e i })
    | inr ne ↦ inr (
      h.0,
      omega (arith, ne, h.1, +ℤ_parts z (pos 1), pos-parts 1),
      omega (
        arith,
        h.2,
        +ℤ_parts z (pos 1),
        pos-parts 1,
        +ℤ_parts z (pos (suc n)),
        +ℤ_parts (z +ℤ pos 1) (pos n),
        pos-parts (suc n),
        pos-parts n,
      ),
    )
  ]

  column_join :
      (r : Pos2)
      → (record { x = x; z = z } ≡ r) ⊎ InColumn x n (z +ℤ pos 1) r
      → InColumn x (suc n) z r
  column_join r (inl e) = subst (InColumn x (suc n) z) e column_first
  column_join r (inr h) = (
    h.0,
    omega (arith, h.1, +ℤ_parts z (pos 1), pos-parts 1),
    omega (
      arith,
      h.2,
      +ℤ_parts z (pos 1),
      pos-parts 1,
      +ℤ_parts z (pos (suc n)),
      +ℤ_parts (z +ℤ pos 1) (pos n),
      pos-parts (suc n),
      pos-parts n,
    ),
  )

  column_apart : (r : Pos2) → record { x = x; z = z } ≡ r → ¬ InColumn x n (z +ℤ pos 1) r
  column_apart r e h = omega (
    arith,
    h.1,
    ap (λ (p : Pos2). pos_part p.z) e,
    ap (λ (p : Pos2). neg_part p.z) e,
    +ℤ_parts z (pos 1),
    pos-parts 1,
  )

module _ (n : ℕ) (x : ℤ) (m : ℕ) (z : ℤ) where
  columns_split :
      (r : Pos2) → InColumns (suc n) x m z r → InColumn x m z r ⊎ InColumns n (x +ℤ pos 1) m z r
  columns_split r h = elim (eqb_ℤ_cases x r.x) [
    | inl e ↦ inl (sym e, h.2, h.3)
    | inr ne ↦ inr (
      omega (arith, ne, h.0, +ℤ_parts x (pos 1), pos-parts 1),
      omega (
        arith,
        h.1,
        +ℤ_parts x (pos 1),
        pos-parts 1,
        +ℤ_parts x (pos (suc n)),
        +ℤ_parts (x +ℤ pos 1) (pos n),
        pos-parts (suc n),
        pos-parts n,
      ),
      h.2,
      h.3,
    )
  ]

  columns_join :
      (r : Pos2) → InColumn x m z r ⊎ InColumns n (x +ℤ pos 1) m z r → InColumns (suc n) x m z r
  columns_join r (inl h) = (
    omega (arith, ap pos_part h.0, ap neg_part h.0),
    omega (arith, ap pos_part h.0, ap neg_part h.0, +ℤ_parts x (pos (suc n)), pos-parts (suc n)),
    h.1,
    h.2,
  )
  columns_join r (inr h) = (
    omega (arith, h.0, +ℤ_parts x (pos 1), pos-parts 1),
    omega (
      arith,
      h.1,
      +ℤ_parts x (pos 1),
      pos-parts 1,
      +ℤ_parts x (pos (suc n)),
      +ℤ_parts (x +ℤ pos 1) (pos n),
      pos-parts (suc n),
      pos-parts n,
    ),
    h.2,
    h.3,
  )

  columns_apart : (r : Pos2) → InColumn x m z r → ¬ InColumns n (x +ℤ pos 1) m z r
  columns_apart r h g =
      omega (arith, g.0, ap pos_part h.0, ap neg_part h.0, +ℤ_parts x (pos 1), pos-parts 1)

-- How a step acts on what is seen of the state: at cells of `Domain` it writes `value` to its own
-- cell and leaves the others, as long as its cell is `Allowed`.
pub record Writes {ℓ} {S : Type ℓ} (Good : S → Type 0) (see : S → Pos2 → Bool) (step : S → Pos2 → S)
    (value : Bool) (Domain Allowed : Pos2 → Type 0) : Type ℓ where
  pub keep : (s : S) (p : Pos2) → Good s → Allowed p → Good (step s p)
  pub hit : (s : S) (p : Pos2) → Good s → Allowed p → Domain p → see (step s p) p ≡ value
  pub miss :
      (s : S) (p r : Pos2) → Good s → Allowed p → Domain r → p ≢ r → see (step s p) r ≡ see s r

module _ {ℓ} {S : Type ℓ} {Good : S → Type 0} {see : S → Pos2 → Bool} {step : S → Pos2 → S}
    {value : Bool} {Domain Allowed : Pos2 → Type 0}
    (writes : Writes Good see step value Domain Allowed) where
  pub record Swept (P : Pos2 → Type 0) (s t : S) : Type 0 where
    pub good : Good t
    pub inside : (r : Pos2) → Domain r → P r → see t r ≡ value
    pub outside : (r : Pos2) → Domain r → ¬ P r → see t r ≡ see s r

  compose :
      (P Q R : Pos2 → Type 0) {s t u : S}
      → Swept P s t
      → Swept Q t u
      → ((r : Pos2) → R r → P r ⊎ Q r)
      → ((r : Pos2) → P r ⊎ Q r → R r)
      → ((r : Pos2) → P r → ¬ Q r)
      → Swept R s u
  compose P Q R a b split join apart = record {
    good = b.good;
    inside = λ r d h. elim (split r h) [
      | inl first ↦ b.outside r d (apart r first) ∙ a.inside r d first
      | inr second ↦ b.inside r d second
    ];
    outside =
        λ r d h. b.outside r d (λ q. h (join r (inr q))) ∙ a.outside r d (λ p. h (join r (inl p)));
  }

  step-Swept : (s : S) (p : Pos2) → Good s → Allowed p → Swept (λ r. p ≡ r) s (step s p)
  step-Swept s p g a = record {
    good = writes.keep s p g a;
    inside = λ r d e. subst (λ r. Domain r → see (step s p) r ≡ value) e (writes.hit s p g a) d;
    outside = λ r d ne. writes.miss s p r g a d ne;
  }

  for_column-Swept :
      (s : S) (x : ℤ) (n : ℕ) (z : ℤ)
      → Good s
      → ((r : Pos2) → InColumn x n z r → Allowed r)
      → Swept (InColumn x n z) s (for_column step s x n z)
  unfolding for_column
  for_column-Swept s x zero z g a = record {
    good = g;
    inside = λ r d h. absurd (omega (arith, h.1, h.2, +ℤ_parts z (pos 0), pos-parts 0));
    outside = λ r d h. refl;
  }
  for_column-Swept s x (suc n) z g a =
      let p : Pos2 = record { x = x; z = z } in
      let one = step-Swept s p g (a p (column_first x n z)) in
      compose (λ r. p ≡ r) (InColumn x n (z +ℤ pos 1)) (InColumn x (suc n) z) one
        (for_column-Swept (step s p) x n (z +ℤ pos 1) one.good
          (λ r h. a r (column_join x n z r (inr h))))
        (column_split x n z) (column_join x n z) (column_apart x n z)

  pub for_columns-Swept :
      (s : S) (n : ℕ) (x : ℤ) (m : ℕ) (z : ℤ)
      → Good s
      → ((r : Pos2) → InColumns n x m z r → Allowed r)
      → Swept (InColumns n x m z) s (for_columns step s n x m z)
  unfolding for_columns
  for_columns-Swept s zero x m z g a = record {
    good = g;
    inside = λ r d h. absurd (omega (arith, h.0, h.1, +ℤ_parts x (pos 0), pos-parts 0));
    outside = λ r d h. refl;
  }
  for_columns-Swept s (suc n) x m z g a =
      let one = for_column-Swept s x m z g (λ r h. a r (columns_join n x m z r (inl h))) in
      compose (InColumn x m z) (InColumns n (x +ℤ pos 1) m z) (InColumns (suc n) x m z) one
        (for_columns-Swept (for_column step s x m z) n (x +ℤ pos 1) m z one.good
          (λ r h. a r (columns_join n x m z r (inr h))))
        (columns_split n x m z) (columns_join n x m z) (columns_apart n x m z)
