-- ===== src/Lighting/Diffuse/Rounds.antt =====
-- One round of `DiffuseLight`: every position of every limit is visited.
use je2be.Prelude.{◌≡◌, sym, subst, ◌∙◌}
use je2be.Prelude.{true, All, List, [], ◌∷◌, map, arith, ◌+◌, ◌≤◌}
use je2be.Prelude.Int.{ℤ}
use je2be.Prelude.Loops.{for_range, concat_map, In, In-map, In-concat_map, In-for_range}
use je2be.Prelude.Loops.{All-concat_map, All-map, All-imply, for_range-All}
use je2be.Geometry.Pos.{Pos3}
use je2be.Geometry.Volume.{Volume}
use je2be.Geometry.Volume.Boxes.{Inside}
use je2be.Enums.Facing6.{Facing6}
use je2be.Lighting.Diffuse.{Models, Levels, Lights, neighbor, passes, in_limit}
use je2be.Lighting.Diffuse.{positions, diffuse_at, diffuse_each, diffuse_round}
use je2be.Lighting.Diffuse.Steps.{
  Edges, Spreads, rest, Spreads-trans, Spreads-counts, Spreads-quiet,
}
use je2be.Lighting.Diffuse.Recursive.{diffuse_at-Spreads, diffuse_at_quiet}

abbrev row : Volume → ℤ → ℤ → List Pos3
row v y z = map (λ x. record { x = x; y = y; z = z }) (for_range v.first.x v.last.x)

abbrev layer : Volume → ℤ → List Pos3
layer v y = concat_map (row v y) (for_range v.first.z v.last.z)

pub In-positions : (v : Volume) (p : Pos3) → Inside v p → In p (positions v)
unfolding positions
In-positions v p i =
    In-concat_map (layer v) p.y p (for_range v.first.y v.last.y)
      (In-for_range v.first.y v.last.y p.y i.1.0 i.1.1)
      (In-concat_map (row v p.y) p.z p (for_range v.first.z v.last.z)
        (In-for_range v.first.z v.last.z p.z i.2.0 i.2.1)
        (In-map (λ x. record { x = x; y = p.y; z = p.z }) p.x (for_range v.first.x v.last.x)
          (In-for_range v.first.x v.last.x p.x i.0.0 i.0.1)))

pub positions-All : (v : Volume) → All (Inside v) (positions v)
unfolding positions
positions-All v = All-concat_map (Inside v) (layer v) (for_range v.first.y v.last.y) (
    All-imply _ _ (for_range v.first.y v.last.y)
      (λ y hy. All-concat_map (Inside v) (row v y) (for_range v.first.z v.last.z) (
        All-imply _ _ (for_range v.first.z v.last.z)
          (λ z hz.
            All-map (Inside v) (λ x. record { x = x; y = y; z = z }) (for_range v.first.x v.last.x)
              (All-imply _ _ (for_range v.first.x v.last.x) (λ x hx. (hx, hy, hz))
                (for_range-All v.first.x v.last.x)))
          (for_range-All v.first.z v.last.z)))
      (for_range-All v.first.y v.last.y))

module _ (models : Models) where
  -- No neighbour of the position within the limit would be raised.
  abbrev pub Calm : Volume → Levels → Pos3 → Type 0
  Calm limit out p =
      (f : Facing6)
      → in_limit f limit p ≡ true
      → passes models f p ≡ true
      → out p ≤ out (neighbor f p) + 1

  abbrev pub Within : Edges → Volume → Type 0
  Within E limit = (f : Facing6) (p : Pos3) → Inside limit p → in_limit f limit p ≡ true → E f p

  pub record Visited (E : Edges) (P : Levels → Type 0) (s t : Lights) : Type 0 where
    pub steps : Spreads models E s t
    pub quiet : t.changed ≡ s.changed → P s.out

  -- Two parts of a round, one after the other.
  visit_both :
      (E : Edges) (P Q : Levels → Type 0) (s t u : Lights)
      → Visited E P s t
      → Visited E Q t u
      → Visited E (λ out. P out × Q out) s u
  visit_both E P Q s t u a b = record {
    steps = Spreads-trans models E s t u a.steps b.steps;
    quiet = λ e.
        let first = Spreads-counts models E s t a.steps in
        let second = Spreads-counts models E t u b.steps in
        let same : t.changed ≡ s.changed = omega (arith, e, first, second) in
        let still = Spreads-quiet models E s t a.steps same in
        (a.quiet same, subst (λ (l : Lights). Q l.out) (sym still) (b.quiet (e ∙ sym same)));
  }

  diffuse_each-Visited :
      (E : Edges) (limit : Volume) (ps : List Pos3) (s : Lights)
      → Within E limit
      → All (Inside limit) ps
      → Visited E (λ out. All (Calm limit out) ps) s (diffuse_each models limit ps s)
  diffuse_each-Visited E limit [] s w h = record { steps = rest s; quiet = λ e. tt }
  diffuse_each-Visited E limit (p ∷ ps) s w h =
      visit_both E (λ out. Calm limit out p) (λ out. All (Calm limit out) ps) s
        (diffuse_at models limit p s) _
        (record {
          steps = diffuse_at-Spreads models limit E w p s h.0;
          quiet = λ e. diffuse_at_quiet models limit E w p s h.0 e;
        })
        (diffuse_each-Visited E limit ps (diffuse_at models limit p s) w h.1)

  pub diffuse_round-Visited :
      (E : Edges) (ls : List Volume) (s : Lights)
      → All (Within E) ls
      → Visited E
          (λ out. All (λ v. All (Calm v out) (positions v)) ls)
          s
          (diffuse_round models ls s)
  diffuse_round-Visited E [] s w = record { steps = rest s; quiet = λ e. tt }
  diffuse_round-Visited E (v ∷ ls) s w =
      let next = diffuse_each models v (positions v) s in
      visit_both E (λ out. All (Calm v out) (positions v))
        (λ out. All (λ u. All (Calm u out) (positions u)) ls) s next _
        (diffuse_each-Visited E v (positions v) s w.0 (positions-All v))
        (diffuse_round-Visited E ls next w.1)
