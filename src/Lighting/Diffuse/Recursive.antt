-- ===== src/Lighting/Diffuse/Recursive.antt =====
-- `DiffuseRecursive`: it takes steps within the limit, and a call that changes nothing has found
-- nothing to change.
use je2be.Prelude.{ℕ, zero, suc, ◌+◌, ◌≤◌, ◌<◌, ◌≡◌, refl, sym, subst, ◌∙◌, inl, inr}
use je2be.Prelude.{
  Bool, true, false, not, ltb, ltb→lt, Bool-cases, le_cases, All, List, [], ◌∷◌, arith,
}
use je2be.Geometry.Pos.{Pos3}
use je2be.Geometry.Volume.{Volume}
use je2be.Geometry.Volume.Boxes.{Inside}
use je2be.Enums.Facing6.{Facing6, north, east, south, west, up, down}
use je2be.Lighting.Diffuse.{Models, Levels, Lights, neighbor, passes, raise, IgnoreFace, ignores}
use je2be.Lighting.Diffuse.{
  ignore_none, way_back, in_limit, spreads, spread, diffuse_recursive, diffuse_at,
}
use je2be.Lighting.Diffuse.Steps.{Edges, Spreads, rest, step, Spreads-trans, Spreads-rises, put_lem}
use je2be.Lighting.Diffuse.Steps.{Spreads-counts, Spreads-quiet}
use je2be.Lighting.Diffuse.Faces.{
  Inside-neighbor, and_parts, and_both, true≢false, low_level, lt→ltb,
}

module _ (models : Models) (limit : Volume) (E : Edges)
    (edges : (f : Facing6) (p : Pos3) → Inside limit p → in_limit f limit p ≡ true → E f p) where
  -- A call for a neighbour, of level `n`, takes steps.
  abbrev Sound : ℕ → (IgnoreFace → Pos3 → Lights → Lights) → Type 0
  Sound n again =
      (skip : IgnoreFace) (p : Pos3) (s : Lights)
      → Inside limit p
      → n ≤ s.out p
      → Spreads models E s (again skip p s)

  -- What the parts for some faces do: they take steps, and where nothing changes no face has
  -- anything to set.
  record Visits (skip : IgnoreFace) (p : Pos3) (n : ℕ) (fs : List Facing6) (s t : Lights)
      : Type 0 where
    steps : Spreads models E s t
    quiet : t.changed ≡ s.changed → All (λ f. spreads models limit skip f p n s.out ≡ false) fs

  spread-Visits :
      (skip : IgnoreFace) (f : Facing6) (p : Pos3) (n : ℕ)
      (again : IgnoreFace → Pos3 → Lights → Lights) (s : Lights)
      → Sound n again
      → Inside limit p
      → n < s.out p
      → Visits skip p n (f ∷ []) s (spread models limit skip f p n again s)
  spread-Visits skip f p n again s sound i b =
      go (spreads models limit skip f p n s.out) refl (ltb 1 n)
    where
      raised : n ≤ (raise s (neighbor f p) n).out (neighbor f p)
      raised = elim (put_lem s.out (neighbor f p) n (neighbor f p)) [
        | inl h ↦ omega (arith, h.1)
        | inr h ↦ absurd (h.0 refl)
      ]

      next :
          (d : Bool)
          → Inside limit (neighbor f p)
          → Spreads models E (raise s (neighbor f p) n) (elim d [
            | true ↦ again (way_back f) (neighbor f p) (raise s (neighbor f p) n)
            | false ↦ raise s (neighbor f p) n
          ])
      next true j = sound (way_back f) (neighbor f p) (raise s (neighbor f p) n) j raised
      next false j = rest _

      go :
          (c : Bool)
          → spreads models limit skip f p n s.out ≡ c
          → (d : Bool)
          → Visits skip p n (f ∷ []) s (elim c [
            | false ↦ s
            | true ↦ elim d [
              | true ↦ again (way_back f) (neighbor f p) (raise s (neighbor f p) n)
              | false ↦ raise s (neighbor f p) n
            ]
          ])
      go false h d = record { steps = rest s; quiet = λ e. (h, tt) }
      go true h d =
          let a = and_parts (not (ignores skip f)) _ h in
          let a1 = and_parts (in_limit f limit p) _ a.1 in
          let a2 = and_parts (ltb (s.out (neighbor f p) + 1) (suc n)) _ a1.1 in
          let low = ltb→lt (s.out (neighbor f p) + 1) (suc n) a2.0 in
          let more = next d (Inside-neighbor f limit p i a1.0) in
          record {
            steps = step f p n s _ (edges f p i a1.0) a2.1 b (omega (arith, low)) more;
            quiet = λ e. absurd (omega (arith, e, Spreads-counts models E _ _ more));
          }

  abbrev spread_faces :
      IgnoreFace → Pos3 → ℕ → (IgnoreFace → Pos3 → Lights → Lights) → List Facing6 → Lights → Lights
  spread_faces skip p n again [] s = s
  spread_faces skip p n again (f ∷ fs) s =
      spread_faces skip p n again fs (spread models limit skip f p n again s)

  spread_faces-Visits :
      (skip : IgnoreFace) (p : Pos3) (n : ℕ) (again : IgnoreFace → Pos3 → Lights → Lights)
      (fs : List Facing6) (s : Lights)
      → Sound n again
      → Inside limit p
      → n < s.out p
      → Visits skip p n fs s (spread_faces skip p n again fs s)
  spread_faces-Visits skip p n again [] s sound i b = record { steps = rest s; quiet = λ e. tt }
  spread_faces-Visits skip p n again (f ∷ fs) s sound i b =
      let one = spread-Visits skip f p n again s sound i b in
      let s1 = spread models limit skip f p n again s in
      let risen = Spreads-rises models E s s1 one.steps p in
      let more = spread_faces-Visits skip p n again fs s1 sound i (omega (arith, b, risen)) in
      let counted = Spreads-counts models E s s1 one.steps in
      let counted' = Spreads-counts models E s1 _ more.steps in
      record {
        steps = Spreads-trans models E s s1 _ one.steps more.steps;
        quiet = λ e.
            let same : s1.changed ≡ s.changed = omega (arith, e, counted, counted') in
            let still = Spreads-quiet models E s s1 one.steps same in
            (
              (one.quiet same).0,
              subst (λ (u : Lights). All (λ g. spreads models limit skip g p n u.out ≡ false) fs)
                  (sym still) (more.quiet (e ∙ sym same)),
            );
      }

  -- The order of the parts in the code.
  abbrev faces : List Facing6
  faces = up ∷ down ∷ east ∷ west ∷ south ∷ north ∷ []

  diffuse_recursive-Sound : (center : ℕ) → Sound center (diffuse_recursive models limit center)
  unfolding diffuse_recursive
  diffuse_recursive-Sound zero skip p s i b = rest s
  diffuse_recursive-Sound (suc n) skip p s i b =
      (spread_faces-Visits skip p n (diffuse_recursive models limit n) faces s
        (diffuse_recursive-Sound n) i b).steps

  diffuse_recursive_quiet :
      (n : ℕ) (skip : IgnoreFace) (p : Pos3) (s : Lights)
      → Inside limit p
      → n < s.out p
      → (diffuse_recursive models limit (suc n) skip p s).changed ≡ s.changed
      → All (λ f. spreads models limit skip f p n s.out ≡ false) faces
  unfolding diffuse_recursive
  diffuse_recursive_quiet n skip p s i b e =
      (spread_faces-Visits skip p n (diffuse_recursive models limit n) faces s
          (diffuse_recursive-Sound n) i b).quiet
        e

  face_of : (P : Facing6 → Type 0) (f : Facing6) → All P faces → P f
  face_of P up h = h.0
  face_of P down h = h.1.0
  face_of P east h = h.1.1.0
  face_of P west h = h.1.1.1.0
  face_of P south h = h.1.1.1.1.0
  face_of P north h = h.1.1.1.1.1.0

  none_ignored : (f : Facing6) → not (ignores ignore_none f) ≡ true
  unfolding ignores
  none_ignored f = refl

  would_spread :
      (f : Facing6) (p : Pos3) (n : ℕ) (out : Levels)
      → out (neighbor f p) + 1 < suc n
      → in_limit f limit p ≡ true
      → passes models f p ≡ true
      → spreads models limit ignore_none f p n out ≡ true
  would_spread f p n out b l o =
      and_both _ _ (none_ignored f)
        (and_both _ _ l (and_both _ _ (lt→ltb (out (neighbor f p) + 1) (suc n) b) o))

  -- A visit of a block by the loop of `DiffuseLight`.
  pub diffuse_at-Spreads :
      (p : Pos3) (s : Lights) → Inside limit p → Spreads models E s (diffuse_at models limit p s)
  unfolding diffuse_at
  diffuse_at-Spreads p s i = go (ltb 1 (s.out p))
    where
      go :
          (b : Bool)
          → Spreads models E s (elim b [
            | true ↦ diffuse_recursive models limit (s.out p) ignore_none p s
            | false ↦ s
          ])
      go true = diffuse_recursive-Sound (s.out p) ignore_none p s i (omega arith)
      go false = rest s

  pub diffuse_at_quiet :
      (p : Pos3) (s : Lights)
      → Inside limit p
      → (diffuse_at models limit p s).changed ≡ s.changed
      → (f : Facing6) → in_limit f limit p ≡ true
      → passes models f p ≡ true
      → s.out p ≤ s.out (neighbor f p) + 1
  unfolding diffuse_at
  diffuse_at_quiet p s i e f l o = at_level (s.out p) refl e
    where
      -- The part for the face would have set the neighbour.
      lower :
          (n : ℕ)
          → suc n ≡ s.out p
          → spreads models limit ignore_none f p n s.out ≡ false
          → s.out p ≤ s.out (neighbor f p) + 1
      lower n h q = elim (le_cases (s.out p) (s.out (neighbor f p) + 1)) [
        | inl k ↦ k
        | inr k ↦
            let would = would_spread f p n s.out (omega (arith, k, h)) l o in
            absurd (true≢false (sym would ∙ q))
      ]

      at_level :
          (m : ℕ)
          → m ≡ s.out p
          → (elim (ltb 1 m) as (λ b. Lights) [
            | true ↦ diffuse_recursive models limit m ignore_none p s
            | false ↦ s
          ]).changed
            ≡ s.changed
          → s.out p ≤ s.out (neighbor f p) + 1
      at_level zero h g = omega (arith, h)
      at_level (suc n) h g = elim (Bool-cases (ltb 1 (suc n))) [
        | inr k ↦ omega (arith, h, low_level n k)
        | inl k ↦ lower n h (
            face_of (λ g. spreads models limit ignore_none g p n s.out ≡ false) f
              (diffuse_recursive_quiet n ignore_none p s i (omega (arith, h)) (rw k at g)))
      ]
