-- ===== src/Lighting/Diffuse/Steps.antt =====
-- The spreading of light as a step relation, and what every sequence of steps keeps.
use je2be.Prelude.{ℕ, ◌+◌, ◌*◌, ◌≤◌, ◌<◌, ◌≡◌, ◌≢◌, refl, ap, sym, ◌⊎◌, inl, inr, true, false}
use je2be.Prelude.{Bool-cases}
use je2be.Prelude.{List, [], ◌∷◌, length, arith}
use je2be.Prelude.Sets.{Has, Has-nil, Has-cons, Eq-cases}
use je2be.Geometry.Pos.{Pos3, pos3_eq, eq_pos3, eq_pos3_iff}
use je2be.Enums.Facing6.{Facing6}
use je2be.Lighting.Diffuse.{Models, Levels, Lights, put, neighbor, passes, raise}

eq_pos3_ne : (p q : Pos3) → p ≢ q → eq_pos3 p q ≡ false
eq_pos3_ne p q ne = elim (Bool-cases (eq_pos3 p q)) [
  | inl h ↦ absurd (ne ((eq_pos3_iff p q).0 h))
  | inr h ↦ h
]

pub put_lem :
    (out : Levels) (p : Pos3) (l : ℕ) (q : Pos3)
    → ((q ≡ p) × (put out p l q ≡ l)) ⊎ ((q ≢ p) × (put out p l q ≡ out q))
unfolding put
put_lem out p l q = elim (Eq-cases q p) [
  | inl e ↦ inl (e, rw ((eq_pos3_iff p q).1 (sym e)) refl)
  | inr ne ↦ inr (ne, rw (eq_pos3_ne p q (λ e. ne (sym e))) refl)
]

-- The sum of the levels of some blocks.
abbrev pub total : List Pos3 → Levels → ℕ
total [] out = 0
total (p ∷ ps) out = out p + total ps out

total-put_le :
    (ps : List Pos3) (out : Levels) (p : Pos3) (l : ℕ)
    → out p ≤ l
    → total ps out ≤ total ps (put out p l)
total-put_le [] out p l h = omega arith
total-put_le (q ∷ ps) out p l h = elim (put_lem out p l q) [
  | inl e ↦ omega (arith, h, ap out e.0, e.1, total-put_le ps out p l h)
  | inr e ↦ omega (arith, e.1, total-put_le ps out p l h)
]

total-put_lt :
    (ps : List Pos3) (out : Levels) (p : Pos3) (l : ℕ)
    → Has ps p
    → out p < l
    → total ps out < total ps (put out p l)
total-put_lt [] out p l m h = absurd (Has-nil p m)
total-put_lt (q ∷ ps) out p l m h = elim (put_lem out p l q) [
  | inl e ↦ omega (arith, h, ap out e.0, e.1, total-put_le ps out p l (omega (arith, h)))
  | inr e ↦ elim ((Has-cons p q ps).0 m) [
    | inl k ↦ absurd (e.0 (sym k))
    | inr k ↦ omega (arith, e.1, total-put_lt ps out p l k h)
  ]
]

pub total-bound :
    (ps : List Pos3) (out : Levels) (b : ℕ)
    → ((q : Pos3) → out q ≤ b)
    → total ps out ≤ b * length ps
total-bound [] out b h = omega arith
total-bound (p ∷ ps) out b h = omega (arith, h p, total-bound ps out b h)

-- The faces of blocks through which the limits let light out.
abbrev pub Edges : Type 1
Edges = Facing6 → Pos3 → Type 0

module _ (models : Models) (E : Edges) where
  -- A block of a level above `n` sets the level of a neighbour, lower by two or more, to `n`.
  pub data Spreads : Lights → Lights → Type 0 where
    rest : (s : Lights) → Spreads s s
    step :
        (f : Facing6) (p : Pos3) (n : ℕ) (s t : Lights)
        → E f p
        → passes models f p ≡ true
        → n < s.out p
        → s.out (neighbor f p) < n
        → Spreads (raise s (neighbor f p) n) t
        → Spreads s t

  pub Spreads-trans : (s t u : Lights) → Spreads s t → Spreads t u → Spreads s u
  Spreads-trans s t u (rest _) h = h
  Spreads-trans s t u (step f p n _ _ e o c l g) h =
      step f p n s u e o c l (Spreads-trans _ t u g h)

  -- No level falls.
  pub Spreads-rises : (s t : Lights) → Spreads s t → (q : Pos3) → s.out q ≤ t.out q
  Spreads-rises s t (rest _) q = omega arith
  Spreads-rises s t (step f p n _ _ e o c l g) q = elim (put_lem s.out (neighbor f p) n q) [
    | inl h ↦ omega (arith, ap s.out h.0, h.1, l, Spreads-rises _ t g q)
    | inr h ↦ omega (arith, h.1, Spreads-rises _ t g q)
  ]

  pub Spreads-counts : (s t : Lights) → Spreads s t → s.changed ≤ t.changed
  Spreads-counts s t (rest _) = omega arith
  Spreads-counts s t (step f p n _ _ e o c l g) = omega (arith, Spreads-counts _ t g)

  -- A sequence that counts no change has no step.
  pub Spreads-quiet : (s t : Lights) → Spreads s t → t.changed ≡ s.changed → s ≡ t
  Spreads-quiet s t (rest _) h = refl
  Spreads-quiet s t (step f p n _ _ e o c l g) h = absurd (omega (arith, h, Spreads-counts _ t g))

  -- No neighbour of a block would be raised.
  abbrev pub Closed : Levels → Type 0
  Closed out =
      (f : Facing6) (p : Pos3) → E f p → passes models f p ≡ true → out p ≤ out (neighbor f p) + 1

  -- The levels stay below any that are closed.
  pub Spreads-below :
      (top : Levels)
      → Closed top
      → (s t : Lights) → Spreads s t
      → ((q : Pos3) → s.out q ≤ top q)
      → (q : Pos3) → t.out q ≤ top q
  Spreads-below top closed s t (rest _) h = h
  Spreads-below top closed s t (step f p n _ _ e o c l g) h = Spreads-below top closed _ t g (λ q.
      elim (put_lem s.out (neighbor f p) n q) [
        | inl k ↦ omega (arith, ap top k.0, k.1, c, h p, closed f p e o)
        | inr k ↦ omega (arith, k.1, h q)
      ])

  -- Each change raises the sum of the levels of the blocks that light can reach.
  pub Spreads-total :
      (cells : List Pos3)
      → ((f : Facing6) (p : Pos3) → E f p → Has cells (neighbor f p))
      → (s t : Lights) → Spreads s t
      → total cells s.out + t.changed ≤ total cells t.out + s.changed
  Spreads-total cells reach s t (rest _) = omega arith
  Spreads-total cells reach s t (step f p n _ _ e o c l g) = omega (
    arith,
    Spreads-total cells reach _ t g,
    total-put_lt cells s.out (neighbor f p) n (reach f p e) l,
  )
