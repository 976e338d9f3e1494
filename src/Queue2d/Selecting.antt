-- ===== src/Queue2d/Selecting.antt =====
-- Which cell `next` chooses. The order of the weights is irreflexive and transitive, as `<` is on
-- `float`.
use je2be.Prelude.{ℕ, zero, suc, ◌+◌, ◌<◌, ◌≡◌, ◌⊎◌, inl, inr, refl, sym, ◌∙◌, subst}
use je2be.Prelude.{true, false, Bool-cases, none, some, Option-cases, arith}
use je2be.Prelude.Int.{ℤ, pos, ◌+ℤ◌, ◌≤ℤ◌, ◌<ℤ◌, int_laws, eq_of_parts, +ℤ_parts, pos-parts}
use je2be.Prelude.Offset.{dist, dist_parts}
use mathlib.Core.Path.{subst₂}
use mathlib.Core.Option.{some-injective}
use je2be.Geometry.Pos.{Pos2}
use je2be.Queue2d.{Weights, Queue2d, is_set, weigh, Best, better, consider, cell, select_row}
use je2be.Queue2d.{select_rows, select}
use je2be.Queue2d.Grid.{Grid}

pub record IsOrder (w : Weights) : Type 0 where
  pub irreflexive : (a : w.Weight) → w.less a a ≡ false
  pub transitive : (a b c : w.Weight) → w.less a b ≡ true → w.less b c ≡ true → w.less a c ≡ true

module _ {w : Weights} (q : Queue2d w) (order : IsOrder w) where
  open w use {Weight, less}

  -- A cell that `next` must pass over: it is done, or something near it is locked.
  abbrev pub Rejected : Pos2 → Type 0
  Rejected c = (is_set q.done c ≡ true) ⊎ (weigh w q c ≡ none)

  -- No better weight than `t` is found at `c`.
  abbrev pub Beaten : Weight → Pos2 → Type 0
  Beaten t c = (s : Weight) → is_set q.done c ≡ false → weigh w q c ≡ some s → less t s ≡ false

  pub record Chosen (c : Pos2) (t : Weight) : Type 0 where
    pub column : ℕ
    pub row : ℕ
    pub in_width : column < q.width
    pub in_height : row < q.height
    pub place : c ≡ cell w q column row
    pub new : is_set q.done c ≡ false
    pub clear : weigh w q c ≡ some t

  abbrev BestOf : (ℕ → ℕ → Type 0) → Best w q → Type 0
  BestOf Seen none = (a b : ℕ) → Seen a b → Rejected (cell w q a b)
  BestOf Seen (some (c, t)) = Chosen c t × ((a b : ℕ) → Seen a b → Beaten t (cell w q a b))

  BestOf-mono :
      (P Q : ℕ → ℕ → Type 0) (best : Best w q)
      → ((a b : ℕ) → Q a b → P a b)
      → BestOf P best
      → BestOf Q best
  BestOf-mono P Q none f h = λ a b s. h a b (f a b s)
  BestOf-mono P Q (some (c, t)) f h = (h.0, λ a b s. h.1 a b (f a b s))

  abbrev With : (ℕ → ℕ → Type 0) → ℕ → ℕ → ℕ → ℕ → Type 0
  With P a b a' b' = P a' b' ⊎ ((a ≡ a') × (b ≡ b'))

  Rejected-Beaten : (t : Weight) (c : Pos2) → Rejected c → Beaten t c
  Rejected-Beaten t c (inl done) s new clear = cc
  Rejected-Beaten t c (inr blocked) s new clear = cc

  -- A candidate that is rejected leaves the best one.
  passed :
      (P : ℕ → ℕ → Type 0) (a b : ℕ) (best : Best w q)
      → BestOf P best
      → Rejected (cell w q a b)
      → BestOf (With P a b) best
  passed P a b none h r = λ a' b' s. elim s [
    | inl old ↦ h a' b' old
    | inr (e, f) ↦ subst₂ (λ x y. Rejected (cell w q x y)) e f r
  ]
  passed P a b (some (c, t)) h r = (
    h.0,
    λ a' b' s. elim s [
      | inl old ↦ h.1 a' b' old
      | inr (e, f) ↦
          subst₂ (λ x y. Beaten t (cell w q x y)) e f (Rejected-Beaten t (cell w q a b) r)
    ],
  )

  -- `t` is not less than the one weight that stands at `c`.
  one_weight : (t s : Weight) (c : Pos2) → weigh w q c ≡ some s → less t s ≡ false → Beaten t c
  one_weight t s c e l u new clear =
      subst (λ x. less t x ≡ false) (some-injective s u (sym e ∙ clear)) l

  raise : (t s : Weight) (c : Pos2) → less t s ≡ true → Beaten t c → Beaten s c
  raise t s c l h u new clear = elim (Bool-cases (less s u)) [
    | inl over ↦ cc (order.transitive t s u l over, h u new clear)
    | inr under ↦ under
  ]

  better-BestOf :
      (P : ℕ → ℕ → Type 0) (a b : ℕ) (s : Weight) (best : Best w q)
      → BestOf P best
      → Chosen (cell w q a b) s
      → BestOf (With P a b) (better w q (cell w q a b) s best)
  better-BestOf P a b s none h new = (
    new,
    λ a' b' x. elim x [
      | inl old ↦ Rejected-Beaten s (cell w q a' b') (h a' b' old)
      | inr (e, f) ↦
          subst₂ (λ x y. Beaten s (cell w q x y)) e f
            (one_weight s s (cell w q a b) new.clear (order.irreflexive s))
    ],
  )
  better-BestOf P a b s (some (c, t)) h new = elim (Bool-cases (less t s)) [
    | inl over ↦ rw over (
      new,
      λ a' b' x. elim x [
        | inl old ↦ raise t s (cell w q a' b') over (h.1 a' b' old)
        | inr (e, f) ↦
            subst₂ (λ x y. Beaten s (cell w q x y)) e f
              (one_weight s s (cell w q a b) new.clear (order.irreflexive s))
      ],
    )
    | inr under ↦ rw under (
      h.0,
      λ a' b' x. elim x [
        | inl old ↦ h.1 a' b' old
        | inr (e, f) ↦
            subst₂ (λ x y. Beaten t (cell w q x y)) e f
              (one_weight t s (cell w q a b) new.clear under)
      ],
    )
  ]

  consider-BestOf :
      (P : ℕ → ℕ → Type 0) (a b : ℕ) (best : Best w q)
      → a < q.width
      → b < q.height
      → BestOf P best
      → BestOf (With P a b) (consider w q (cell w q a b) best)
  unfolding consider
  consider-BestOf P a b best ha hb h = elim (Bool-cases (is_set q.done (cell w q a b))) [
    | inl done ↦ rw done (passed P a b best h (inl done))
    | inr new ↦ elim (Option-cases (weigh w q (cell w q a b))) [
      | inl blocked ↦ rw (new, blocked) (passed P a b best h (inr blocked))
      | inr (s, clear) ↦
          rw (new, clear)
            (better-BestOf P a b s best h (record {
              column = a;
              row = b;
              in_width = ha;
              in_height = hb;
              place = refl;
              new = new;
              clear = clear;
            }))
    ]
  ]

  -- The cells that the loops have considered when they come to column `x` of row `z`.
  abbrev SeenAt : ℕ → ℕ → ℕ → ℕ → Type 0
  SeenAt z x a b = (b < z) × (a < q.width) ⊎ (b ≡ z) × (a < x)

  select_row-BestOf :
      (z n x : ℕ) (best : Best w q)
      → x + n ≡ q.width
      → z < q.height
      → BestOf (SeenAt z x) best
      → BestOf (SeenAt (suc z) 0) (select_row w q z n x best)
  unfolding select_row
  select_row-BestOf z zero x best e hz h =
      BestOf-mono (SeenAt z x) (SeenAt (suc z) 0) best (λ a b s. ground arith) h
  select_row-BestOf z (suc n) x best e hz h =
      select_row-BestOf z n (suc x) (consider w q (cell w q x z) best) (omega arith) hz (
        BestOf-mono (With (SeenAt z x) x z) (SeenAt z (suc x)) (consider w q (cell w q x z) best)
          (λ a b s. ground arith) (consider-BestOf (SeenAt z x) x z best (omega arith) hz h))

  select_rows-BestOf :
      (n z : ℕ) (best : Best w q)
      → z + n ≡ q.height
      → BestOf (SeenAt z 0) best
      → BestOf (λ a b. (a < q.width) × (b < q.height)) (select_rows w q n z best)
  unfolding select_rows
  select_rows-BestOf zero z best e h =
      BestOf-mono (SeenAt z 0) (λ a b. (a < q.width) × (b < q.height)) best
        (λ a b s. inl (omega arith, omega arith)) h
  select_rows-BestOf (suc n) z best e h =
      select_rows-BestOf n (suc z) (select_row w q z q.width 0 best) (omega arith)
        (select_row-BestOf z q.width 0 best (omega arith) (omega arith) h)

  select-BestOf : BestOf (λ a b. (a < q.width) × (b < q.height)) (select w q)
  unfolding select
  select-BestOf = select_rows-BestOf q.height 0 none (omega arith) (λ a b s. absurd (ground arith))

  Grid-of_cell : (a b : ℕ) → a < q.width → b < q.height → Grid q (cell w q a b)
  Grid-of_cell a b ha hb = (omega int_laws, omega int_laws, omega int_laws, omega int_laws)

  on_axis : (o p : ℤ) (n : ℕ) → o ≤ℤ p → p <ℤ o +ℤ pos n → (a : ℕ) × (a < n) × (p ≡ o +ℤ pos a)
  on_axis o p n lo hi =
      let d = dist_parts o p lo in
      (
        dist o p,
        omega (arith, hi, d, +ℤ_parts o (pos n), pos-parts n),
        eq_of_parts p (o +ℤ pos (dist o p))
            (omega (arith, d, +ℤ_parts o (pos (dist o p)), pos-parts (dist o p))),
      )

  -- Each cell of the grid is one that the loops consider.
  cell_of_Grid :
      (p : Pos2) → Grid q p → (a b : ℕ) × (a < q.width) × (b < q.height) × (p ≡ cell w q a b)
  cell_of_Grid p g =
      let x = on_axis q.origin.x p.x q.width g.0 g.1 in
      let z = on_axis q.origin.z p.z q.height g.2 g.3 in
      (x.0, z.0, x.1, z.1, λ i. record { x = x.2 i; z = z.2 i })

  -- What the choice of `c` says of the cells of the grid.
  pub record Selected (c : Pos2) : Type 0 where
    pub grid : Grid q c
    pub new : is_set q.done c ≡ false
    pub total : w.Weight
    pub clear : weigh w q c ≡ some total
    pub heaviest : (p : Pos2) → Grid q p → Beaten total p

  pub select-Selected : (c : Pos2) (t : w.Weight) → select w q ≡ some (c, t) → Selected c
  select-Selected c t e =
      let best = subst (BestOf (λ a b. (a < q.width) × (b < q.height))) e select-BestOf in
      let x = best.0 in
      record {
        grid = subst (Grid q) (sym x.place) (Grid-of_cell x.column x.row x.in_width x.in_height);
        new = x.new;
        total = t;
        clear = x.clear;
        heaviest = λ p g.
            let k = cell_of_Grid p g in subst (Beaten t) (sym k.4) (best.1 k.0 k.1 (k.2, k.3));
      }

  pub select-none : select w q ≡ none → (p : Pos2) → Grid q p → Rejected p
  select-none e p g =
      let best = subst (BestOf (λ a b. (a < q.width) × (b < q.height))) e select-BestOf in
      let k = cell_of_Grid p g in subst Rejected (sym k.4) (best k.0 k.1 (k.2, k.3))
