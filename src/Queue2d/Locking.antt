-- ===== src/Queue2d/Locking.antt =====
-- What `next` marks and what `unlockAround` frees.
use je2be.Prelude.{ℕ, suc, ◌*◌, ◌≡◌, ◌≢◌, ◌↔◌, inl, inr, refl, sym, true, false}
use je2be.Prelude.{Bool-cases, arith}
use je2be.Prelude.Int.{ℤ, pos, ◌+ℤ◌, ◌-ℤ◌, ◌≤ℤ◌, ◌<ℤ◌, +ℤ_parts, -ℤ_parts, pos-parts}
use je2be.Prelude.Int.{min_ℤ, max_ℤ, min_ℤ_cases, max_ℤ_cases, parts_normal}
use mathlib.Core.Path.{transport}
use je2be.Geometry.Pos.{Pos2}
use je2be.Storage.Data2d.{assign}
use je2be.Queue2d.{Weights, Queue2d, is_set, rounds, for_columns, take, in_grid, unlock}
use je2be.Queue2d.{unlock_around}
use je2be.Queue2d.Sweep.{InColumns, Writes, Swept, for_columns-Swept}
use je2be.Queue2d.Grid.{Frames, InGrid, Grid, IsValid, in_grid_iff, assign-Frames}
use je2be.Queue2d.Grid.{is_set-assign_self, is_set-assign_ne}

-- `p` is within `r` of `c` on both axes.
abbrev pub Near : ℕ → Pos2 → Pos2 → Type 0
Near r c p =
    (c.x -ℤ pos r ≤ℤ p.x) × (p.x ≤ℤ c.x +ℤ pos r) × (c.z -ℤ pos r ≤ℤ p.z) × (p.z ≤ℤ c.z +ℤ pos r)

-- The counted loop from `f` visits the coordinates up to `l`.
rounds_iff : (f l p : ℤ) → f ≤ℤ p → (p <ℤ f +ℤ pos (rounds f l)) ↔ (p ≤ℤ l)
rounds_iff f l p a =
    let sum = +ℤ_parts f (pos (rounds f l)) in
    let extent = +ℤ_parts (l -ℤ f) (pos 1) in
    (
      λ h. omega (
        arith,
        h,
        sum,
        extent,
        -ℤ_parts l f,
        pos-parts (rounds f l),
        pos-parts 1,
        parts_normal (l -ℤ f +ℤ pos 1),
      ),
      λ h. omega (
        arith,
        h,
        sum,
        extent,
        -ℤ_parts l f,
        pos-parts (rounds f l),
        pos-parts 1,
        parts_normal (l -ℤ f +ℤ pos 1),
      ),
    )

max_le_iff : (a b p : ℤ) → (max_ℤ a b ≤ℤ p) ↔ ((a ≤ℤ p) × (b ≤ℤ p))
max_le_iff a b p = (ground (arith, max_ℤ_cases a b), ground (arith, max_ℤ_cases a b))

le_min_iff : (a b p : ℤ) → (p ≤ℤ min_ℤ a b) ↔ ((p ≤ℤ a) × (p ≤ℤ b))
le_min_iff a b p = (ground (arith, min_ℤ_cases a b), ground (arith, min_ℤ_cases a b))

le_pred_iff : (a p : ℤ) → (p ≤ℤ a -ℤ pos 1) ↔ (p <ℤ a)
le_pred_iff a p = (
  λ h. omega (arith, h, -ℤ_parts a (pos 1), pos-parts 1),
  λ h. omega (arith, h, -ℤ_parts a (pos 1), pos-parts 1),
)

-- One axis of the rectangle that `next` locks.
clipped_iff :
    (c o p : ℤ) (r n : ℕ)
    → let first = max_ℤ (c -ℤ pos r) o in
      let last = min_ℤ (c +ℤ pos r) (o +ℤ pos n -ℤ pos 1) in
      ((first ≤ℤ p) × (p <ℤ first +ℤ pos (rounds first last)))
      ↔ (((c -ℤ pos r ≤ℤ p) × (p ≤ℤ c +ℤ pos r)) × ((o ≤ℤ p) × (p <ℤ o +ℤ pos n)))
clipped_iff c o p r n =
    let first = max_ℤ (c -ℤ pos r) o in
    let last = min_ℤ (c +ℤ pos r) (o +ℤ pos n -ℤ pos 1) in
    let low = max_le_iff (c -ℤ pos r) o p in
    let high = le_min_iff (c +ℤ pos r) (o +ℤ pos n -ℤ pos 1) p in
    let grid = le_pred_iff (o +ℤ pos n) p in
    (
      λ h.
          let a = low.0 h.0 in
          let b = high.0 ((rounds_iff first last p h.0).0 h.1) in ((a.0, b.0), (a.1, grid.0 b.1)),
      λ h.
          let a = low.1 (h.0.0, h.1.0) in
          (a, (rounds_iff first last p a).1 (high.1 (h.0.1, grid.1 h.1.1))),
    )

-- One axis of the rectangle that `unlockAround` frees.
around_iff :
    (c p : ℤ) (r : ℕ)
    → ((c -ℤ pos r ≤ℤ p) × (p <ℤ c -ℤ pos r +ℤ pos (suc (2 * r))))
      ↔ ((c -ℤ pos r ≤ℤ p) × (p ≤ℤ c +ℤ pos r))
around_iff c p r =
    let low = -ℤ_parts c (pos r) in
    let high = +ℤ_parts c (pos r) in
    let sum = +ℤ_parts (c -ℤ pos r) (pos (suc (2 * r))) in
    let a = pos-parts r in
    let b = pos-parts (suc (2 * r)) in
    (
      λ h. (h.0, omega (arith, h.1, low, high, sum, a, b)),
      λ h. (h.0, omega (arith, h.1, low, high, sum, a, b)),
    )

module _ {w : Weights} (q : Queue2d w) (c : Pos2) (v : IsValid q) where
  lock_writes :
      Writes
        (Frames q.origin q.width q.height)
        is_set
        (λ d p. assign d p true)
        true
        (Grid q)
        (Grid q)
  lock_writes = record {
    keep = λ d p f g. assign-Frames f p true;
    hit = λ d p f g k. is_set-assign_self f p true g;
    miss = λ d p r f g k ne. is_set-assign_ne f p r true g k ne;
  }

  -- `next` marks the cell as done and locks the cells of the grid that are near it; all other
  -- flags stay.
  pub record Takes (t : Queue2d w) : Type 0 where
    pub valid : IsValid t
    pub origin : t.origin ≡ q.origin
    pub width : t.width ≡ q.width
    pub height : t.height ≡ q.height
    pub radius : t.lock_radius ≡ q.lock_radius
    pub done : is_set t.done c ≡ true
    pub others : (p : Pos2) → Grid q p → c ≢ p → is_set t.done p ≡ is_set q.done p
    pub locked : (p : Pos2) → Grid q p → Near q.lock_radius c p → is_set t.lock p ≡ true
    pub kept : (p : Pos2) → Grid q p → ¬ Near q.lock_radius c p → is_set t.lock p ≡ is_set q.lock p

  pub take-Takes : Grid q c → Takes (take w q c)
  unfolding take
  take-Takes g = record {
    valid = record { done = assign-Frames v.done c true; lock = swept.good; weight = v.weight };
    origin = refl;
    width = refl;
    height = refl;
    radius = refl;
    done = is_set-assign_self v.done c true g;
    others = λ p k ne. is_set-assign_ne v.done c p true g k ne;
    locked = λ p k near. swept.inside p k (area p (near, k));
    kept = λ p k far. swept.outside p k (λ h. far (clip p h).0);
  }
    where
      x0 : ℤ
      x0 = max_ℤ (c.x -ℤ pos q.lock_radius) q.origin.x

      x1 : ℤ
      x1 = min_ℤ (c.x +ℤ pos q.lock_radius) (q.origin.x +ℤ pos q.width -ℤ pos 1)

      z0 : ℤ
      z0 = max_ℤ (c.z -ℤ pos q.lock_radius) q.origin.z

      z1 : ℤ
      z1 = min_ℤ (c.z +ℤ pos q.lock_radius) (q.origin.z +ℤ pos q.height -ℤ pos 1)

      clip :
          (p : Pos2)
          → InColumns (rounds x0 x1) x0 (rounds z0 z1) z0 p
          → Near q.lock_radius c p × Grid q p
      clip p h =
          let x = (clipped_iff c.x q.origin.x p.x q.lock_radius q.width).0 (h.0, h.1) in
          let z = (clipped_iff c.z q.origin.z p.z q.lock_radius q.height).0 (h.2, h.3) in
          ((x.0.0, x.0.1, z.0.0, z.0.1), (x.1.0, x.1.1, z.1.0, z.1.1))

      area :
          (p : Pos2)
          → Near q.lock_radius c p × Grid q p
          → InColumns (rounds x0 x1) x0 (rounds z0 z1) z0 p
      area p (n, k) =
          let x =
            (clipped_iff c.x q.origin.x p.x q.lock_radius q.width).1 ((n.0, n.1), (k.0, k.1)) in
          let z =
            (clipped_iff c.z q.origin.z p.z q.lock_radius q.height).1 ((n.2, n.3), (k.2, k.3)) in
          (x.0, x.1, z.0, z.1)

      swept :
          Swept lock_writes
            (InColumns (rounds x0 x1) x0 (rounds z0 z1) z0)
            q.lock
            (for_columns (λ d p. assign d p true) q.lock (rounds x0 x1) x0 (rounds z0 z1) z0)
      swept =
          for_columns-Swept lock_writes q.lock (rounds x0 x1) x0 (rounds z0 z1) z0 v.lock
            (λ p h. (clip p h).1)

  -- What a step of the unlocking leaves as it was.
  record Same (t : Queue2d w) : Type 0 where
    valid : IsValid t
    origin : t.origin ≡ q.origin
    width : t.width ≡ q.width
    height : t.height ≡ q.height
    radius : t.lock_radius ≡ q.lock_radius
    done : t.done ≡ q.done

  Grid-of : (t : Queue2d w) → Same t → (p : Pos2) → Grid q p → Grid t p
  Grid-of t s p = transport (λ i. InGrid (sym s.origin i) (sym s.width i) (sym s.height i) p)

  unlock-Same : (t : Queue2d w) (p : Pos2) → Same t → Same (unlock w t p)
  unfolding unlock
  unlock-Same t p s = elim (Bool-cases (in_grid w t p)) [
    | inr out ↦ rw out s
    | inl inside ↦ rw inside (record {
      valid = record {
        done = s.valid.done;
        lock = assign-Frames s.valid.lock p false;
        weight = s.valid.weight;
      };
      origin = s.origin;
      width = s.width;
      height = s.height;
      radius = s.radius;
      done = s.done;
    })
  ]

  unlock_writes : Writes Same (λ t p. is_set t.lock p) (unlock w) false (Grid q) (λ p. Unit {0})
  unfolding unlock
  unlock_writes = record {
    keep = λ t p s a. unlock-Same t p s;
    hit = λ t p s a k.
        let g = Grid-of t s p k in
        rw ((in_grid_iff t p).1 g) (is_set-assign_self s.valid.lock p false g);
    miss = λ t p r s a k ne. elim (Bool-cases (in_grid w t p)) [
      | inr out ↦ rw out
      | inl inside ↦ rw inside (
          is_set-assign_ne s.valid.lock p r false ((in_grid_iff t p).0 inside) (Grid-of t s r k) ne)
    ];
  }

  -- What a result of `unlockAround` says.
  pub record Frees (t : Queue2d w) : Type 0 where
    pub valid : IsValid t
    pub origin : t.origin ≡ q.origin
    pub width : t.width ≡ q.width
    pub height : t.height ≡ q.height
    pub radius : t.lock_radius ≡ q.lock_radius
    pub done : t.done ≡ q.done
    pub free : (p : Pos2) → Grid q p → Near q.lock_radius c p → is_set t.lock p ≡ false
    pub kept : (p : Pos2) → Grid q p → ¬ Near q.lock_radius c p → is_set t.lock p ≡ is_set q.lock p

  -- Where the three arrays of the queue are full and frame its grid: `unlockAround` frees the
  -- cells of the grid near the cell. Every other lock flag of the grid, the cells that are done
  -- and the shape of the queue stay, and a valid queue stays valid.
  pub unlock_around-Frees : Frees (unlock_around w q c)
  unfolding unlock_around
  unlock_around-Frees = record {
    valid = swept.good.valid;
    origin = swept.good.origin;
    width = swept.good.width;
    height = swept.good.height;
    radius = swept.good.radius;
    done = swept.good.done;
    free = λ p k n. swept.inside p k (area p n);
    kept = λ p k far. swept.outside p k (λ h. far (near p h));
  }
    where
      side : ℕ
      side = suc (2 * q.lock_radius)

      Square : Pos2 → Type 0
      Square = InColumns side (c.x -ℤ pos q.lock_radius) side (c.z -ℤ pos q.lock_radius)

      area : (p : Pos2) → Near q.lock_radius c p → Square p
      area p n =
          let x = (around_iff c.x p.x q.lock_radius).1 (n.0, n.1) in
          let z = (around_iff c.z p.z q.lock_radius).1 (n.2, n.3) in (x.0, x.1, z.0, z.1)

      near : (p : Pos2) → Square p → Near q.lock_radius c p
      near p h =
          let x = (around_iff c.x p.x q.lock_radius).0 (h.0, h.1) in
          let z = (around_iff c.z p.z q.lock_radius).0 (h.2, h.3) in (x.0, x.1, z.0, z.1)

      swept :
          Swept unlock_writes Square q (
            for_columns
              (unlock w)
              q
              side
              (c.x -ℤ pos q.lock_radius)
              side
              (c.z -ℤ pos q.lock_radius))
      swept =
          for_columns-Swept unlock_writes q side (c.x -ℤ pos q.lock_radius) side
            (c.z -ℤ pos q.lock_radius)
            (record {
              valid = v;
              origin = refl;
              width = refl;
              height = refl;
              radius = refl;
              done = refl;
            })
            (λ r h. tt)
