-- ===== src/Queue2d/Grid.antt =====
-- A well-formed queue: three full arrays over the cells of the grid.
use je2be.Prelude.{ℕ, ◌*◌, ◌≡◌, ◌≢◌, ◌↔◌, sym, refl, ap, ◌∙◌, Bool, true}
use je2be.Prelude.{false, length-replicate, arith}
use je2be.Prelude.Int.{
  ℤ, pos, pos_part, neg_part, ◌+ℤ◌, ◌-ℤ◌, ◌≤ℤ◌, ◌<ℤ◌, +ℤ_parts, -ℤ_parts, pos-parts,
}
use je2be.Prelude.Int.{leb_ℤ_iff, ltb_ℤ_iff, parts_normal}
use je2be.Geometry.Pos.{Pos2}
use je2be.Storage.Data2d.{Data2d, create_sized, assign}
use je2be.Storage.Data2d.Cells
use je2be.Storage.Data2d.Cells.{IsFull, at-assign_self, at-assign_ne, assign-IsFull}
use je2be.Queue2d.{Weights, Queue2d, is_set, create, in_grid}
use mathlib.Core.Option

-- `d` is a full array over the rectangle at `o` of the given width and height.
pub record Frames {ℓ} {A : Type ℓ} (o : Pos2) (w h : ℕ) (d : Data2d A) : Type ℓ where
  pub start : d.start ≡ o
  pub end : d.end ≡ record { x = o.x +ℤ pos w -ℤ pos 1; z = o.z +ℤ pos h -ℤ pos 1 }
  pub full : IsFull d

-- `p` is a cell of the rectangle.
abbrev pub InGrid : Pos2 → ℕ → ℕ → Pos2 → Type 0
InGrid o w h p = (o.x ≤ℤ p.x) × (p.x <ℤ o.x +ℤ pos w) × (o.z ≤ℤ p.z) × (p.z <ℤ o.z +ℤ pos h)

module _ {ℓ} {A : Type ℓ} {o : Pos2} {w h : ℕ} {d : Data2d A} (f : Frames o w h d) where
  pub Inside-of_grid : (p : Pos2) → InGrid o w h p → Cells.Inside d p
  Inside-of_grid p g = (
    omega (
      arith,
      g.0,
      ap (λ (q : Pos2). pos_part q.x) f.start,
      ap (λ (q : Pos2). neg_part q.x) f.start,
    ),
    omega (
      arith,
      g.1,
      ap (λ (q : Pos2). pos_part q.x) f.end,
      ap (λ (q : Pos2). neg_part q.x) f.end,
      -ℤ_parts (o.x +ℤ pos w) (pos 1),
      pos-parts 1,
    ),
    omega (
      arith,
      g.2,
      ap (λ (q : Pos2). pos_part q.z) f.start,
      ap (λ (q : Pos2). neg_part q.z) f.start,
    ),
    omega (
      arith,
      g.3,
      ap (λ (q : Pos2). pos_part q.z) f.end,
      ap (λ (q : Pos2). neg_part q.z) f.end,
      -ℤ_parts (o.z +ℤ pos h) (pos 1),
      pos-parts 1,
    ),
  )

  pub grid_of_Inside : (p : Pos2) → Cells.Inside d p → InGrid o w h p
  grid_of_Inside p g = (
    omega (
      arith,
      g.0,
      ap (λ (q : Pos2). pos_part q.x) f.start,
      ap (λ (q : Pos2). neg_part q.x) f.start,
    ),
    omega (
      arith,
      g.1,
      ap (λ (q : Pos2). pos_part q.x) f.end,
      ap (λ (q : Pos2). neg_part q.x) f.end,
      -ℤ_parts (o.x +ℤ pos w) (pos 1),
      pos-parts 1,
    ),
    omega (
      arith,
      g.2,
      ap (λ (q : Pos2). pos_part q.z) f.start,
      ap (λ (q : Pos2). neg_part q.z) f.start,
    ),
    omega (
      arith,
      g.3,
      ap (λ (q : Pos2). pos_part q.z) f.end,
      ap (λ (q : Pos2). neg_part q.z) f.end,
      -ℤ_parts (o.z +ℤ pos h) (pos 1),
      pos-parts 1,
    ),
  )

  pub assign-Frames : (p : Pos2) (v : A) → Frames o w h (assign d p v)
  unfolding assign
  assign-Frames p v = record { start = f.start; end = f.end; full = assign-IsFull d p v f.full }

module _ {o : Pos2} {w h : ℕ} {d : Data2d Bool} (f : Frames o w h d) where
  pub is_set-assign_self : (p : Pos2) (v : Bool) → InGrid o w h p → is_set (assign d p v) p ≡ v
  is_set-assign_self p v g =
      ap (λ o. Option.get_or o false) (at-assign_self d p v f.full (Inside-of_grid f p g))

  pub is_set-assign_ne :
      (p r : Pos2) (v : Bool)
      → InGrid o w h p
      → InGrid o w h r
      → p ≢ r
      → is_set (assign d p v) r ≡ is_set d r
  is_set-assign_ne p r v g k ne =
      ap (λ o. Option.get_or o false)
        (at-assign_ne d p r v (Inside-of_grid f p g) (Inside-of_grid f r k) ne)

module _ (o : Pos2) (w h : ℕ) where
  extent_sized : (s : ℤ) (n : ℕ) → pos_part (s +ℤ pos n -ℤ pos 1 -ℤ s +ℤ pos 1) ≡ n
  extent_sized s n = omega (
    arith,
    +ℤ_parts s (pos n),
    -ℤ_parts (s +ℤ pos n) (pos 1),
    -ℤ_parts (s +ℤ pos n -ℤ pos 1) s,
    +ℤ_parts (s +ℤ pos n -ℤ pos 1 -ℤ s) (pos 1),
    pos-parts n,
    pos-parts 1,
    parts_normal (s +ℤ pos n -ℤ pos 1 -ℤ s +ℤ pos 1),
  )

  pub create_sized-Frames {ℓ} : {A : Type ℓ} (v : A) → Frames o w h (create_sized o w h v)
  unfolding create_sized
  create_sized-Frames v = record {
    start = refl;
    end = refl;
    full = length-replicate (w * h) v ∙ sym (rw (extent_sized o.x w, extent_sized o.z h));
  }

module _ {w : Weights} where
  abbrev pub Grid : Queue2d w → Pos2 → Type 0
  Grid q = InGrid q.origin q.width q.height

  pub record IsValid (q : Queue2d w) : Type 0 where
    pub done : Frames q.origin q.width q.height q.done
    pub lock : Frames q.origin q.width q.height q.lock
    pub weight : Frames q.origin q.width q.height q.weight

  pub create-IsValid : (o : Pos2) (n m r : ℕ) → IsValid (create w o n m r)
  unfolding create
  create-IsValid o n m r = record {
    done = create_sized-Frames o n m false;
    lock = create_sized-Frames o n m false;
    weight = create_sized-Frames o n m w.zero_weight;
  }

  pub in_grid_iff : (q : Queue2d w) (p : Pos2) → (in_grid w q p ≡ true) ↔ Grid q p
  unfolding in_grid
  in_grid_iff q p =
      let a = leb_ℤ_iff q.origin.x p.x in
      let b = ltb_ℤ_iff p.x (q.origin.x +ℤ pos q.width) in
      let c = leb_ℤ_iff q.origin.z p.z in
      let e = ltb_ℤ_iff p.z (q.origin.z +ℤ pos q.height) in
      (ground (arith, a, b, c, e), ground (arith, a, b, c, e))
