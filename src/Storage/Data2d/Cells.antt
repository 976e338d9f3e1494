-- ===== src/Storage/Data2d/Cells.antt =====
-- The cells of a `Data2d`: what a read gives after a write.
use je2be.Prelude.{ℕ, ◌+◌, ◌*◌, ◌<◌, ◌≡◌, refl, sym, ap, ◌∙◌, ◌≢◌, ◌↔◌, ◌⊎◌, inl, inr, true, ◌&&◌}
use je2be.Prelude.{subst, none, some, length, length-set, arith}
use je2be.Prelude.{get_elem?-total, get_elem?-set_self, get_elem?-set_ne}
use je2be.Prelude.{Bool-cases, if◌then◌else◌}
use je2be.Prelude.Int.{ℤ, pos, negsuc, pos_part, ◌+ℤ◌, ◌-ℤ◌, ◌≤ℤ◌, leb_ℤ, leb_ℤ_iff}
use je2be.Prelude.Offset.{dist, dist_lem, pos-+ℤ, pos-*ℤ, cell-lt, cell_inj}
use je2be.Prelude.Offset.{dist-lt-extent, extent_lem, dist_inj}
use mathlib.Core.Path.{ap₂}
use native.Mathlib.Nat.{mul_comm}
use je2be.Geometry.Pos.{Pos2, eq_pos2, eq_pos2_iff}
use je2be.Storage.Data2d.{Data2d, index, read, write, at, assign, get}

abbrev pub Inside {ℓ} : {A : Type ℓ} → Data2d A → Pos2 → Type 0
Inside d p = (d.start.x ≤ℤ p.x) × (p.x ≤ℤ d.end.x) × (d.start.z ≤ℤ p.z) × (p.z ≤ℤ d.end.z)

abbrev pub width {ℓ} : {A : Type ℓ} → Data2d A → ℕ
width d = pos_part (d.end.x -ℤ d.start.x +ℤ pos 1)

abbrev pub height {ℓ} : {A : Type ℓ} → Data2d A → ℕ
height d = pos_part (d.end.z -ℤ d.start.z +ℤ pos 1)

-- The vector has a cell for each position.
abbrev pub IsFull {ℓ} : {A : Type ℓ} → Data2d A → Type 0
IsFull d = length d.storage ≡ width d * height d

abbrev cell {ℓ} : {A : Type ℓ} → Data2d A → Pos2 → ℕ
cell d p = dist d.start.z p.z * width d + dist d.start.x p.x

module _ {ℓ} {A : Type ℓ} (d : Data2d A) where
  index-cell : (p : Pos2) → Inside d p → index d p ≡ pos (cell d p)
  unfolding index pos_part
  index-cell p h = rw (
    dist_lem d.start.z p.z h.2,
    dist_lem d.start.x p.x h.0,
    extent_lem d.start.x d.end.x p.x h.0 h.1,
    pos-*ℤ,
    pos-+ℤ,
  )

  cell-lt-length : (p : Pos2) → IsFull d → Inside d p → cell d p < length d.storage
  cell-lt-length p full h = omega (
    arith,
    full,
    mul_comm (width d) (height d),
    cell-lt (dist d.start.x p.x) (dist d.start.z p.z) (width d) (height d)
        (dist-lt-extent d.start.x d.end.x p.x h.0 h.1)
        (dist-lt-extent d.start.z d.end.z p.z h.2 h.3),
  )

  cell-injective : (p q : Pos2) → Inside d p → Inside d q → cell d p ≡ cell d q → p ≡ q
  cell-injective p q h g e =
      let parts =
        cell_inj (width d) (dist d.start.x p.x) (dist d.start.z p.z) (dist d.start.x q.x)
          (dist d.start.z q.z) (dist-lt-extent d.start.x d.end.x p.x h.0 h.1)
          (dist-lt-extent d.start.x d.end.x q.x g.0 g.1) e in
      let x = dist_inj d.start.x p.x q.x h.0 g.0 parts.0 in
      let z = dist_inj d.start.z p.z q.z h.2 g.2 parts.1 in λ i. record { x = x i; z = z i }

  -- Inside the rectangle `operator[]` reads a cell.
  pub at_total : (p : Pos2) → IsFull d → Inside d p → (v : A) × (at d p ≡ some v)
  unfolding at
  at_total p full h =
      let c = get_elem?-total d.storage (cell d p) (cell-lt-length p full h) in
      (c.0, ap (read d.storage) (index-cell p h) ∙ c.1)

  pub at-assign_self : (p : Pos2) (v : A) → IsFull d → Inside d p → at (assign d p v) p ≡ some v
  unfolding at assign
  at-assign_self p v full h =
      ap (λ i. read (write d.storage i v) i) (index-cell p h)
      ∙ get_elem?-set_self d.storage (cell d p) v (cell-lt-length p full h)

  pub at-assign_ne :
      (p q : Pos2) (v : A) → Inside d p → Inside d q → p ≢ q → at (assign d p v) q ≡ at d q
  unfolding at assign
  at-assign_ne p q v h g ne =
      ap₂ (λ i j. read (write d.storage i v) j) (index-cell p h) (index-cell q g)
      ∙ get_elem?-set_ne d.storage (cell d p) (cell d q) v (λ e. ne (cell-injective p q h g e))
      ∙ sym (ap (read d.storage) (index-cell q g))

  pub assign-IsFull : (p : Pos2) (v : A) → IsFull d → IsFull (assign d p v)
  unfolding assign
  assign-IsFull p v full = length-write (index d p) ∙ full
    where
      length-write : (i : ℤ) → length (write d.storage i v) ≡ length d.storage
      length-write (pos n) = length-set d.storage n v
      length-write (negsuc n) = refl

  Inside-test_iff :
      (p : Pos2)
      → (leb_ℤ d.start.x p.x && (leb_ℤ p.x d.end.x && (leb_ℤ d.start.z p.z && leb_ℤ p.z d.end.z))
          ≡ true)
        ↔ Inside d p
  Inside-test_iff p =
      let a = leb_ℤ_iff d.start.x p.x in
      let b = leb_ℤ_iff p.x d.end.x in
      let c = leb_ℤ_iff d.start.z p.z in
      let e = leb_ℤ_iff p.z d.end.z in (ground (arith, a, b, c, e), ground (arith, a, b, c, e))

  -- `get` reads the cell inside the rectangle, and gives nothing outside.
  pub get_lem : (p : Pos2) → Inside d p × (get d p ≡ at d p) ⊎ (¬ Inside d p) × (get d p ≡ none)
  unfolding get at
  get_lem p =
      elim (Bool-cases (
        leb_ℤ d.start.x p.x && (leb_ℤ p.x d.end.x && (leb_ℤ d.start.z p.z && leb_ℤ p.z d.end.z)))) [
          | inl e ↦ inl ((Inside-test_iff p).0 e, rw e)
          | inr e ↦ inr (λ h. cc (e, (Inside-test_iff p).1 h), rw e)
        ]

  -- In a rectangle with a cell for each position, an entry that is read after an assignment is the
  -- value assigned at that position, and what was there before at any other.
  pub at-assign :
      (p q : Pos2) (v : A)
      → IsFull d
      → Inside d p
      → Inside d q
      → at (assign d p v) q ≡ (if eq_pos2 p q then some v else at d q)
  at-assign p q v full h g = elim (Bool-cases (eq_pos2 p q)) [
    | inl e ↦ rw e (
        subst (λ r. at (assign d p v) r ≡ some v) ((eq_pos2_iff p q).0 e)
          (at-assign_self p v full h))
    | inr e ↦ rw e (at-assign_ne p q v h g (λ same. cc (e, (eq_pos2_iff p q).1 same)))
  ]
