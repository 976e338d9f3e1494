-- ===== src/Storage/Data3d/Cells.antt =====
-- The cells of a `Data3d`: its index, and what a read gives after a write.
use je2be.Prelude.{ℕ, ◌+◌, ◌*◌, ◌<◌, ◌≡◌, refl, sym, ap, ◌∙◌, ◌≢◌, ◌↔◌, inl, inr, true, ◌&&◌}
use je2be.Prelude.{false, ◌||◌, Bool-cases, none, some, length, arith}
use je2be.Prelude.{length-set, get_elem?-total, get_elem?-set_self, get_elem?-set_ne}
use je2be.Prelude.{if◌then◌else◌, subst}
use je2be.Prelude.Int.{ℤ, pos, negsuc, pos_part, ◌-ℤ◌, leb_ℤ, leb_ℤ_iff}
use je2be.Prelude.Int.{ltb_ℤ, ltb_ℤ_iff, +ℤ_parts, -ℤ_parts, pos-parts}
use je2be.Prelude.Offset.{dist, dist_lem, pos-+ℤ, pos-*ℤ, cell-lt, cell_inj, dist-lt-extent}
use je2be.Prelude.Int.{◌<ℤ◌}
use je2be.Prelude.Offset.{extent_lem, dist_inj}
use mathlib.Core.Path.{ap₂}
use native.Mathlib.Nat.{mul_comm, mul_assoc}
use je2be.Geometry.Pos.{Pos3, eq_pos3, eq_pos3_iff}
use je2be.Geometry.Volume.{Volume, contains}
use je2be.Geometry.Volume.Boxes
use je2be.Geometry.Volume.Boxes.{contains_iff}
use je2be.Storage.Data2d.{read, write}
use je2be.Storage.Data3d.{Data3d, extent, index, get, set_cell}

abbrev pub box {ℓ} : {A : Type ℓ} → Data3d A → Volume
box d = record { first = d.start; last = d.end }

abbrev pub Inside {ℓ} : {A : Type ℓ} → Data3d A → Pos3 → Type 0
Inside d p = Boxes.Inside (box d) p

low_iff : (s p : ℤ) → (ltb_ℤ (p -ℤ s) (pos 0) ≡ true) ↔ (p <ℤ s)
low_iff s p =
    let test = ltb_ℤ_iff (p -ℤ s) (pos 0) in
    (
      λ h. omega (arith, test.0 h, -ℤ_parts p s, pos-parts 0),
      λ h. test.1 (omega (arith, -ℤ_parts p s, pos-parts 0)),
    )

high_iff : (s e p : ℤ) → (leb_ℤ (extent s e) (p -ℤ s) ≡ true) ↔ (e <ℤ p)
high_iff s e p =
    let test = leb_ℤ_iff (extent s e) (p -ℤ s) in
    (
      λ h.
          omega
            (arith, test.0 h, -ℤ_parts p s, -ℤ_parts e s, +ℤ_parts (e -ℤ s) (pos 1), pos-parts 1),
      λ h.
          test.1
            (omega (arith, -ℤ_parts p s, -ℤ_parts e s, +ℤ_parts (e -ℤ s) (pos 1), pos-parts 1)),
    )

abbrev width {ℓ} : {A : Type ℓ} → Data3d A → ℕ
width d = pos_part (extent d.start.x d.end.x)

abbrev height {ℓ} : {A : Type ℓ} → Data3d A → ℕ
height d = pos_part (extent d.start.y d.end.y)

abbrev depth {ℓ} : {A : Type ℓ} → Data3d A → ℕ
depth d = pos_part (extent d.start.z d.end.z)

-- The array has a cell for each position of the box.
abbrev pub IsFull {ℓ} : {A : Type ℓ} → Data3d A → Type 0
IsFull d = length d.storage ≡ width d * height d * depth d

abbrev cell {ℓ} : {A : Type ℓ} → Data3d A → Pos3 → ℕ
cell d p = (dist d.start.y p.y * depth d + dist d.start.z p.z) * width d + dist d.start.x p.x

module _ {ℓ} {A : Type ℓ} (d : Data3d A) where
  index-cell : (p : Pos3) → Inside d p → index d p ≡ pos (cell d p)
  unfolding index pos_part
  index-cell p ((x0, x1), (y0, y1), (z0, z1)) =
      rw (below, above)
        (rw
          (
            dist_lem d.start.x p.x x0,
            dist_lem d.start.y p.y y0,
            dist_lem d.start.z p.z z0,
            extent_lem d.start.x d.end.x p.x x0 x1,
            extent_lem d.start.z d.end.z p.z z0 z1,
          )
          (simp (pos-*ℤ, pos-+ℤ)))
    where
      below :
          (ltb_ℤ (p.x -ℤ d.start.x) (pos 0)
            || (ltb_ℤ (p.y -ℤ d.start.y) (pos 0) || ltb_ℤ (p.z -ℤ d.start.z) (pos 0)))
          ≡ false
      below = ground (arith, low_iff d.start.x p.x, low_iff d.start.y p.y, low_iff d.start.z p.z)

      above :
          (leb_ℤ (extent d.start.x d.end.x) (p.x -ℤ d.start.x)
            || (leb_ℤ (extent d.start.y d.end.y) (p.y -ℤ d.start.y)
                || leb_ℤ (extent d.start.z d.end.z) (p.z -ℤ d.start.z)))
          ≡ false
      above = ground (
        arith,
        high_iff d.start.x d.end.x p.x,
        high_iff d.start.y d.end.y p.y,
        high_iff d.start.z d.end.z p.z,
      )

  index_outside : (p : Pos3) → ¬ Inside d p → index d p ≡ negsuc 0
  unfolding index
  index_outside p out = ground (
    arith,
    low_iff d.start.x p.x,
    low_iff d.start.y p.y,
    low_iff d.start.z p.z,
    high_iff d.start.x d.end.x p.x,
    high_iff d.start.y d.end.y p.y,
    high_iff d.start.z d.end.z p.z,
  )

  layer-lt :
      (p : Pos3)
      → Inside d p
      → dist d.start.y p.y * depth d + dist d.start.z p.z < height d * depth d
  layer-lt p (_, (y0, y1), (z0, z1)) =
      cell-lt (dist d.start.z p.z) (dist d.start.y p.y) (depth d) (height d)
        (dist-lt-extent d.start.z d.end.z p.z z0 z1) (dist-lt-extent d.start.y d.end.y p.y y0 y1)

  cell-lt-length : (p : Pos3) → IsFull d → Inside d p → cell d p < length d.storage
  cell-lt-length p full h = omega (
    arith,
    full,
    mul_comm (width d) (height d * depth d),
    mul_assoc (width d) (height d) (depth d),
    cell-lt (dist d.start.x p.x) (dist d.start.y p.y * depth d + dist d.start.z p.z) (width d)
        (height d * depth d) (dist-lt-extent d.start.x d.end.x p.x h.0.0 h.0.1) (layer-lt p h),
  )

  cell-injective : (p q : Pos3) → Inside d p → Inside d q → cell d p ≡ cell d q → p ≡ q
  cell-injective p q ((px0, px1), (py0, py1), (pz0, pz1)) ((qx0, qx1), (qy0, qy1), (qz0, qz1)) e =
      let outer =
        cell_inj (width d) (dist d.start.x p.x) (dist d.start.y p.y * depth d + dist d.start.z p.z)
          (dist d.start.x q.x) (dist d.start.y q.y * depth d + dist d.start.z q.z)
          (dist-lt-extent d.start.x d.end.x p.x px0 px1)
          (dist-lt-extent d.start.x d.end.x q.x qx0 qx1) e in
      let inner =
        cell_inj (depth d) (dist d.start.z p.z) (dist d.start.y p.y) (dist d.start.z q.z)
          (dist d.start.y q.y) (dist-lt-extent d.start.z d.end.z p.z pz0 pz1)
          (dist-lt-extent d.start.z d.end.z q.z qz0 qz1) outer.1 in
      let x = dist_inj d.start.x p.x q.x px0 qx0 outer.0 in
      let y = dist_inj d.start.y p.y q.y py0 qy0 inner.1 in
      let z = dist_inj d.start.z p.z q.z pz0 qz0 inner.0 in
      λ i. record { x = x i; y = y i; z = z i }

  set_self : (p : Pos3) (v : A) → IsFull d → Inside d p → get (set_cell d p v) p ≡ some v
  unfolding get set_cell
  set_self p v full h =
      ap (λ i. read (write d.storage i v) i) (index-cell p h)
      ∙ get_elem?-set_self d.storage (cell d p) v (cell-lt-length p full h)

  set_ne : (p q : Pos3) (v : A) → Inside d p → Inside d q → p ≢ q → get (set_cell d p v) q ≡ get d q
  unfolding get set_cell
  set_ne p q v h g ne =
      ap₂ (λ i j. read (write d.storage i v) j) (index-cell p h) (index-cell q g)
      ∙ get_elem?-set_ne d.storage (cell d p) (cell d q) v (λ e. ne (cell-injective p q h g e))
      ∙ sym (ap (read d.storage) (index-cell q g))

  set_outside : (p q : Pos3) (v : A) → ¬ Inside d p → get (set_cell d p v) q ≡ get d q
  unfolding get set_cell
  set_outside p q v out = ap (λ i. read (write d.storage i v) (index d q)) (index_outside p out)

  get_outside : (q : Pos3) → ¬ Inside d q → get d q ≡ none
  unfolding get
  get_outside q out = ap (read d.storage) (index_outside q out)

  written_outside : (p q : Pos3) (v : A) → ¬ Inside d q → get (set_cell d p v) q ≡ none
  unfolding get set_cell
  written_outside p q v out = ap (read (write d.storage (index d p) v)) (index_outside q out)

  -- In an array with a cell for each position of its box, a read after a write gives the value
  -- written, where the position is the one written and lies in the box; what was there before,
  -- everywhere else, outside the box included.
  pub get-set_cell :
      (p q : Pos3) (v : A)
      → IsFull d
      → get (set_cell d p v) q ≡ (if eq_pos3 p q && contains (box d) p then some v else get d q)
  get-set_cell p q v full = elim (Bool-cases (contains (box d) p)) [
    | inr out ↦
        let far : ¬ Inside d p = λ h. cc (out, (contains_iff (box d) p).1 h) in
        rw (set_outside p q v far) (ground (arith, out))
    | inl inside ↦
        let h = (contains_iff (box d) p).0 inside in
        elim (Bool-cases (eq_pos3 p q)) [
          | inl same ↦
              let e = (eq_pos3_iff p q).0 same in
              rw (same, inside)
                (subst (λ r. get (set_cell d p v) r ≡ some v) e (set_self p v full h))
          | inr other ↦
              let ne : p ≢ q = λ e. cc (other, (eq_pos3_iff p q).1 e) in
              elim (Bool-cases (contains (box d) q)) [
                | inl inside' ↦ rw other (set_ne p q v h ((contains_iff (box d) q).0 inside') ne)
                | inr out ↦
                    let far : ¬ Inside d q = λ g. cc (out, (contains_iff (box d) q).1 g) in
                    rw other (written_outside p q v far ∙ sym (get_outside q far))
              ]
        ]
  ]

  -- A write keeps the number of cells, and a read inside the box meets one.
  pub set_cell-IsFull : (p : Pos3) (v : A) → IsFull d → IsFull (set_cell d p v)
  unfolding set_cell
  set_cell-IsFull p v full = length-write (index d p) ∙ full
    where
      length-write : (i : ℤ) → length (write d.storage i v) ≡ length d.storage
      length-write (pos n) = length-set d.storage n v
      length-write (negsuc n) = refl

  pub get_total : (p : Pos3) → IsFull d → Inside d p → (v : A) × (get d p ≡ some v)
  unfolding get
  get_total p full h =
      let c = get_elem?-total d.storage (cell d p) (cell-lt-length p full h) in
      (c.0, ap (read d.storage) (index-cell p h) ∙ c.1)
