-- ===== src/Portals/Erasing.antt =====
-- The erasing loops of `OrientedPortalBlocks::extract`: they take the box between the corners out
-- of the set.
use je2be.Prelude.{ℕ, zero, suc, ◌<◌, ◌≡◌, ap, ◌↔◌, inl, inr, List, length, arith}
use je2be.Prelude.Int.{pos, ◌+ℤ◌}
use je2be.Prelude.Sets.{Has, erase, Has-erase, Shrinks, Shrinks-refl, Shrinks-trans, erase-Shrinks}
use je2be.Prelude.Loops.{Ahead, Ahead-zero, Ahead-suc, Ahead-rounds}
use je2be.Geometry.Pos.{Pos3, pos3_eq}
use je2be.Geometry.Volume.Boxes.{Inside}
use je2be.Portals.{erase_y, erase_z, erase_x, erase_box, rounds}

pub Pos3_ext : (p q : Pos3) → p.x ≡ q.x → p.y ≡ q.y → p.z ≡ q.z → p ≡ q
Pos3_ext p q x y z = ground (arith, x, y, z)

erase_y_iff :
    (n : ℕ) (p : Pos3) (s : List Pos3) (r : Pos3)
    → Has (erase_y n p s) r ↔ (Has s r × ¬ ((r.x ≡ p.x) × Ahead p.y n r.y × (r.z ≡ p.z)))
unfolding erase_y
erase_y_iff zero p s r = (λ h. (h, λ k. Ahead-zero p.y r.y k.1), λ h. h.0)
erase_y_iff (suc n) p s r =
    let next : Pos3 = record { x = p.x; y = p.y +ℤ pos 1; z = p.z } in
    let ih = erase_y_iff n next (erase p s) r in
    let one = Has-erase r p s in
    let more = Ahead-suc p.y n r.y in
    (
      λ h.
          let k = ih.0 h in
          let m = one.0 k.0 in
          (
            m.0,
            λ c. elim (more.0 c.1) [
              | inl e ↦ m.1 (Pos3_ext r p c.0 e c.2)
              | inr a ↦ k.1 (c.0, a, c.2)
            ],
          ),
      λ h. ih.1 (
        one.1 (h.0, λ e. h.1 (ap (λ q. q.x) e, more.1 (inl (ap (λ q. q.y) e)), ap (λ q. q.z) e)),
        λ c. h.1 (c.0, more.1 (inr c.1), c.2),
      ),
    )

erase_z_iff :
    (n m : ℕ) (p : Pos3) (s : List Pos3) (r : Pos3)
    → Has (erase_z n m p s) r ↔ (Has s r × ¬ ((r.x ≡ p.x) × Ahead p.y m r.y × Ahead p.z n r.z))
unfolding erase_z
erase_z_iff zero m p s r = (λ h. (h, λ k. Ahead-zero p.z r.z k.2), λ h. h.0)
erase_z_iff (suc n) m p s r =
    let next : Pos3 = record { x = p.x; y = p.y; z = p.z +ℤ pos 1 } in
    let ih = erase_z_iff n m next (erase_y m p s) r in
    let one = erase_y_iff m p s r in
    let more = Ahead-suc p.z n r.z in
    (
      λ h.
          let k = ih.0 h in
          let o = one.0 k.0 in
          (o.0, λ c. elim (more.0 c.2) [ inl e ↦ o.1 (c.0, c.1, e) | inr a ↦ k.1 (c.0, c.1, a) ]),
      λ h. ih.1 (
        one.1 (h.0, λ c. h.1 (c.0, c.1, more.1 (inl c.2))),
        λ c. h.1 (c.0, c.1, more.1 (inr c.2)),
      ),
    )

erase_x_iff :
    (n d m : ℕ) (p : Pos3) (s : List Pos3) (r : Pos3)
    → Has (erase_x n d m p s) r
      ↔ (Has s r × ¬ (Ahead p.x n r.x × Ahead p.y m r.y × Ahead p.z d r.z))
unfolding erase_x
erase_x_iff zero d m p s r = (λ h. (h, λ k. Ahead-zero p.x r.x k.0), λ h. h.0)
erase_x_iff (suc n) d m p s r =
    let next : Pos3 = record { x = p.x +ℤ pos 1; y = p.y; z = p.z } in
    let ih = erase_x_iff n d m next (erase_z d m p s) r in
    let one = erase_z_iff d m p s r in
    let more = Ahead-suc p.x n r.x in
    (
      λ h.
          let k = ih.0 h in
          let o = one.0 k.0 in
          (o.0, λ c. elim (more.0 c.0) [ inl e ↦ o.1 (e, c.1, c.2) | inr a ↦ k.1 (a, c.1, c.2) ]),
      λ h. ih.1 (
        one.1 (h.0, λ c. h.1 (more.1 (inl c.0), c.1, c.2)),
        λ c. h.1 (more.1 (inr c.0), c.1, c.2),
      ),
    )

-- The box is taken out of the set and nothing else is.
pub erase_box_iff :
    (p q : Pos3) (s : List Pos3) (r : Pos3)
    → Has (erase_box p q s) r ↔ (Has s r × ¬ Inside (record { first = p; last = q }) r)
unfolding erase_box
erase_box_iff p q s r =
    let all = erase_x_iff (rounds p.x q.x) (rounds p.z q.z) (rounds p.y q.y) p s r in
    let x = Ahead-rounds p.x q.x r.x in
    let y = Ahead-rounds p.y q.y r.y in
    let z = Ahead-rounds p.z q.z r.z in
    (
      λ h. ((all.0 h).0, λ c. (all.0 h).1 (x.1 c.0, y.1 c.1, z.1 c.2)),
      λ h. all.1 (h.0, λ c. h.1 (x.0 c.0, y.0 c.1, z.0 c.2)),
    )

erase_y-Shrinks : (n : ℕ) (p : Pos3) (s : List Pos3) → Shrinks s (erase_y n p s)
unfolding erase_y
erase_y-Shrinks zero p s = Shrinks-refl s
erase_y-Shrinks (suc n) p s =
    Shrinks-trans s (erase p s) _ (erase-Shrinks p s) (erase_y-Shrinks n _ (erase p s))

erase_z-Shrinks : (n m : ℕ) (p : Pos3) (s : List Pos3) → Shrinks s (erase_z n m p s)
unfolding erase_z
erase_z-Shrinks zero m p s = Shrinks-refl s
erase_z-Shrinks (suc n) m p s =
    Shrinks-trans s (erase_y m p s) _ (erase_y-Shrinks m p s)
      (erase_z-Shrinks n m _ (erase_y m p s))

erase_x-Shrinks : (n d m : ℕ) (p : Pos3) (s : List Pos3) → Shrinks s (erase_x n d m p s)
unfolding erase_x
erase_x-Shrinks zero d m p s = Shrinks-refl s
erase_x-Shrinks (suc n) d m p s =
    Shrinks-trans s (erase_z d m p s) _ (erase_z-Shrinks d m p s)
      (erase_x-Shrinks n d m _ (erase_z d m p s))

-- The set gets smaller when the box holds one of its entries.
pub length-erase_box_lt :
    (p q : Pos3) (s : List Pos3) (r : Pos3)
    → Has s r
    → Inside (record { first = p; last = q }) r
    → length (erase_box p q s) < length s
unfolding erase_box
length-erase_box_lt p q s r here i =
    (erase_x-Shrinks (rounds p.x q.x) (rounds p.z q.z) (rounds p.y q.y) p s).loses r here
      (λ h. ((erase_box_iff p q s r).0 h).1 i)
