-- ===== src/Geometry/Pos.antt =====
-- include/je2be/pos2.hpp, and the positions of src/_pos3.hpp. A coordinate is an `int` that does
-- not overflow, read through the fields fX, fY and fZ.
use je2be.Prelude.{◌≡◌, ◌≢◌, Bool, true, ◌&&◌, ◌↔◌, ◌⊎◌, inl, inr, Bool-cases, arith}
use je2be.Prelude.Int.{ℤ, pos, negsuc, ◌+ℤ◌, ◌-ℤ◌, ◌*ℤ◌, eqb_ℤ, eqb_ℤ_iff}
use je2be.Prelude.Equality.{Eq}

pub record Pos3 : Type 0 where
  pub x : ℤ
  pub y : ℤ
  pub z : ℤ

pub record Pos2 : Type 0 where
  pub x : ℤ
  pub z : ℤ

unfoldable pub eq_pos3 : Pos3 → Pos3 → Bool
eq_pos3 p q = eqb_ℤ p.x q.x && (eqb_ℤ p.y q.y && eqb_ℤ p.z q.z)

pub eq_pos3_iff : (p q : Pos3) → (eq_pos3 p q ≡ true) ↔ (p ≡ q)
unfolding eq_pos3
eq_pos3_iff p q = (
  λ h. ground (arith, eqb_ℤ_iff p.x q.x, eqb_ℤ_iff p.y q.y, eqb_ℤ_iff p.z q.z),
  λ h. ground (arith, eqb_ℤ_iff p.x q.x, eqb_ℤ_iff p.y q.y, eqb_ℤ_iff p.z q.z),
)

unfoldable pub eq_pos2 : Pos2 → Pos2 → Bool
eq_pos2 p q = eqb_ℤ p.x q.x && eqb_ℤ p.z q.z

pub eq_pos2_iff : (p q : Pos2) → (eq_pos2 p q ≡ true) ↔ (p ≡ q)
unfolding eq_pos2
eq_pos2_iff p q = (
  λ h. ground (arith, eqb_ℤ_iff p.x q.x, eqb_ℤ_iff p.z q.z),
  λ h. ground (arith, eqb_ℤ_iff p.x q.x, eqb_ℤ_iff p.z q.z),
)

pub eq_pos2_cases : (p q : Pos2) → (p ≡ q) ⊎ (p ≢ q)
eq_pos2_cases p q = elim (Bool-cases (eq_pos2 p q)) [
  | inl e ↦ inl ((eq_pos2_iff p q).0 e)
  | inr e ↦ inr (λ h. cc (e, (eq_pos2_iff p q).1 h))
]

unfoldable pub right90 : Pos2 → Pos2
right90 v = record { x = cos90 *ℤ v.x -ℤ sin90 *ℤ v.z; z = sin90 *ℤ v.x +ℤ cos90 *ℤ v.z }
  where
    cos90 : ℤ
    cos90 = pos 0

    sin90 : ℤ
    sin90 = pos 1

unfoldable pub left90 : Pos2 → Pos2
left90 v = record { x = cos_m90 *ℤ v.x -ℤ sin_m90 *ℤ v.z; z = sin_m90 *ℤ v.x +ℤ cos_m90 *ℤ v.z }
  where
    cos_m90 : ℤ
    cos_m90 = pos 0

    sin_m90 : ℤ
    sin_m90 = negsuc 0

unfoldable pub is_orthogonal : Pos2 → Pos2 → Bool
is_orthogonal a b = eqb_ℤ (a.x *ℤ b.x +ℤ a.z *ℤ b.z) (pos 0)

instance abbrev pub pos3_eq : Eq Pos3
pos3_eq = record { beq = eq_pos3; beq_iff = eq_pos3_iff }
