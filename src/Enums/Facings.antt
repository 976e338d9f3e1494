-- ===== src/Enums/Facings.antt =====
-- The numbers and vectors of the facings of src/enums/_facing4.hpp and _facing6.hpp.
use je2be.Prelude.{◌≡◌, ℕ, suc, refl, Bool, true, false, ap, sym, some, List, [], ◌∷◌, arith}
use je2be.Prelude.Int.{ℤ, pos, ◌+ℤ◌, ◌*ℤ◌, eqb_ℤ, ltb_ℤ}
use std.Path.{fun_ext}
use je2be.Geometry.Pos.{Pos2, Pos3}
use je2be.Enums.Facing4.{
  Facing4, java_name_from_facing4, facing4_from_java_name, bedrock_direction_from_facing4,
  facing4_from_bedrock_direction, pos2_from_facing4, facing4_from_pos2,
}
use je2be.Enums.Facing6.{
  Facing6, java_name_from_facing6, facing6_from_java_name, direction_a_from_facing6,
  facing6_from_direction_a, direction_b_from_facing6, facing6_from_direction_b, facing6_invert,
  pos3_from_facing6, facing6_enumerate, and_then,
}

-- The Java name, the Bedrock direction and the vector of a horizontal facing each give it back.
pub facing4_round_trips :
    (f : Facing4)
    → (facing4_from_java_name (java_name_from_facing4 f) ≡ f)
      × (facing4_from_bedrock_direction (bedrock_direction_from_facing4 f) ≡ f)
      × (facing4_from_pos2 (pos2_from_facing4 f) ≡ some f)
unfolding java_name_from_facing4 facing4_from_java_name bedrock_direction_from_facing4
    facing4_from_bedrock_direction pos2_from_facing4 facing4_from_pos2 eqb_ℤ ltb_ℤ
facing4_round_trips Facing4.north = (refl, refl, refl)
facing4_round_trips Facing4.east = (refl, refl, refl)
facing4_round_trips Facing4.south = (refl, refl, refl)
facing4_round_trips Facing4.west = (refl, refl, refl)

-- The vector times a length.
abbrev pub along : ℤ → Pos2 → Pos2
along n p = record { x = n *ℤ p.x; z = n *ℤ p.z }

-- A positive multiple of the vector of a facing gives that facing.
facing4_from_pos2-along :
    (n : ℕ) (f : Facing4) → facing4_from_pos2 (along (pos (suc n)) (pos2_from_facing4 f)) ≡ some f
unfolding facing4_from_pos2 pos2_from_facing4 ◌*ℤ◌ eqb_ℤ ltb_ℤ
facing4_from_pos2-along n Facing4.north = ground arith
facing4_from_pos2-along n Facing4.east = ground arith
facing4_from_pos2-along n Facing4.south = ground arith
facing4_from_pos2-along n Facing4.west = ground arith

-- The Java name and the Bedrock numbers A and B of a facing each give it back.
pub facing6_round_trips :
    (f : Facing6)
    → (facing6_from_java_name (java_name_from_facing6 f) ≡ f)
      × (facing6_from_direction_a (direction_a_from_facing6 f) ≡ f)
      × (facing6_from_direction_b (direction_b_from_facing6 f) ≡ f)
unfolding java_name_from_facing6 facing6_from_java_name direction_a_from_facing6
    facing6_from_direction_a direction_b_from_facing6 facing6_from_direction_b eqb_ℤ
facing6_round_trips Facing6.north = (refl, refl, refl)
facing6_round_trips Facing6.east = (refl, refl, refl)
facing6_round_trips Facing6.south = (refl, refl, refl)
facing6_round_trips Facing6.west = (refl, refl, refl)
facing6_round_trips Facing6.up = (refl, refl, refl)
facing6_round_trips Facing6.down = (refl, refl, refl)

-- The sum of two vectors.
abbrev pub add_pos3 : Pos3 → Pos3 → Pos3
add_pos3 p q = record { x = p.x +ℤ q.x; y = p.y +ℤ q.y; z = p.z +ℤ q.z }

-- Inverting a facing twice gives it back, and its vector and that of the inverse add up to zero.
facing6_invert_lem :
    (f : Facing6)
    → (facing6_invert (facing6_invert f) ≡ f)
      × (add_pos3 (pos3_from_facing6 f) (pos3_from_facing6 (facing6_invert f))
          ≡ record { x = pos 0; y = pos 0; z = pos 0 })
unfolding facing6_invert pos3_from_facing6 ◌+ℤ◌
facing6_invert_lem Facing6.north = (refl, refl)
facing6_invert_lem Facing6.east = (refl, refl)
facing6_invert_lem Facing6.south = (refl, refl)
facing6_invert_lem Facing6.west = (refl, refl)
facing6_invert_lem Facing6.up = (refl, refl)
facing6_invert_lem Facing6.down = (refl, refl)

-- The action on each facing of a list in turn, up to the first that it refuses.
unfoldable pub act_in_turn {ℓ} :
    {S : Type ℓ} → (Facing6 → S → Bool × S) → List Facing6 → S → Bool × S
unfolding and_then
act_in_turn action [] s = (true, s)
act_in_turn action (f ∷ l) s = and_then (action f s) (λ t. act_in_turn action l t)

and_then_done {ℓ} : {S : Type ℓ} (r : Bool × S) → and_then r (λ t. (true, t)) ≡ r
unfolding and_then
and_then_done (false, s) = refl
and_then_done (true, s) = refl

-- Enumerating the facings runs the action on north, east, south, west, up and down in turn, up to
-- the first that it refuses, and returns whether it refused none.
pub facing6_enumerate_lem {ℓ} :
    {S : Type ℓ} (action : Facing6 → S → Bool × S) (s : S)
    → facing6_enumerate action s
      ≡ act_in_turn action
          (Facing6.north ∷ Facing6.east ∷ Facing6.south ∷ Facing6.west ∷ Facing6.up ∷ Facing6.down
            ∷ [])
          s
unfolding facing6_enumerate act_in_turn
facing6_enumerate_lem action s =
    ap
      (λ k. and_then (action Facing6.north s) (λ s1. and_then (action Facing6.east s1) (λ s2.
        and_then (action Facing6.south s2) (λ s3.
          and_then (action Facing6.west s3) (λ s4. and_then (action Facing6.up s4) (λ s5. k s5))))))
      (fun_ext (λ t. sym (and_then_done (action Facing6.down t))))
