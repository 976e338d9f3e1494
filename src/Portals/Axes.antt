-- ===== src/Portals/Axes.antt =====
-- Coordinates along and across the axis of a portal.
use je2be.Prelude.{ℕ, suc, ◌+◌, ◌%◌, ◌≡◌, refl, ap, ◌↔◌, inl, inr}
use je2be.Prelude.{Bool, true, false, arith}
use je2be.Prelude.Int.{ℤ, pos, negsuc, pos_part, neg_part, ◌+ℤ◌, ◌-ℤ◌, ◌*ℤ◌, ◌≤ℤ◌, max_ℤ}
use je2be.Prelude.Int.{+ℤ_parts, -ℤ_parts, pos-parts, eq_of_parts, max_ℤ_cases}
use je2be.Prelude.Words.{to_word}
use je2be.Geometry.Pos.{Pos3, pos3_eq}
use je2be.Geometry.ClosedRange.{Within, closed}
use je2be.Geometry.Volume.Boxes.{Inside}
use je2be.Portals.{Portal, bottom_north_west, top_south_east}
use je2be.Portals.Directions.{cell, *ℤ-pos}
use je2be.Portals.Erasing.{Pos3_ext}

-- The coordinate along the portal's axis and the one across it.
abbrev pub along : Bool → Pos3 → ℤ
along true p = p.x
along false p = p.z

abbrev pub across : Bool → Pos3 → ℤ
across true p = p.z
across false p = p.x

abbrev pub place : Bool → ℤ → ℤ → ℤ → Pos3
place true u y v = record { x = u; y = y; z = v }
place false u y v = record { x = v; y = y; z = u }

abbrev pub tp : Portal → Pos3
tp t = record { x = t.tp_x; y = t.tp_y; z = t.tp_z }

pub place_ext :
    (a : Bool) (r : Pos3) (u y v : ℤ) → along a r ≡ u → r.y ≡ y → across a r ≡ v → r ≡ place a u y v
place_ext true r u y v hu hy hv = Pos3_ext r _ hu hy hv
place_ext false r u y v hu hy hv = Pos3_ext r _ hv hy hu

-- v is u + n.
abbrev pub Gap : ℤ → ℤ → ℕ → Type 0
Gap u v n = pos_part v + neg_part u ≡ pos_part u + neg_part v + n

pub Gap_eq : (u v : ℤ) (n : ℕ) → Gap u v n → v ≡ u +ℤ pos n
Gap_eq u v n g = eq_of_parts _ _ (omega (arith, g, +ℤ_parts u (pos n), pos-parts n))

pub west : (x : ℤ) (n : ℕ) → Gap (x +ℤ negsuc 0 *ℤ pos n) x n
unfolding pos_part neg_part
west x n = omega (arith, *ℤ-pos (negsuc 0) n, +ℤ_parts x (negsuc 0 *ℤ pos n))

pub east : (x : ℤ) (n : ℕ) → Gap x (x +ℤ pos 1 *ℤ pos n) n
unfolding pos_part neg_part
east x n = omega (arith, *ℤ-pos (pos 1) n, +ℤ_parts x (pos 1 *ℤ pos n))

pub still : (x : ℤ) (n : ℕ) → x +ℤ pos 0 *ℤ pos n ≡ x
unfolding pos_part neg_part
still x n = eq_of_parts _ _ (omega (arith, *ℤ-pos (pos 0) n, +ℤ_parts x (pos 0 *ℤ pos n)))

abbrev pub low : Bool → Pos3 → ℕ → ℕ → Pos3
low a start i j = cell (bottom_north_west a) start i j

abbrev pub high : Bool → Pos3 → ℕ → ℕ → Pos3
high a start i j = cell (top_south_east a) start i j

pub along-low :
    (a : Bool) (start : Pos3) (i j : ℕ) → Gap (along a (low a start i j)) (along a start) i
along-low true start i j = west start.x i
along-low false start i j = west start.z i

pub y-low : (a : Bool) (start : Pos3) (i j : ℕ) → Gap (low a start i j).y start.y j
y-low true start i j = west start.y j
y-low false start i j = west start.y j

pub across-low : (a : Bool) (start : Pos3) (i j : ℕ) → across a (low a start i j) ≡ across a start
across-low true start i j = still start.z i
across-low false start i j = still start.x i

pub along-high :
    (a : Bool) (start : Pos3) (i j : ℕ) → Gap (along a start) (along a (high a start i j)) i
along-high true start i j = east start.x i
along-high false start i j = east start.z i

pub y-high : (a : Bool) (start : Pos3) (i j : ℕ) → Gap start.y (high a start i j).y j
y-high true start i j = east start.y j
y-high false start i j = east start.y j

pub across-high : (a : Bool) (start : Pos3) (i j : ℕ) → across a (high a start i j) ≡ across a start
across-high true start i j = still start.z i
across-high false start i j = still start.x i

pub Inside-axes :
    (a : Bool) (p q r : Pos3)
    → Inside (record { first = p; last = q }) r ↔ (
        Within (closed (along a p) (along a q)) (along a r)
        × Within (closed p.y q.y) r.y
        × Within (closed (across a p) (across a q)) (across a r))
Inside-axes true p q r = (λ h. h, λ h. h)
Inside-axes false p q r = (λ h. (h.2, h.1, h.0), λ h. (h.2, h.1, h.0))

pub max_gap :
    (u v u' v' : ℤ) (n : ℕ)
    → Gap u v n
    → u' ≡ v'
    → (max_ℤ (v -ℤ u) (v' -ℤ u') +ℤ pos 1 ≡ pos (suc n))
      × (max_ℤ (v' -ℤ u') (v -ℤ u) +ℤ pos 1 ≡ pos (suc n))
max_gap u v u' v' n g e =
    let k = v -ℤ u in
    let l = v' -ℤ u' in
    let k_parts = -ℤ_parts v u in
    let l_parts = -ℤ_parts v' u' in
    let same = ap pos_part e in
    let same' = ap neg_part e in
    let sum = +ℤ_parts k (pos 1) in
    let sum' = +ℤ_parts l (pos 1) in
    let value : k +ℤ pos 1 ≡ pos (suc n) =
      eq_of_parts _ _ (omega (arith, g, k_parts, sum, pos-parts 1, pos-parts (suc n))) in
    let value' : k ≤ℤ l → l +ℤ pos 1 ≡ pos (suc n) = λ h.
      eq_of_parts _ _ (
        omega (arith, h, g, k_parts, l_parts, same, same', sum', pos-parts 1, pos-parts (suc n))) in
    (
      elim (max_ℤ_cases k l) [ inl h ↦ rw h.1 (value' h.0) | inr h ↦ rw h.1 value ],
      elim (max_ℤ_cases l k) [
        | inl h ↦ rw h.1 value
        | inr h ↦ rw h.1 (value' (omega (arith, h.0)))
      ],
    )

pub extent :
    (a : Bool) (p q : Pos3) (n : ℕ)
    → Gap (along a p) (along a q) n
    → across a p ≡ across a q
    → max_ℤ (q.x -ℤ p.x) (q.z -ℤ p.z) +ℤ pos 1 ≡ pos (suc n)
extent true p q n g e = (max_gap p.x q.x p.z q.z n g e).0
extent false p q n g e = (max_gap p.z q.z p.x q.x n g e).1

pub span-word : (k : ℤ) (n : ℕ) → k ≡ pos n → to_word 8 k ≡ n % 256
unfolding to_word
span-word k n e = rw e refl
