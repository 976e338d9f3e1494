-- ===== src/Portals/Frames.antt =====
-- The portal that one round of `OrientedPortalBlocks::extract` reads off its two corners.
use je2be.Prelude.{ℕ, suc, ◌+◌, ◌-◌, ◌%◌, ◌<◌, ◌≡◌, refl, ap, sym, ◌∙◌, subst, inl, inr}
use je2be.Prelude.{Bool, List, arith, if◌then◌else◌, le_cases}
use je2be.Prelude.Int.{ℤ, pos, pos_part, neg_part, ◌+ℤ◌, ◌≤ℤ◌, ◌<ℤ◌}
use je2be.Prelude.Int.{+ℤ_parts, pos-parts, eq_of_parts}
use je2be.Prelude.Sets.{Has}
use je2be.Geometry.Pos.{Pos3, pos3_eq}
use je2be.Geometry.Volume.Boxes.{Inside}
use je2be.Portals.{Portal, portal_of, bottom_north_west, top_south_east}
use je2be.Portals.Lookup.{Filled, Rectangle}
use je2be.Portals.Axes.{
  along, across, place, tp, place_ext, Gap, Gap_eq, low, high, along-low, y-low, across-low,
  along-high, y-high, across-high, Inside-axes, extent, span-word,
}

-- The portal's span and its first corner, for the block `r`: it lies in a rectangle from that corner
-- on that has a whole row and a whole column of blocks of the set.
pub record Frames (a : Bool) (s : List Pos3) (dim : ℤ) (t : Portal) (r : Pos3) : Type 0 where
  pub n : ℕ
  pub height : ℕ
  pub y : ℤ
  pub u : ℤ
  pub in_dimension : t.dim_id ≡ dim
  pub on_axis : (t.xa ≡ (if a then 1 else 0)) × (t.za ≡ (if a then 0 else 1))
  pub span : t.span ≡ n % 256
  pub row : (i : ℕ) → i < n → Has s (place a (along a (tp t) +ℤ pos i) y (across a (tp t)))
  pub column : (j : ℕ) → j < height → Has s (place a u (t.tp_y +ℤ pos j) (across a (tp t)))
  pub row_in : (t.tp_y ≤ℤ y) × (y <ℤ t.tp_y +ℤ pos height)
  pub column_in : (along a (tp t) ≤ℤ u) × (u <ℤ along a (tp t) +ℤ pos n)
  pub beside : (along a (tp t) ≤ℤ along a r) × (along a r <ℤ along a (tp t) +ℤ pos n)
  pub between : (t.tp_y ≤ℤ r.y) × (r.y <ℤ t.tp_y +ℤ pos height)
  pub level : across a r ≡ across a (tp t)

-- A round of the loop: the two rectangles around the block `start` of the set.
module _ (a : Bool) (s : List Pos3) (dim : ℤ) (start : Pos3) (w1 h1 w2 h2 : ℕ) where
  row_of :
      Filled s (bottom_north_west a) start w1 h1
      → Filled s (top_south_east a) start w2 h2
      → (p : Pos3) → Gap (along a p) (along a start) w1
      → across a p ≡ across a start
      → (i : ℕ) → i < suc (w1 + w2)
      → Has s (place a (along a p +ℤ pos i) start.y (across a p))
  row_of lows highs p g e i b = elim (le_cases i w1) [
    | inl h ↦
        subst (λ c. Has s c)
          (place_ext a (low a start (w1 - i) 0) _ _ _
            (Gap_eq _ _ i (omega (arith, g, h, along-low a start (w1 - i) 0)))
            (eq_of_parts _ _ (omega (arith, y-low a start (w1 - i) 0)))
            (across-low a start (w1 - i) 0 ∙ sym e))
          (lows (w1 - i) 0 (omega arith) (omega arith))
    | inr h ↦
        subst (λ c. Has s c)
          (place_ext a (high a start (i - w1) 0) _ _ _
            (Gap_eq _ _ i (omega (arith, g, h, along-high a start (i - w1) 0)))
            (eq_of_parts _ _ (omega (arith, y-high a start (i - w1) 0)))
            (across-high a start (i - w1) 0 ∙ sym e))
          (highs (i - w1) 0 (omega arith) (omega arith))
  ]

  column_of :
      Filled s (bottom_north_west a) start w1 h1
      → Filled s (top_south_east a) start w2 h2
      → (p : Pos3) → Gap p.y start.y h1
      → across a p ≡ across a start
      → (j : ℕ) → j < suc (h1 + h2)
      → Has s (place a (along a start) (p.y +ℤ pos j) (across a p))
  column_of lows highs p g e j b = elim (le_cases j h1) [
    | inl h ↦
        subst (λ c. Has s c)
          (place_ext a (low a start 0 (h1 - j)) _ _ _
            (eq_of_parts _ _ (omega (arith, along-low a start 0 (h1 - j))))
            (Gap_eq _ _ j (omega (arith, g, h, y-low a start 0 (h1 - j))))
            (across-low a start 0 (h1 - j) ∙ sym e))
          (lows 0 (h1 - j) (omega arith) (omega arith))
    | inr h ↦
        subst (λ c. Has s c)
          (place_ext a (high a start 0 (j - h1)) _ _ _
            (eq_of_parts _ _ (omega (arith, along-high a start 0 (j - h1))))
            (Gap_eq _ _ j (omega (arith, g, h, y-high a start 0 (j - h1))))
            (across-high a start 0 (j - h1) ∙ sym e))
          (highs 0 (j - h1) (omega arith) (omega arith))
  ]

  -- A coordinate between the ends of a gap is below the end of the range.
  below_end : (u c v r : ℤ) (m k : ℕ) → Gap u c m → Gap c v k → r ≤ℤ v → r <ℤ u +ℤ pos (suc (m + k))
  below_end u c v r m k g g' le =
      omega (arith, le, g, g', +ℤ_parts u (pos (suc (m + k))), pos-parts (suc (m + k)))

  portal_of-Frames :
      Filled s (bottom_north_west a) start w1 h1
      → Filled s (top_south_east a) start w2 h2
      → (p q r : Pos3) → Gap (along a p) (along a start) w1
      → across a p ≡ across a start
      → Gap (along a start) (along a q) w2
      → across a q ≡ across a start
      → Gap p.y start.y h1
      → Gap start.y q.y h2
      → Inside (record { first = p; last = q }) r
      → Frames a s dim (portal_of a dim p q) r
  unfolding portal_of
  portal_of-Frames lows highs p q r gp ep gq eq yp yq i =
      let axes = (Inside-axes a p q r).0 i in
      record {
        n = suc (w1 + w2);
        height = suc (h1 + h2);
        y = start.y;
        u = along a start;
        in_dimension = refl;
        on_axis = (refl, refl);
        span =
            span-word _ (suc (w1 + w2))
              (extent a p q (w1 + w2) (omega (arith, gp, gq)) (ep ∙ sym eq));
        row = row_of lows highs p gp ep;
        column = column_of lows highs p yp ep;
        row_in = (omega (arith, yp), below_end _ _ _ start.y h1 h2 yp yq (omega (arith, yq)));
        column_in =
            (omega (arith, gp), below_end _ _ _ (along a start) w1 w2 gp gq (omega (arith, gq)));
        beside = (axes.0.0, below_end _ _ _ (along a r) w1 w2 gp gq axes.0.1);
        between = (axes.1.0, below_end _ _ _ r.y h1 h2 yp yq axes.1.1);
        level =
            eq_of_parts _ _
              (omega (arith, axes.2, ap pos_part (ep ∙ sym eq), ap neg_part (ep ∙ sym eq)));
      }

-- What a round finds at the block `start`: its corners, with the portal read off them.
pub record Round (a : Bool) (s : List Pos3) (dim : ℤ) (start p q : Pos3) : Type 0 where
  pub holds_start : Inside (record { first = p; last = q }) start
  pub frames :
      (r : Pos3)
      → Inside (record { first = p; last = q }) r
      → Frames a s dim (portal_of a dim p q) r

pub corners-Round :
    (a : Bool) (s : List Pos3) (dim : ℤ) (start p q : Pos3)
    → Rectangle s (bottom_north_west a) start p
    → Rectangle s (top_south_east a) start q
    → Round a s dim start p q
corners-Round a s dim start p q l h =
    let gp : Gap (along a p) (along a start) l.w =
      subst (λ c. Gap (along a c) (along a start) l.w) (sym l.ends) (along-low a start l.w l.h) in
    let gq : Gap (along a start) (along a q) h.w =
      subst (λ c. Gap (along a start) (along a c) h.w) (sym h.ends) (along-high a start h.w h.h) in
    let yp : Gap p.y start.y l.h =
      subst (λ (c : Pos3). Gap c.y start.y l.h) (sym l.ends) (y-low a start l.w l.h) in
    let yq : Gap start.y q.y h.h =
      subst (λ (c : Pos3). Gap start.y c.y h.h) (sym h.ends) (y-high a start h.w h.h) in
    let ep = ap (across a) l.ends ∙ across-low a start l.w l.h in
    let eq = ap (across a) h.ends ∙ across-high a start h.w h.h in
    record {
      holds_start = (Inside-axes a p q start).1 (
        omega (arith, gp, gq),
        omega (arith, yp, yq),
        omega (arith, ap pos_part ep, ap neg_part ep, ap pos_part eq, ap neg_part eq),
      );
      frames = λ r i.
          portal_of-Frames a s dim start l.w l.h h.w h.h l.filled h.filled p q r gp ep gq eq yp yq
            i;
    }
