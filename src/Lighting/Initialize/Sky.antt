-- ===== src/Lighting/Initialize/Sky.antt =====
-- `InitializeSkyLight`: a block under the open sky has level 15.
use je2be.Prelude.{ℕ, zero, suc, ◌≤◌, ◌≡◌, refl, ap, sym, subst, inl, inr, arith}
use je2be.Prelude.{Bool, true, false, not, ◌&&◌, ◌||◌, Bool-cases, some, if◌then◌else◌}
use je2be.Prelude.Int.{
  ℤ, pos, pos_part, neg_part, ◌+ℤ◌, ◌-ℤ◌, ◌≤ℤ◌, ◌<ℤ◌, eqb_ℤ, eqb_ℤ_iff, eqb_ℤ_cases,
}
use je2be.Prelude.Int.{+ℤ_parts, -ℤ_parts, pos-parts}
use je2be.Geometry.Pos.{Pos3}
use je2be.Geometry.Volume.{Volume}
use je2be.Enums.Facing6.{down}
use je2be.Lighting.Models.{is_face_opened}
use je2be.Lighting.Diffuse.{Models, Levels, put}
use je2be.Lighting.Diffuse.Steps.{put_lem}
use je2be.Lighting.Initialize.{Columns, sky_column, lets_sky}
use je2be.Lighting.Initialize.{least_y, greatest_y}
use je2be.Lighting.Initialize.Bounds.{Raises, Raises-refl, Raises-trans, put-Raises}

abbrev ColumnsRaise : Columns → Columns → Type 0
ColumnsRaise s t = Raises s.out t.out

module _ (models : Models) (v : Volume) (bx bz : ℤ) where
  abbrev at : ℤ → Pos3
  at y = record { x = bx; y = y; z = bz }

  -- The level that a round gives.
  abbrev lit_out : Bool → ℤ → Levels → Levels
  lit_out is_cached by out =
      if lets_sky (models (at by)) && not is_cached then put out (at by) 15 else out

  lit_out-Raises :
      (is_cached : Bool) (by : ℤ) (out : Levels) → Raises out (lit_out is_cached by out)
  lit_out-Raises is_cached by out = either (lets_sky (models (at by)) && not is_cached)
    where
      either : (c : Bool) → Raises out (if c then put out (at by) 15 else out)
      either true = put-Raises out (at by) 15 (λ low. (low (at by), omega arith))
      either false = Raises-refl out

  pub sky_column-Raises :
      (is_cached : Bool) (n : ℕ) (by : ℤ) (s : Columns)
      → ColumnsRaise s (sky_column models is_cached v bx bz n by s)
  unfolding sky_column
  sky_column-Raises is_cached zero by s = Raises-refl s.out
  sky_column-Raises is_cached (suc n) by s =
      let out = lit_out is_cached by s.out in
      let next : Columns = record { out = out; min_y = s.min_y; max_y = s.max_y } in
      either
        (not (lets_sky (models (at by)))
          || (not (is_face_opened down (models (at by))) || eqb_ℤ by v.first.y))
        (sky_column-Raises is_cached n (by -ℤ pos 1) next)
    where
      either :
          (c : Bool)
          → let next : Columns = record {
            out = lit_out is_cached by s.out;
            min_y = s.min_y;
            max_y = s.max_y;
          } in
            ColumnsRaise next (sky_column models is_cached v bx bz n (by -ℤ pos 1) next)
            → ColumnsRaise s (
                if c
                then record {
                  out = lit_out is_cached by s.out;
                  min_y = some (least_y s.min_y by);
                  max_y = some (greatest_y s.max_y by);
                }
                else sky_column models is_cached v bx bz n (by -ℤ pos 1) next)
      either true h = lit_out-Raises is_cached by s.out
      either false h = Raises-trans s.out _ _ (lit_out-Raises is_cached by s.out) h

  -- Each block from `y` up to `top` has the light of the sky, and above `y` lets it down.
  pub record Open (y top : ℤ) : Type 0 where
    pub lit : (i : ℤ) → y ≤ℤ i → i ≤ℤ top → lets_sky (models (at i)) ≡ true
    pub clear_below : (i : ℤ) → y <ℤ i → i ≤ℤ top → is_face_opened down (models (at i)) ≡ true

  abbrev lit_columns : ℤ → Columns → Columns
  lit_columns by s = record { out = put s.out (at by) 15; min_y = s.min_y; max_y = s.max_y }

  lit_columns_at : (by : ℤ) (s : Columns) → 15 ≤ (lit_columns by s).out (at by)
  lit_columns_at by s = elim (put_lem s.out (at by) 15 (at by)) [
    | inl m ↦ omega (arith, m.1)
    | inr m ↦ absurd (m.0 refl)
  ]

  lit_columns_low :
      (by : ℤ) (s : Columns)
      → ((q : Pos3) → s.out q ≤ 15)
      → (q : Pos3) → (lit_columns by s).out q ≤ 15
  lit_columns_low by s low q = (put-Raises s.out (at by) 15 (λ h. (h (at by), omega arith)) low q).1

  -- A round at a block that has the light of the sky.
  sky_round :
      (n : ℕ) (by : ℤ) (s : Columns)
      → lets_sky (models (at by)) ≡ true
      → sky_column models false v bx bz (suc n) by s ≡ (
          if not (is_face_opened down (models (at by))) || eqb_ℤ by v.first.y
          then record {
            out = put s.out (at by) 15;
            min_y = some (least_y s.min_y by);
            max_y = some (greatest_y s.max_y by);
          }
          else sky_column models false v bx bz n (by -ℤ pos 1) (lit_columns by s))
  unfolding sky_column
  sky_round n by s h = rw (h, sky_column) refl

  sky_column_top :
      (n : ℕ) (by : ℤ) (s : Columns)
      → lets_sky (models (at by)) ≡ true
      → ((q : Pos3) → s.out q ≤ 15)
      → 15 ≤ (sky_column models false v bx bz (suc n) by s).out (at by)
  sky_column_top n by s h low =
      subst (λ (c : Columns). 15 ≤ c.out (at by)) (sym (sky_round n by s h))
        (either (not (is_face_opened down (models (at by))) || eqb_ℤ by v.first.y))
    where
      either :
          (c : Bool)
          → 15
            ≤ (if c
                  then record {
                    out = put s.out (at by) 15;
                    min_y = some (least_y s.min_y by);
                    max_y = some (greatest_y s.max_y by);
                  }
                  else sky_column models false v bx bz n (by -ℤ pos 1) (lit_columns by s)).out
                (at by)
      either true = lit_columns_at by s
      either false = omega (
        arith,
        lit_columns_at by s,
        sky_column-Raises false n (by -ℤ pos 1) (lit_columns by s) (lit_columns_low by s low)
            (at by),
      )

  pub sky_column_lights :
      (y : ℤ) (n : ℕ) (by : ℤ) (s : Columns)
      → v.first.y ≤ℤ y
      → y ≤ℤ by
      → by <ℤ y +ℤ pos n
      → Open y by
      → ((q : Pos3) → s.out q ≤ 15)
      → 15 ≤ (sky_column models false v bx bz n by s).out (at y)
  sky_column_lights y zero by s f l b o low =
      absurd (omega (arith, l, b, +ℤ_parts y (pos 0), pos-parts 0))
  sky_column_lights y (suc n) by s f l b o low = elim (eqb_ℤ_cases by y) [
    | inl e ↦
        subst (λ u. 15 ≤ (sky_column models false v bx bz (suc n) by s).out (at u)) e
          (sky_column_top n by s (o.lit by l (omega arith)) low)
    | inr ne ↦
        let higher : y <ℤ by = omega (arith, l, ne) in
        let more =
          sky_column_lights y n (by -ℤ pos 1) (lit_columns by s) f
            (omega (arith, higher, -ℤ_parts by (pos 1), pos-parts 1))
            (omega (
              arith,
              b,
              -ℤ_parts by (pos 1),
              pos-parts 1,
              +ℤ_parts y (pos n),
              +ℤ_parts y (pos (suc n)),
              pos-parts n,
              pos-parts (suc n),
            ))
            (record {
              lit = λ i a c. o.lit i a (omega (arith, c, -ℤ_parts by (pos 1), pos-parts 1));
              clear_below =
                  λ i a c. o.clear_below i a (omega (arith, c, -ℤ_parts by (pos 1), pos-parts 1));
            })
            (lit_columns_low by s low) in
        subst (λ (c : Columns). 15 ≤ c.out (at y))
          (sym (sky_round n by s (o.lit by l (omega arith))))
          (rw (o.clear_below by higher (omega arith), not_first y by f higher) more)
  ]
    where
      not_first : (u w : ℤ) → v.first.y ≤ℤ u → u <ℤ w → eqb_ℤ w v.first.y ≡ false
      not_first u w a c = elim (Bool-cases (eqb_ℤ w v.first.y)) [
        | inr k ↦ k
        | inl k ↦
            let same = (eqb_ℤ_iff w v.first.y).0 k in
            absurd (omega (arith, a, c, ap pos_part same, ap neg_part same))
      ]
