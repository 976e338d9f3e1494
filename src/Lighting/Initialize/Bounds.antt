-- ===== src/Lighting/Initialize/Bounds.antt =====
-- What the first levels keep: no level falls and none passes 15, and a lamp has its own level.
use je2be.Prelude.{ℕ, ◌-◌, ◌≤◌, ◌≡◌, refl, ap, inl, inr, max, ==_iff}
use je2be.Prelude.{Bool, true, false, ◌&&◌, ltb, ◌==◌, Bool-cases, arith}
use je2be.Prelude.{if◌then◌else◌}
use je2be.Prelude.Loops.{for_each, for_each_relates}
use je2be.Geometry.Pos.{Pos3}
use je2be.Geometry.Volume.{Volume, contains}
use je2be.Storage.Data2d.{Data2d}
use je2be.Enums.Facing6.{Facing6, facing6_invert, pos3_from_facing6}
use je2be.Lighting.Models.{is_face_opened}
use je2be.Lighting.Diffuse.{Models, Levels, put}
use je2be.Lighting.Diffuse.Steps.{put_lem}
use je2be.Lighting.Initialize.{Volumes, Filling, plus}
use je2be.Lighting.Initialize.Block.{light_neighbor, light_self, block_faces, block_at}

-- From levels up to 15, each rises and none passes 15.
abbrev pub Raises : Levels → Levels → Type 0
Raises out out' = ((q : Pos3) → out q ≤ 15) → (q : Pos3) → (out q ≤ out' q) × (out' q ≤ 15)

pub Raises-refl : (out : Levels) → Raises out out
Raises-refl out low q = (omega arith, low q)

pub Raises-trans : (a b c : Levels) → Raises a b → Raises b c → Raises a c
Raises-trans a b c f g low q =
    let first = f low q in
    let second = g (λ r. (f low r).1) q in (omega (arith, first, second), second.1)

pub put-Raises :
    (out : Levels) (p : Pos3) (l : ℕ)
    → (((q : Pos3) → out q ≤ 15) → (out p ≤ l) × (l ≤ 15))
    → Raises out (put out p l)
put-Raises out p l h low q = elim (put_lem out p l q) [
  | inl e ↦ omega (arith, h low, ap out e.0, e.1)
  | inr e ↦ omega (arith, e.1, low q)
]

abbrev pub FillingRaises : Filling → Filling → Type 0
FillingRaises s t = Raises s.out t.out

module _ (models : Models) where
  light_neighbor-Raises :
      (v : Volume) (p : Pos3) (e : ℕ) (f : Facing6) (out : Levels)
      → e ≤ 15
      → Raises out (light_neighbor models v p e f out)
  unfolding light_neighbor
  light_neighbor-Raises v p e f out b =
      let target = plus p (pos3_from_facing6 f) in
      either (contains v target && is_face_opened (facing6_invert f) (models target))
    where
      either :
          (c : Bool)
          → let target = plus p (pos3_from_facing6 f) in
            Raises out (if c then put out target (max (out target) (e - 1)) else out)
      either true = put-Raises out _ _ (λ low. omega (arith, b, low (plus p (pos3_from_facing6 f))))
      either false = Raises-refl out

light_self-Raises :
    (v : Volume) (p : Pos3) (e : ℕ) (out : Levels) → e ≤ 15 → Raises out (light_self v p e out)
unfolding light_self
light_self-Raises v p e out b = either (contains v p) (ltb (out p) e) refl
  where
    either : (c d : Bool) → ltb (out p) e ≡ d → Raises out (if c && d then put out p e else out)
    either true true h = put-Raises out p e (λ low. ground (arith, b))
    either true false h = Raises-refl out
    either false d h = Raises-refl out

light_self_lights :
    (v : Volume) (p : Pos3) (e : ℕ) (out : Levels)
    → contains v p ≡ true
    → e ≤ light_self v p e out p
unfolding light_self
light_self_lights v p e out h = either (contains v p) h (ltb (out p) e) refl
  where
    either :
        (c : Bool)
        → c ≡ true
        → (d : Bool) → ltb (out p) e ≡ d
        → e ≤ (if c && d then put out p e else out) p
    either true k true g = elim (put_lem out p e p) [
      | inl m ↦ omega (arith, m.1)
      | inr m ↦ absurd (m.0 refl)
    ]
    either true k false g = ground arith
    either false k d g = ground arith

-- The blocks have levels of four bits.
abbrev pub FourBits : Models → Type 0
FourBits models = (p : Pos3) → (models p).emission ≤ 15

module _ (models : Models) (box : Volume) (cached : Data2d Bool) (volumes : Volumes)
    (bits : FourBits models) where
  abbrev neighbors_out : Volume → Pos3 → Levels → Levels
  neighbors_out v p out = for_each (light_neighbor models v p (models p).emission) block_faces out

  neighbors-Raises : (v : Volume) (p : Pos3) (out : Levels) → Raises out (neighbors_out v p out)
  neighbors-Raises v p out =
      for_each_relates Raises Raises-refl Raises-trans
        (light_neighbor models v p (models p).emission)
        (λ f o. light_neighbor-Raises models v p (models p).emission f o (bits p)) block_faces out

  pub block_at-Raises :
      (v : Volume) (p : Pos3) (s : Filling)
      → FillingRaises s (block_at models box cached volumes v p s)
  unfolding block_at
  block_at-Raises v p s = elim (Bool-cases (contains box p)) [
    | inr o ↦ rw (o, block_at) (Raises-refl s.out)
    | inl i ↦ elim (Bool-cases ((models p).emission == 0)) [
      | inl z ↦ rw (i, z, block_at) (Raises-refl s.out)
      | inr n ↦
          rw (i, n, block_at)
            (Raises-trans s.out (light_self v p (models p).emission s.out) _
              (light_self-Raises v p (models p).emission s.out (bits p))
              (neighbors-Raises v p (light_self v p (models p).emission s.out)))
    ]
  ]

  pub block_at_lights :
      (v : Volume) (p : Pos3) (s : Filling)
      → contains box p ≡ true
      → contains v p ≡ true
      → ((q : Pos3) → s.out q ≤ 15)
      → (models p).emission ≤ (block_at models box cached volumes v p s).out p
  unfolding block_at
  block_at_lights v p s i j low = elim (Bool-cases ((models p).emission == 0)) [
    | inl z ↦ omega (arith, (==_iff (models p).emission 0).0 z)
    | inr n ↦
        rw (i, n, block_at)
          (let e = (models p).emission in
            let own = light_self v p e s.out in
            let low' = λ (q : Pos3). (light_self-Raises v p e s.out (bits p) low q).1 in
            omega (arith, light_self_lights v p e s.out j, neighbors-Raises v p own low' p))
  ]
