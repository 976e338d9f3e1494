-- ===== src/Lighting/Initialize/Rounds.antt =====
-- Loops that raise levels.
use je2be.Prelude.{ℕ, ◌≤◌, List, arith}
use je2be.Prelude.Loops.{for_each, for_each_relates, for_each_at, In}
use je2be.Geometry.Pos.{Pos3}
use je2be.Lighting.Diffuse.{Levels}
use je2be.Lighting.Initialize.{Filling, Columns}
use je2be.Lighting.Initialize.Bounds.{Raises, Raises-refl, Raises-trans}

abbrev pub filling_out : Filling → Levels
filling_out s = s.out

abbrev pub columns_out : Columns → Levels
columns_out s = s.out

module _ {A S : Type 0} (out : S → Levels) (f : A → S → S)
    (each : (a : A) (s : S) → Raises (out s) (out (f a s))) where
  abbrev StateRaises : S → S → Type 0
  StateRaises s t = Raises (out s) (out t)

  pub loop-Raises : (l : List A) (s : S) → Raises (out s) (out (for_each f l s))
  loop-Raises l s =
      for_each_relates StateRaises (λ t. Raises-refl (out t))
        (λ t u w. Raises-trans (out t) (out u) (out w)) f each l s

  -- A level that one round gives, whatever it starts with, is there at the end.
  pub loop_lights :
      (a : A) (l : List A) (p : Pos3) (e : ℕ)
      → In a l
      → ((s : S) → ((q : Pos3) → out s q ≤ 15) → e ≤ out (f a s) p)
      → (s : S) → ((q : Pos3) → out s q ≤ 15)
      → e ≤ out (for_each f l s) p
  loop_lights a l p e i lights s low =
      let at =
        for_each_at StateRaises (λ t. Raises-refl (out t))
          (λ t u w. Raises-trans (out t) (out u) (out w)) f each a l s i in
      let low1 = λ (q : Pos3). (at.1.0 low q).1 in
      let low2 = λ (q : Pos3). (each a at.0 low1 q).1 in
      omega (arith, lights at.0 low1, at.1.1 low2 p)
