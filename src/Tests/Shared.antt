-- ===== src/Tests/Shared.antt =====
-- Data for the tests.
use je2be.Prelude.{ℕ, ◌+◌, ltb, arith}
use je2be.Prelude.Int.{pos}
use je2be.Geometry.Pos.{Pos2, Pos3}
use je2be.Geometry.Volume.{Volume}
use je2be.Queue2d.{Weights}
use je2be.Queue2d.Selecting.{IsOrder}

abbrev pub at2 : ℕ → ℕ → Pos2
at2 x z = record { x = pos x; z = pos z }

abbrev pub at3 : ℕ → ℕ → ℕ → Pos3
at3 x y z = record { x = pos x; y = pos y; z = pos z }

abbrev pub box_of : Pos3 → Pos3 → Volume
box_of p q = record { first = p; last = q }

abbrev pub counts : Weights
counts = record { Weight = ℕ; zero_weight = 0; add = λ a b. a + b; less = ltb }

pub counts-IsOrder : IsOrder counts
counts-IsOrder = record {
  irreflexive = λ a. ground arith;
  transitive = λ a b c ab bc. ground arith;
}
