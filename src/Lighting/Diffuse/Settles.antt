-- ===== src/Lighting/Diffuse/Settles.antt =====
-- `DiffuseLight` ends, and with the least levels that are settled.
use je2be.Prelude.{ℕ, zero, suc, ◌+◌, ◌*◌, ◌≤◌, ◌<◌, ◌≡◌, refl, sym, subst, inl, inr}
use je2be.Prelude.{Bool, true, false, ◌==◌, ==_iff, All, Any, Option, none, some}
use je2be.Prelude.{List, [], ◌∷◌, length, arith}
use je2be.Prelude.Sets.{Has, Has-cons}
use je2be.Prelude.Loops.{In}
use je2be.Geometry.Pos.{Pos3, pos3_eq}
use je2be.Geometry.Volume.{Volume}
use je2be.Geometry.Volume.Boxes.{Inside, InsideSome, intersection_volume_lem}
use je2be.Storage.Data2d.{Data2d}
use je2be.Enums.Facing6.{Facing6}
use je2be.Lighting.Diffuse.{Models, Levels, Lights, neighbor, in_limit, positions, keep_some}
use je2be.Lighting.Diffuse.{
  limit_of, limits_of, limits, volumes_of, diffuse_round, diffuse_loop, diffuse_light,
}
use je2be.Lighting.Diffuse.Steps.{Edges, Closed, total, total-bound, Spreads-rises}
use je2be.Lighting.Diffuse.Steps.{Spreads-below, Spreads-total, Spreads-quiet}
use je2be.Lighting.Diffuse.Faces.{Inside-neighbor}
use je2be.Lighting.Diffuse.Rounds.{Calm, Within, Visited, diffuse_round-Visited, In-positions}

not_zero : (n : ℕ) → (n == 0) ≡ false → 0 < n
not_zero n h = ground arith

-- Light may leave the block by the face where both blocks lie in one of the limits.
abbrev pub edges_of : List Volume → Edges
edges_of ls f p = Any (λ v. Inside v p × (in_limit f v p ≡ true)) ls

All-of_In : {A : Type 0} (P : A → Type 0) (l : List A) → ((a : A) → In a l → P a) → All P l
All-of_In P [] h = tt
All-of_In P (a ∷ l) h = (h a (inl refl), All-of_In P l (λ b i. h b (inr i)))

Any-of_In : {A : Type 0} (P : A → Type 0) (a : A) (l : List A) → In a l → P a → Any P l
Any-of_In P a [] i h = absurd i
Any-of_In P a (b ∷ l) (inl e) h = inl (subst P (sym e) h)
Any-of_In P a (b ∷ l) (inr i) h = inr (Any-of_In P a l i h)

All_In : {A : Type 0} (P : A → Type 0) (a : A) (l : List A) → All P l → In a l → P a
All_In P a [] h i = absurd i
All_In P a (b ∷ l) h (inl e) = subst P e h.0
All_In P a (b ∷ l) h (inr i) = All_In P a l h.1 i

In-Has : (p : Pos3) (l : List Pos3) → In p l → Has l p
In-Has p [] h = absurd h
In-Has p (q ∷ l) (inl e) = (Has-cons p q l).1 (inl (sym e))
In-Has p (q ∷ l) (inr i) = (Has-cons p q l).1 (inr (In-Has p l i))

Within-edges_of : (models : Models) (ls : List Volume) → All (Within models (edges_of ls)) ls
Within-edges_of models ls =
    All-of_In (Within models (edges_of ls)) ls
      (λ v i f p h g. Any-of_In (λ u. Inside u p × (in_limit f u p ≡ true)) v ls i (h, g))

-- `out'` are the least levels, not below `out`, in which no block would raise a neighbour.
pub record Least (models : Models) (E : Edges) (out out' : Levels) : Type 0 where
  pub above : (q : Pos3) → out q ≤ out' q
  pub closed : Closed models E out'
  pub least :
      (top : Levels)
      → ((q : Pos3) → out q ≤ top q)
      → Closed models E top
      → (q : Pos3) → out' q ≤ top q

calm-Closed :
    (models : Models) (ls : List Volume) (out : Levels)
    → All (λ v. All (Calm models v out) (positions v)) ls
    → Closed models (edges_of ls) out
calm-Closed models [] out h f p e o = absurd e
calm-Closed models (v ∷ ls) out h f p (inl e) o =
    All_In (Calm models v out) p (positions v) h.0 (In-positions v p e.0) f e.1 o
calm-Closed models (v ∷ ls) out h f p (inr e) o = calm-Closed models ls out h.1 f p e o

module _ (models : Models) (ls : List Volume) (cells : List Pos3)
    (reach : (f : Facing6) (p : Pos3) → edges_of ls f p → Has cells (neighbor f p)) where
  abbrev after : Levels → Lights
  after out = diffuse_round models ls (record { out = out; changed = 0 })

  round-Visited :
      (out : Levels)
      → Visited models
          (edges_of ls)
          (λ o. All (λ v. All (Calm models v o) (positions v)) ls)
          (record { out = out; changed = 0 })
          (after out)
  round-Visited out = diffuse_round-Visited models (edges_of ls) ls _ (Within-edges_of models ls)

  -- A round without a change leaves the levels, and they are settled.
  last-Least :
      (out : Levels) → (after out).changed ≡ 0 → Least models (edges_of ls) out (after out).out
  last-Least out e =
      let round = round-Visited out in
      let still = Spreads-quiet models (edges_of ls) _ (after out) round.steps e in
      subst (λ (s : Lights). Least models (edges_of ls) out s.out) still
        (record {
          above = λ q. omega arith;
          closed = calm-Closed models ls out (round.quiet e);
          least = λ top above closed q. above q;
        })

  -- A round takes nothing away from what the rounds behind it reach.
  more-Least :
      (out end : Levels)
      → Least models (edges_of ls) (after out).out end
      → Least models (edges_of ls) out end
  more-Least out end later =
      let round = round-Visited out in
      record {
        above = λ q.
            omega (
              arith,
              Spreads-rises models (edges_of ls) _ (after out) round.steps q,
              later.above q,
            );
        closed = later.closed;
        least = λ top above closed.
            later.least top
              (Spreads-below models (edges_of ls) top closed _ (after out) round.steps above)
              closed;
      }

  diffuse_loop-Least :
      (fuel : ℕ) (out : Levels)
      → ((q : Pos3) → out q ≤ 15)
      → 15 * length cells < fuel + total cells out
      → Least models (edges_of ls) out (diffuse_loop fuel models ls out)
  unfolding diffuse_loop
  diffuse_loop-Least zero out low b = absurd (omega (arith, b, total-bound cells out 15 low))
  diffuse_loop-Least (suc fuel) out low b =
      at_test ((after out).changed == 0) refl (λ l c. diffuse_loop-Least fuel (after out).out l c)
    where
      at_test :
          (c : Bool)
          → ((after out).changed == 0) ≡ c
          → (((q : Pos3) → (after out).out q ≤ 15)
              → 15 * length cells < fuel + total cells (after out).out
              → Least models
                  (edges_of ls)
                  (after out).out
                  (diffuse_loop fuel models ls (after out).out))
          → Least models (edges_of ls) out (elim c [
            | true ↦ (after out).out
            | false ↦ diffuse_loop fuel models ls (after out).out
          ])
      at_test true e again = last-Least out ((==_iff (after out).changed 0).0 e)
      at_test false e again =
          let round = round-Visited out in
          let low' =
            Spreads-below models (edges_of ls) (λ q. 15) (λ f p k o. omega arith) _ (after out)
              round.steps low in
          let risen = Spreads-total models (edges_of ls) cells reach _ (after out) round.steps in
          let changed = not_zero (after out).changed e in
          more-Least out _ (again low' (omega (arith, b, risen, changed)))

-- The limits lie in the box of the array.
abbrev Enclosed : Volume → Volume → Type 0
Enclosed all v = (p : Pos3) → Inside v p → Inside all p

limit_of-Enclosed :
    (all : Volume) (v : Option Volume) (p : Pos3) → InsideSome (limit_of all v) p → Inside all p
unfolding limit_of
limit_of-Enclosed all none p i = absurd i
limit_of-Enclosed all (some v) p i = ((intersection_volume_lem _ all p).0 i).1

limits_of-Enclosed :
    (all : Volume) (vs : List (Option Volume)) → All (Enclosed all) (limits_of all vs)
limits_of-Enclosed all [] = tt
limits_of-Enclosed all (v ∷ vs) =
    keep (limit_of all v) (λ p. limit_of-Enclosed all v p) (limits_of-Enclosed all vs)
  where
    keep :
        (o : Option Volume)
        → ((p : Pos3) → InsideSome o p → Inside all p)
        → All (Enclosed all) (limits_of all vs)
        → All (Enclosed all) (keep_some o (limits_of all vs))
    keep none h rest = rest
    keep (some u) h rest = (h, rest)

edges-reach :
    (all : Volume) (ls : List Volume)
    → All (Enclosed all) ls
    → (f : Facing6) (p : Pos3) → edges_of ls f p
    → Has (positions all) (neighbor f p)
edges-reach all [] h f p e = absurd e
edges-reach all (v ∷ ls) h f p (inl e) =
    In-Has (neighbor f p) (positions all)
      (In-positions all (neighbor f p) (h.0 (neighbor f p) (Inside-neighbor f v p e.0 e.1)))
edges-reach all (v ∷ ls) h f p (inr e) = edges-reach all ls h.1 f p e

-- Where no level is above 15 at the start, `DiffuseLight` ends with the least levels that are not
-- below those at the start and in which no block would raise a neighbour, among the neighbours
-- that lie with it in the limit of one of the volumes.
pub diffuse_light-Least :
    (models : Models) (all : Volume) (out : Levels) (volumes : Data2d (Option Volume))
    → ((q : Pos3) → out q ≤ 15)
    → Least models (edges_of (limits all volumes)) out (diffuse_light models all out volumes)
unfolding diffuse_light limits
diffuse_light-Least models all out volumes low =
    diffuse_loop-Least models (limits all volumes) (positions all)
      (edges-reach all (limits all volumes) (limits_of-Enclosed all (volumes_of volumes)))
      (suc (15 * length (positions all))) out low (omega arith)
