-- ===== src/Geometry/Volume/Greedy/Laws.antt =====
-- `ConnectGreed`: the sizes of what it returns.
use je2be.Prelude.{All}
use je2be.Prelude.{ℕ, zero, suc, ◌≡◌, refl, ◌⊎◌, inl, inr, Bool-cases}
use je2be.Prelude.{true, Option, none, some, List, [], ◌∷◌, length, ◌==◌, ltb, arith}
use je2be.Prelude.Int.{ℤ, pos, ◌+ℤ◌, ◌-ℤ◌, ◌≤ℤ◌, leb_ℤ, leb_ℤ_iff, +ℤ_parts, pos-parts}
use je2be.Geometry.Volume.{Volume, Axis, axis_x, axis_y, axis_z, start, end, size, union, volume}
use je2be.Geometry.Volume.Greedy.{MaxSize, joins_within, find_match, greedy_scan, insert_by_volume}
use je2be.Geometry.Volume.Greedy.{sort_by_volume, greedy_loop, connect_greed}

-- On each axis the size, which counts both ends, is at most one more than the maximum given: the
-- code compares the maximum with the difference of the ends.
abbrev pub SizedWithin : MaxSize → Volume → Type 0
SizedWithin m v =
    (size axis_x v ≤ℤ m.x +ℤ pos 1)
    × (size axis_y v ≤ℤ m.y +ℤ pos 1)
    × (size axis_z v ≤ℤ m.z +ℤ pos 1)

size_le :
    (d : Axis) (v : Volume) (k : ℤ) → leb_ℤ (end d v -ℤ start d v) k ≡ true → size d v ≤ℤ k +ℤ pos 1
unfolding size
size_le d v k h =
    let le = (leb_ℤ_iff (end d v -ℤ start d v) k).0 h in
    omega (arith, le, +ℤ_parts (end d v -ℤ start d v) (pos 1), +ℤ_parts k (pos 1), pos-parts 1)

joins_within-SizedWithin :
    (m : MaxSize) (a b : Volume) → joins_within m a b ≡ true → SizedWithin m (union a b)
unfolding joins_within union
joins_within-SizedWithin m a b h = (
  size_le axis_x (union a b) m.x (ground (arith, h)),
  size_le axis_y (union a b) m.y (ground (arith, h)),
  size_le axis_z (union a b) m.z (ground (arith, h)),
)

-- `v` is one of the boxes of the list.
abbrev pub In : Volume → List Volume → Type 0
In v [] = ⊥
In v (w ∷ vs) = (v ≡ w) ⊎ In v vs

module _ (m : MaxSize) (P : Volume → Type 0) (joined : (v : Volume) → SizedWithin m v → P v) where
  abbrev MatchP : Option (Volume × List Volume) → Type 0
  MatchP none = Unit
  MatchP (some (v, r)) = P v × All P r

  find_match-P : (a : Volume) (r : List Volume) → All P r → MatchP (find_match m a r)
  unfolding find_match
  find_match-P a [] h = tt
  find_match-P a (b ∷ r) h = elim (Bool-cases (joins_within m a b)) [
    | inl e ↦ rw (e, find_match) (joined (union a b) (joins_within-SizedWithin m a b e), h.1)
    | inr e ↦ rw (e, find_match) (find_match-P a r h.1)
  ]

  greedy_scan-P : (vs : List Volume) → All P vs → All P (greedy_scan m vs)
  unfolding greedy_scan
  greedy_scan-P [] h = tt
  greedy_scan-P (a ∷ r) h = go (find_match m a r) (find_match-P a r h.1) (greedy_scan-P r h.1)
    where
      go :
          (o : Option (Volume × List Volume))
          → MatchP o
          → All P (greedy_scan m r)
          → All P (elim o [ some (v, behind) ↦ v ∷ behind | none ↦ a ∷ greedy_scan m r ])
      go none f rest = (h.0, rest)
      go (some (v, behind)) f rest = f

  insert_by_volume-P :
      (v : Volume) (vs : List Volume) → P v → All P vs → All P (insert_by_volume v vs)
  unfolding insert_by_volume
  insert_by_volume-P v [] p h = (p, tt)
  insert_by_volume-P v (w ∷ r) p h = elim (Bool-cases (ltb (volume v) (volume w))) [
    | inl e ↦ rw e (h.0, insert_by_volume-P v r p h.1)
    | inr e ↦ rw e (p, h)
  ]

  sort_by_volume-P : (vs : List Volume) → All P vs → All P (sort_by_volume vs)
  unfolding sort_by_volume
  sort_by_volume-P [] h = tt
  sort_by_volume-P (v ∷ r) h = insert_by_volume-P v (sort_by_volume r) h.0 (sort_by_volume-P r h.1)

  greedy_loop-P : (fuel : ℕ) (vs : List Volume) → All P vs → All P (greedy_loop m fuel vs)
  unfolding greedy_loop
  greedy_loop-P zero vs h = h
  greedy_loop-P (suc fuel) vs h =
      let next = greedy_scan m (sort_by_volume vs) in
      let good = greedy_scan-P (sort_by_volume vs) (sort_by_volume-P vs h) in
      elim (Bool-cases (ltb 1 (length vs))) [
        | inr few ↦ rw few h
        | inl many ↦ elim (Bool-cases (length vs == length next)) [
          | inl same ↦ rw (many, same) good
          | inr fewer ↦ rw (many, fewer) (greedy_loop-P fuel next good)
        ]
      ]

All-In : (P : Volume → Type 0) (vs : List Volume) → ((v : Volume) → In v vs → P v) → All P vs
All-In P [] h = tt
All-In P (v ∷ vs) h = (h v (inl refl), All-In P vs (λ w i. h w (inr i)))

-- Each box that `ConnectGreed` returns is one of the input, or has on each axis a size (with both
-- ends counted) of at most one more than the maximum given.
pub connect_greed_bounds :
    (m : MaxSize) (vs : List Volume) → All (λ v. In v vs ⊎ SizedWithin m v) (connect_greed m vs)
unfolding connect_greed
connect_greed_bounds m vs =
    greedy_loop-P m (λ v. In v vs ⊎ SizedWithin m v) (λ v s. inr s) (suc (length vs)) vs
      (All-In (λ v. In v vs ⊎ SizedWithin m v) vs (λ v i. inl i))
