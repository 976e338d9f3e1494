-- ===== src/Geometry/Volume/Connect/Rounds.antt =====
-- One round over a group: `join_pairs` and the boxes that it leaves.
use je2be.Prelude.{All, All-append}
use je2be.Prelude.{ℕ, zero, suc, ◌+◌, ◌-◌, ◌*◌, ◌≤◌, ◌≡◌, refl, ap, ◌↔◌, ◌⊎◌, inl, inr}
use je2be.Prelude.{Bool, true, false, Bool-cases, Option, none, some}
use je2be.Prelude.{List, [], ◌∷◌, ◌++◌, length, length-append, arith}
use je2be.Geometry.Pos.{Pos3}
use je2be.Geometry.Volume.{Volume, adjacent}
use je2be.Geometry.Volume.Boxes.{Inside}
use je2be.Geometry.Volume.Connect.{Pass, Key, third_axis, Slot, keep_slot, take_adjacent, Pairs}
use je2be.Geometry.Volume.Connect.{join_first, join_pairs, unused, fresh, adjacent_round}
use je2be.Geometry.Volume.Connect.Joined.{Fits, union_exact, union-Fits}

-- Some box of the list holds the point.
abbrev pub Covered : Pos3 → List Volume → Type 0
Covered p [] = ⊥
Covered p (v ∷ vs) = Inside v p ⊎ Covered p vs

pub Covered-append :
    (p : Pos3) (vs ws : List Volume) → Covered p (vs ++ ws) ↔ (Covered p vs ⊎ Covered p ws)
Covered-append p [] ws = (λ h. inr h, λ h. ground arith)
Covered-append p (v ∷ vs) ws =
    let ih = Covered-append p vs ws in (ground (arith, ih), ground (arith, ih))

module _ (t : Pass) (k : Key) where
  -- What a search leaves: the box found is free, in the group and touches; with it the slots left
  -- cover what the slots searched did, and one free slot is gone.
  record Found (v : Volume) (r : List Slot) (w : Volume) (r' : List Slot) : Type 0 where
    touches : adjacent (third_axis t) v w ≡ true
    fits : Fits t k w
    rest_fits : All (Fits t k) (unused r')
    count : length (unused r') + 1 ≡ length (unused r)
    cover : (p : Pos3) → Covered p (unused r) ↔ (Inside w p ⊎ Covered p (unused r'))

  abbrev FoundIn : Volume → List Slot → Option (Volume × List Slot) → Type 0
  FoundIn v r none = Unit
  FoundIn v r (some (w, r')) = Found v r w r'

  keep_slot-FoundIn :
      (v x : Volume) (used : Bool) (r : List Slot) (o : Option (Volume × List Slot))
      → All (Fits t k) (unused ((x, used) ∷ r))
      → FoundIn v r o
      → FoundIn v ((x, used) ∷ r) (keep_slot (x, used) o)
  keep_slot-FoundIn v x used r none h f = tt
  keep_slot-FoundIn v x true r (some (w, r')) h f = record {
    touches = f.touches;
    fits = f.fits;
    rest_fits = f.rest_fits;
    count = f.count;
    cover = f.cover;
  }
  keep_slot-FoundIn v x false r (some (w, r')) h f = record {
    touches = f.touches;
    fits = f.fits;
    rest_fits = (h.0, f.rest_fits);
    count = omega (arith, f.count);
    cover = λ p. (ground (arith, f.cover p), ground (arith, f.cover p));
  }

  take_adjacent-FoundIn :
      (v : Volume) (r : List Slot)
      → All (Fits t k) (unused r)
      → FoundIn v r (take_adjacent (third_axis t) v r)
  unfolding take_adjacent
  take_adjacent-FoundIn v [] h = tt
  take_adjacent-FoundIn v ((x, true) ∷ r) h =
      keep_slot-FoundIn v x true r _ h (take_adjacent-FoundIn v r h)
  take_adjacent-FoundIn v ((x, false) ∷ r) h = elim (Bool-cases (adjacent (third_axis t) v x)) [
    | inl touch ↦
        rw (touch, take_adjacent)
          (record {
            touches = touch;
            fits = h.0;
            rest_fits = h.1;
            count = omega arith;
            cover = λ p. (λ c. c, λ c. c);
          })
    | inr apart ↦
        rw (apart, take_adjacent)
          (keep_slot-FoundIn v x false r _ h (take_adjacent-FoundIn v r h.1))
  ]

  -- What a pass leaves: the boxes of the group that it joined and those that are free cover what
  -- was free before, and each join makes one box of two.
  record Joins (s : List Slot) (p : Pairs) : Type 0 where
    buffer_fits : All (Fits t k) p.buffer
    free_fits : All (Fits t k) (unused p.slots)
    count : length (unused p.slots) + 2 * length p.buffer ≡ length (unused s)
    cover : (q : Pos3) → Covered q (unused s) ↔ (Covered q p.buffer ⊎ Covered q (unused p.slots))

  join_pairs-Joins :
      (n : ℕ) (s : List Slot) → All (Fits t k) (unused s) → Joins s (join_pairs (third_axis t) n s)
  unfolding join_pairs
  join_pairs-Joins zero s h = record {
    buffer_fits = tt;
    free_fits = h;
    count = omega arith;
    cover = λ q. (λ c. inr c, λ c. ground arith);
  }
  join_pairs-Joins (suc n) [] h = record {
    buffer_fits = tt;
    free_fits = tt;
    count = omega arith;
    cover = λ q. (λ c. inr c, λ c. ground arith);
  }
  join_pairs-Joins (suc n) ((v, true) ∷ r) h =
      let ih = join_pairs-Joins n r h in
      record {
        buffer_fits = ih.buffer_fits;
        free_fits = ih.free_fits;
        count = ih.count;
        cover = ih.cover;
      }
  join_pairs-Joins (suc n) ((v, false) ∷ r) h =
      join (take_adjacent (third_axis t) v r) (take_adjacent-FoundIn v r h.1) (join_pairs-Joins n)
    where
      join :
          (o : Option (Volume × List Slot))
          → FoundIn v r o
          → ((s : List Slot) → All (Fits t k) (unused s) → Joins s (join_pairs (third_axis t) n s))
          → Joins ((v, false) ∷ r) (join_first v o r (join_pairs (third_axis t) n))
      join none f ih =
          let rest = ih r h.1 in
          record {
            buffer_fits = rest.buffer_fits;
            free_fits = (h.0, rest.free_fits);
            count = omega (arith, rest.count);
            cover = λ q. (ground (arith, rest.cover q), ground (arith, rest.cover q));
          }
      join (some (w, r')) f ih =
          let rest = ih r' f.rest_fits in
          let exact = λ (q : Pos3). union_exact t k v w q h.0 f.fits f.touches in
          record {
            buffer_fits = (union-Fits t k v w h.0 f.fits, rest.buffer_fits);
            free_fits = rest.free_fits;
            count = omega (arith, rest.count, f.count);
            cover = λ q. (
              ground (arith, rest.cover q, exact q, f.cover q),
              ground (arith, rest.cover q, exact q, f.cover q),
            );
          }

unused-fresh : (vs : List Volume) → unused (fresh vs) ≡ vs
unused-fresh [] = refl
unused-fresh (v ∷ vs) = ap (◌∷◌ v) (unused-fresh vs)

-- `ws` covers the points of `vs` with no more boxes, each with property `P`.
pub record Keeps (P : Volume → Type 0) (vs ws : List Volume) : Type 0 where
  pub each : All P ws
  pub shrinks : length ws ≤ length vs
  pub cover : (q : Pos3) → Covered q vs ↔ Covered q ws

pub adjacent_round-Keeps :
    (t : Pass) (k : Key) (vs : List Volume)
    → All (Fits t k) vs
    → Keeps (Fits t k) vs (adjacent_round (third_axis t) vs)
unfolding adjacent_round
adjacent_round-Keeps t k vs h =
    let p = join_pairs (third_axis t) (length vs - 1) (fresh vs) in
    let j = join_pairs-Joins t k (length vs - 1) (fresh vs) (rw (unused-fresh vs) h) in
    let count = rw (unused-fresh vs) at j.count in
    record {
      each = All-append (Fits t k) p.buffer (unused p.slots) j.buffer_fits j.free_fits;
      shrinks = omega (arith, count, length-append p.buffer (unused p.slots));
      cover = λ q.
          let c = rw (unused-fresh vs) at (j.cover q) in
          let a = Covered-append q p.buffer (unused p.slots) in
          (λ x. a.1 (c.0 x), λ x. c.1 (a.0 x));
    }
