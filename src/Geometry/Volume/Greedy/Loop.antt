-- ===== src/Geometry/Volume/Greedy/Loop.antt =====
-- `ConnectGreed`: its loop ends, and a join loses the boxes that it has passed over.
use je2be.Prelude.{ℕ, zero, suc, ◌≤◌, ◌<◌, ◌≡◌, refl, ◌∙◌, ap, inl, inr, Bool-cases}
use je2be.Prelude.{true, false, Option, none, some, List, [], ◌∷◌, length, ◌==◌, ltb, arith}
use je2be.Geometry.Volume.{Volume, union, volume}
use je2be.Geometry.Volume.Greedy.{MaxSize, joins_within, find_match, greedy_scan, insert_by_volume}
use je2be.Geometry.Volume.Greedy.{sort_by_volume, greedy_loop, connect_greed}

length-insert_by_volume :
    (v : Volume) (vs : List Volume) → length (insert_by_volume v vs) ≡ suc (length vs)
unfolding insert_by_volume
length-insert_by_volume v [] = refl
length-insert_by_volume v (w ∷ r) = elim (Bool-cases (ltb (volume v) (volume w))) [
  | inl e ↦ rw e (ap suc (length-insert_by_volume v r))
  | inr e ↦ rw e
]

length-sort_by_volume : (vs : List Volume) → length (sort_by_volume vs) ≡ length vs
unfolding sort_by_volume
length-sort_by_volume [] = refl
length-sort_by_volume (v ∷ r) =
    length-insert_by_volume v (sort_by_volume r) ∙ ap suc (length-sort_by_volume r)

module _ (m : MaxSize) where
  abbrev MatchShorter : ℕ → Option (Volume × List Volume) → Type 0
  MatchShorter n none = Unit
  MatchShorter n (some (v, r)) = length r < n

  find_match-shorter : (a : Volume) (r : List Volume) → MatchShorter (length r) (find_match m a r)
  unfolding find_match
  find_match-shorter a [] = tt
  find_match-shorter a (b ∷ r) = elim (Bool-cases (joins_within m a b)) [
    | inl e ↦ rw (e, find_match) (omega arith)
    | inr e ↦ rw (e, find_match) (weaken (find_match m a r) (find_match-shorter a r))
  ]
    where
      weaken :
          (o : Option (Volume × List Volume))
          → MatchShorter (length r) o
          → MatchShorter (suc (length r)) o
      weaken none h = tt
      weaken (some (v, s)) h = omega arith

  length-greedy_scan-le : (vs : List Volume) → length (greedy_scan m vs) ≤ length vs
  unfolding greedy_scan
  length-greedy_scan-le [] = omega arith
  length-greedy_scan-le (a ∷ r) =
      go (find_match m a r) (find_match-shorter a r) (length-greedy_scan-le r)
    where
      go :
          (o : Option (Volume × List Volume))
          → MatchShorter (length r) o
          → length (greedy_scan m r) ≤ length r
          → length (elim o [ some (v, behind) ↦ v ∷ behind | none ↦ a ∷ greedy_scan m r ])
            ≤ suc (length r)
      go none f rest = omega arith
      go (some (v, behind)) f rest = omega arith

  greedy_loop_agree :
      (fuel more : ℕ) (vs : List Volume)
      → length vs < fuel
      → length vs < more
      → greedy_loop m fuel vs ≡ greedy_loop m more vs
  unfolding greedy_loop
  greedy_loop_agree zero more vs f g = absurd (omega arith)
  greedy_loop_agree (suc fuel) zero vs f g = absurd (omega arith)
  greedy_loop_agree (suc fuel) (suc more) vs f g =
      let next = greedy_scan m (sort_by_volume vs) in
      let le = length-greedy_scan-le (sort_by_volume vs) in
      let keep = length-sort_by_volume vs in
      elim (Bool-cases (ltb 1 (length vs))) [
        | inr few ↦ rw few
        | inl many ↦ elim (Bool-cases (length vs == length next)) [
          | inl same ↦ rw (many, same)
          | inr fewer ↦
              rw (many, fewer)
                (greedy_loop_agree fuel more next (ground (arith, le, keep))
                  (ground (arith, le, keep)))
        ]
      ]

  -- The `while` of `ConnectGreed` ends by its own tests: with any fuel above the number of boxes
  -- the loop has the same result.
  pub connect_greed_terminates :
      (fuel : ℕ) (vs : List Volume) → length vs < fuel → greedy_loop m fuel vs ≡ connect_greed m vs
  unfolding connect_greed
  connect_greed_terminates fuel vs f = greedy_loop_agree fuel (suc (length vs)) vs f (omega arith)

  sorted_three :
      (a b c : Volume)
      → volume b ≤ volume a
      → volume c ≤ volume b
      → sort_by_volume (a ∷ b ∷ c ∷ []) ≡ a ∷ b ∷ c ∷ []
  unfolding sort_by_volume
  sorted_three a b c ba cb =
      let p : ltb (volume b) (volume c) ≡ false = ground arith in
      let q : ltb (volume a) (volume b) ≡ false = ground arith in rw p (rw q)

  scanned_three :
      (a b c : Volume)
      → joins_within m a b ≡ false
      → joins_within m a c ≡ true
      → greedy_scan m (a ∷ b ∷ c ∷ []) ≡ union a c ∷ []
  unfolding greedy_scan
  scanned_three a b c apart joins = rw (matched, greedy_scan)
    where
      matched : find_match m a (b ∷ c ∷ []) ≡ some (union a c, [])
      matched = ground arith

  greedy_loop_single : (fuel : ℕ) (v : Volume) → greedy_loop m fuel (v ∷ []) ≡ v ∷ []
  unfolding greedy_loop
  greedy_loop_single zero v = refl
  greedy_loop_single (suc fuel) v = refl

  greedy_loop_step :
      (fuel : ℕ) (vs next : List Volume)
      → 1 < length vs
      → greedy_scan m (sort_by_volume vs) ≡ next
      → length next < length vs
      → greedy_loop m (suc fuel) vs ≡ greedy_loop m fuel next
  unfolding greedy_loop
  greedy_loop_step fuel vs next many e fewer =
      let p : ltb 1 (length vs) ≡ true = ground arith in
      let q : (length vs == length next) ≡ false = ground arith in rw (p, e) (rw q)

  -- Of three boxes in falling order of volume, where the first joins the third and not the second,
  -- `ConnectGreed` returns the joined box alone: the second box is lost.
  pub connect_greed_drops :
      (a b c : Volume)
      → volume b ≤ volume a
      → volume c ≤ volume b
      → joins_within m a b ≡ false
      → joins_within m a c ≡ true
      → connect_greed m (a ∷ b ∷ c ∷ []) ≡ union a c ∷ []
  unfolding connect_greed
  connect_greed_drops a b c ba cb apart joins =
      greedy_loop_step 3 (a ∷ b ∷ c ∷ []) (union a c ∷ []) (omega arith)
        (ap (greedy_scan m) (sorted_three a b c ba cb) ∙ scanned_three a b c apart joins)
        (omega arith)
      ∙ greedy_loop_single 3 (union a c)
