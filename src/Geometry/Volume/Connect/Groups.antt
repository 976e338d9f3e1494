-- ===== src/Geometry/Volume/Connect/Groups.antt =====
-- The groups by key: joining them, and collecting them.
use je2be.Prelude.{All, All-append}
use je2be.Prelude.{ℕ, zero, suc, ◌+◌, ◌≤◌, ◌≡◌, refl, ◌∙◌, ◌↔◌, ◌⊎◌, inl, inr, Bool-cases}
use je2be.Prelude.{true, false, ◌==◌, List, [], ◌∷◌, length, length-append}
use je2be.Prelude.{arith}
use je2be.Prelude.Int.{ℤ, ltb_ℤ, ltb_ℤ_iff, eq_of_parts}
use je2be.Geometry.Pos.{Pos3}
use je2be.Geometry.Volume.{Volume}
use je2be.Geometry.Volume.Boxes.{Inside, IsValid}
use je2be.Geometry.Volume.Connect.{Pass, Key, key, key_lt, Group, third_axis, adjacent_round}
use je2be.Geometry.Volume.Connect.{connect_adjacent, categorize, collect, connect_groups}
use je2be.Geometry.Volume.Connect.Joined.{Fits}
use je2be.Geometry.Volume.Connect.Rounds.{Covered, Covered-append, Keeps}
use je2be.Geometry.Volume.Connect.Rounds.{adjacent_round-Keeps}

pub Keeps-refl : (P : Volume → Type 0) (vs : List Volume) → All P vs → Keeps P vs vs
Keeps-refl P vs h = record { each = h; shrinks = omega arith; cover = λ q. (λ c. c, λ c. c) }

pub Keeps-trans :
    (P Q : Volume → Type 0) {us vs ws : List Volume} → Keeps P us vs → Keeps Q vs ws → Keeps Q us ws
Keeps-trans P Q a b = record {
  each = b.each;
  shrinks = omega (arith, a.shrinks, b.shrinks);
  cover = λ q. (λ c. (b.cover q).0 ((a.cover q).0 c), λ c. (a.cover q).1 ((b.cover q).1 c));
}

module _ (t : Pass) (k : Key) where
  pub connect_adjacent-Keeps :
      (fuel : ℕ) (vs : List Volume)
      → All (Fits t k) vs
      → Keeps (Fits t k) vs (connect_adjacent (third_axis t) fuel vs)
  unfolding connect_adjacent
  connect_adjacent-Keeps zero vs h = Keeps-refl (Fits t k) vs h
  connect_adjacent-Keeps (suc fuel) vs h =
      let round = adjacent_round-Keeps t k vs h in
      let next = adjacent_round (third_axis t) vs in
      elim (Bool-cases (length next == length vs)) [
        | inl same ↦ rw same (Keeps-refl (Fits t k) vs h)
        | inr fewer ↦
            rw fewer (
              Keeps-trans (Fits t k) (Fits t k) round (connect_adjacent-Keeps fuel next round.each))
      ]

  -- For boxes in order of one group, with fuel for each box the loop of `ConnectAdjacentCuboids`
  -- ends by its own test: one more round joins nothing.
  pub connect_adjacent_settles :
      (fuel : ℕ) (vs : List Volume)
      → All (Fits t k) vs
      → length vs ≤ fuel
      → let r = connect_adjacent (third_axis t) fuel vs in
        length (adjacent_round (third_axis t) r) ≡ length r
  unfolding connect_adjacent
  connect_adjacent_settles zero [] h f = omega (arith, (adjacent_round-Keeps t k [] h).shrinks)
  connect_adjacent_settles zero (v ∷ vs) h f = absurd (omega arith)
  connect_adjacent_settles (suc fuel) vs h f =
      let round = adjacent_round-Keeps t k vs h in
      let next = adjacent_round (third_axis t) vs in
      elim (Bool-cases (length next == length vs)) [
        | inl same ↦ rw same (ground arith)
        | inr fewer ↦
            rw fewer (connect_adjacent_settles fuel next round.each (ground (arith, round.shrinks)))
      ]

-- Keys that are equal in the order of the map are equal.
key_lt_total : (k l : Key) → key_lt k l ≡ false → key_lt l k ≡ false → k ≡ l
unfolding key_lt
key_lt_total k l a b =
    ground (arith, order k.s1 l.s1, order k.e1 l.e1, order k.s2 l.s2, order k.e2 l.e2)
  where
    order : (a b : ℤ) → (a ≡ b) ⊎ ((ltb_ℤ a b ≡ true) ⊎ ((ltb_ℤ a b ≡ false) × (ltb_ℤ b a ≡ true)))
    order a b = ground (arith, ltb_ℤ_iff a b, ltb_ℤ_iff b a, eq_of_parts a b)

abbrev GroupFits : Pass → Group → Type 0
GroupFits t (k, vs) = All (Fits t k) vs

abbrev CoveredBy : Pos3 → List Group → Type 0
CoveredBy q [] = ⊥
CoveredBy q ((k, vs) ∷ g) = Covered q vs ⊎ CoveredBy q g

abbrev total : List Group → ℕ
total [] = 0
total ((k, vs) ∷ g) = length vs + total g

module _ (t : Pass) where
  record Collects (v : Volume) (g g' : List Group) : Type 0 where
    each : All (GroupFits t) g'
    count : total g' ≡ total g + 1
    cover : (q : Pos3) → CoveredBy q g' ↔ (Inside v q ⊎ CoveredBy q g)

  categorize-Collects :
      (v : Volume) (k : Key) (g : List Group)
      → All (GroupFits t) g
      → Fits t k v
      → Collects v g (categorize k v g)
  unfolding categorize
  categorize-Collects v k [] h f = record {
    each = ((f, tt), tt);
    count = omega arith;
    cover = λ q. (λ c. ground arith, λ c. ground arith);
  }
  categorize-Collects v k ((l, vs) ∷ g) h f = elim (Bool-cases (key_lt k l)) [
    | inl before ↦
        rw (before, categorize)
          (record {
            each = ((f, tt), h);
            count = omega arith;
            cover = λ q. (λ c. ground arith, λ c. ground arith);
          })
    | inr not_before ↦ elim (Bool-cases (key_lt l k)) [
      | inl behind ↦
          let ih = categorize-Collects v k g h.1 f in
          rw (not_before, behind, categorize)
            (record {
              each = (h.0, ih.each);
              count = omega (arith, ih.count);
              cover = λ q. (ground (arith, ih.cover q), ground (arith, ih.cover q));
            })
      | inr not_behind ↦
          let same = key_lt_total k l not_before not_behind in
          rw (not_before, not_behind, categorize)
            (record {
              each = (All-append (Fits t l) vs (v ∷ []) h.0 ((f.0 ∙ same, f.1), tt), h.1);
              count = omega (arith, length-append vs (v ∷ []));
              cover = λ q.
                  let a = Covered-append q vs (v ∷ []) in (ground (arith, a), ground (arith, a));
            })
    ]
  ]

  pub record Groups (vs : List Volume) (g : List Group) : Type 0 where
    pub each : All (GroupFits t) g
    pub count : total g ≡ length vs
    pub cover : (q : Pos3) → CoveredBy q g ↔ Covered q vs

  record GroupsOver (vs : List Volume) (g g' : List Group) : Type 0 where
    each : All (GroupFits t) g'
    count : total g' ≡ total g + length vs
    cover : (q : Pos3) → CoveredBy q g' ↔ (Covered q vs ⊎ CoveredBy q g)

  collect-GroupsOver :
      (vs : List Volume) (g : List Group)
      → All IsValid vs
      → All (GroupFits t) g
      → GroupsOver vs g (collect t vs g)
  unfolding collect
  collect-GroupsOver [] g v h = record {
    each = h;
    count = omega arith;
    cover = λ q. (λ c. ground arith, λ c. ground arith);
  }
  collect-GroupsOver (x ∷ xs) g v h =
      let one = categorize-Collects x (key t x) g h (refl, v.0) in
      let rest = collect-GroupsOver xs (categorize (key t x) x g) v.1 one.each in
      record {
        each = rest.each;
        count = omega (arith, one.count, rest.count);
        cover = λ q.
            (ground (arith, one.cover q, rest.cover q), ground (arith, one.cover q, rest.cover q));
      }

  pub collect-Groups : (vs : List Volume) → All IsValid vs → Groups vs (collect t vs [])
  collect-Groups vs v =
      let all = collect-GroupsOver vs [] v tt in
      record {
        each = all.each;
        count = omega (arith, all.count);
        cover = λ q. (ground (arith, all.cover q), ground (arith, all.cover q));
      }

  valid_of_Fits : (k : Key) (vs : List Volume) → All (Fits t k) vs → All IsValid vs
  valid_of_Fits k [] h = tt
  valid_of_Fits k (v ∷ vs) h = (h.0.1, valid_of_Fits k vs h.1)

  record Flattens (g : List Group) (ws : List Volume) : Type 0 where
    each : All IsValid ws
    shrinks : length ws ≤ total g
    cover : (q : Pos3) → CoveredBy q g ↔ Covered q ws

  connect_groups-Flattens : (g : List Group) → All (GroupFits t) g → Flattens g (connect_groups t g)
  unfolding connect_groups
  connect_groups-Flattens [] h = record {
    each = tt;
    shrinks = omega arith;
    cover = λ q. (λ c. c, λ c. c);
  }
  connect_groups-Flattens ((k, vs) ∷ g) h =
      let one = connect_adjacent-Keeps t k (length vs) vs h.0 in
      let rest = connect_groups-Flattens g h.1 in
      let joined = connect_adjacent (third_axis t) (length vs) vs in
      record {
        each =
            All-append IsValid joined (connect_groups t g) (valid_of_Fits k joined one.each)
              rest.each;
        shrinks =
            omega (arith, one.shrinks, rest.shrinks, length-append joined (connect_groups t g));
        cover = λ q.
            let a = Covered-append q joined (connect_groups t g) in
            (
              ground (arith, one.cover q, rest.cover q, a),
              ground (arith, one.cover q, rest.cover q, a),
            );
      }

  pub connect_groups-Keeps :
      (vs : List Volume) → All IsValid vs → Keeps IsValid vs (connect_groups t (collect t vs []))
  connect_groups-Keeps vs v =
      let g = collect-Groups vs v in
      let f = connect_groups-Flattens (collect t vs []) g.each in
      record {
        each = f.each;
        shrinks = omega (arith, f.shrinks, g.count);
        cover = λ q. (λ c. (f.cover q).0 ((g.cover q).1 c), λ c. (g.cover q).0 ((f.cover q).1 c));
      }
