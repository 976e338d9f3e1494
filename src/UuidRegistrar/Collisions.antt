-- ===== src/UuidRegistrar/Collisions.antt =====
-- `AvoidCollision`: it ends with a value that was not handed out before, unless all values that the
-- hash gives from the first candidate on were.
use je2be.Prelude.{ℕ, zero, suc, ◌+◌, ◌-◌, ◌≤◌, ◌<◌, ◌≡◌, ◌≢◌, refl, sym, ap, subst, ◌∙◌, inl, inr}
use je2be.Prelude.{Bool-cases, le_cases}
use je2be.Prelude.{Bool, true, false, if◌then◌else◌, Option, none, some, List, length, arith}
use je2be.Prelude.Int64.{Int64, int64_eq}
use je2be.Prelude.Sets.{Has, has, emplace, distinct-le-length}
use je2be.UuidRegistrar.{Hashes, avoid_loop, avoid_collision}

module _ (H : Hashes) where
  -- The value that the loop tries in round `n`.
  unfoldable pub candidate : ℕ → Int64 → Int64
  candidate zero h = h
  candidate (suc n) h = candidate n (H.digest h)

  -- A result is a new value, and the set gains it alone; without one, all values that were tried
  -- are in the set.
  abbrev Tried : ℕ → List Int64 → Int64 → Option (Int64 × List Int64) → Type 0
  Tried fuel used h none = (i : ℕ) → i < fuel → Has used (candidate i h)
  Tried fuel used h (some (v, used')) = ¬ Has used v × (used' ≡ emplace v used)

  loop-Tried :
      (fuel : ℕ) (used : List Int64) (h : Int64) → Tried fuel used h (avoid_loop H fuel used h)
  unfolding avoid_loop candidate
  loop-Tried zero used h = λ i b. ground arith
  loop-Tried (suc fuel) used h =
      at_test (avoid_loop H fuel used (H.digest h)) (loop-Tried fuel used (H.digest h)) (has h used)
        refl
    where
      both :
          Has used h
          → ((i : ℕ) → i < fuel → Has used (candidate i (H.digest h)))
          → (i : ℕ) → i < suc fuel
          → Has used (candidate i h)
      both y all zero b = y
      both y all (suc i) b = all i (omega arith)

      at_test :
          (rest : Option (Int64 × List Int64))
          → Tried fuel used (H.digest h) rest
          → (b : Bool) → has h used ≡ b
          → Tried (suc fuel) used h (if b then rest else some (h, emplace h used))
      at_test rest t false n = (λ k. cc (n, k), refl)
      at_test none t true y = both y t
      at_test (some (v, used')) t true y = t

  candidate_add : (n m : ℕ) (h : Int64) → candidate (n + m) h ≡ candidate m (candidate n h)
  unfolding candidate
  candidate_add zero m h = let e : 0 + m ≡ m = omega arith in ap (λ k. candidate k h) e
  candidate_add (suc n) m h =
      let e : suc n + m ≡ suc (n + m) = omega arith in
      ap (λ k. candidate k h) e ∙ candidate_add n m (H.digest h)

  -- Once a value comes again, no other values come.
  repeats :
      (used : List Int64) (h : Int64) (i j last : ℕ)
      → i < j
      → j ≤ last
      → candidate i h ≡ candidate j h
      → ((k : ℕ) → k ≤ last → Has used (candidate k h))
      → (fuel n : ℕ) → n ≤ fuel
      → Has used (candidate n h)
  repeats used h i j last lt le same all zero n b = all n (omega arith)
  repeats used h i j last lt le same all (suc fuel) n b = elim (le_cases n last) [
    | inl early ↦ all n early
    | inr late ↦
        subst (λ c. Has used c)
          (candidate_add i (n - j) h
            ∙ ap (candidate (n - j)) same
            ∙ sym (candidate_add j (n - j) h)
            ∙ ap (λ m. candidate m h) (omega arith))
          (repeats used h i j last lt le same all fuel (i + (n - j)) (omega arith))
  ]

  -- Where one more value than the set has is in the set, all are.
  always :
      (used : List Int64) (h : Int64)
      → ((k : ℕ) → k < suc (length used) → Has used (candidate k h))
      → (n : ℕ) → Has used (candidate n h)
  always used h all n = elim (Bool-cases (has (candidate n h) used)) [
    | inl y ↦ y
    | inr free ↦ absurd (
        omega (
          arith,
          distinct-le-length (suc (length used)) (λ k. candidate k h) used (apart free) all,
        ))
  ]
    where
      again :
          has (candidate n h) used ≡ false
          → (i j : ℕ) → i < j
          → j < suc (length used)
          → candidate i h ≢ candidate j h
      again free i j lt b same =
          let found =
            repeats used h i j (length used) lt (omega arith) same (λ k c. all k (omega arith)) n n
              (omega arith) in
          cc (free, found)

      apart :
          has (candidate n h) used ≡ false
          → (i j : ℕ) → i < suc (length used)
          → j < suc (length used)
          → candidate i h ≡ candidate j h
          → i ≡ j
      apart free i j a b same = elim (le_cases i j) [
        | inr gt ↦ absurd (again free j i gt a (sym same))
        | inl le ↦ elim (le_cases j i) [
          | inl ge ↦ omega arith
          | inr lt ↦ absurd (again free i j lt b same)
        ]
      ]

  -- Without a result all values that the hash gives are in the set.
  abbrev pub Outcome : List Int64 → Int64 → Option (Int64 × List Int64) → Type 0
  Outcome used h none = (n : ℕ) → Has used (candidate n h)
  Outcome used h (some (v, used')) = ¬ Has used v × (used' ≡ emplace v used)

  pub avoid_collision-Outcome :
      (used : List Int64) (h : Int64) → Outcome used h (avoid_collision H used h)
  unfolding avoid_collision
  avoid_collision-Outcome used h =
      ends (avoid_loop H (suc (length used)) used h) (loop-Tried (suc (length used)) used h)
    where
      ends :
          (o : Option (Int64 × List Int64)) → Tried (suc (length used)) used h o → Outcome used h o
      ends none t = always used h t
      ends (some (v, used')) t = t
