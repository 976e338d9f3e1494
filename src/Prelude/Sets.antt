-- ===== src/Prelude/Sets.antt =====
-- Hash sets (`std::unordered_set`): a list in the order of the set's iteration, in which an
-- insertion never makes a second entry.
use Prim.Native.Nat.{ℕ, zero, suc, ◌≤◌, ◌<◌}
use mathlib.Core.Path.{◌≡◌, subst}
use mathlib.Core.Logic.{◌≢◌, ◌↔◌, ◌⊎◌, inl, inr}
use mathlib.Core.Bool.{Bool, true, false}
use mathlib.Core.List.{List, [], ◌∷◌}
use native.Mathlib.Omega.{arith}
use je2be.Prelude.Tests.{Bool-cases, if◌then◌else◌}
use je2be.Prelude.Lists.{length}
use je2be.Prelude.Equality.{Eq}

module _ {A : Type 0} ⦃e : Eq A⦄ where
  unfoldable pub has : A → List A → Bool
  has a [] = false
  has a (b ∷ s) = if e.beq a b then true else has a s

  unfoldable pub emplace : A → List A → List A
  unfolding has
  emplace a s = if has a s then s else a ∷ s

  unfoldable pub erase : A → List A → List A
  erase a [] = []
  erase a (b ∷ s) = let rest = erase a s in if e.beq a b then rest else b ∷ rest

  abbrev pub Has : List A → A → Type 0
  Has s a = has a s ≡ true

  pub Eq-cases : (a b : A) → (a ≡ b) ⊎ (a ≢ b)
  Eq-cases a b = elim (Bool-cases (e.beq a b)) [
    | inl h ↦ inl ((e.beq_iff a b).0 h)
    | inr h ↦ inr (λ p. cc (h, (e.beq_iff a b).1 p))
  ]

  pub Has-nil : (a : A) → ¬ Has [] a
  unfolding has
  Has-nil a h = ground arith

  pub Has-cons : (a b : A) (s : List A) → Has (b ∷ s) a ↔ ((a ≡ b) ⊎ Has s a)
  unfolding has
  Has-cons a b s = (λ h. ground (arith, e.beq_iff a b), λ h. ground (arith, e.beq_iff a b))

  pub Has-emplace : (a b : A) (s : List A) → Has (emplace b s) a ↔ ((a ≡ b) ⊎ Has s a)
  unfolding emplace
  Has-emplace a b s = elim (Bool-cases (has b s)) [
    | inl h ↦ rw (h, emplace) (λ k. inr k, λ k. elim k [ inl p ↦ rw p h | inr m ↦ m ])
    | inr h ↦ rw (h, emplace) (Has-cons a b s)
  ]

  pub Has-erase : (a b : A) (s : List A) → Has (erase b s) a ↔ (Has s a × (a ≢ b))
  unfolding erase
  Has-erase a b [] = (λ h. absurd (Has-nil a h), λ h. h.0)
  Has-erase a b (c ∷ s) =
      let ih = Has-erase a b s in
      let whole = Has-cons a c s in
      elim (Bool-cases (e.beq b c)) [
        | inl h ↦
            let same = (e.beq_iff b c).0 h in
            rw (h, erase)
              (
                λ k. (whole.1 (inr (ih.0 k).0), (ih.0 k).1),
                λ k. ih.1 (ground (arith, whole, same), k.1),
              )
        | inr h ↦
            let kept = Has-cons a c (erase b s) in
            let apart : b ≢ c = λ p. cc (h, (e.beq_iff b c).1 p) in
            rw (h, erase)
              (
                λ k. (ground (arith, whole, kept, ih), ground (arith, whole, kept, ih, apart)),
                λ k. ground (arith, whole, kept, ih),
              )
      ]

  pub length-erase : (a : A) (s : List A) → length (erase a s) ≤ length s
  unfolding erase
  length-erase a [] = omega arith
  length-erase a (b ∷ s) = ground (arith, length-erase a s)

  pub length-erase_lt : (a : A) (s : List A) → Has s a → length (erase a s) < length s
  unfolding erase has
  length-erase_lt a [] h = ground arith
  length-erase_lt a (b ∷ s) h = ground (arith, length-erase a s, length-erase_lt a s)

  -- A set that holds `n` different entries has at least that many.
  pub distinct-le-length :
      (n : ℕ) (f : ℕ → A) (s : List A)
      → ((i j : ℕ) → i < n → j < n → f i ≡ f j → i ≡ j)
      → ((i : ℕ) → i < n → Has s (f i))
      → n ≤ length s
  distinct-le-length zero f s inj h = omega arith
  distinct-le-length (suc n) f s inj h =
      let ih =
        distinct-le-length n f (erase (f n) s) (λ i j a b. inj i j (omega arith) (omega arith))
          (λ i a.
            (Has-erase (f i) (f n) s).1
              (h i (omega arith), λ p. omega (arith, inj i n (omega arith) (omega arith) p))) in
      omega (arith, ih, length-erase_lt (f n) s (h n (omega arith)))

  -- `s'` is `s` with some entries taken out.
  pub record Shrinks (s s' : List A) : Type 0 where
    pub shorter : length s' ≤ length s
    pub loses : (a : A) → Has s a → ¬ Has s' a → length s' < length s

  pub Shrinks-refl : (s : List A) → Shrinks s s
  Shrinks-refl s = record { shorter = omega arith; loses = λ a h n. absurd (n h) }

  pub Shrinks-trans : (s t u : List A) → Shrinks s t → Shrinks t u → Shrinks s u
  Shrinks-trans s t u f g = record {
    shorter = omega (arith, f.shorter, g.shorter);
    loses = λ a h n. elim (Bool-cases (has a t)) [
      | inl k ↦ omega (arith, g.loses a k n, f.shorter)
      | inr k ↦ omega (arith, f.loses a h (λ m. cc (k, m)), g.shorter)
    ];
  }

  pub erase-Shrinks : (a : A) (s : List A) → Shrinks s (erase a s)
  erase-Shrinks a s = record {
    shorter = length-erase a s;
    loses = λ b h n. elim (Eq-cases b a) [
      | inl e ↦ length-erase_lt a s (subst (λ c. Has s c) e h)
      | inr ne ↦ absurd (n ((Has-erase b a s).1 (h, ne)))
    ];
  }
