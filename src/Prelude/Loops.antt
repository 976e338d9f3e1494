-- ===== src/Prelude/Loops.antt =====
-- Loops over ranges of integers, as the lists of the values that they take.
use Prim.Native.Nat.{ℕ, zero, suc}
use mathlib.Core.Path.{◌≡◌, refl, ap, sym, subst}
use mathlib.Core.Logic.{◌↔◌, ◌⊎◌, inl, inr}
use mathlib.Core.List.{List, [], ◌∷◌, ◌++◌, map}
use native.Mathlib.Omega.{arith}
use je2be.Prelude.Lists.{All, All-append, Any, Any-append_left, Any-append_right}
use je2be.Prelude.Int.{ℤ, pos, pos_part, neg_part, ◌+ℤ◌, ◌-ℤ◌, ◌≤ℤ◌, ◌<ℤ◌, eqb_ℤ_cases}
use je2be.Prelude.Int.{+ℤ_parts, -ℤ_parts, pos-parts, parts_normal}

-- `for (int i = from; i <= to; i++)`, as the values of `i`.
unfoldable pub count_up : ℤ → ℕ → List ℤ
count_up from zero = []
count_up from (suc n) = from ∷ count_up (from +ℤ pos 1) n

unfoldable pub for_range : ℤ → ℤ → List ℤ
unfolding count_up
for_range from to = count_up from (pos_part (to -ℤ from +ℤ pos 1))

abbrev pub concat_map : {A B : Type 0} → (A → List B) → List A → List B
concat_map f [] = []
concat_map f (a ∷ l) = f a ++ concat_map f l

-- The number of rounds of such a loop.
abbrev extent : ℤ → ℤ → ℕ
extent from to = pos_part (to -ℤ from +ℤ pos 1)

-- The `n` coordinates from `a` on.
abbrev pub Ahead : ℤ → ℕ → ℤ → Type 0
Ahead a n b = (a ≤ℤ b) × (b <ℤ a +ℤ pos n)

pub Ahead-zero : (a b : ℤ) → ¬ Ahead a 0 b
Ahead-zero a b h = omega (arith, h, +ℤ_parts a (pos 0), pos-parts 0)

pub Ahead-suc : (a : ℤ) (n : ℕ) (b : ℤ) → Ahead a (suc n) b ↔ ((b ≡ a) ⊎ Ahead (a +ℤ pos 1) n b)
Ahead-suc a n b = elim (eqb_ℤ_cases b a) [
  | inl e ↦ (
    λ h. inl e,
    λ h. omega (arith, ap pos_part e, ap neg_part e, +ℤ_parts a (pos (suc n)), pos-parts (suc n)),
  )
  | inr ne ↦
      let next = +ℤ_parts a (pos 1) in
      let last = +ℤ_parts a (pos (suc n)) in
      let last' = +ℤ_parts (a +ℤ pos 1) (pos n) in
      let one = pos-parts 1 in
      let this = pos-parts n in
      let more = pos-parts (suc n) in
      (
        λ h. inr (omega (arith, h, ne, next, last, last', one, this, more)),
        λ h. elim h [
          | inl e ↦ absurd (ne (rw e refl))
          | inr k ↦ omega (arith, k, next, last, last', one, this, more)
        ],
      )
]

pub Ahead-rounds : (a b c : ℤ) → Ahead a (extent a b) c ↔ ((a ≤ℤ c) × (c ≤ℤ b))
Ahead-rounds a b c =
    let n = extent a b in
    let last = +ℤ_parts a (pos n) in
    let gap = -ℤ_parts b a in
    let gap' = +ℤ_parts (b -ℤ a) (pos 1) in
    let side = parts_normal (b -ℤ a +ℤ pos 1) in
    (
      λ h. omega (arith, h, last, gap, gap', side, pos-parts n, pos-parts 1),
      λ h. omega (arith, h, last, gap, gap', side, pos-parts n, pos-parts 1),
    )

-- An entry of the list is the value.
abbrev pub In : {A : Type 0} → A → List A → Type 0
In a l = Any (λ b. b ≡ a) l

pub In-map : {A B : Type 0} (f : A → B) (a : A) (l : List A) → In a l → In (f a) (map f l)
In-map f a [] h = absurd h
In-map f a (b ∷ l) (inl e) = inl (ap f e)
In-map f a (b ∷ l) (inr h) = inr (In-map f a l h)

pub In-append_left : {A : Type 0} (a : A) (l m : List A) → In a l → In a (l ++ m)
In-append_left a l m h = Any-append_left (λ b. b ≡ a) l m h

pub In-concat_map :
    {A B : Type 0} (f : A → List B) (a : A) (b : B) (l : List A)
    → In a l
    → In b (f a)
    → In b (concat_map f l)
In-concat_map f a b [] h g = absurd h
In-concat_map f a b (c ∷ l) (inl e) g =
    Any-append_left (λ x. x ≡ b) (f c) (concat_map f l) (subst (λ d. In b (f d)) (sym e) g)
In-concat_map f a b (c ∷ l) (inr h) g =
    Any-append_right (λ x. x ≡ b) (f c) (concat_map f l) (In-concat_map f a b l h g)

pub All-concat_map :
    {A B : Type 0} (P : B → Type 0) (f : A → List B) (l : List A)
    → All (λ a. All P (f a)) l
    → All P (concat_map f l)
All-concat_map P f [] h = tt
All-concat_map P f (a ∷ l) h = All-append P (f a) (concat_map f l) h.0 (All-concat_map P f l h.1)

pub All-map :
    {A B : Type 0} (P : B → Type 0) (f : A → B) (l : List A)
    → All (λ a. P (f a)) l
    → All P (map f l)
All-map P f [] h = tt
All-map P f (a ∷ l) h = (h.0, All-map P f l h.1)

pub All-imply :
    {A : Type 0} (P Q : A → Type 0) (l : List A) → ((a : A) → P a → Q a) → All P l → All Q l
All-imply P Q [] f h = tt
All-imply P Q (a ∷ l) f h = (f a h.0, All-imply P Q l f h.1)

In-count_up : (from : ℤ) (n : ℕ) (i : ℤ) → Ahead from n i → In i (count_up from n)
unfolding count_up
In-count_up from zero i h = absurd (Ahead-zero from i h)
In-count_up from (suc n) i h = elim ((Ahead-suc from n i).0 h) [
  | inl e ↦ inl (sym e)
  | inr k ↦ inr (In-count_up (from +ℤ pos 1) n i k)
]

count_up-All : (from : ℤ) (n : ℕ) → All (Ahead from n) (count_up from n)
unfolding count_up
count_up-All from zero = tt
count_up-All from (suc n) = (
  (Ahead-suc from n from).1 (inl refl),
  All-imply _ _ (count_up (from +ℤ pos 1) n) (λ i h. (Ahead-suc from n i).1 (inr h))
      (count_up-All (from +ℤ pos 1) n),
)

pub In-for_range : (from to i : ℤ) → from ≤ℤ i → i ≤ℤ to → In i (for_range from to)
unfolding for_range
In-for_range from to i a b = In-count_up from (extent from to) i ((Ahead-rounds from to i).1 (a, b))

pub for_range-All : (from to : ℤ) → All (λ i. (from ≤ℤ i) × (i ≤ℤ to)) (for_range from to)
unfolding for_range
for_range-All from to =
    All-imply _ _ (for_range from to) (λ i h. (Ahead-rounds from to i).0 h)
      (count_up-All from (extent from to))

-- A loop over a list, with a state.
abbrev pub for_each : {A S : Type 0} → (A → S → S) → List A → S → S
for_each f [] s = s
for_each f (a ∷ l) s = for_each f l (f a s)

module _ {A S : Type 0} (R : S → S → Type 0) (R_refl : (s : S) → R s s)
    (R_trans : (s t u : S) → R s t → R t u → R s u) (f : A → S → S)
    (each : (a : A) (s : S) → R s (f a s)) where
  -- What relates the states of each round relates those of the loop.
  pub for_each_relates : (l : List A) (s : S) → R s (for_each f l s)
  for_each_relates [] s = R_refl s
  for_each_relates (a ∷ l) s = R_trans s (f a s) _ (each a s) (for_each_relates l (f a s))

  -- The round of an entry, with what comes before and behind it.
  pub for_each_at :
      (a : A) (l : List A) (s : S) → In a l → (t : S) × (R s t × R (f a t) (for_each f l s))
  for_each_at a [] s i = absurd i
  for_each_at a (b ∷ l) s (inl e) =
      (s, (R_refl s, subst (λ c. R (f c s) (for_each f l (f b s))) e (for_each_relates l (f b s))))
  for_each_at a (b ∷ l) s (inr i) =
      let rest = for_each_at a l (f b s) i in
      (rest.0, (R_trans s (f b s) rest.0 (each b s) rest.1.0, rest.1.1))
