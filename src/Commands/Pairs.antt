-- ===== src/Commands/Pairs.antt =====
-- `Erase`, `Get` and the loop of `ParseRawArguments`.
use Prim.Native.String.{String}
use text.Mathlib.Text.{◌==◌}
use text.Mathlib.TextEquality.{eq_iff}
use je2be.Prelude.{ℕ, zero, suc, ◌≤◌, ◌≡◌, ◌≢◌, refl, ap, inl, inr, Bool-cases}
use je2be.Prelude.{Bool, ◌||◌, true, false, List, [], ◌∷◌, length, All, if◌then◌else◌, arith}
use je2be.Commands.{Pair, Argument, ranged, erase_key, get_key, take_argument}
use je2be.Commands.{parse_loop, parse_raw_arguments, bedrock_min, bedrock_max}
use je2be.Commands.{NumberArgumentType, distance, level, x_rotation, y_rotation}

pub same_key : (k : String) → (k == k) ≡ true
same_key k = (eq_iff k k).1 refl

pub other_key : (k l : String) → k ≢ l → (k == l) ≡ false
other_key k l ne = elim (Bool-cases (k == l)) [ inl h ↦ absurd (ne ((eq_iff k l).0 h)) | inr h ↦ h ]

-- No pair has the key.
abbrev pub Lacks : String → List Pair → Type 0
Lacks k ps = All (λ p. (p.0 == k) ≡ false) ps

pub erase_key-Lacks : (k : String) (ps : List Pair) → Lacks k ps → erase_key k ps ≡ ps
unfolding erase_key
erase_key-Lacks k [] h = refl
erase_key-Lacks k ((l, v) ∷ ps) h = rw h.0 (ap (λ r. (l, v) ∷ r) (erase_key-Lacks k ps h.1))

pub get_key-Lacks : (k : String) (ps : List Pair) → Lacks k ps → get_key k ps ≡ ""
unfolding get_key
get_key-Lacks k [] h = refl
get_key-Lacks k ((l, v) ∷ ps) h = rw h.0 (get_key-Lacks k ps h.1)

pub erase_key_same : (k v : String) (ps : List Pair) → erase_key k ((k, v) ∷ ps) ≡ erase_key k ps
unfolding erase_key
erase_key_same k v ps = rw (same_key k) refl

pub erase_key_other :
    (k l v : String) (ps : List Pair) → l ≢ k → erase_key k ((l, v) ∷ ps) ≡ (l, v) ∷ erase_key k ps
unfolding erase_key
erase_key_other k l v ps ne = rw (other_key l k ne) refl

length-erase_key : (k : String) (ps : List Pair) → length (erase_key k ps) ≤ length ps
unfolding erase_key
length-erase_key k [] = omega arith
length-erase_key k ((l, v) ∷ ps) = ground (arith, length-erase_key k ps)

erase_key_comm :
    (k l : String) (ps : List Pair) → erase_key k (erase_key l ps) ≡ erase_key l (erase_key k ps)
unfolding erase_key
erase_key_comm k l [] = refl
erase_key_comm k l ((m, v) ∷ ps) = elim (Bool-cases (m == k)) [
  | inl a ↦ elim (Bool-cases (m == l)) [
    | inl b ↦ rw (a, b) (erase_key_comm k l ps)
    | inr b ↦ rw (a, b) (rw a (erase_key_comm k l ps))
  ]
  | inr a ↦ elim (Bool-cases (m == l)) [
    | inl b ↦ rw (a, b) (erase_key_comm k l ps)
    | inr b ↦ rw (a, b) (rw a (ap (λ r. (m, v) ∷ r) (erase_key_comm k l ps)))
  ]
]

-- In each branch the pairs left are all there were, or those without the two keys of a range.
take_argument-cases :
    (P : List Pair → Type 0) (k v : String) (ps : List Pair)
    → P ps
    → ((t : NumberArgumentType) → P (ranged t ps).1)
    → P (take_argument k v ps).1
unfolding take_argument
take_argument-cases P k v ps all two = if_of (k == "distance") _ _ all (
    if_of (k == "r" || k == "rm") _ _ (two distance) (
      if_of (k == "level") _ _ all (
        if_of (k == "l" || k == "lm") _ _ (two level) (
          if_of (k == "x_rotation") _ _ all (
            if_of (k == "rx" || k == "rxm") _ _ (two x_rotation) (
              if_of (k == "y_rotation") _ _ all (
                if_of (k == "ry" || k == "rym") _ _ (two y_rotation) (
                  if_of (k == "gamemode" || k == "m") _ _ all
                    (if_of (k == "limit" || k == "c") _ _ all all)))))))))
  where
    if_of : (b : Bool) (x y : Argument × List Pair) → P x.1 → P y.1 → P (if b then x else y).1
    if_of true x y h g = h
    if_of false x y h g = g

length-erase_taken :
    (k v : String) (ps : List Pair)
    → length (erase_key k (take_argument k v ((k, v) ∷ ps)).1) ≤ length ps
length-erase_taken k v ps =
    take_argument-cases (λ l. length (erase_key k l) ≤ length ps) k v ((k, v) ∷ ps)
      (rw (erase_key_same k v ps) (length-erase_key k ps))
      (λ t.
        let m = bedrock_min t in
        let n = bedrock_max t in
        let first = erase_key_comm k m (erase_key n ((k, v) ∷ ps)) in
        let second = erase_key_comm k n ((k, v) ∷ ps) in
        omega (
          arith,
          ap length first,
          ap (λ l. length (erase_key m l)) second,
          ap (λ l. length (erase_key m (erase_key n l))) (erase_key_same k v ps),
          length-erase_key m (erase_key n (erase_key k ps)),
          length-erase_key n (erase_key k ps),
          length-erase_key k ps,
        ))

parse_loop-fuel :
    (n m : ℕ) (ps : List Pair) → length ps ≤ n → length ps ≤ m → parse_loop n ps ≡ parse_loop m ps
unfolding parse_loop
parse_loop-fuel zero zero ps h g = refl
parse_loop-fuel zero (suc m) [] h g = refl
parse_loop-fuel (suc n) zero [] h g = refl
parse_loop-fuel (suc n) (suc m) [] h g = refl
parse_loop-fuel zero m (p ∷ ps) h g = absurd (omega (arith, h))
parse_loop-fuel (suc n) zero (p ∷ ps) h g = absurd (omega (arith, g))
parse_loop-fuel (suc n) (suc m) ((k, v) ∷ ps) h g =
    let shorter = length-erase_taken k v ps in
    ap (λ r. (take_argument k v ((k, v) ∷ ps)).0 ∷ r)
      (parse_loop-fuel n m (erase_key k (take_argument k v ((k, v) ∷ ps)).1)
        (omega (arith, h, shorter)) (omega (arith, g, shorter)))

-- Fuel that is at least the number of pairs is enough.
pub parse_loop-enough :
    (fuel : ℕ) (ps : List Pair) → length ps ≤ fuel → parse_loop fuel ps ≡ parse_raw_arguments ps
unfolding parse_raw_arguments
parse_loop-enough fuel ps h = parse_loop-fuel fuel (length ps) ps h (omega arith)

-- A round of the loop.
pub parse_raw_arguments-cons :
    (k v : String) (ps : List Pair)
    → let taken = take_argument k v ((k, v) ∷ ps) in
      parse_raw_arguments ((k, v) ∷ ps) ≡ taken.0 ∷ parse_raw_arguments (erase_key k taken.1)
unfolding parse_raw_arguments parse_loop
parse_raw_arguments-cons k v ps =
    let taken = take_argument k v ((k, v) ∷ ps) in
    ap (λ r. taken.0 ∷ r)
      (parse_loop-enough (length ps) (erase_key k taken.1) (length-erase_taken k v ps))
