-- ===== src/Enums/Prefix.antt =====
-- What the enums use of `std::string`: `starts_with`, `substr` to the end, and the loop that looks
-- for the value with a given name.
use Prim.Native.String.{String}
use Prim.Native.Char.{code}
use text.Mathlib.Text.{◌==◌ as str_eq}
use je2be.Prelude.{ℕ, zero, suc, ◌==◌, Bool, true, false, ◌&&◌, List, [], ◌∷◌}
use je2be.Prelude.{◌≡◌, subst, inl, inr, Bool-cases, arith, Option, none, some, if◌then◌else◌}
use text.Mathlib.TextEquality.{eq_iff}

unfoldable pub has_prefix : String → String → Bool
has_prefix String.[] s = true
has_prefix (String.◌∷◌ c p) String.[] = false
has_prefix (String.◌∷◌ c p) (String.◌∷◌ d s) = (code c == code d) && has_prefix p s

unfoldable pub skip : ℕ → String → String
skip zero s = s
skip (suc n) String.[] = String.[]
skip (suc n) (String.◌∷◌ c s) = skip n s

unfoldable pub find_named : {A : Type 0} → (A → String) → String → List A → Option A
find_named name n [] = none
find_named name n (a ∷ l) = if str_eq (name a) n then some a else find_named name n l

-- What the loop finds has the name.
pub find_named-name :
    {A : Type 0} (name : A → String) (n : String) (l : List A) (a : A)
    → find_named name n l ≡ some a
    → name a ≡ n
unfolding find_named
find_named-name name n [] a h = ground arith
find_named-name name n (b ∷ l) a h = elim (Bool-cases (str_eq (name b) n)) [
  | inl e ↦ subst (λ c. name c ≡ n) (ground (arith, h)) ((eq_iff (name b) n).0 e)
  | inr e ↦ find_named-name name n l a (ground (arith, h, e))
]

unfoldable pub append : String → String → String
append String.[] t = t
append (String.◌∷◌ c s) t = String.◌∷◌ c (append s t)

-- The text after `minecraft:`.
unfoldable pub minecraft : String → String
unfolding append
minecraft s = append "minecraft:" s
