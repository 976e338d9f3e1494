-- ===== src/Prelude/Int64.antt =====
-- The values of `i64`, each as its word below 2 ^ 64.
use Prim.Native.Nat.{ℕ, ◌%◌, ◌^◌}
use mathlib.Core.Path.{◌≡◌, ap}
use mathlib.Core.Bool.{true}
use mathlib.Core.HLevel.{is_prop→PathP}
use native.Mathlib.Omega.{arith}
use je2be.Prelude.Tests.{ltb, ◌==◌, ==_iff}
use je2be.Prelude.Equality.{Eq}

pub record Int64 : Type 0 where
  pub word : ℕ
  pub bounded : ltb word (2 ^ 64) ≡ true

pub low_bounded : (n : ℕ) → ltb (n % 2 ^ 64) (2 ^ 64) ≡ true
low_bounded n = ground arith

-- The value with the lowest 64 bits of a number.
unfoldable pub to_int64 : ℕ → Int64
to_int64 n = record { word = n % 2 ^ 64; bounded = low_bounded n }

test_IsProp : (n : ℕ) → IsProp (ltb n (2 ^ 64) ≡ true)
test_IsProp n = hlevel

pub Int64_ext : (a b : Int64) → a.word ≡ b.word → a ≡ b
Int64_ext a b e = λ i. record {
  word = e i;
  bounded =
      is_prop→PathP (λ j. ltb (e j) (2 ^ 64) ≡ true) (λ j. test_IsProp (e j)) a.bounded b.bounded i;
}

instance abbrev pub int64_eq : Eq Int64
int64_eq = record {
  beq = λ a b. a.word == b.word;
  beq_iff = λ a b. (
    λ h. Int64_ext a b ((==_iff a.word b.word).0 h),
    λ e. (==_iff a.word b.word).1 (ap (λ (c : Int64). c.word) e),
  );
}
