-- ===== src/Box360/Grid/Digits.antt =====
-- The binary digits of the palette indices that a packed grid spreads over its planes.
use je2be.Prelude.{ℕ, zero, suc, ◌+◌, ◌-◌, ◌*◌, ◌/◌, ◌%◌, ◌^◌, ◌<◌, ◌≡◌, ap, sym, subst, ◌∙◌}
use je2be.Prelude.{◌⊎◌, inl, inr, arith}
use je2be.Box360.Grid.{bit, palette_index}

mod2_cases : (m : ℕ) → (m % 2 ≡ 0) ⊎ (m % 2 ≡ 1)
mod2_cases m = ground arith

bit_cases : (v j : ℕ) → (bit v j ≡ 0) ⊎ (bit v j ≡ 1)
unfolding bit
bit_cases v j = mod2_cases (v / 2 ^ (7 - j))

add_bit : (b x p : ℕ) → (b ≡ 0) ⊎ (b ≡ 1) → p < x → p + b * x < x + x
add_bit b x p h lt = elim h [
  | inl e ↦ subst (λ c. p + c * x < x + x) (sym e) (omega arith)
  | inr e ↦ subst (λ c. p + c * x < x + x) (sym e) (omega arith)
]

double_power : (k : ℕ) → 2 ^ suc k ≡ 2 ^ k + 2 ^ k
double_power k = omega arith

-- An index that is put together from `k` bits is below 2 ^ k.
pub palette_index-lt : (v : ℕ → ℕ) (j k : ℕ) → palette_index v j k < 2 ^ k
unfolding palette_index bit
palette_index-lt v j zero = omega arith
palette_index-lt v j (suc k) =
    subst (λ x. palette_index v j k + bit (v k) j * 2 ^ k < x) (sym (double_power k))
      (add_bit (bit (v k) j) (2 ^ k) (palette_index v j k) (mod2_cases (v k / 2 ^ (7 - j)))
        (palette_index-lt v j k))

-- The binary digit `k`, from the lowest.
abbrev pub digit : ℕ → ℕ → ℕ
digit n zero = n % 2
digit n (suc k) = digit (n / 2) k

double_times : (b x : ℕ) → (b ≡ 0) ⊎ (b ≡ 1) → b * (x + x) ≡ b * x + b * x
double_times b x h = elim h [
  | inl e ↦ subst (λ c. c * (x + x) ≡ c * x + c * x) (sym e) (omega arith)
  | inr e ↦ subst (λ c. c * (x + x) ≡ c * x + c * x) (sym e) (omega arith)
]

-- The first round gives the lowest digit.
palette_index_low :
    (v : ℕ → ℕ) (j n : ℕ)
    → palette_index v j (suc n) ≡ bit (v 0) j + 2 * palette_index (λ k. v (suc k)) j n
unfolding palette_index
palette_index_low v j zero = omega arith
palette_index_low v j (suc n) =
    let b = bit (v (suc n)) j in
    let twice =
      ap (λ x. b * x) (double_power n) ∙ double_times b (2 ^ n) (bit_cases (v (suc n)) j) in
    omega (arith, palette_index_low v j n, twice)

pub digit-palette_index :
    (v : ℕ → ℕ) (j n k : ℕ) → k < n → digit (palette_index v j n) k ≡ bit (v k) j
digit-palette_index v j zero k h = absurd (omega arith)
digit-palette_index v j (suc n) zero h = omega (arith, palette_index_low v j n, bit_cases (v 0) j)
digit-palette_index v j (suc n) (suc k) h =
    let rest = palette_index (λ i. v (suc i)) j n in
    let half : palette_index v j (suc n) / 2 ≡ rest =
      omega (arith, palette_index_low v j n, bit_cases (v 0) j) in
    ap (λ m. digit m k) half ∙ digit-palette_index (λ i. v (suc i)) j n k (omega arith)

-- The mask and the shift take a digit of a byte, counted from the highest.
pub bit-digit : (v j : ℕ) → j < 8 → bit v j ≡ digit v (7 - j)
unfolding bit
bit-digit v zero h = omega arith
bit-digit v (suc zero) h = omega arith
bit-digit v (suc (suc zero)) h = omega arith
bit-digit v (suc (suc (suc zero))) h = omega arith
bit-digit v (suc (suc (suc (suc zero)))) h = omega arith
bit-digit v (suc (suc (suc (suc (suc zero))))) h = omega arith
bit-digit v (suc (suc (suc (suc (suc (suc zero)))))) h = omega arith
bit-digit v (suc (suc (suc (suc (suc (suc (suc zero))))))) h = omega arith
bit-digit v (suc (suc (suc (suc (suc (suc (suc (suc j)))))))) h = absurd (omega arith)
