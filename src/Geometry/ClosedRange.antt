-- ===== src/Geometry/ClosedRange.antt =====
-- src/_closed-range.hpp, at `int`.
use je2be.Prelude.{◌≡◌, ◌&&◌, ◌↔◌, Option, none, some, arith, if◌then◌else◌}
use je2be.Prelude.Int.{ℤ, ◌≤ℤ◌, leb_ℤ, min_ℤ, leb_ℤ_iff, min_ℤ_cases}

pub record ClosedRange : Type 0 where
  pub minimum : ℤ
  pub maximum : ℤ

abbrev pub closed : ℤ → ℤ → ClosedRange
closed a b = record { minimum = a; maximum = b }

unfoldable pub intersection : ClosedRange → ClosedRange → Option ClosedRange
intersection a b =
    let minend = min_ℤ a.maximum b.maximum in
    if leb_ℤ b.minimum a.minimum && leb_ℤ a.minimum b.maximum
    then some (closed a.minimum minend)
    else if leb_ℤ a.minimum b.minimum && leb_ℤ b.minimum a.maximum
    then some (closed b.minimum minend)
    else none

-- `t` lies between the ends of the range, both included.
abbrev pub Within : ClosedRange → ℤ → Type 0
Within r t = (r.minimum ≤ℤ t) × (t ≤ℤ r.maximum)

abbrev pub WithinSome : Option ClosedRange → ℤ → Type 0
WithinSome none t = ⊥
WithinSome (some r) t = Within r t

-- A number lies in both ranges exactly when the intersection exists and holds it.
pub intersection_lem :
    (a b : ClosedRange) (t : ℤ) → WithinSome (intersection a b) t ↔ (Within a t × Within b t)
unfolding intersection
intersection_lem a b t =
    let ba = leb_ℤ_iff b.minimum a.minimum in
    let am = leb_ℤ_iff a.minimum b.maximum in
    let ab = leb_ℤ_iff a.minimum b.minimum in
    let bm = leb_ℤ_iff b.minimum a.maximum in
    let least = min_ℤ_cases a.maximum b.maximum in
    (ground (arith, ba, am, ab, bm, least), ground (arith, ba, am, ab, bm, least))

abbrev pub IsValid : ClosedRange → Type 0
IsValid r = r.minimum ≤ℤ r.maximum

-- The intersection of two ranges that meet the constructor's assertion meets it too.
pub intersection-IsValid :
    (a b : ClosedRange) {r : ClosedRange}
    → IsValid a
    → IsValid b
    → intersection a b ≡ some r
    → IsValid r
unfolding intersection
intersection-IsValid a b va vb e = ground (
  arith,
  leb_ℤ_iff b.minimum a.minimum,
  leb_ℤ_iff a.minimum b.maximum,
  leb_ℤ_iff a.minimum b.minimum,
  leb_ℤ_iff b.minimum a.maximum,
  min_ℤ_cases a.maximum b.maximum,
)
