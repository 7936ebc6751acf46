-- ===== src/Match/Difference.antt =====
-- The difference of two decimals, in percent: it is symmetric, bounded and orders as fractions do.
use native.Mathlib.Nat.{mul_comm, mul_right_comm, mul-le-mul_right, le_of_mul-le-mul_right, mul-pos}
use entirius_django_atlas.Base.{◌*◌, ◌≤◌, ◌<◌, ◌≡◌, ◌⊎◌, true, false, arith}
use entirius_django_atlas.Transform.{Decimal}
use entirius_django_atlas.Match.{Percent, diff_pct, above, same_sign}

-- A percentage is a fraction with a positive denominator.
abbrev pub IsProper : Percent → Type 0
IsProper p = 0 < p.den

-- `p <= q`
infix 50 ◌≤%◌
abbrev pub ◌≤%◌ : Percent → Percent → Type 0
p ≤% q = p.num * q.den ≤ q.num * p.den

pub ≤%_trans : (p q r : Percent) → IsProper q → p ≤% q → q ≤% r → p ≤% r
≤%_trans p q r q_pos h g =
    let a : p.num * q.den * r.den ≤ q.num * p.den * r.den = mul-le-mul_right r.den h in
    let b : q.num * r.den * p.den ≤ r.num * q.den * p.den = mul-le-mul_right p.den g in
    le_of_mul-le-mul_right
      (omega (
        arith,
        a,
        b,
        mul_right_comm p.num r.den q.den,
        mul_right_comm q.num p.den r.den,
        mul_right_comm r.num p.den q.den,
      ))
      q_pos

pub not_above : (p q : Percent) → above p q ≡ false → p ≤% q
not_above p q h = ground arith

pub is_above : (p q : Percent) → above p q ≡ true → q ≤% p
is_above p q h = ground arith

pub le_not_above : (p q : Percent) → p ≤% q → above p q ≡ false
le_not_above p q h = ground arith

pub diff_pct-IsProper : (a b : Decimal) → 0 < a.scale → 0 < b.scale → IsProper (diff_pct a b)
unfolding diff_pct
diff_pct-IsProper a b h g = ground (arith, mul-pos h g)

percent_eq : {p q : Percent} → p.num ≡ q.num → p.den ≡ q.den → p ≡ q
percent_eq a b = λ i. record { num = a i; den = b i }

-- The difference does not depend on the order of the two values, and is at most 200 percent; it is
-- at most 100 percent for two values of one sign.
pub diff_pct_lem :
    (a b : Decimal)
    → (diff_pct a b ≡ diff_pct b a)
      × ((diff_pct a b).num ≤ 200 * (diff_pct a b).den)
      × ((same_sign a.negative b.negative ≡ false)
          ⊎ ((diff_pct a b).num ≤ 100 * (diff_pct a b).den))
unfolding diff_pct
diff_pct_lem a b = (
  percent_eq (ground arith) (ground (arith, mul_comm a.scale b.scale)),
  ground arith,
  ground arith,
)
