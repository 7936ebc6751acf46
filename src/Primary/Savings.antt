-- ===== src/Primary/Savings.antt =====
-- By how much the winner of an evaluation is cheaper than the link that it replaces.
use native.Mathlib.Nat.{div-add-mod, mod-lt, mul-le-mul_left}
use entirius_django_atlas.Base.{
  ℕ, suc, ◌+◌, ◌-◌, ◌*◌, ◌/◌, ◌%◌, ◌≤◌, ◌<◌, ◌≡◌, refl, ◌⊎◌, inl, inr, true, false, ◌==◌, ltb, leb,
  some, String, Bool-cases, first_row, arith, leb→le,
}
use entirius_django_atlas.Base.Int.{ℤ, pos, negsuc, sub_ℕ, leb_ℤ, ◌-ℤ◌, ◌≤ℤ◌}
use entirius_django_atlas.Model.{SourceProductLink}
use entirius_django_atlas.Store.{Store}
use entirius_django_atlas.Primary.{
  PrimaryCandidate, evaluate_primary_source, active_links, summarise_link, cost_improvement_pct,
  round_half_even, scale_up,
}
use entirius_django_atlas.Primary.Decision.{evaluate_primary_source-Switches}

round_half_even_cases :
    (n d : ℕ)
    → ((round_half_even n d ≡ n / d) × (2 * (n % d) ≤ d))
      ⊎ ((round_half_even n d ≡ n / d + 1) × (d ≤ 2 * (n % d)))
unfolding round_half_even
round_half_even_cases n d = elim (Bool-cases (ltb (2 * (n % d)) d)) [
  | inl a ↦ inl (ground (arith, a), ground (arith, a))
  | inr a ↦ elim (Bool-cases (ltb d (2 * (n % d)))) [
    | inl b ↦ inr (ground (arith, a, b), ground (arith, b))
    | inr b ↦ elim (Bool-cases ((n / d) % 2 == 0)) [
      | inl e ↦ inl (ground (arith, a, b, e), ground (arith, b))
      | inr e ↦ inr (ground (arith, a, b, e), ground (arith, a))
    ]
  ]
]

-- Rounding is off by half a unit at most.
round_half_even_bounds :
    (n d : ℕ)
    → 0 < d
    → (2 * (d * round_half_even n d) ≤ 2 * n + d) × (2 * n ≤ 2 * (d * round_half_even n d) + d)
round_half_even_bounds n d h = elim (round_half_even_cases n d) [
  | inl (e, r) ↦ rw e (omega (arith, div-add-mod n d, r))
  | inr (e, r) ↦ rw e (omega (arith, div-add-mod n d, r, mod-lt n h))
]

rounded_zero : (d : ℕ) → 0 < d → round_half_even 0 d ≡ 0
rounded_zero d h = elim (round_half_even_cases 0 d) [
  | inl (e, r) ↦ rw e (omega arith)
  | inr (e, r) ↦ absurd (omega (arith, div-add-mod 0 d, r))
]

positive : (c : ℕ) → 0 < c → leb_ℤ (pos c) (pos 0) ≡ false
positive c p = ground arith

improvement_cheaper :
    (c w : ℕ)
    → 0 < c
    → w ≤ c
    → cost_improvement_pct (pos c) (pos w) ≡ pos (round_half_even (1_000_000 * (c - w)) c)
unfolding cost_improvement_pct ◌-ℤ◌
improvement_cheaper c w p h =
    let less : sub_ℕ (c + 0) (0 + w) ≡ pos (c - w) = ground arith in
    let scaled : scale_up (pos (c - w)) ≡ pos (1_000_000 * (c - w)) = ground arith in
    rw (positive c p) (rw less (rw scaled (rw (rounded_zero c p) (ground arith))))

improvement_dearer :
    (c w : ℕ)
    → 0 < c
    → c < w
    → cost_improvement_pct (pos c) (pos w) ≡ sub_ℕ 0 (round_half_even (1_000_000 * (w - c)) c)
unfolding cost_improvement_pct ◌-ℤ◌
improvement_dearer c w p h =
    let more : sub_ℕ (c + 0) (0 + w) ≡ negsuc (w - c - 1) = ground arith in
    let scaled : scale_up (negsuc (w - c - 1)) ≡ negsuc (1_000_000 * (w - c) - 1) = ground arith in
    let up : suc (1_000_000 * (w - c) - 1) ≡ 1_000_000 * (w - c) = omega arith in
    rw (positive c p) (rw more (rw scaled (rw (rounded_zero c p) (rw up))))

-- What an improvement of at least `h` units says of two positive costs.
improvement_saves :
    (c w h : ℕ)
    → 0 < c
    → pos h ≤ℤ cost_improvement_pct (pos c) (pos w)
    → 2 * (c * h) + 2_000_000 * w ≤ 2_000_000 * c + c
improvement_saves c w h p q = elim (Bool-cases (leb w c)) [
  | inl le ↦
      let up = (round_half_even_bounds (1_000_000 * (c - w)) c p).0 in
      let q' : h ≤ round_half_even (1_000_000 * (c - w)) c =
        ground (arith, q, improvement_cheaper c w p (ground arith)) in
      omega (arith, leb→le w c le, mul-le-mul_left c q', up)
  | inr gt ↦
      let dearer = improvement_dearer c w p (ground arith) in
      let down = (round_half_even_bounds (1_000_000 * (w - c)) c p).1 in
      let none_of : h ≡ 0 = ground (arith, q, dearer) in
      let zero_of : round_half_even (1_000_000 * (w - c)) c ≡ 0 = ground (arith, q, dearer) in
      rw none_of (omega (arith, rw zero_of at down))
]

-- The cost is negative, or less than `c` by `pct` (in units of 1/10000 of a percent) up to rounding.
abbrev pub IsCheaper : ℕ → ℕ → ℤ → Type 0
IsCheaper c pct z =
    ((n : ℕ) × (z ≡ negsuc n))
    ⊎ ((cost : ℕ) × (z ≡ pos cost) × (2 * (c * pct) + 2_000_000 * cost ≤ 2_000_000 * c + c))

saves_of :
    (c pct : ℕ) (z : ℤ) → 0 < c → pos pct ≤ℤ cost_improvement_pct (pos c) z → IsCheaper c pct z
saves_of c pct (pos cost) p gain = inr (cost, refl, improvement_saves c cost pct p gain)
saves_of c pct (negsuc n) p gain = inl (n, refl)

-- A switch that does not bypass the safety gates, away from a primary link whose product costs a
-- positive `c`, goes to a link whose product (if its cost is not negative) costs at most
-- `c - c * pct / 100`, with pct the hysteresis of the current source, up to half of the last decimal
-- place to which the code rounds the percentage (c / 2000000).
pub switch_saves :
    (now : ℕ) (sku : String) (s : Store) (current : SourceProductLink) (summary : PrimaryCandidate)
    (c : ℕ)
    → (evaluate_primary_source now false sku s).should_switch ≡ true
    → first_row (λ l. l.is_primary) (active_links sku s.links) ≡ some current
    → summarise_link s.products current ≡ some summary
    → summary.cost ≡ pos c
    → 0 < c
    → (w : PrimaryCandidate) × ((evaluate_primary_source now false sku s).new_primary ≡ some w.link)
      × (summarise_link s.products w.link ≡ some w)
      × IsCheaper c (current.source.primary_switch_hysteresis_pct * 10_000) w.cost
switch_saves now sku s current summary c on held is_summary costs p =
    let (w, new, sw) = evaluate_primary_source-Switches now false sku s on in
    let gain = (sw.replaces current held).improves refl summary is_summary in
    (w, new, sw.winner.stocked.1, saves_of c _ w.cost p (rw costs at gain))
