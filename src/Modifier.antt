-- ===== src/Modifier.antt =====
-- The stock modifiers of django_atlas/services/modifier_service.py.
use entirius_django_atlas.Base.{
  ℕ, ◌≡◌, ◌⊎◌, inl, inr, Bool-cases, Option, none, some, if◌then◌else◌, refl, arith,
}
use entirius_django_atlas.Base.Int.{ℤ, pos, ◌-ℤ◌, ◌≤ℤ◌, leb_ℤ, -ℤ_parts}
use entirius_django_atlas.Model.{Source}

-- Python's `max`
abbrev pub max_ℤ : ℤ → ℤ → ℤ
max_ℤ a b = if leb_ℤ b a then a else b

-- `raw_qty or 0`
abbrev pub base_qty : Option ℤ → ℤ
base_qty none = pos 0
base_qty (some qty) = qty

unfoldable pub apply_qty_modifiers : Option ℤ → Source → ℤ
apply_qty_modifiers raw_qty source =
    max_ℤ (pos 0) (max_ℤ (pos source.qty_minimum) (base_qty raw_qty -ℤ pos source.qty_subtract))

module _ (a b : ℤ) where
  left_le_max : a ≤ℤ max_ℤ a b
  left_le_max = ground arith

  right_le_max : b ≤ℤ max_ℤ a b
  right_le_max = ground arith

  max_cases : (max_ℤ a b ≡ a) ⊎ (max_ℤ a b ≡ b)
  max_cases = elim (Bool-cases (leb_ℤ b a)) [ inl e ↦ inl (rw e refl) | inr e ↦ inr (rw e refl) ]

  -- Of two numbers of which one is not negative, the larger one is not negative.
  max_pos : (n : ℕ) → a ≡ pos n → max_ℤ (pos 0) (max_ℤ a b) ≡ max_ℤ a b
  max_pos n e = ground (arith, e)

max_mono : (a b c : ℤ) → b ≤ℤ c → max_ℤ a b ≤ℤ max_ℤ a c
max_mono a b c h = ground arith

-ℤ_mono : (a b : ℤ) (n : ℕ) → a ≤ℤ b → (a -ℤ pos n) ≤ℤ (b -ℤ pos n)
-ℤ_mono a b n h = omega (arith, -ℤ_parts a (pos n), -ℤ_parts b (pos n))

module _ (source : Source) where
  abbrev floor_or_rest : Option ℤ → ℤ
  floor_or_rest raw = max_ℤ (pos source.qty_minimum) (base_qty raw -ℤ pos source.qty_subtract)

  apply_qty_modifiers-max : (raw : Option ℤ) → apply_qty_modifiers raw source ≡ floor_or_rest raw
  unfolding apply_qty_modifiers
  apply_qty_modifiers-max raw =
      max_pos (pos source.qty_minimum) (base_qty raw -ℤ pos source.qty_subtract) source.qty_minimum
        refl

  -- For a stock and one that is at least as high: the modified stock is at least the source's minimum
  -- and at least the stock less its subtraction, it is one of the two, and that of the higher stock
  -- is at least as high.
  pub apply_qty_modifiers_lem :
      (raw more : Option ℤ)
      → base_qty raw ≤ℤ base_qty more
      → let qty = apply_qty_modifiers raw source in
        let rest = base_qty raw -ℤ pos source.qty_subtract in
        (pos source.qty_minimum ≤ℤ qty)
        × (rest ≤ℤ qty)
        × ((qty ≡ pos source.qty_minimum) ⊎ (qty ≡ rest))
        × (qty ≤ℤ apply_qty_modifiers more source)
  apply_qty_modifiers_lem raw more h =
      let low = pos source.qty_minimum in
      let rest = base_qty raw -ℤ pos source.qty_subtract in
      rw (apply_qty_modifiers-max raw, apply_qty_modifiers-max more)
        (
          left_le_max low rest,
          right_le_max low rest,
          max_cases low rest,
          max_mono low rest (base_qty more -ℤ pos source.qty_subtract)
              (-ℤ_mono (base_qty raw) (base_qty more) source.qty_subtract h),
        )
