-- ===== src/Match/Tolerance.antt =====
-- The tolerance check passes exactly when every physical field does.
use entirius_django_atlas.Base.{
  ℕ, ◌≡◌, ◌↔◌, refl, sym, ◌∙◌, inl, inr, true≢false, Bool, true, false, Option, none, some, List,
  [], ◌∷◌, ◌++◌, All, arith, Bool-cases,
}
use entirius_django_atlas.Model.{Source, RealProduct}
use entirius_django_atlas.Transform.{Decimal}
use entirius_django_atlas.Match.{
  Percent, diff_pct, above, PhysicalField, PhysicalValues, value_of, columns_of, physical_fields,
  Collected, nothing_collected, check_field, check_fields, missing_field, is_empty,
  physical_tolerance_check,
}
use entirius_django_atlas.Match.Difference.{◌≤%◌, not_above, le_not_above}

abbrev pub percent : ℕ → Percent
percent n = record { num = n; den = 1 }

-- Both values are there and differ by at most the tolerance, or one is missing and the check is not
-- strict.
abbrev pub IsWithin : ℕ → Bool → Option Decimal → Option Decimal → Type 0
IsWithin tolerance strict (some a) (some b) = diff_pct a b ≤% percent tolerance
IsWithin tolerance strict (some _) none = strict ≡ false
IsWithin tolerance strict none b = strict ≡ false

filled : {A : Type 0} (xs : List A) (x : A) → is_empty (xs ++ x ∷ []) ≡ false
filled [] x = refl
filled (y ∷ ys) x = refl

module _ (tolerance : ℕ) (strict : Bool) where
  check_missing :
      (f : PhysicalField) (c : Collected)
      → (is_empty (missing_field strict f c).failed ≡ true)
        ↔ ((is_empty c.failed ≡ true) × (strict ≡ false))
  check_missing f c = ground (arith, filled c.failed f)

  check_step :
      (f : PhysicalField) (a b : Option Decimal) (c : Collected)
      → (is_empty (check_field tolerance strict f a b c).failed ≡ true)
        ↔ ((is_empty c.failed ≡ true) × IsWithin tolerance strict a b)
  unfolding check_field
  check_step f (some a) (some b) c =
      let d = diff_pct a b in
      elim (Bool-cases (above d (percent tolerance))) [
        | inl e ↦
            rw (check_field, e)
              (
                λ h. absurd (true≢false (sym h ∙ filled c.failed f)),
                λ h. absurd (true≢false (sym e ∙ le_not_above d (percent tolerance) h.1)),
              )
        | inr e ↦ rw (check_field, e) (λ h. (h, not_above d (percent tolerance) e), λ h. h.0)
      ]
  check_step f (some a) none c = check_missing f c
  check_step f none b c = check_missing f c

  module _ (new old : PhysicalValues) where
    check-All :
        (fs : List PhysicalField) (c : Collected)
        → (is_empty (check_fields tolerance strict new old fs c).failed ≡ true) ↔ (
            (is_empty c.failed ≡ true)
            × All (λ f. IsWithin tolerance strict (value_of new f) (value_of old f)) fs)
    unfolding check_fields
    check-All [] c = (λ h. (h, tt), λ h. h.0)
    check-All (f ∷ fs) c =
        let next = check_field tolerance strict f (value_of new f) (value_of old f) c in
        let (here, back) = check_step f (value_of new f) (value_of old f) c in
        let (later, again) = check-All fs next in
        (
          λ h. let (e, rest) = later h in let (e', w) = here e in (e', (w, rest)),
          λ (e, (w, rest)). again (back (e, w), rest),
        )

-- The check passes exactly when each of weight, width, height and depth is within the source's
-- tolerance of the PIM row's, or is missing on a side and the source is not strict.
pub physical_tolerance_check_lem :
    (new : PhysicalValues) (rp : RealProduct) (source : Source)
    → ((physical_tolerance_check new rp source).passed ≡ true)
      ↔ All
          (λ f.
            IsWithin source.realproduct_match_tolerance_pct source.realproduct_match_strict
              (value_of new f)
              (value_of (columns_of rp) f))
          physical_fields
unfolding physical_tolerance_check
physical_tolerance_check_lem new rp source =
    let (there, back) =
      check-All source.realproduct_match_tolerance_pct source.realproduct_match_strict new
        (columns_of rp) physical_fields nothing_collected in
    (λ h. (there h).1, λ h. back (refl, h))
