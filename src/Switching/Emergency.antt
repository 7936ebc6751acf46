-- ===== src/Switching/Emergency.antt =====
-- The emergency evaluation of primary_strategy_service.py after a drop of stock.
use mathlib.Core.Path.{subst}
use entirius_django_atlas.Base.{
  true≢false, some_inj, none≢some, ℕ, ◌≤◌, ◌↔◌, ◌==◌, ◌&&◌, ◌∙◌, ap, Bool, List, [], ◌∷◌, first_row,
  exists_row, count_rows, ◌≡◌, refl, sym, ◌≢◌, ◌⊎◌, inl, inr, true, false, Bool-cases, Option, none,
  some, Option-cases, String, arith,
}
use entirius_django_atlas.Base.Int.{ℤ, pos, leb_ℤ, ◌≤ℤ◌, ◌<ℤ◌}
use entirius_django_atlas.Model.{SourceProduct, SourceProductLink, RealProduct}
use entirius_django_atlas.Model.Enums.{PrimarySkipReason}
use entirius_django_atlas.Links.{has_sku, of_pair}
use entirius_django_atlas.Links.Consistency.{IsConsistent}
use entirius_django_atlas.Store.{Store, Faults}
use entirius_django_atlas.Primary.{
  PrimaryEvalResult, evaluate_primary_source, active_links, evaluate,
}
use entirius_django_atlas.Primary.Decision.{evaluate_primary_source-Explains, Explains}
use entirius_django_atlas.Switching.{
  evaluate_and_apply, just_ran_out, own_primary, real_product_of,
  maybe_trigger_emergency_on_stock_drop,
}
use entirius_django_atlas.Switching.Tables.{evaluate_and_apply-IsConsistent}

-- An evaluation that bypasses the gates is stopped by neither.
ungated :
    (now : ℕ) (sku : String) (s : Store)
    → let r = evaluate_primary_source now true sku s in
      (r.skip_reason ≢ PrimarySkipReason.hysteresis) × (r.skip_reason ≢ PrimarySkipReason.cooldown)
ungated now sku s = (not_hysteresis, not_cooldown)
  where
    r : PrimaryEvalResult
    r = evaluate_primary_source now true sku s

    why :
        (reason : PrimarySkipReason)
        → r.skip_reason ≡ reason
        → Explains s.products now true (active_links sku s.links) r reason
    why reason e =
        subst (Explains s.products now true (active_links sku s.links) r) e
          (evaluate_primary_source-Explains now true sku s)

    not_hysteresis : r.skip_reason ≢ PrimarySkipReason.hysteresis
    not_hysteresis e = true≢false (why PrimarySkipReason.hysteresis e).5

    not_cooldown : r.skip_reason ≢ PrimarySkipReason.cooldown
    not_cooldown e = true≢false (why PrimarySkipReason.cooldown e).5

module _ (faults : Faults) (now : ℕ) (s : Store) where
  applied :
      (sku : String)
      → Path
          (Option PrimaryEvalResult × Store)
          (
            some (evaluate_and_apply faults now true sku s).0,
            (evaluate_and_apply faults now true sku s).1,
          )
          (
            some (evaluate_primary_source now true sku s),
            (evaluate_and_apply faults now true sku s).1,
          )
  unfolding evaluate_and_apply evaluate
  applied sku = refl

ran_out_cases :
    (previous new : Option ℤ)
    → (just_ran_out previous new ≡ true) ↔ (
        (n : ℤ) × (new ≡ some n)
        × (n ≤ℤ pos 0)
        × ((previous ≡ none) ⊎ ((o : ℤ) × (previous ≡ some o) × (pos 0 <ℤ o))))
ran_out_cases previous none =
    (λ h. absurd (true≢false (sym h)), λ (n, e, _, _). absurd (none≢some e))
ran_out_cases none (some n) = (
  λ h. (n, refl, ground (arith, h), inl refl),
  λ (m, e, low, _). subst (λ x. leb_ℤ x (pos 0) ≡ true) (sym (some_inj e)) (ground (arith, low)),
)
ran_out_cases (some o) (some n) = (
  λ h. (n, refl, ground (arith, h), inr (o, refl, ground (arith, h))),
  λ (m, e, low, before). elim before [
    | inl gone ↦ absurd (none≢some (sym gone))
    | inr (q, f, high) ↦
        let low' : n ≤ℤ pos 0 = subst (λ x. x ≤ℤ pos 0) (sym (some_inj e)) low in
        let high' : pos 0 <ℤ o = subst (λ x. pos 0 <ℤ x) (sym (some_inj f)) high in
        ground (arith, low', high')
  ],
)

module _ (sp : SourceProduct) (sku : String) where
  abbrev is_live_row : SourceProductLink → Bool
  is_live_row l = has_sku sku l && (l.source.pk == sp.source.pk) && l.is_primary && l.is_active

  abbrev first_own : List SourceProductLink → Option SourceProductLink
  first_own = first_row (λ l. has_sku sku l && (l.source.pk == sp.source.pk) && l.is_primary)

  none_live :
      (rows : List SourceProductLink) → first_own rows ≡ none → exists_row is_live_row rows ≡ false
  none_live [] e = refl
  none_live (r ∷ rows) e = ground (arith, e, none_live rows)

  live_one :
      (rows : List SourceProductLink) (l : SourceProductLink)
      → first_own rows ≡ some l
      → l.is_active ≡ true
      → exists_row is_live_row rows ≡ true
  live_one [] l e h = cc
  live_one (r ∷ rows) l e h = ground (arith, e, h, live_one rows l)

  no_pair_live :
      (rows : List SourceProductLink)
      → count_rows (of_pair sku sp.source.pk) rows ≡ 0
      → exists_row is_live_row rows ≡ false
  no_pair_live [] z = refl
  no_pair_live (r ∷ rows) z = ground (arith, z, no_pair_live rows)

  dead_one :
      (rows : List SourceProductLink) (l : SourceProductLink)
      → count_rows (of_pair sku sp.source.pk) rows ≤ 1
      → first_own rows ≡ some l
      → l.is_active ≡ false
      → exists_row is_live_row rows ≡ false
  dead_one [] l c e h = refl
  dead_one (r ∷ rows) l c e h = ground (arith, c, e, h, no_pair_live rows, dead_one rows l)

module _ (faults : Faults) (now : ℕ) (sp : SourceProduct) (previous new : Option ℤ)
    (s : Store) where
  -- A stock that is zero or less now, and was unknown or above zero before.
  abbrev pub RanOut : Type 0
  RanOut =
      (n : ℤ) × (new ≡ some n)
      × (n ≤ℤ pos 0)
      × ((previous ≡ none) ⊎ ((o : ℤ) × (previous ≡ some o) × (pos 0 <ℤ o)))

  -- The active primary link of a SKU is one of the product's source.
  abbrev pub is_own_live : String → SourceProductLink → Bool
  is_own_live sku l = has_sku sku l && (l.source.pk == sp.source.pk) && l.is_primary && l.is_active

  -- The occasion of an emergency evaluation.
  abbrev pub Occasion : RealProduct → Type 0
  Occasion rp =
      (real_product_of sp s ≡ some rp)
      × RanOut
      × (exists_row (λ l. is_own_live rp.sku l) s.links.rows ≡ true)

  -- An emergency evaluation took place.
  abbrev pub Evaluated : RealProduct → Option PrimaryEvalResult × Store → Type 0
  Evaluated rp out =
      (out ≡ (
        some (evaluate_primary_source now true rp.sku s),
        (evaluate_and_apply faults now true rp.sku s).1,
      ))
      × ((evaluate_primary_source now true rp.sku s).skip_reason ≢ PrimarySkipReason.hysteresis)
      × ((evaluate_primary_source now true rp.sku s).skip_reason ≢ PrimarySkipReason.cooldown)
      × IsConsistent out.1.links

  ran_out_iff : (just_ran_out previous new ≡ true) ↔ RanOut
  ran_out_iff = ran_out_cases previous new

  fired :
      (rp : RealProduct) (l : SourceProductLink)
      → real_product_of sp s ≡ some rp
      → just_ran_out previous new ≡ true
      → own_primary sp rp.sku s.links ≡ some l
      → l.is_active ≡ true
      → maybe_trigger_emergency_on_stock_drop faults now sp previous new s ≡ (
        some (evaluate_primary_source now true rp.sku s),
        (evaluate_and_apply faults now true rp.sku s).1,
      )
  unfolding maybe_trigger_emergency_on_stock_drop
  fired rp l e f g h =
      rw (maybe_trigger_emergency_on_stock_drop, e, f, g, h) (applied faults now s rp.sku)

  -- On links that meet the table's constraints: if the product's RealProduct is there, its stock is
  -- zero or less now and was unknown or above zero before, and an active primary link of the SKU is
  -- one of the product's source, then the SKU is evaluated and the result applied, neither
  -- hysteresis nor cooldown stands in its way, and the constraints hold; else nothing changes.
  pub maybe_trigger_emergency_lem :
      IsConsistent s.links
      → let out = maybe_trigger_emergency_on_stock_drop faults now sp previous new s in
        (((rp : RealProduct) → ¬ Occasion rp) × (out ≡ (none, s)))
        ⊎ ((rp : RealProduct) × Occasion rp × Evaluated rp out)
  unfolding maybe_trigger_emergency_on_stock_drop
  maybe_trigger_emergency_lem c = elim (Option-cases (real_product_of sp s)) [
    | inl e ↦
        inl (λ q h. none≢some (sym e ∙ h.0), rw (maybe_trigger_emergency_on_stock_drop, e) refl)
    | inr (rp, e) ↦
        let same : (q : RealProduct) → real_product_of sp s ≡ some q → rp ≡ q =
          λ q h. some_inj (sym e ∙ h) in
        elim (Bool-cases (just_ran_out previous new)) [
          | inr f ↦ inl (
            λ q h. true≢false (sym (ran_out_iff.1 h.1) ∙ f),
            rw (maybe_trigger_emergency_on_stock_drop, e, f) refl,
          )
          | inl f ↦ elim (Option-cases (own_primary sp rp.sku s.links)) [
            | inl g ↦ inl (
              λ q h. true≢false (
                  sym h.2
                  ∙ ap (λ (x : RealProduct). exists_row (λ l. is_own_live x.sku l) s.links.rows)
                      (sym (same q h.0))
                  ∙ none_live sp rp.sku s.links.rows g),
              rw (maybe_trigger_emergency_on_stock_drop, e, f, g) refl,
            )
            | inr (l, g) ↦ elim (Bool-cases l.is_active) [
              | inr h ↦ inl (
                λ q o. true≢false (
                    sym o.2
                    ∙ ap (λ (x : RealProduct). exists_row (λ m. is_own_live x.sku m) s.links.rows)
                        (sym (same q o.0))
                    ∙ dead_one sp rp.sku s.links.rows l (c.pairs rp.sku sp.source.pk) g h),
                rw (maybe_trigger_emergency_on_stock_drop, e, f, g, h) refl,
              )
              | inl h ↦ inr (
                rp,
                (e, ran_out_iff.0 f, live_one sp rp.sku s.links.rows l g h),
                subst (Evaluated rp) (sym (fired rp l e f g h)) (
                  refl,
                  (ungated now rp.sku s).0,
                  (ungated now rp.sku s).1,
                  evaluate_and_apply-IsConsistent faults now true rp.sku s c,
                ),
              )
            ]
          ]
        ]
  ]
