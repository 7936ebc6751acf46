-- ===== src/Pim/Chosen.antt =====
-- Which RealProduct a push writes to, and when it creates one.
use mathlib.Core.Path.{subst}
use entirius_django_atlas.Base.{
  ℕ, ◌≡◌, ◌⊎◌, refl, sym, ap, ◌∙◌, inl, inr, Bool, true, false, Option, none, some, List, [], ◌∷◌,
  ◌++◌, String, str_eq→eq, is_some, first_row, Bool-cases, Option-cases, first_row-passes,
}
use entirius_django_atlas.Base.Outcome.{Result, ok, err, ok_inj, err≢ok, bind-ok}
use entirius_django_atlas.Model.{SourceProduct, RealProduct}
use entirius_django_atlas.Store.{Store, Faults}
use entirius_django_atlas.Attach.{linked_rp}
use entirius_django_atlas.Sku.{SkuError, generate_sku}
use entirius_django_atlas.Match.{find_match_by_ean, physical_tolerance_check}
use entirius_django_atlas.Pim.{
  Catalogue, Runtime, AttributeMapping, PimState, reserved_sku, real_product_gone,
}
use entirius_django_atlas.Pim.Physical.{real_product_defaults, physical_defaults}
use entirius_django_atlas.Pim.Target.{
  Target, linked, matched, generated, judged, choose_target, write_target, resolve_push_target,
  get_or_create_rp, violation_noted, with_sku, of_sku_error,
}

module _ (pim : Catalogue) (run : Runtime) (faults : Faults) (sp : SourceProduct)
    (ms : List AttributeMapping) where
  -- No RealProduct of the product's EAN may be matched, or the first one is outside the tolerance.
  abbrev pub HasNoMatch : Store → Type 0
  HasNoMatch s =
      (find_match_by_ean run.texts.strip sp sp.source s.real_products ≡ none)
      ⊎ ((rp : RealProduct) × (find_match_by_ean run.texts.strip sp sp.source s.real_products
            ≡ some rp)
          × ((physical_tolerance_check (physical_defaults pim run.texts sp ms) rp sp.source).passed
              ≡ false))

  -- The three ways to a target: the linked row; the first row of the EAN, within the tolerance; the
  -- row of the generated SKU, which is created if it is not there.
  abbrev pub IsChosen : PimState → RealProduct × PimState → Type 0
  IsChosen p r =
      (linked_rp sp p.store.real_products ≡ some r.0)
        × (r.1.store.real_products ≡ p.store.real_products)
      ⊎ (is_some sp.real_product ≡ false)
        × (find_match_by_ean run.texts.strip sp sp.source p.store.real_products ≡ some r.0)
        × ((physical_tolerance_check (physical_defaults pim run.texts sp ms) r.0 sp.source).passed
            ≡ true)
        × (r.1.store.real_products ≡ p.store.real_products)
      ⊎ (is_some sp.real_product ≡ false)
        × HasNoMatch p.store
        × (generate_sku run.skus sp.source sp.external_id ≡ ok r.0.sku)
        × (((first_row (with_sku r.0.sku) p.store.real_products ≡ some r.0)
              × (r.1.store.real_products ≡ p.store.real_products))
            ⊎ ((first_row (with_sku r.0.sku) p.store.real_products ≡ none)
                × (r.1.store.real_products ≡ p.store.real_products ++ r.0 ∷ [])))

  -- What the choice of a target says.
  abbrev IsTarget : Store → Target → Type 0
  IsTarget s (linked rp) = linked_rp sp s.real_products ≡ some rp
  IsTarget s (matched rp) =
      (is_some sp.real_product ≡ false)
      × (find_match_by_ean run.texts.strip sp sp.source s.real_products ≡ some rp)
      × ((physical_tolerance_check (physical_defaults pim run.texts sp ms) rp sp.source).passed
          ≡ true)
  IsTarget s (generated violated) = (is_some sp.real_product ≡ false) × HasNoMatch s

  judged-IsTarget :
      (s : Store)
      → is_some sp.real_product ≡ false
      → IsTarget s
          (judged pim run sp ms (find_match_by_ean run.texts.strip sp sp.source s.real_products))
  judged-IsTarget s free =
      elim (Option-cases (find_match_by_ean run.texts.strip sp sp.source s.real_products)) [
        | inl e ↦ rw e (free, inl e)
        | inr (rp, e) ↦
            elim (Bool-cases
              (physical_tolerance_check (physical_defaults pim run.texts sp ms) rp
                sp.source).passed) [
                  | inl b ↦ rw (e, b) (free, e, b)
                  | inr b ↦ rw (e, b) (free, inr (rp, e, b))
                ]
      ]

  choose-IsTarget :
      (s : Store) (target : Target) → choose_target pim run sp ms s ≡ ok target → IsTarget s target
  unfolding choose_target
  choose-IsTarget s target h = elim (Bool-cases (is_some sp.real_product)) [
    | inr free ↦
        subst (IsTarget s) (ok_inj (rw (choose_target, free) at h)) (judged-IsTarget s free)
    | inl e ↦ elim (Option-cases (linked_rp sp s.real_products)) [
      | inl n ↦ absurd (err≢ok {e = real_product_gone} (rw (choose_target, e, n) at h))
      | inr (rp, l) ↦ subst (IsTarget s) (ok_inj (rw (choose_target, e, l) at h)) l
    ]
  ]

  of_sku_error-ok :
      (m : Result SkuError String) {sku : String} → of_sku_error m ≡ ok sku → m ≡ ok sku
  of_sku_error-ok (ok a) h = ap (λ b. ok b) (ok_inj h)
  of_sku_error-ok (err e) h = absurd (err≢ok {e = reserved_sku} h)

  fresh_sku : (k : ℕ) (sku : String) → (real_product_defaults pim run.texts sp ms k sku).sku ≡ sku
  unfolding real_product_defaults
  fresh_sku k sku = refl

  violation_same :
      (violated : Bool) (p : PimState)
      → (violation_noted faults sp violated p).store.real_products ≡ p.store.real_products
  violation_same true p = refl
  violation_same false p = refl

  -- What `get_or_create` returns for a SKU.
  got_or_created :
      (sku : String) (fresh : RealProduct) (o : Option RealProduct) (p q : PimState)
      → fresh.sku ≡ sku
      → first_row (with_sku sku) p.store.real_products ≡ o
      → q.store.real_products ≡ p.store.real_products
      → ((get_or_create_rp sp fresh o q).0.sku ≡ sku)
        × (((first_row (with_sku sku) p.store.real_products
                ≡ some (get_or_create_rp sp fresh o q).0)
              × ((get_or_create_rp sp fresh o q).1.store.real_products ≡ p.store.real_products))
            ⊎ ((first_row (with_sku sku) p.store.real_products ≡ none)
                × ((get_or_create_rp sp fresh o q).1.store.real_products
                    ≡ p.store.real_products ++ (get_or_create_rp sp fresh o q).0 ∷ [])))
  got_or_created sku fresh none p q e f same = (e, inr (f, ap (λ rps. rps ++ fresh ∷ []) same))
  got_or_created sku fresh (some rp) p q e f same = (
    str_eq→eq rp.sku sku (first_row-passes (with_sku sku) p.store.real_products f),
    inl (f, same),
  )

  write-IsChosen :
      (p : PimState) (target : Target) (r : RealProduct × PimState)
      → IsTarget p.store target
      → write_target pim run faults sp ms target p ≡ ok r
      → IsChosen p r
  unfolding write_target
  write-IsChosen p (linked rp) r t h = subst (IsChosen p) (ok_inj h) (inl (t, refl))
  write-IsChosen p (matched rp) r (free, found, passed) h =
      subst (IsChosen p) (ok_inj h) (inr (inl (free, found, passed, refl)))
  write-IsChosen p (generated violated) r t h =
      let (sku, made, h1) =
        bind-ok (of_sku_error (generate_sku run.skus sp.source sp.external_id)) h in
      let fresh = real_product_defaults pim run.texts sp ms p.next_real_product sku in
      let found = first_row (with_sku sku) p.store.real_products in
      let noted = violation_noted faults sp violated p in
      let (named, rows) =
        got_or_created sku fresh found p noted (fresh_sku p.next_real_product sku) refl
          (violation_same violated p) in
      subst (IsChosen p) (ok_inj h1) (
        inr (
          inr (
            t.0,
            t.1,
            of_sku_error-ok (generate_sku run.skus sp.source sp.external_id) made
                ∙ ap (λ x. ok x) (sym named),
            subst
                (λ q.
                  ((first_row (with_sku q) p.store.real_products
                      ≡ some (get_or_create_rp sp fresh found noted).0)
                    × ((get_or_create_rp sp fresh found noted).1.store.real_products
                        ≡ p.store.real_products))
                  ⊎ ((first_row (with_sku q) p.store.real_products ≡ none)
                      × ((get_or_create_rp sp fresh found noted).1.store.real_products
                          ≡ p.store.real_products
                            ++ (get_or_create_rp sp fresh found noted).0 ∷ [])))
                (sym named) rows,
          )))

  -- A push writes to the RealProduct that the product is linked to, if it is linked. Else it writes to
  -- the match by EAN, if there is one and the physical values are within the source's tolerance of
  -- it; and else to the one of the generated SKU. A RealProduct is created in the last case alone,
  -- exactly if none has that SKU, and then one.
  pub resolve_push_target-IsChosen :
      (p : PimState) {r : RealProduct × PimState}
      → resolve_push_target pim run faults sp ms p ≡ ok r
      → IsChosen p r
  unfolding resolve_push_target
  resolve_push_target-IsChosen p {r} h =
      let (target, chosen, h1) = bind-ok (choose_target pim run sp ms p.store) h in
      write-IsChosen p target r (choose-IsTarget p.store target chosen) h1
