-- ===== src/Push/Repushed.antt =====
-- The forced re-push: it starts from a pushed product and ends at one.
use mathlib.Core.Path.{subst}
use entirius_django_atlas.Base.{
  ℕ, suc, ◌+◌, ◌<◌, ◌⊎◌, length, count_rows, sym, ◌≡◌, refl, ap, ◌∙◌, inl, inr, Bool, true, not,
  Option, some, List, [], ◌∷◌, ◌++◌, String, first_row, where_rows, update_rows, Bool-cases,
  Option-cases, arith,
}
use entirius_django_atlas.Base.Outcome.{ok, ok_inj, raise_if-ok, or_raise-ok, bind-ok}
use entirius_django_atlas.Model.{SourceProduct, RealProduct}
use entirius_django_atlas.Model.Enums.{ProductStatus, is_pushed_status}
use entirius_django_atlas.KindGuard.{is_push_blocked}
use entirius_django_atlas.Store.{Faults}
use entirius_django_atlas.Attach.{has_sp_pk, has_rp_key}
use entirius_django_atlas.Pim.{
  Catalogue, Runtime, PushProfile, Product, ProductAttribute, PimState, product_not_found,
  wrong_status, preflight_failed, event_failed, push_not_allowed, channel_not_found,
}
use entirius_django_atlas.Pim.Lookup.{LanguageResolution, resolve_language_for_channel}
use entirius_django_atlas.Pim.Attributes.{
  Additions, apply_attribute_mappings, apply_category_mappings,
}
use entirius_django_atlas.Pim.Physical.{apply_real_product_mappings}
use entirius_django_atlas.Pim.Target.{in_store}
use entirius_django_atlas.Pim.Channel.{
  is_channel, mem_channel, save_repushed, repushed, repush_target, repush_product,
  overwrite_product, force_repush_to_channel, write_qms_cost_link, add_events, save_sp,
  has_product_pk, overwrite_writes, is_mapped_feature,
}
use entirius_django_atlas.Push.{
  Progress, repush_stepped, repush_channels, repush_profiles, begin, reopened, finish_repush,
  force_repush_source_product, active_profiles_for, decide_post_push_status, at_status,
  preflight_check, no_entries,
}
use entirius_django_atlas.Push.Rows.{init_push-IsPushed, cost_link_keeps, fallback_keeps, saved_row}
use entirius_django_atlas.Push.Pushed.{row_after, decided_pushed}

-- The status after a push, by the image urls of the product.
abbrev pub IsDecided : SourceProduct → Type 0
IsDecided sp =
    ((sp.image_urls ≡ []) × (sp.status ≡ ProductStatus.pushed))
    ⊎ ((0 < length sp.image_urls) × (sp.status ≡ ProductStatus.pushed_pending_images))

status-IsDecided :
    (now : ℕ) (sp : SourceProduct) → IsDecided (at_status (decide_post_push_status sp) now sp)
status-IsDecided now sp = by_urls sp.image_urls refl
  where
    by_urls :
        (urls : List String)
        → sp.image_urls ≡ urls
        → IsDecided (at_status (decide_post_push_status sp) now sp)
    by_urls [] e = inl (e, rw e refl)
    by_urls (u ∷ us) e = inr (rw e (omega arith), rw e refl)

-- The channels of the profiles, counted once per profile, that are among the given ones.
abbrev pub repush_count : List String → List PushProfile → ℕ
repush_count done [] = 0
repush_count done (p ∷ ps) =
    count_rows (λ c. mem_channel c done) p.profile.target_channel_idxs + repush_count done ps

length-one : {A : Type 0} (xs : List A) (x : A) → length (xs ++ x ∷ []) ≡ suc (length xs)
length-one [] x = refl
length-one (y ∷ xs) x = ap suc (length-one xs x)

module _ (pim : Catalogue) (run : Runtime) (faults : Faults) (user : Option ℕ) (now : ℕ)
    (suppressed : Bool) (k : ℕ) where
  -- The row is the object, under review since the re-push began.
  abbrev IsCurrent : SourceProduct → PimState → Type 0
  IsCurrent sp p =
      (first_row (has_sp_pk k) p.store.products ≡ some sp) × (sp.reviewed_at ≡ some now)

  overwrite_keeps :
      (sp : SourceProduct) (rp : RealProduct) (channel : String) (product : Product)
      (resolution : LanguageResolution) (adds : Additions) (p : PimState)
      → (overwrite_writes pim run faults user now suppressed sp rp channel product resolution adds
          p).1.store.products
        ≡ update_rows
            (has_sp_pk sp.pk)
            (save_repushed (repushed pim run faults user now suppressed channel sp))
            p.store.products
  overwrite_keeps sp rp channel product resolution adds p =
      let sp' = repushed pim run faults user now suppressed channel sp in
      let replaced : PimState = record p {
        products = update_rows (has_product_pk product.pk) (λ (_ : Product). product) p.products;
        store = record p.store {
          real_products =
              update_rows (has_rp_key rp.pk) (λ (_ : RealProduct). rp) p.store.real_products;
        };
      } in
      let saved = in_store (λ s. save_sp (save_repushed sp') sp.pk (add_events adds s)) replaced in
      fallback_keeps pim run faults user now suppressed resolution channel sp' rp.sku
        (write_qms_cost_link pim run faults user now suppressed sp' channel saved.store)
      ∙ cost_link_keeps pim run faults user now suppressed sp' channel saved.store

  overwrite-IsCurrent :
      (sp : SourceProduct) (profile : PushProfile) (channel : String)
      (resolution : LanguageResolution) (rp : RealProduct) (product : Product) (p : PimState)
      (r : Product × SourceProduct × PimState)
      → IsCurrent sp p
      → overwrite_product pim run faults user now suppressed sp profile channel resolution rp
          product p
        ≡ ok r
      → IsCurrent r.1 r.2
  unfolding overwrite_product
  overwrite-IsCurrent sp profile channel resolution rp product p r c h =
      let ms = profile.attribute_mappings in
      let (physical, _, h0) =
        bind-ok (apply_real_product_mappings pim run.texts sp faults true ms rp) h in
      let (adds, _, h1) =
        bind-ok (apply_attribute_mappings pim run.texts resolution.language sp faults ms) h0 in
      let categorised = apply_category_mappings pim sp channel profile.category_mappings [] in
      let noted : Additions = record {
        attributes = [];
        events = physical.1.events ++ adds.events ++ categorised.1;
        audits = physical.1.audits ++ adds.audits;
      } in
      let kept =
        where_rows (λ (a : ProductAttribute). not (is_mapped_feature ms a.feature))
          product.attributes in
      let product' : Product = record product {
        attributes = kept ++ adds.attributes;
        categories = categorised.0;
        pictures = 0;
      } in
      let Current : Product × SourceProduct × PimState → Type 0 = λ x. IsCurrent x.1 x.2 in
      subst Current (ok_inj h1) (
        saved_row k sp (save_repushed (repushed pim run faults user now suppressed channel sp))
            p.store.products
            (overwrite_writes pim run faults user now suppressed sp physical.0.1 channel product'
              resolution noted p).1.store.products
            (λ x. refl) c.0 (overwrite_keeps sp physical.0.1 channel product' resolution noted p),
        c.1,
      )

  repush-IsCurrent :
      (sp : SourceProduct) (profile : PushProfile) (channel : String) (p : PimState)
      (r : Product × SourceProduct × PimState)
      → IsCurrent sp p
      → force_repush_to_channel pim run faults user now suppressed sp profile channel p ≡ ok r
      → IsCurrent r.1 r.2
  unfolding force_repush_to_channel
  repush-IsCurrent sp profile channel p r c h =
      let (_, h1) = raise_if-ok (is_push_blocked sp.source) push_not_allowed h in
      let (row, _, h2) =
        or_raise-ok (first_row (is_channel channel) pim.channels) channel_not_found h1 in
      let (found, _, h3) =
        bind-ok (repush_target pim run faults user now suppressed sp p.store) h2 in
      let resolution = resolve_language_for_channel pim profile.profile sp.source row in
      elim (Option-cases (repush_product found channel p.products)) [
        | inl e ↦
            let pushed =
              init_push-IsPushed pim run faults user now suppressed sp profile channel p
                (rw e at h3) in
            let g : Progress = record { sp = sp; products = []; done = []; state = p } in
            (
              row_after pim run faults user now suppressed k [] [] g channel r c.0 pushed,
              ap (λ (x : SourceProduct). x.reviewed_at) pushed.2 ∙ c.1,
            )
        | inr (pair, e) ↦
            overwrite-IsCurrent sp profile channel resolution pair.0 pair.1 p r c (rw e at h3)
      ]

  steps-IsCurrent :
      (profile : PushProfile) (cs : List String) (g g' : Progress)
      → IsCurrent g.sp g.state
      → repush_channels pim run faults user now suppressed profile cs g ≡ ok g'
      → IsCurrent g'.sp g'.state
  unfolding repush_channels
  steps-IsCurrent profile [] g g' c h =
      subst (λ (x : Progress). IsCurrent x.sp x.state) (ok_inj h) c
  steps-IsCurrent profile (channel ∷ cs) g g' c h = elim (Bool-cases (mem_channel channel g.done)) [
    | inr e ↦ steps-IsCurrent profile cs g g' c (rw (repush_channels, e) at h)
    | inl e ↦
        let (r, made, h1) =
          bind-ok
            (force_repush_to_channel pim run faults user now suppressed g.sp profile channel
              g.state)
            (rw (repush_channels, e) at h) in
        steps-IsCurrent profile cs (repush_stepped g r) g'
          (repush-IsCurrent g.sp profile channel g.state r c made) h1
  ]

  profiles-IsCurrent :
      (ps : List PushProfile) (g g' : Progress)
      → IsCurrent g.sp g.state
      → repush_profiles pim run faults user now suppressed ps g ≡ ok g'
      → IsCurrent g'.sp g'.state
  unfolding repush_profiles
  profiles-IsCurrent [] g g' c h = subst (λ (x : Progress). IsCurrent x.sp x.state) (ok_inj h) c
  profiles-IsCurrent (p ∷ ps) g g' c h =
      let (next, made, h1) =
        bind-ok
          (repush_channels pim run faults user now suppressed p p.profile.target_channel_idxs g)
          h in
      profiles-IsCurrent ps next g' (steps-IsCurrent p p.profile.target_channel_idxs g next c made)
        h1

  channels-length :
      (profile : PushProfile) (cs : List String) (g g' : Progress)
      → repush_channels pim run faults user now suppressed profile cs g ≡ ok g'
      → (g'.done ≡ g.done)
        × (length g'.products ≡ length g.products + count_rows (λ c. mem_channel c g.done) cs)
  unfolding repush_channels
  channels-length profile [] g g' h =
      subst (λ (x : Progress). (x.done ≡ g.done) × (length x.products ≡ length g.products + 0))
        (ok_inj h) (refl, omega arith)
  channels-length profile (channel ∷ cs) g g' h = elim (Bool-cases (mem_channel channel g.done)) [
    | inr e ↦
        let (kept, n) = channels-length profile cs g g' (rw (repush_channels, e) at h) in
        (kept, rw e (omega (arith, n)))
    | inl e ↦
        let (r, made, h1) =
          bind-ok
            (force_repush_to_channel pim run faults user now suppressed g.sp profile channel
              g.state)
            (rw (repush_channels, e) at h) in
        let (kept, n) = channels-length profile cs (repush_stepped g r) g' h1 in
        (kept, rw e (omega (arith, n, length-one g.products r.0)))
  ]

  profiles-length :
      (ps : List PushProfile) (g g' : Progress)
      → repush_profiles pim run faults user now suppressed ps g ≡ ok g'
      → length g'.products ≡ length g.products + repush_count g.done ps
  unfolding repush_profiles
  profiles-length [] g g' h =
      subst (λ (x : Progress). length x.products ≡ length g.products + 0) (ok_inj h) (omega arith)
  profiles-length (p ∷ ps) g g' h =
      let (next, made, h1) =
        bind-ok
          (repush_channels pim run faults user now suppressed p p.profile.target_channel_idxs g)
          h in
      let (kept, n) = channels-length p p.profile.target_channel_idxs g next made in
      let m = profiles-length ps next g' h1 in
      let same : repush_count next.done ps ≡ repush_count g.done ps =
        ap (λ d. repush_count d ps) kept in
      omega (arith, n, m, same)

  -- A forced re-push that returned was of a pushed product whose source was ready; the product is
  -- pushed again, with its pictures pending exactly if it has image urls, and was reviewed at the
  -- time of the call; it returns one PIM product for each channel of the source's active profiles
  -- that the product had been pushed to.
  pub force_repush_source_product_lem :
      (profiles : List PushProfile) (p : PimState) {products : List Product} {p' : PimState}
      → force_repush_source_product pim run faults user now suppressed profiles k p
        ≡ ok (products, p')
      → (sp : SourceProduct) × (sp' : SourceProduct) × (first_row (has_sp_pk k) p.store.products
          ≡ some sp)
        × (is_pushed_status sp.status ≡ true)
        × (no_entries (preflight_check pim sp.source profiles) ≡ true)
        × (first_row (has_sp_pk k) p'.store.products ≡ some sp')
        × IsDecided sp'
        × (is_pushed_status sp'.status ≡ true)
        × (sp'.reviewed_at ≡ some now)
        × (length products
            ≡ repush_count sp.pushed_to_channel_idxs (active_profiles_for sp.source profiles))
  unfolding force_repush_source_product
  force_repush_source_product_lem profiles p {products} {p'} h =
      let (sp, found, h1) =
        or_raise-ok (first_row (has_sp_pk k) p.store.products) product_not_found h in
      let (status, h2) = raise_if-ok (not (is_pushed_status sp.status)) wrong_status h1 in
      let (ready, h3) =
        raise_if-ok (not (no_entries (preflight_check pim sp.source profiles))) preflight_failed
          h2 in
      let open_row = reopened pim run faults user now suppressed in
      let ps = active_profiles_for sp.source profiles in
      let g0 = begin (open_row sp) (in_store (save_sp open_row sp.pk) p) in
      let (g, made, h4) = bind-ok (repush_profiles pim run faults user now suppressed ps g0) h3 in
      let (_, h5) = raise_if-ok faults.event_fails event_failed h4 in
      let opened : first_row (has_sp_pk k) g0.state.store.products ≡ some (open_row sp) =
        saved_row k sp open_row p.store.products g0.state.store.products (λ x. refl) found refl in
      let (row, reviewed) = profiles-IsCurrent ps g0 g (opened, refl) made in
      let status' = decide_post_push_status g.sp in
      let finished = finish_repush pim run faults user now suppressed g in
      let state_eq : finished ≡ p' = ap (λ (x : List Product × PimState). x.1) (ok_inj h5) in
      (
        sp,
        at_status status' now g.sp,
        found,
        ground (arith, status),
        ground (arith, ready),
        subst
            (λ (q : PimState).
              first_row (has_sp_pk k) q.store.products ≡ some (at_status status' now g.sp))
            state_eq
            (saved_row k g.sp (at_status status' now) g.state.store.products finished.store.products
              (λ x. refl) row refl),
        status-IsDecided now g.sp,
        decided_pushed g.sp,
        reviewed,
        ap length (sym (ap (λ (x : List Product × PimState). x.0) (ok_inj h5)))
            ∙ omega (arith, profiles-length ps g0 g made),
      )
