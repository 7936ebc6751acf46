-- ===== src/Push/Rows.antt =====
-- What a push to one channel leaves of the rows: the source product as the push updated it, and one
-- more product of PIM.
use mathlib.Core.Path.{subst}
use entirius_django_atlas.Base.{
  ℕ, suc, ◌≡◌, refl, ap, ◌∙◌, inl, inr, Bool, true, false, not, Option, none, some, List, [], ◌∷◌,
  ◌++◌, String, dotted, first_row, exists_row, update_rows, Option-cases, Bool-cases, ==_iff,
  first_row-passes, first_row-update,
}
use entirius_django_atlas.Base.Outcome.{ok, ok_inj, raise_if-ok, or_raise-ok, bind-ok}
use entirius_django_atlas.Model.{SourceProduct, RealProduct}
use entirius_django_atlas.Model.Enums.{ChangeLogSource}
use entirius_django_atlas.KindGuard.{is_push_blocked}
use entirius_django_atlas.Switching.Keeps.{inline_keeps_products}
use entirius_django_atlas.Store.{Store, Faults, log_change}
use entirius_django_atlas.Links.{upsert_for_push}
use entirius_django_atlas.Attach.{has_sp_pk, linked_rp}
use entirius_django_atlas.Pim.{
  Catalogue, Runtime, PushProfile, AttributeMapping, Product, PimState, push_not_allowed,
  channel_not_found, feature_set_not_found, product_exists,
}
use entirius_django_atlas.Pim.Lookup.{
  LanguageResolution, resolve_feature_set, resolve_language_for_channel,
}
use entirius_django_atlas.Pim.Attributes.{
  Additions, apply_attribute_mappings, apply_category_mappings,
}
use entirius_django_atlas.Pim.Target.{
  Target, linked, matched, generated, choose_target, write_target, resolve_push_target,
  get_or_create_rp, with_sku, of_sku_error, violation_noted, in_store,
}
use entirius_django_atlas.Pim.Physical.{real_product_defaults}
use entirius_django_atlas.Sku.{generate_sku}
use entirius_django_atlas.Pim.Channel.{
  is_channel, mem_channel, on_channel, after_push, save_pushed, note_fallback, write_qms_cost_link,
  init_writes, init_push_to_channel, save_sp, add_events, push_row, new_product, more_events,
}

-- A row that is saved in place is found again.
pub saved_row :
    (k : ℕ) (sp : SourceProduct) (f : SourceProduct → SourceProduct)
    (rows rows' : List SourceProduct)
    → ((x : SourceProduct) → has_sp_pk k (f x) ≡ has_sp_pk k x)
    → first_row (has_sp_pk k) rows ≡ some sp
    → rows' ≡ update_rows (has_sp_pk sp.pk) f rows
    → first_row (has_sp_pk k) rows' ≡ some (f sp)
saved_row k sp f rows rows' keeps row eq =
    let key : sp.pk ≡ k = (==_iff sp.pk k).0 (first_row-passes (has_sp_pk k) rows row) in
    ap (first_row (has_sp_pk k)) (eq ∙ ap (λ i. update_rows (has_sp_pk i) f rows) key)
    ∙ first_row-update (has_sp_pk k) f keeps rows row

module _ (pim : Catalogue) (run : Runtime) (faults : Faults) where
  -- The products of the store and those of PIM, as they were.
  abbrev pub SameProducts : PimState → PimState → Type 0
  SameProducts p q = (q.store.products ≡ p.store.products) × (q.products ≡ p.products)

  violation_keeps :
      (sp : SourceProduct) (violated : Bool) (p : PimState)
      → SameProducts p (violation_noted faults sp violated p)
  violation_keeps sp true p = (refl, refl)
  violation_keeps sp false p = (refl, refl)

  get_or_create_keeps :
      (sp : SourceProduct) (fresh : RealProduct) (o : Option RealProduct) (p : PimState)
      → SameProducts p (get_or_create_rp sp fresh o p).1
  get_or_create_keeps sp fresh none p = (refl, refl)
  get_or_create_keeps sp fresh (some rp) p = (refl, refl)

  target_keeps :
      (sp : SourceProduct) (ms : List AttributeMapping) (target : Target) (p : PimState)
      {r : RealProduct × PimState}
      → write_target pim run faults sp ms target p ≡ ok r
      → SameProducts p r.1
  unfolding write_target
  target_keeps sp ms (linked rp) p h =
      subst (λ (x : RealProduct × PimState). SameProducts p x.1) (ok_inj h) (refl, refl)
  target_keeps sp ms (matched rp) p h =
      subst (λ (x : RealProduct × PimState). SameProducts p x.1) (ok_inj h) (refl, refl)
  target_keeps sp ms (generated violated) p h =
      let (sku, _, h1) =
        bind-ok (of_sku_error (generate_sku run.skus sp.source sp.external_id)) h in
      let noted = violation_noted faults sp violated p in
      let fresh = real_product_defaults pim run.texts sp ms p.next_real_product sku in
      let found = first_row (with_sku sku) p.store.real_products in
      let (a, b) = get_or_create_keeps sp fresh found noted in
      let (c, d) = violation_keeps sp violated p in
      subst (λ (x : RealProduct × PimState). SameProducts p x.1) (ok_inj h1) (a ∙ c, b ∙ d)

  -- Choosing the target writes no source product and no product of a channel.
  resolve_keeps :
      (sp : SourceProduct) (ms : List AttributeMapping) (p : PimState) {r : RealProduct × PimState}
      → resolve_push_target pim run faults sp ms p ≡ ok r
      → SameProducts p r.1
  unfolding resolve_push_target
  resolve_keeps sp ms p h =
      let (target, _, h1) = bind-ok (choose_target pim run sp ms p.store) h in
      target_keeps sp ms target p h1

  module _ (user : Option ℕ) (now : ℕ) (suppressed : Bool) where
    pub cost_link_keeps :
        (sp : SourceProduct) (channel : String) (s : Store)
        → (write_qms_cost_link pim run faults user now suppressed sp channel s).products
          ≡ s.products
    unfolding write_qms_cost_link
    cost_link_keeps sp channel s = elim (Option-cases (linked_rp sp s.real_products)) [
      | inl e ↦ rw (write_qms_cost_link, e) refl
      | inr (rp, e) ↦
          rw (write_qms_cost_link, e)
            (inline_keeps_products faults now rp.sku (record s {
              events = s.events ++ pim.stock_and_cost sp channel;
              links = (upsert_for_push rp.sku sp.source (some sp.external_id) true s.links).1;
            }))
    ]

    pub fallback_keeps :
        (resolution : LanguageResolution) (channel : String) (sp : SourceProduct) (sku : String)
        (s : Store)
        → (note_fallback faults resolution channel sp sku s).products ≡ s.products
    fallback_keeps resolution channel sp sku s = elim (Bool-cases resolution.used_fallback) [
      | inl e ↦ rw e refl
      | inr e ↦ rw e refl
    ]

    init_keeps :
        (sp : SourceProduct) (rp : RealProduct) (channel : String) (product : Product)
        (resolution : LanguageResolution) (adds : Additions) (p : PimState)
        → (init_writes pim run faults user now suppressed sp rp channel product resolution adds
            p).1.store.products
          ≡ update_rows
              (has_sp_pk sp.pk)
              (save_pushed (after_push rp.pk channel user now sp))
              p.store.products
    init_keeps sp rp channel product resolution adds p =
        let sp' = after_push rp.pk channel user now sp in
        let saved =
          in_store (λ s. save_sp (save_pushed sp') sp.pk (add_events adds s))
            (record p {
              products = p.products ++ product ∷ [];
              next_product = suc p.next_product;
            }) in
        let written =
          in_store (write_qms_cost_link pim run faults user now suppressed sp' channel) saved in
        fallback_keeps resolution channel sp' rp.sku (
          log_change faults
            (push_row ChangeLogSource.init_push (dotted "snapshot" channel) sp' rp.sku)
            written.store)
        ∙ cost_link_keeps sp' channel saved.store

    -- What a first push that returned did.
    abbrev pub IsPushed :
        SourceProduct → String → PimState → Product × SourceProduct × PimState → Type 0
    IsPushed sp channel p r =
        (k : ℕ) × (is_push_blocked sp.source ≡ false)
        × (r.1 ≡ after_push k channel user now sp)
        × (r.2.store.products ≡ update_rows (has_sp_pk sp.pk) (save_pushed r.1) p.store.products)
        × (r.2.products ≡ p.products ++ r.0 ∷ [])
        × (r.0.channel ≡ channel)
        × (r.0.real_product ≡ k)
        × (exists_row (on_channel k channel) p.products ≡ false)

    pub init_push-IsPushed :
        (sp : SourceProduct) (profile : PushProfile) (channel : String) (p : PimState)
        {r : Product × SourceProduct × PimState}
        → init_push_to_channel pim run faults user now suppressed sp profile channel p ≡ ok r
        → IsPushed sp channel p r
    unfolding init_push_to_channel
    init_push-IsPushed sp profile channel p h =
        let ms = profile.attribute_mappings in
        let (allowed, h1) = raise_if-ok (is_push_blocked sp.source) push_not_allowed h in
        let (feature_set, _, h2) =
          bind-ok (resolve_feature_set sp (pim.feed_feature_set sp) profile.profile sp.source) h1 in
        let (row, _, h3) =
          or_raise-ok (first_row (is_channel channel) pim.channels) channel_not_found h2 in
        let (_, h4) =
          raise_if-ok (not (mem_channel feature_set pim.feature_sets)) feature_set_not_found h3 in
        let resolution = resolve_language_for_channel pim profile.profile sp.source row in
        let (target, resolved, h5) = bind-ok (resolve_push_target pim run faults sp ms p) h4 in
        let (same_rows, same_products) = resolve_keeps sp ms p resolved in
        let (absent, h6) =
          raise_if-ok (exists_row (on_channel target.0.pk channel) target.1.products) product_exists
            h5 in
        let (adds, _, h7) =
          bind-ok (apply_attribute_mappings pim run.texts resolution.language sp faults ms) h6 in
        let categorised = apply_category_mappings pim sp channel profile.category_mappings [] in
        let product =
          new_product target.1.next_product target.0.pk channel feature_set adds categorised.0 in
        let sp' = after_push target.0.pk channel user now sp in
        subst (IsPushed sp channel p) (ok_inj h7) (
          target.0.pk,
          allowed,
          refl,
          init_keeps sp target.0 channel product resolution (more_events categorised.1 adds)
                target.1
              ∙ ap (update_rows (has_sp_pk sp.pk) (save_pushed sp')) same_rows,
          ap (λ ps. ps ++ product ∷ []) same_products,
          refl,
          refl,
          subst (λ ps. exists_row (on_channel target.0.pk channel) ps ≡ false) same_products absent,
        )
