-- ===== src/Pim/Channel.antt =====
-- A push to one channel: `init_push_to_channel` and `force_repush_to_channel`. A raise rolls back, as
-- the caller's transaction does. The audit rows with the differences of a re-push are not kept.
use entirius_django_atlas.Base.{
  ℕ, suc, ◌==◌, Bool, true, false, not, ◌&&◌, Option, none, some, List, [], ◌∷◌, ◌++◌, String,
  str_eq, dotted, if◌then◌else◌, is_some, first_row, exists_row, where_rows, update_rows,
}
use entirius_django_atlas.Base.Outcome.{Result, ok, err, ◌>>=◌, ◌>>◌, raise_if, or_raise}
use entirius_django_atlas.Model.{
  SourceProduct, RealProduct, IntegrationEvent, SourceProductChangeLog,
}
use entirius_django_atlas.Model.Enums.{EventType, EventSeverity, ChangeLogSource}
use entirius_django_atlas.KindGuard.{assert_push_allowed}
use entirius_django_atlas.Links.{upsert_for_push}
use entirius_django_atlas.Switching.{maybe_trigger_inline_after_link}
use entirius_django_atlas.Store.{Store, Faults, record_event, log_change}
use entirius_django_atlas.Attach.{has_sp_pk, has_rp_key, linked_rp}
use entirius_django_atlas.Sku.{generate_sku}
use entirius_django_atlas.Pim.{
  Catalogue, Runtime, PushProfile, AttributeMapping, ChannelRow, ProductAttribute, Product,
  PimState, PushError, push_not_allowed, channel_not_found, feature_set_not_found, product_exists,
  real_product_gone,
}
use entirius_django_atlas.Pim.Lookup.{
  LanguageResolution, resolve_feature_set, resolve_language_for_channel,
}
use entirius_django_atlas.Pim.Attributes.{
  Additions, apply_attribute_mappings, apply_category_mappings, is_feature_target,
}
use entirius_django_atlas.Pim.Physical.{apply_real_product_mappings}
use entirius_django_atlas.Pim.Target.{
  resolve_push_target, in_store, source_event, of_sku_error, with_sku,
}

abbrev pub is_channel : String → ChannelRow → Bool
is_channel idx c = str_eq c.idx idx

abbrev pub on_channel : ℕ → String → Product → Bool
on_channel rp_pk channel p = (p.real_product == rp_pk) && str_eq p.channel channel

abbrev pub has_product_pk : ℕ → Product → Bool
has_product_pk k p = p.pk == k

abbrev pub mem_channel : String → List String → Bool
mem_channel c idxs = exists_row (λ d. str_eq d c) idxs

abbrev pub with_channel : String → List String → List String
with_channel c idxs = if mem_channel c idxs then idxs else idxs ++ c ∷ []

-- `images_complete.remove(channel_idx)`
abbrev pub remove_channel : String → List String → List String
remove_channel c [] = []
remove_channel c (d ∷ ds) = if str_eq d c then ds else d ∷ remove_channel c ds

-- `_persist_sp_after_push`, on the object and on its row
abbrev pub after_push : ℕ → String → Option ℕ → ℕ → SourceProduct → SourceProduct
after_push rp_pk channel user now sp = record sp {
  real_product = elim sp.real_product [ none ↦ some rp_pk | some k ↦ some k ];
  pushed_to_channel_idxs = with_channel channel sp.pushed_to_channel_idxs;
  pushed_by = user;
  pushed_at = some now;
  modified_at = now;
}

-- The columns that a first push saves, and those that a re-push saves.
abbrev pub save_pushed : SourceProduct → SourceProduct → SourceProduct
save_pushed sp r = record r {
  real_product = sp.real_product;
  pushed_to_channel_idxs = sp.pushed_to_channel_idxs;
  pushed_by = sp.pushed_by;
  pushed_at = sp.pushed_at;
  modified_at = sp.modified_at;
}

abbrev pub save_repushed : SourceProduct → SourceProduct → SourceProduct
save_repushed sp r = record r {
  images_complete_channel_idxs = sp.images_complete_channel_idxs;
  pushed_by = sp.pushed_by;
  pushed_at = sp.pushed_at;
  modified_at = sp.modified_at;
}

abbrev pub save_sp : (SourceProduct → SourceProduct) → ℕ → Store → Store
save_sp f k s = record s { products = update_rows (has_sp_pk k) f s.products }

abbrev pub add_events : Additions → Store → Store
add_events a s = record s { events = s.events ++ a.events; change_logs = s.change_logs ++ a.audits }

abbrev pub push_row : ChangeLogSource → String → SourceProduct → String → SourceProductChangeLog
push_row source field_path sp sku = record {
  source_product = sp.pk;
  real_product_sku = sku;
  source = source;
  field_path = field_path;
  applied_to_pim = true;
}

-- `_emit_language_fallback`, both writes best-effort
abbrev pub note_fallback :
    Faults → LanguageResolution → String → SourceProduct → String → Store → Store
note_fallback faults resolution channel sp sku s =
    if resolution.used_fallback
    then log_change faults
        (push_row ChangeLogSource.language_fallback (dotted "language_resolution" channel) sp sku)
        (record_event faults (source_event EventType.language_fallback EventSeverity.warning sp) s)
    else s

-- The product that `get_or_create` creates, with what the mappings add to it.
abbrev pub new_product : ℕ → ℕ → String → String → Additions → List String → Product
new_product k rp_pk channel feature_set adds categories = record {
  pk = k;
  real_product = rp_pk;
  channel = channel;
  feature_set = feature_set;
  is_enabled = false;
  attributes = adds.attributes;
  categories = categories;
  pictures = 0;
}

abbrev pub more_events : List IntegrationEvent → Additions → Additions
more_events events adds = record adds { events = adds.events ++ events }

-- `mapped_feature_idxs`
abbrev pub is_mapped_feature : List AttributeMapping → String → Bool
is_mapped_feature ms idx =
    exists_row
      (λ (m : AttributeMapping). is_feature_target m.target_type && str_eq m.target_identifier idx)
      ms

-- The product of the channel, if there is one.
abbrev pub repush_product :
    Option RealProduct → String → List Product → Option (RealProduct × Product)
repush_product none channel products = none
repush_product (some rp) channel products = elim (first_row (on_channel rp.pk channel) products) [
  | none ↦ none
  | some product ↦ some (rp, product)
]

module _ (pim : Catalogue) (run : Runtime) (faults : Faults) (user : Option ℕ) (now : ℕ)
    (suppressed : Bool) where
  -- `_write_qms_cost_link`
  unfoldable pub write_qms_cost_link : SourceProduct → String → Store → Store
  write_qms_cost_link sp channel s =
      let noted = record s { events = s.events ++ pim.stock_and_cost sp channel } in
      elim (linked_rp sp s.real_products) [
        | none ↦ noted
        | some rp ↦
            let upserted = record noted {
              links = (upsert_for_push rp.sku sp.source (some sp.external_id) true s.links).1;
            } in
            (maybe_trigger_inline_after_link faults now rp.sku upserted).1
      ]

  -- `_emit_pushed_signal`
  abbrev pub emit_pushed : SourceProduct → String → String → PimState → PimState
  emit_pushed sp sku channel p = record p {
    pushed_signals =
        if suppressed
        then p.pushed_signals
        else p.pushed_signals
          ++ record { source_product = sp.pk; real_product_sku = sku; channel_idx = channel } ∷ [];
  }

  -- The writes of a first push after its checks: the product of the channel, the source product,
  -- stock, cost and link, the signal, the baseline audit row and the language fallback.
  abbrev pub init_writes :
      SourceProduct
      → RealProduct
      → String
      → Product
      → LanguageResolution
      → Additions
      → PimState
      → SourceProduct × PimState
  init_writes sp rp channel product resolution adds p =
      let sp' = after_push rp.pk channel user now sp in
      let created = record p {
        products = p.products ++ product ∷ [];
        next_product = suc p.next_product;
      } in
      let saved = in_store (λ s. save_sp (save_pushed sp') sp.pk (add_events adds s)) created in
      let written = in_store (write_qms_cost_link sp' channel) saved in
      (
        sp',
        in_store
            (λ s. note_fallback faults resolution channel sp' rp.sku (
              log_change faults
                (push_row ChangeLogSource.init_push (dotted "snapshot" channel) sp' rp.sku) s))
            (emit_pushed sp' rp.sku channel written),
      )

  unfoldable pub init_push_to_channel :
      SourceProduct
      → PushProfile
      → String
      → PimState
      → Result PushError (Product × SourceProduct × PimState)
  unfolding resolve_feature_set resolve_language_for_channel resolve_push_target
      apply_attribute_mappings apply_category_mappings write_qms_cost_link
  init_push_to_channel sp profile channel_idx p = do
    assert_push_allowed sp.source push_not_allowed
    feature_set ← resolve_feature_set sp (pim.feed_feature_set sp) profile.profile sp.source
    channel ← or_raise (first_row (is_channel channel_idx) pim.channels) channel_not_found
    raise_if (not (mem_channel feature_set pim.feature_sets)) feature_set_not_found
    let resolution = resolve_language_for_channel pim profile.profile sp.source channel
    target ← resolve_push_target pim run faults sp profile.attribute_mappings p
    raise_if (exists_row (on_channel target.0.pk channel_idx) target.1.products) product_exists
    adds ←
        apply_attribute_mappings pim run.texts resolution.language sp faults
          profile.attribute_mappings
    let categorised = apply_category_mappings pim sp channel_idx profile.category_mappings []
    let product =
        new_product target.1.next_product target.0.pk channel_idx feature_set adds categorised.0
    let noted = more_events categorised.1 adds
    let written = init_writes sp target.0 channel_idx product resolution noted target.1
    ok (product, written.0, written.1)

  abbrev pub repushed : String → SourceProduct → SourceProduct
  repushed channel sp = record sp {
    images_complete_channel_idxs = remove_channel channel sp.images_complete_channel_idxs;
    pushed_by = user;
    pushed_at = some now;
    modified_at = now;
  }

  -- The RealProduct that a re-push finds: the linked one, or the one of the generated SKU.
  abbrev pub repush_target : SourceProduct → Store → Result PushError (Option RealProduct)
  repush_target sp s =
      if is_some sp.real_product
      then (elim (linked_rp sp s.real_products) [
        | none ↦ err real_product_gone
        | some rp ↦ ok (some rp)
      ])
      else do
        sku ← of_sku_error (generate_sku run.skus sp.source sp.external_id)
        ok (first_row (with_sku sku) s.real_products)

  -- The writes of a re-push: the RealProduct and the product, the source product, stock, cost and
  -- link, the signal and the language fallback.
  abbrev pub overwrite_writes :
      SourceProduct
      → RealProduct
      → String
      → Product
      → LanguageResolution
      → Additions
      → PimState
      → SourceProduct × PimState
  overwrite_writes sp rp channel product resolution adds p =
      let sp' = repushed channel sp in
      let replaced = record p {
        products = update_rows (has_product_pk product.pk) (λ (_ : Product). product) p.products;
        store = record p.store {
          real_products =
              update_rows (has_rp_key rp.pk) (λ (_ : RealProduct). rp) p.store.real_products;
        };
      } in
      let saved = in_store (λ s. save_sp (save_repushed sp') sp.pk (add_events adds s)) replaced in
      let written = in_store (write_qms_cost_link sp' channel) saved in
      (
        sp',
        in_store (note_fallback faults resolution channel sp' rp.sku)
            (emit_pushed sp' rp.sku channel written),
      )

  -- The overwrite of a product that is there.
  unfoldable pub overwrite_product :
      SourceProduct
      → PushProfile
      → String
      → LanguageResolution
      → RealProduct
      → Product
      → PimState
      → Result PushError (Product × SourceProduct × PimState)
  unfolding apply_attribute_mappings apply_category_mappings apply_real_product_mappings
      write_qms_cost_link
  overwrite_product sp profile channel_idx resolution rp product p = do
    let ms = profile.attribute_mappings
    physical ← apply_real_product_mappings pim run.texts sp faults true ms rp
    adds ← apply_attribute_mappings pim run.texts resolution.language sp faults ms
    let categorised = apply_category_mappings pim sp channel_idx profile.category_mappings []
    let kept =
        where_rows (λ (a : ProductAttribute). not (is_mapped_feature ms a.feature))
          product.attributes
    let product' : Product = record product {
      attributes = kept ++ adds.attributes;
      categories = categorised.0;
      pictures = 0;
    }
    let noted : Additions = record {
      attributes = [];
      events = physical.1.events ++ adds.events ++ categorised.1;
      audits = physical.1.audits ++ adds.audits;
    }
    let written = overwrite_writes sp physical.0.1 channel_idx product' resolution noted p
    ok (product', written.0, written.1)

  unfoldable pub force_repush_to_channel :
      SourceProduct
      → PushProfile
      → String
      → PimState
      → Result PushError (Product × SourceProduct × PimState)
  unfolding overwrite_product init_push_to_channel resolve_language_for_channel
  force_repush_to_channel sp profile channel_idx p = do
    assert_push_allowed sp.source push_not_allowed
    channel ← or_raise (first_row (is_channel channel_idx) pim.channels) channel_not_found
    let resolution = resolve_language_for_channel pim profile.profile sp.source channel
    found ← repush_target sp p.store
    elim (repush_product found channel_idx p.products) [
      | none ↦ init_push_to_channel sp profile channel_idx p
      | some (rp, product) ↦ overwrite_product sp profile channel_idx resolution rp product p
    ]
