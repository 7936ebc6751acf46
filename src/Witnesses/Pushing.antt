-- ===== src/Witnesses/Pushing.antt =====
-- The theorems on matches, merges, attachments and pushes at a small catalogue with one channel.
use entirius_django_atlas.Base.{
  ℕ, length, ◌≡◌, ◌↔◌, refl, true, false, none, some, String, List, [], ◌∷◌, ◌++◌, map, str_eq, All,
  first_row,
}
use entirius_django_atlas.Base.Int.{pos}
use entirius_django_atlas.Base.Outcome.{ok}
use entirius_django_atlas.Model.{SourceProduct, RealProduct}
use entirius_django_atlas.Model.Enums.{approved, status_eq, is_pushed_status, grams_to_kg}
use entirius_django_atlas.Transform.{Decimal, Scalar, text, member, blank, TextOps, transform}
use entirius_django_atlas.Match.{
  PhysicalValues, columns_of, value_of, physical_fields, physical_tolerance_check, Percent,
}
use entirius_django_atlas.Match.Tolerance.{physical_tolerance_check_lem, IsWithin}
use entirius_django_atlas.Sku.{SkuText}
use entirius_django_atlas.Pim.{
  Catalogue, Runtime, PushProfile, AttributeMapping, feature, real_product, FeatureType, ChannelRow,
  Product, PimState,
}
use entirius_django_atlas.Pim.Lookup.{
  resolve_feature_set, resolve_language_for_channel, lookup_value,
}
use entirius_django_atlas.Pim.Attributes.{
  Additions, nothing_added, apply_attribute_mappings, apply_mapping, create_attribute,
  apply_category_mappings,
}
use entirius_django_atlas.Pim.Physical.{
  apply_real_product_mappings, real_product_defaults, physical_defaults, defaults_ignore_modifiers,
  without_modifier,
}
use entirius_django_atlas.Pim.Required.{apply_attribute_mappings_lem, IsMet, IsKnown}
use entirius_django_atlas.Pim.Target.{choose_target, write_target, resolve_push_target}
use entirius_django_atlas.Pim.Chosen.{resolve_push_target-IsChosen, IsChosen}
use entirius_django_atlas.Pim.Channel.{
  mem_channel, init_push_to_channel, write_qms_cost_link, overwrite_product,
  force_repush_to_channel,
}
use entirius_django_atlas.Push.{
  push_source_product, push_source_product_trusted, preflight_check, push_profiles, push_channels,
  no_entries, active_profiles_for, force_repush_source_product, repush_profiles, repush_channels,
}
use entirius_django_atlas.Push.Pushed.{push_source_product_lem}
use entirius_django_atlas.Push.Repushed.{IsDecided, repush_count, force_repush_source_product_lem}
use entirius_django_atlas.Attach.{has_sp_pk}
use entirius_django_atlas.Sku.{generate_sku, validate_routable_sku}
use entirius_django_atlas.Match.{find_match_by_ean}
use entirius_django_atlas.Links.{upsert_for_push}
use entirius_django_atlas.Switching.{maybe_trigger_inline_after_link}
use entirius_django_atlas.Witnesses.{value_or, acme, a_product, a_store, no_faults}

abbrev a_decimal : ℕ → Decimal
a_decimal n = record { negative = false; digits = n; scale = 1 }

abbrev pub texts : TextOps
texts = record {
  parse_decimal = λ s. some (a_decimal 1500);
  rounded = λ d. some d;
  strip = λ s. s;
  lower = λ s. s;
  upper = λ s. s;
}

abbrev skus : SkuText
skus = record { digest = λ s. s; split = λ s. s ∷ []; is_digit = λ s. false }

abbrev a_lamp : ℕ → String → ℕ → RealProduct
a_lamp k sku weight = record {
  pk = k;
  sku = sku;
  ean = some "590";
  weight = some (pos weight);
  width = none;
  height = none;
  deep = none;
  kind_of_product = 0;
}

abbrev light : PhysicalValues
light = record { weight_of = some (a_decimal 2); width_of = none; height_of = none; deep_of = none }

physical_tolerance_check_lem_example :
    ((physical_tolerance_check light (a_lamp 1 "LAMP" 21_000) acme).passed ≡ true)
    ↔ All
        (λ f.
          IsWithin acme.realproduct_match_tolerance_pct acme.realproduct_match_strict
            (value_of light f)
            (value_of (columns_of (a_lamp 1 "LAMP" 21_000)) f))
        physical_fields
physical_tolerance_check_lem_example =
    physical_tolerance_check_lem light (a_lamp 1 "LAMP" 21_000) acme

abbrev ten_percent : Percent
ten_percent = record { num = 10; den = 1 }

abbrev two_lamps : List RealProduct
two_lamps = a_lamp 1 "LAMP" 21_000 ∷ a_lamp 2 "VASE" 20_000 ∷ []

abbrev shop : ChannelRow
shop = record { idx = "shop"; default_language = "pl"; languages = "pl" ∷ "en" ∷ [] }

abbrev text_of : Scalar → String
text_of (text s) = s
text_of _ = ""

abbrev pub a_catalogue : Catalogue
a_catalogue = record {
  channels = shop ∷ [];
  features = record { idx = "title"; feature_type = FeatureType.varchar255 } ∷ [];
  options = [];
  categories = [];
  feature_sets = "goods" ∷ [];
  iso2 = λ k. "en";
  decimal_column = λ d. pos d.digits;
  str_of = text_of;
  kind_column = λ v. 1;
  default_kind = 1;
  feed_feature_set = λ sp. none;
  stock_and_cost = λ sp c. [];
}

abbrev runtime : Runtime
runtime = record { texts = texts; skus = skus }

abbrev title_mapping : AttributeMapping
title_mapping = record {
  source_field = "__name__";
  target_type = feature;
  target_identifier = "title";
  is_required = true;
  modifier = blank;
}

abbrev weight_mapping : AttributeMapping
weight_mapping = record {
  source_field = "weight";
  target_type = real_product;
  target_identifier = "weight";
  is_required = false;
  modifier = member grams_to_kg;
}

abbrev a_profile : PushProfile
a_profile = record {
  profile = record {
    source_idx = "acme";
    idx = "main";
    name = "Main";
    target_channel_idxs = "shop" ∷ [];
    import_language = none;
    feature_set_idx = none;
    is_active = true;
  };
  attribute_mappings = title_mapping ∷ [];
  category_mappings = [];
}

abbrev new_lamp : SourceProduct
new_lamp = record (a_product 5 acme "A7" 800_000 approved) { real_product = none }

abbrev a_state : PimState
a_state = record {
  store = record a_store { products = new_lamp ∷ [] };
  products = [];
  next_product = 1;
  next_real_product = 1;
  pushed_signals = [];
}

abbrev lamp_pushed : List Product × PimState
unfolding push_source_product push_source_product_trusted preflight_check push_profiles
    push_channels init_push_to_channel resolve_feature_set resolve_language_for_channel
    resolve_push_target choose_target write_target find_match_by_ean generate_sku
    validate_routable_sku apply_attribute_mappings apply_mapping create_attribute lookup_value
    transform apply_category_mappings write_qms_cost_link upsert_for_push
    maybe_trigger_inline_after_link real_product_defaults str_eq
lamp_pushed =
    value_or ([], a_state)
      (push_source_product a_catalogue runtime no_faults (some 7) 90 false (a_profile ∷ []) 5
        a_state)

lamp_pushed_lem :
    push_source_product a_catalogue runtime no_faults (some 7) 90 false (a_profile ∷ []) 5 a_state
    ≡ ok (lamp_pushed.0, lamp_pushed.1)
unfolding push_source_product push_source_product_trusted preflight_check push_profiles
    push_channels init_push_to_channel resolve_feature_set resolve_language_for_channel
    resolve_push_target choose_target write_target find_match_by_ean generate_sku
    validate_routable_sku apply_attribute_mappings apply_mapping create_attribute lookup_value
    transform apply_category_mappings write_qms_cost_link upsert_for_push
    maybe_trigger_inline_after_link real_product_defaults str_eq
lamp_pushed_lem = refl

push_source_product_lem_example :
    (sp : SourceProduct) × (sp' : SourceProduct) × (first_row (has_sp_pk 5) a_state.store.products
      ≡ some sp)
    × (status_eq sp.status approved ≡ true)
    × (no_entries (preflight_check a_catalogue sp.source (a_profile ∷ [])) ≡ true)
    × (first_row (has_sp_pk 5) lamp_pushed.1.store.products ≡ some sp')
    × (is_pushed_status sp'.status ≡ true)
    × All
        (λ (q : PushProfile).
          All (λ c. mem_channel c sp'.pushed_to_channel_idxs ≡ true) q.profile.target_channel_idxs)
        (active_profiles_for sp.source (a_profile ∷ []))
    × (lamp_pushed.1.products ≡ a_state.products ++ lamp_pushed.0)
    × All (λ (q : Product). mem_channel q.channel sp.pushed_to_channel_idxs ≡ false) lamp_pushed.0
push_source_product_lem_example =
    push_source_product_lem a_catalogue runtime no_faults (some 7) 90 false (a_profile ∷ []) 5
      a_state lamp_pushed_lem

abbrev lamp_repushed : List Product × PimState
unfolding lamp_pushed force_repush_source_product repush_profiles repush_channels
    force_repush_to_channel overwrite_product apply_real_product_mappings push_source_product
    push_source_product_trusted preflight_check push_profiles push_channels init_push_to_channel
    resolve_feature_set resolve_language_for_channel resolve_push_target choose_target write_target
    find_match_by_ean generate_sku validate_routable_sku apply_attribute_mappings apply_mapping
    create_attribute lookup_value transform apply_category_mappings write_qms_cost_link
    upsert_for_push maybe_trigger_inline_after_link real_product_defaults str_eq
lamp_repushed =
    value_or ([], a_state)
      (force_repush_source_product a_catalogue runtime no_faults (some 7) 95 false (a_profile ∷ [])
        5 lamp_pushed.1)

lamp_repushed_lem :
    force_repush_source_product a_catalogue runtime no_faults
      (some 7)
      95
      false
      (a_profile ∷ [])
      5
      lamp_pushed.1
    ≡ ok (lamp_repushed.0, lamp_repushed.1)
unfolding lamp_pushed lamp_repushed force_repush_source_product repush_profiles repush_channels
    force_repush_to_channel overwrite_product apply_real_product_mappings push_source_product
    push_source_product_trusted preflight_check push_profiles push_channels init_push_to_channel
    resolve_feature_set resolve_language_for_channel resolve_push_target choose_target write_target
    find_match_by_ean generate_sku validate_routable_sku apply_attribute_mappings apply_mapping
    create_attribute lookup_value transform apply_category_mappings write_qms_cost_link
    upsert_for_push maybe_trigger_inline_after_link real_product_defaults str_eq
lamp_repushed_lem = refl

force_repush_source_product_lem_example :
    (sp : SourceProduct) × (sp' : SourceProduct) × (first_row
        (has_sp_pk 5)
        lamp_pushed.1.store.products
      ≡ some sp)
    × (is_pushed_status sp.status ≡ true)
    × (no_entries (preflight_check a_catalogue sp.source (a_profile ∷ [])) ≡ true)
    × (first_row (has_sp_pk 5) lamp_repushed.1.store.products ≡ some sp')
    × IsDecided sp'
    × (is_pushed_status sp'.status ≡ true)
    × (sp'.reviewed_at ≡ some 95)
    × (length lamp_repushed.0
        ≡ repush_count sp.pushed_to_channel_idxs (active_profiles_for sp.source (a_profile ∷ [])))
force_repush_source_product_lem_example =
    force_repush_source_product_lem a_catalogue runtime no_faults (some 7) 95 false 5
      (a_profile ∷ []) lamp_pushed.1 lamp_repushed_lem

abbrev lamp_target : RealProduct × PimState
unfolding push_source_product push_source_product_trusted preflight_check push_profiles
    push_channels init_push_to_channel resolve_feature_set resolve_language_for_channel
    resolve_push_target choose_target write_target find_match_by_ean generate_sku
    validate_routable_sku apply_attribute_mappings apply_mapping create_attribute lookup_value
    transform apply_category_mappings write_qms_cost_link upsert_for_push
    maybe_trigger_inline_after_link real_product_defaults str_eq
lamp_target =
    value_or (a_lamp 9 "" 0, a_state)
      (resolve_push_target a_catalogue runtime no_faults new_lamp (title_mapping ∷ []) a_state)

lamp_target_lem :
    resolve_push_target a_catalogue runtime no_faults new_lamp (title_mapping ∷ []) a_state
    ≡ ok lamp_target
unfolding lamp_target push_source_product push_source_product_trusted preflight_check push_profiles
    push_channels init_push_to_channel resolve_feature_set resolve_language_for_channel
    resolve_push_target choose_target write_target find_match_by_ean generate_sku
    validate_routable_sku apply_attribute_mappings apply_mapping create_attribute lookup_value
    transform apply_category_mappings write_qms_cost_link upsert_for_push
    maybe_trigger_inline_after_link real_product_defaults str_eq
lamp_target_lem = refl

resolve_push_target-IsChosen_example :
    IsChosen a_catalogue runtime no_faults new_lamp (title_mapping ∷ []) a_state lamp_target
resolve_push_target-IsChosen_example =
    resolve_push_target-IsChosen a_catalogue runtime no_faults new_lamp (title_mapping ∷ []) a_state
      lamp_target_lem

abbrev titled : Additions
unfolding apply_attribute_mappings apply_mapping create_attribute lookup_value transform str_eq
titled =
    value_or nothing_added
      (apply_attribute_mappings a_catalogue texts "en" new_lamp no_faults (title_mapping ∷ []))

titled_lem :
    apply_attribute_mappings a_catalogue texts "en" new_lamp no_faults (title_mapping ∷ [])
    ≡ ok titled
unfolding titled apply_attribute_mappings apply_mapping create_attribute lookup_value transform
    str_eq
titled_lem = refl

apply_attribute_mappings_lem_example :
    All (IsMet a_catalogue texts "en" new_lamp no_faults) (title_mapping ∷ [])
    × All (IsKnown a_catalogue) titled.attributes
apply_attribute_mappings_lem_example =
    apply_attribute_mappings_lem a_catalogue texts "en" new_lamp no_faults (title_mapping ∷ [])
      titled_lem

defaults_ignore_modifiers_example :
    (real_product_defaults a_catalogue texts new_lamp
        (map without_modifier (weight_mapping ∷ []))
        1
        "LAMP"
      ≡ real_product_defaults a_catalogue texts new_lamp (weight_mapping ∷ []) 1 "LAMP")
    × (physical_defaults a_catalogue texts new_lamp (map without_modifier (weight_mapping ∷ []))
        ≡ physical_defaults a_catalogue texts new_lamp (weight_mapping ∷ []))
defaults_ignore_modifiers_example =
    defaults_ignore_modifiers a_catalogue texts new_lamp (weight_mapping ∷ []) 1 "LAMP"
