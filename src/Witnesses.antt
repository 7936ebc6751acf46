-- ===== src/Witnesses.antt =====
-- A small catalogue on which the theorems are applied: one SKU with two procurement links, and one
-- monitoring source; the cheaper link is not primary yet.
mod Linking
mod Imports
mod Logs
mod Merging
mod Pushing
mod Delta
use entirius_django_atlas.Base.{
  ℕ, Bool, true, false, Option, none, some, String, List, [], ◌∷◌, arith, str_eq,
}
use entirius_django_atlas.Base.Int.{pos}
use entirius_django_atlas.Base.Outcome.{Result, ok, err}
use entirius_django_atlas.Model.{Source, SourceProduct, SourceProductLink}
use entirius_django_atlas.Model.Enums.{
  SourceKind, procurement, monitoring, EvalFrequency, ProductStatus, new, approved, pushed, queued,
  rejected,
}
use entirius_django_atlas.Links.{LinkTable}
use entirius_django_atlas.Links.Consistency.{IsConsistent}
use entirius_django_atlas.Store.{Store, Faults}

abbrev pub value_or : {E A : Type 0} → A → Result E A → A
value_or default (ok a) = a
value_or default (err _) = default

abbrev pub a_source : ℕ → String → SourceKind → Source
a_source pk idx kind = record {
  pk = pk;
  idx = idx;
  kind = kind;
  realproduct_match_tolerance_pct = 10;
  realproduct_match_strict = false;
  disable_ean_auto_link = false;
  allow_physical_writes_from_non_primary = false;
  primary_switch_cooldown_hours = 24;
  primary_switch_hysteresis_pct = 5;
  eval_frequency = EvalFrequency.daily;
  qty_subtract = 0;
  qty_minimum = 0;
  sku_prefix = idx;
  default_feature_set_idx = some "goods";
  default_language = "en";
}

abbrev pub acme : Source
acme = a_source 1 "acme" procurement

abbrev pub bolt : Source
bolt = a_source 2 "bolt" procurement

abbrev pub watch : Source
watch = a_source 3 "watch" monitoring

abbrev pub a_link : ℕ → Source → String → Bool → SourceProductLink
a_link pk source external_id primary = record {
  pk = pk;
  real_product_sku = "LAMP";
  source = source;
  external_id = external_id;
  priority = pos 0;
  is_primary = primary;
  is_active = true;
  notes = "";
  manual_override = false;
  preferred_changed_at = none;
}

abbrev pub acme_link : SourceProductLink
acme_link = a_link 1 acme "A1" true

abbrev pub bolt_link : SourceProductLink
bolt_link = a_link 2 bolt "B1" false

abbrev pub two_links : LinkTable
two_links = record { rows = acme_link ∷ bolt_link ∷ []; next_pk = 3 }

pub two_links-IsConsistent : IsConsistent two_links
two_links-IsConsistent = record {
  keys = λ k. ground arith;
  fresh = (omega arith, (omega arith, tt));
  pairs = λ sku k. ground arith;
  primaries = λ sku. ground arith;
}

abbrev pub a_product : ℕ → Source → String → ℕ → ProductStatus → SourceProduct
a_product pk source external_id cost status = record {
  pk = pk;
  source = source;
  external_id = external_id;
  external_id_history = [];
  name = "Lamp";
  cost = some (pos cost);
  observed_price = none;
  signals = none;
  currency = "EUR";
  stock = some (pos 5);
  ean = "590";
  url = "";
  image_urls = [];
  attributes = [];
  data_hash = "h0";
  status = status;
  real_product = some 1;
  pushed_to_channel_idxs = [];
  last_synced_at = 100;
  data_changed_at = none;
  physical_changed_at = none;
  feature_set_idx_override = none;
  images_complete_channel_idxs = [];
  pushed_by = none;
  pushed_at = none;
  reviewed_by = some 7;
  reviewed_at = some 50;
  modified_at = 100;
}

abbrev pub acme_lamp : SourceProduct
acme_lamp = a_product 1 acme "A1" 1_000_000 pushed

abbrev pub bolt_lamp : SourceProduct
bolt_lamp = a_product 2 bolt "B1" 800_000 pushed

abbrev pub watch_lamp : SourceProduct
watch_lamp = a_product 3 watch "W1" 900_000 new

abbrev pub three_products : List SourceProduct
three_products = acme_lamp ∷ bolt_lamp ∷ watch_lamp ∷ []

abbrev pub a_store : Store
a_store = record {
  links = two_links;
  products = three_products;
  real_products = [];
  events = [];
  change_logs = [];
  signals = [];
}

abbrev pub no_faults : Faults
no_faults = record { event_fails = false; audit_fails = false; signal_fails = false }
