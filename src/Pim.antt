-- ===== src/Pim.antt =====
-- The part of PIM that a push writes, as django_atlas/services/pim_writer.py sees it: the products
-- of the channels, with their attributes, categories and pictures, beside the store of this
-- application. The catalogue (channels, features, options, categories, feature sets) is only read.
pub mod Lookup
pub mod Language
pub mod Attributes
pub mod Physical
pub mod Target
pub mod Channel
pub mod Chosen
pub mod Required
use entirius_django_atlas.Base.{ℕ, Bool, Option, List, String}
use entirius_django_atlas.Base.Int.{ℤ}
use entirius_django_atlas.Model.{SourceProduct, IntegrationEvent}
use entirius_django_atlas.Mapping.{SourceMappingProfile}
use entirius_django_atlas.Store.{Store}
use entirius_django_atlas.Sku.{SkuText}
use entirius_django_atlas.Transform.{Decimal, Scalar, ModifierField, TextOps}

pub data TargetType : Type 0 where
  feature real_product skip : TargetType

-- models/source_attribute_mapping.py
pub record AttributeMapping : Type 0 where
  pub source_field : String
  pub target_type : TargetType
  pub target_identifier : String
  pub is_required : Bool
  pub modifier : ModifierField

-- models/source_category_mapping.py
pub record CategoryMapping : Type 0 where
  pub source_field : String
  pub source_value : String
  pub target_category_idx : String

-- A profile with its mappings.
pub record PushProfile : Type 0 where
  pub profile : SourceMappingProfile
  pub attribute_mappings : List AttributeMapping
  pub category_mappings : List CategoryMapping

pub data FeatureType : Type 0 where
  bool decimal temperature length mass varchar255 txt varchar255_t9n txt_t9n : FeatureType
  json json_t9n datetime select multiselect unknown : FeatureType

pub record Feature : Type 0 where
  pub idx : String
  pub feature_type : FeatureType

pub record ChannelRow : Type 0 where
  pub idx : String
  pub default_language : String
  pub languages : List String

-- What PIM has, and what its columns store for a Python value: the database rounds a decimal, and a
-- text or a number is what Django makes of it.
pub record Catalogue : Type 0 where
  pub channels : List ChannelRow
  pub features : List Feature
  -- (feature, attribute)
  pub options : List (String × String)
  -- (channel, category)
  pub categories : List (String × String)
  pub feature_sets : List String
  -- the code of a language
  pub iso2 : ℕ → String
  pub decimal_column : Decimal → ℤ
  pub str_of : Scalar → String
  pub kind_column : Scalar → ℕ
  pub default_kind : ℕ
  -- the feature set of the feed that a product came from
  pub feed_feature_set : SourceProduct → Option String
  -- the events that the stock and the cost writers record for a push to a channel
  pub stock_and_cost : SourceProduct → String → List IntegrationEvent

-- The texts, numbers and hashes of the Python runtime.
pub record Runtime : Type 0 where
  pub texts : TextOps
  pub skus : SkuText

-- The value column of a ProductAttribute.
pub data AttributeValue : Type 0 where
  option : String → AttributeValue
  value_bool : Bool → AttributeValue
  value_decimal : Decimal → AttributeValue
  value_txt : String → AttributeValue
  value_txt_t9n : String → String → AttributeValue
  value_json : Scalar → AttributeValue
  value_json_t9n : String → Scalar → AttributeValue
  value_datetime : Scalar → AttributeValue

pub record ProductAttribute : Type 0 where
  pub feature : String
  pub value : AttributeValue

-- PIM's Product: a RealProduct on a channel. Its visibility and class, which every first push sets
-- alike, are left out.
pub record Product : Type 0 where
  pub pk : ℕ
  pub real_product : ℕ
  pub channel : String
  pub feature_set : String
  pub is_enabled : Bool
  pub attributes : List ProductAttribute
  pub categories : List String
  pub pictures : ℕ

-- What the subscribers of `source_product_pushed_signal` are sent.
pub record PushedSignal : Type 0 where
  pub source_product : ℕ
  pub real_product_sku : String
  pub channel_idx : String

pub record PimState : Type 0 where
  pub store : Store
  pub products : List Product
  pub next_product : ℕ
  pub next_real_product : ℕ
  pub pushed_signals : List PushedSignal

pub data PushError : Type 0 where
  push_not_allowed no_feature_set channel_not_found feature_set_not_found : PushError
  required_field_missing product_exists reserved_sku product_not_found : PushError
  wrong_status preflight_failed real_product_gone event_failed arithmetic_failed : PushError
