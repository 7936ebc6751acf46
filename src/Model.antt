-- ===== src/Model.antt =====
-- The rows that the services work on: the fields of django_atlas/models/*.py that their decisions
-- read or write. A row that an operation only reads through a foreign key (`link.source`,
-- `sp.source`) is held by value. Decimals are integers in units of 1/10000, the scale of the price
-- columns; times are seconds; users are their keys.
pub mod Enums
pub mod Values
use entirius_django_atlas.Base.{ℕ, Bool, Option, List, String}
use entirius_django_atlas.Base.Int.{ℤ}
use Enums.{SourceKind, EvalFrequency, ProductStatus, EventType, EventSeverity, ChangeLogSource}
use Values.{Attributes}

-- models/source.py
pub record Source : Type 0 where
  pub pk : ℕ
  pub idx : String
  pub kind : SourceKind
  pub realproduct_match_tolerance_pct : ℕ
  pub realproduct_match_strict : Bool
  pub disable_ean_auto_link : Bool
  pub allow_physical_writes_from_non_primary : Bool
  pub primary_switch_cooldown_hours : ℕ
  pub primary_switch_hysteresis_pct : ℕ
  pub eval_frequency : EvalFrequency
  pub qty_subtract : ℕ
  pub qty_minimum : ℕ
  pub sku_prefix : String
  pub default_feature_set_idx : Option String
  pub default_language : String

-- models/source_product_link.py
pub record SourceProductLink : Type 0 where
  pub pk : ℕ
  pub real_product_sku : String
  pub source : Source
  pub external_id : String
  pub priority : ℤ
  pub is_primary : Bool
  pub is_active : Bool
  pub notes : String
  pub manual_override : Bool
  pub preferred_changed_at : Option ℕ

-- models/source_product.py; `real_product` is the key of the PIM row
pub record SourceProduct : Type 0 where
  pub pk : ℕ
  pub source : Source
  pub external_id : String
  pub external_id_history : List String
  pub name : String
  pub cost : Option ℤ
  pub observed_price : Option ℤ
  pub signals : Option Attributes
  pub currency : String
  pub stock : Option ℤ
  pub ean : String
  pub url : String
  pub image_urls : List String
  pub attributes : Attributes
  pub data_hash : String
  pub status : ProductStatus
  pub real_product : Option ℕ
  pub feature_set_idx_override : Option String
  pub pushed_to_channel_idxs : List String
  pub images_complete_channel_idxs : List String
  pub pushed_by : Option ℕ
  pub pushed_at : Option ℕ
  pub last_synced_at : ℕ
  pub data_changed_at : Option ℕ
  pub physical_changed_at : Option ℕ
  pub reviewed_by : Option ℕ
  pub reviewed_at : Option ℕ
  pub modified_at : ℕ

-- The columns of PIM's RealProduct that the services read and write.
pub record RealProduct : Type 0 where
  pub pk : ℕ
  pub sku : String
  pub ean : Option String
  pub weight : Option ℤ
  pub width : Option ℤ
  pub height : Option ℤ
  pub deep : Option ℤ
  pub kind_of_product : ℕ

-- models/integration_event.py, with what a reader of the log keys on
pub record IntegrationEvent : Type 0 where
  pub event_type : EventType
  pub severity : EventSeverity
  pub source_idx : Option String
  pub source_product : Option ℕ

-- models/source_product_change_log.py, likewise
pub record SourceProductChangeLog : Type 0 where
  pub source_product : ℕ
  pub real_product_sku : String
  pub source : ChangeLogSource
  pub field_path : String
  pub applied_to_pim : Bool
