-- ===== src/Model/Enums.antt =====
-- Enumerations of django_atlas/enums.py, with the source's members.
use entirius_django_atlas.Base.{ℕ, Bool, true, false, ◌==◌}

pub data SourceKind : Type 0 where
  procurement monitoring enrichment : SourceKind

pub data EventSeverity : Type 0 where
  critical warning info : EventSeverity

pub data EventType : Type 0 where
  feed_failed scraper_banned scraper_dispatch_skipped image_failed push_failed : EventType
  push_succeeded cost_updated mass_delisting feed_no_run pim_feature_missing : EventType
  qms_not_installed_skipped qms_warehouse_not_configured qms_write_failed : EventType
  pushed_product_delisted ean_collision_detected unknown_external_id_in_delta : EventType
  physical_update_applied force_repush_executed import_completed source_deleted : EventType
  channel_removed_from_profile attribute_value_missing pim_attribute_missing : EventType
  pim_category_missing pim_feature_set_missing pim_channel_missing : EventType
  image_download_started image_download_completed multi_source_overlap : EventType
  stock_updated qms_no_real_product cost_missing currency_missing : EventType
  scraper_results_validation_errors scraper_unknown_run_id : EventType
  scraper_callback_signature_invalid source_credentials_viewed : EventType
  source_credentials_updated language_fallback mapping_transform_failed : EventType
  auto_linked_to_existing_realproduct pushed_onto_linked_realproduct : EventType
  physical_tolerance_violation manual_unlink_from_realproduct : EventType
  linked_via_lookup_proposal linked_via_lookup_ui primary_source_switched : EventType
  primary_source_emergency_switch primary_source_forced : EventType
  primary_switch_skipped_cooldown primary_switch_skipped_hysteresis : EventType
  primary_switch_skipped_manual_override realproduct_manually_merged : EventType
  physical_update_skipped_non_primary physical_update_overwrite : EventType

pub data EvalFrequency : Type 0 where
  daily hourly manual : EvalFrequency

pub data PrimarySkipReason : Type 0 where
  none no_change cooldown hysteresis manual_override no_candidates : PrimarySkipReason

pub data ProductStatus : Type 0 where
  new queued approved rejected pushed_pending_images pushed : ProductStatus

pub data LogStatus : Type 0 where
  running success partial failed : LogStatus

pub data ChangeLogSource : Type 0 where
  full_sync delta_sync init_push force_repush operator_sp_edit auto_link : ChangeLogSource
  auto_primary_switch manual_override emergency_switch operator_acknowledge : ChangeLogSource
  language_fallback mapping_transform cost_signal_received : ChangeLogSource
  cost_ignored_non_primary cost_ignored_no_link cost_skipped_admin_override : ChangeLogSource
  cost_skipped_resolution_failed manual_unlink manual_merge physical_skipped : ChangeLogSource
  physical_overwrite : ChangeLogSource

pub data MappingValueModifier : Type 0 where
  none grams_to_kg kg_to_grams mm_to_cm cm_to_mm mm_to_m currency_minor_to_major :
      MappingValueModifier
  currency_major_to_minor string_trim string_lowercase string_uppercase : MappingValueModifier

-- A number for each status, so that `sp.status == target` is a Boolean test.
abbrev pub status_code : ProductStatus → ℕ
status_code ProductStatus.new = 0
status_code ProductStatus.queued = 1
status_code ProductStatus.approved = 2
status_code ProductStatus.rejected = 3
status_code ProductStatus.pushed_pending_images = 4
status_code ProductStatus.pushed = 5

abbrev pub status_eq : ProductStatus → ProductStatus → Bool
status_eq s t = status_code s == status_code t

-- `PUSHED_STATUSES`
abbrev pub is_pushed_status : ProductStatus → Bool
is_pushed_status ProductStatus.pushed = true
is_pushed_status ProductStatus.pushed_pending_images = true
is_pushed_status _ = false
