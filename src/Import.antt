-- ===== src/Import.antt =====
-- The import pipeline of django_atlas/services/import_service.py: the batches, the retry of a
-- batch, and the build or update of one row; Stale is the delisting pass, Physical the physical
-- values of a delta item and Gate who may write them. The hash of a payload (`_hash_attributes`),
-- the connector and the writes of a batch are parameters.
pub mod Retry
pub mod Rows
pub mod Stale
pub mod Physical
pub mod Gate
use entirius_django_atlas.Base.{
  ℕ, zero, suc, ◌+◌, ◌-◌, ◌*◌, Bool, true, false, not, ◌&&◌, ◌||◌, ◌==◌, ltb, leb, Option, none,
  some, String, List, [], ◌∷◌, ◌++◌, if◌then◌else◌, length, take, drop, str_eq, where_rows,
  first_row, update_rows, count_rows, map, is_some,
}
use entirius_django_atlas.Base.Int.{ℤ}
use entirius_django_atlas.Base.Outcome.{Result, ok, err}
use entirius_django_atlas.Model.{Source, SourceProduct, IntegrationEvent}
use entirius_django_atlas.Model.Enums.{
  SourceKind, procurement, monitoring, enrichment, ProductStatus, new, queued, approved, rejected,
  pushed_pending_images, pushed, is_pushed_status, EventType, EventSeverity,
}
use entirius_django_atlas.Model.Values.{Value, Attributes, get_attribute, has_attribute, value_eq}

-- schemas/contract.py
pub record RawProduct : Type 0 where
  pub external_id : String
  pub name : String
  pub cost : Option ℤ
  pub currency : Option String
  pub stock : Option ℤ
  pub ean : Option String
  pub url : Option String
  pub images : List String
  pub attributes : Attributes

-- `_batched`: chunks until one is empty. The fuel is the number of items.
abbrev pub chunk_then {ℓ} : {A : Type ℓ} → List A → List (List A) → List (List A)
chunk_then [] rest = []
chunk_then (x ∷ xs) rest = (x ∷ xs) ∷ rest

unfoldable pub batched_from {ℓ} : {A : Type ℓ} → ℕ → ℕ → List A → List (List A)
batched_from zero size items = []
batched_from (suc fuel) size items =
    chunk_then (take size items) (batched_from fuel size (drop size items))

unfoldable pub batched {ℓ} : {A : Type ℓ} → ℕ → List A → List (List A)
unfolding batched_from
batched size items = batched_from (length items) size items

-- `_MAX_RETRY_ATTEMPTS`
abbrev pub max_retry_attempts : ℕ
max_retry_attempts = 10

-- `_run_batch_with_retry`. `fn n` is the batch's work in attempt `n`, with what it wrote even if
-- it raised: `transaction.atomic()` rolls that back to `s`. `none` says that the fuel ran out.
module _ {E A S : Type 0} (fn : ℕ → S → Result E A × S) (should_retry : E → ℕ → Bool) where
  abbrev pub gives_up : ℕ → E → Bool
  gives_up attempt e = leb max_retry_attempts attempt || not (should_retry e attempt)

  unfoldable pub retry_from : ℕ → ℕ → S → Option (Result E A × S)
  retry_from zero attempt s = none
  retry_from (suc fuel) attempt s =
      let out = fn (suc attempt) s in
      let again = retry_from fuel (suc attempt) s in
      elim out.0 as (λ _. Option (Result E A × S)) [
        | ok a ↦ some (ok a, out.1)
        | err e ↦ if gives_up (suc attempt) e then some (err e, s) else again
      ]

  unfoldable pub run_batch_with_retry : S → Option (Result E A × S)
  unfolding retry_from
  run_batch_with_retry s = retry_from max_retry_attempts 0 s

-- `_kind_routed_fields`
pub record RoutedFields : Type 0 where
  pub cost : Option ℤ
  pub observed_price : Option ℤ
  pub signals : Option Attributes

abbrev pub kind_routed_fields : SourceKind → RawProduct → RoutedFields
kind_routed_fields monitoring raw = record {
  cost = none;
  observed_price = raw.cost;
  signals = none;
}
kind_routed_fields enrichment raw = record {
  cost = none;
  observed_price = none;
  signals = some raw.attributes;
}
kind_routed_fields procurement raw = record {
  cost = raw.cost;
  observed_price = none;
  signals = none;
}

-- `key in raw and raw.get(key) != existing.get(key)`
abbrev pub key_changed : String → Attributes → Attributes → Bool
key_changed key raw existing =
    has_attribute key raw && not (value_eq (get_attribute key raw) (get_attribute key existing))

abbrev pub detect_physical_change : Attributes → Attributes → Bool
detect_physical_change raw existing =
    key_changed "weight" raw existing
    || key_changed "ean" raw existing
    || key_changed "width" raw existing
    || key_changed "height" raw existing
    || key_changed "deep" raw existing

-- `_HISTORY_CAP`
abbrev pub history_cap : ℕ
history_cap = 20

-- `history[-20:]`
abbrev pub last_entries : List String → List String
last_entries history = drop (length history - history_cap) history

abbrev pub or_empty : Option String → String
or_empty none = ""
or_empty (some text) = text

pub data ChangeKind : Type 0 where
  new_row updated unchanged : ChangeKind

-- A dict of rows, by key.
abbrev pub get_row : String → List (String × SourceProduct) → Option SourceProduct
get_row key [] = none
get_row key ((k, sp) ∷ rest) = if str_eq key k then some sp else get_row key rest

-- The row that the item updates, and the id that an EAN match had.
abbrev pub match_by_ean :
    RawProduct → List (String × SourceProduct) → Option (SourceProduct × Option String)
match_by_ean raw by_ean =
    if str_eq (or_empty raw.ean) "" then none else elim (get_row (or_empty raw.ean) by_ean) [
      | none ↦ none
      | some candidate ↦
          if str_eq candidate.external_id raw.external_id
          then none
          else some (candidate, some candidate.external_id)
    ]

abbrev pub match_row :
    RawProduct
    → List (String × SourceProduct)
    → List (String × SourceProduct)
    → Option (SourceProduct × Option String)
match_row raw by_external by_ean = elim (get_row raw.external_id by_external) [
  | some sp ↦ some (sp, none)
  | none ↦ match_by_ean raw by_ean
]

module _ (hash_attributes : Attributes → String) where
  -- `pk` is the key that the table gives to the row.
  -- `modified_at`, which the insert stamps, is taken as the start of the sync.
  abbrev pub build_sp : Source → RawProduct → ℕ → ℕ → SourceProduct
  build_sp source raw pk started_at =
      let routed = kind_routed_fields source.kind raw in
      record {
        pk = pk;
        source = source;
        external_id = raw.external_id;
        external_id_history = [];
        name = raw.name;
        cost = routed.cost;
        observed_price = routed.observed_price;
        signals = routed.signals;
        currency = or_empty raw.currency;
        stock = raw.stock;
        ean = or_empty raw.ean;
        url = or_empty raw.url;
        image_urls = raw.images;
        attributes = raw.attributes;
        data_hash = hash_attributes raw.attributes;
        status = new;
        real_product = none;
        pushed_to_channel_idxs = [];
        last_synced_at = started_at;
        data_changed_at = some started_at;
        physical_changed_at = none;
        feature_set_idx_override = none;
        images_complete_channel_idxs = [];
        pushed_by = none;
        pushed_at = none;
        reviewed_by = none;
        reviewed_at = none;
        modified_at = started_at;
      }

  abbrev pub data_changed : RawProduct → SourceProduct → Bool
  data_changed raw sp = not (str_eq sp.data_hash (hash_attributes raw.attributes))

  abbrev pub renamed : RawProduct → Option String → SourceProduct → SourceProduct
  renamed raw none sp = sp
  renamed raw (some old) sp = record sp {
    external_id_history = last_entries (sp.external_id_history ++ old ∷ []);
    external_id = raw.external_id;
  }

  abbrev pub update_sp : Source → RawProduct → Option String → ℕ → SourceProduct → SourceProduct
  update_sp source raw rename_from started_at sp =
      let routed = kind_routed_fields source.kind raw in
      record (renamed raw rename_from sp) {
        name = raw.name;
        cost = routed.cost;
        observed_price = routed.observed_price;
        signals = routed.signals;
        currency = or_empty raw.currency;
        stock = raw.stock;
        ean = or_empty raw.ean;
        url = or_empty raw.url;
        image_urls = raw.images;
        attributes = raw.attributes;
        last_synced_at = started_at;
        data_hash = if data_changed raw sp then hash_attributes raw.attributes else sp.data_hash;
        data_changed_at = if data_changed raw sp then some started_at else sp.data_changed_at;
        physical_changed_at =
            if detect_physical_change raw.attributes sp.attributes
            then some started_at
            else sp.physical_changed_at;
      }

  abbrev pub change_kind : RawProduct → Option String → SourceProduct → ChangeKind
  change_kind raw rename_from sp =
      if is_some rename_from
        || data_changed raw sp
        || detect_physical_change raw.attributes sp.attributes
      then updated
      else unchanged

  -- `_build_or_update_sp`
  unfoldable pub build_or_update_sp :
      Source
      → RawProduct
      → List (String × SourceProduct)
      → List (String × SourceProduct)
      → ℕ
      → ℕ
      → SourceProduct × ChangeKind × Option String
  build_or_update_sp source raw by_external by_ean pk started_at =
      elim (match_row raw by_external by_ean) as (λ _. SourceProduct × ChangeKind × Option String) [
        | none ↦ (build_sp source raw pk started_at, new_row, none)
        | some (sp, rename_from) ↦ (
          update_sp source raw rename_from started_at sp,
          change_kind raw rename_from sp,
          rename_from,
        )
      ]
