-- ===== src/Import/Rows.antt =====
-- What `_build_or_update_sp` makes of one item of a feed.
use entirius_django_atlas.Base.{
  ℕ, ◌≤◌, ◌≡◌, ◌⊎◌, Option, none, some, String, List, [], ◌∷◌, ◌++◌, length,
}
use entirius_django_atlas.Model.{Source, SourceProduct}
use entirius_django_atlas.Model.Enums.{SourceKind, procurement, monitoring, enrichment}
use entirius_django_atlas.Model.Values.{Attributes}
use entirius_django_atlas.Import.{
  RawProduct, last_entries, history_cap, ChangeKind, updated, unchanged,
}

-- The row holds a price or signals only in the column of its source's kind, with the item's value.
abbrev pub IsRouted : SourceKind → RawProduct → SourceProduct → Type 0
IsRouted procurement raw sp =
    (sp.cost ≡ raw.cost) × (sp.observed_price ≡ none) × (sp.signals ≡ none)
IsRouted monitoring raw sp = (sp.cost ≡ none) × (sp.observed_price ≡ raw.cost) × (sp.signals ≡ none)
IsRouted enrichment raw sp =
    (sp.cost ≡ none) × (sp.observed_price ≡ none) × (sp.signals ≡ some raw.attributes)

-- The rows of the dict are under their own external ids.
abbrev pub IsKeyed : List (String × SourceProduct) → Type 0
IsKeyed [] = Unit
IsKeyed ((k, sp) ∷ rest) = (k ≡ sp.external_id) × IsKeyed rest

abbrev external_id_or : String → Option SourceProduct → String
external_id_or key none = key
external_id_or key (some sp) = sp.external_id

-- What the match of an item found.
abbrev pub Found : RawProduct → SourceProduct → Option String → Type 0
Found raw old rename_from =
    ((rename_from ≡ none) × (old.external_id ≡ raw.external_id))
    ⊎ (rename_from ≡ some old.external_id)

module _ (hash_attributes : Attributes → String) (source : Source) (raw : RawProduct)
    (by_external by_ean : List (String × SourceProduct)) (pk started_at : ℕ) where
  -- The row's identity, the routing of its values, its synchronisation time, its hash.
  abbrev pub IsSynced : SourceProduct → Type 0
  IsSynced sp =
      (sp.external_id ≡ raw.external_id)
      × IsRouted source.kind raw sp
      × (sp.last_synced_at ≡ started_at)
      × (sp.data_hash ≡ hash_attributes raw.attributes)

  -- A found row keeps its id unless an EAN match renames it; the old id goes into its history.
  abbrev pub Updates : SourceProduct → Option String → SourceProduct → ChangeKind → Type 0
  Updates old rename_from sp kind =
      (sp.pk ≡ old.pk)
      × (sp.status ≡ old.status)
      × (sp.real_product ≡ old.real_product)
      × (((rename_from ≡ none)
            × (old.external_id ≡ sp.external_id)
            × (sp.external_id_history ≡ old.external_id_history))
          ⊎ ((rename_from ≡ some old.external_id)
              × (sp.external_id_history
                  ≡ last_entries (old.external_id_history ++ old.external_id ∷ []))
              × (length sp.external_id_history ≤ history_cap)))
      × ((kind ≡ updated)
          ⊎ ((kind ≡ unchanged)
              × (old.external_id ≡ sp.external_id)
              × (old.data_hash ≡ sp.data_hash)))
