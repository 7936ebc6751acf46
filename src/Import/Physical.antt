-- ===== src/Import/Physical.antt =====
-- The physical values of a delta item (`_apply_physical_update_to_real_product` and
-- `_emit_physical_race_skip` of services/import_service.py): who may write them to the RealProduct.
-- `rejects` stands for the `save` of PIM's RealProduct, which may raise.
use entirius_django_atlas.Base.{
  ℕ, ◌==◌, Bool, true, false, not, ◌&&◌, ◌||◌, Option, none, some, String, List, [], ◌∷◌, ◌++◌,
  if◌then◌else◌, str_eq, dotted, first_row, exists_row, update_rows, map, is_some,
}
use entirius_django_atlas.Base.Int.{ℤ}
use entirius_django_atlas.Base.Outcome.{Result, ok, ◌>>=◌, ◌>>◌, raise_if, or_raise}
use entirius_django_atlas.Model.{
  SourceProduct, SourceProductLink, RealProduct, SourceProductChangeLog,
}
use entirius_django_atlas.Model.Enums.{is_pushed_status, EventType, EventSeverity, ChangeLogSource}
use entirius_django_atlas.Model.Values.{Attributes, get_attribute}
use entirius_django_atlas.KindGuard.{is_push_blocked}
use entirius_django_atlas.Links.{of_pair}
use entirius_django_atlas.Store.{Store, Faults, record_event}
use entirius_django_atlas.Attach.{linked_rp}
use entirius_django_atlas.Merge.{has_rp_pk}
use entirius_django_atlas.Match.{weight, width, height, deep}
use entirius_django_atlas.Transform.{Scalar, TextOps}
use entirius_django_atlas.Pim.{Catalogue}
use entirius_django_atlas.Pim.Lookup.{scalar_of, scalar_eq}
use entirius_django_atlas.Pim.Physical.{RpField, physical, ean, get_rp, set_rp, coerced, raw_of}
use entirius_django_atlas.Pim.Target.{source_event}

-- PHYSICAL_OUTCOME_*
pub data PhysicalOutcome : Type 0 where
  noop applied skipped_non_primary overwritten : PhysicalOutcome

pub data PhysicalError : Type 0 where
  no_real_product save_failed event_failed : PhysicalError

-- schemas/contract.py
pub record PriceStockUpdate : Type 0 where
  pub external_id : String
  pub cost : Option ℤ
  pub currency : Option String
  pub stock : Option ℤ
  pub physical : Option Attributes

-- `_PHYSICAL_FIELDS`, each with its column
abbrev pub updated_fields : List (String × RpField)
updated_fields =
    ("weight", physical weight)
    ∷ ("ean", ean)
    ∷ ("width", physical width)
    ∷ ("height", physical height)
    ∷ ("deep", physical deep)
    ∷ []

-- The dict `links_by_sku` of a batch: the active links of the source for the SKUs of the batch.
abbrev pub has_name : List String → String → Bool
has_name skus sku = exists_row (λ s. str_eq s sku) skus

unfoldable pub links_by_sku :
    ℕ → List String → List SourceProductLink → List (String × SourceProductLink)
links_by_sku source_pk skus [] = []
links_by_sku source_pk skus (l ∷ rows) =
    if (l.source.pk == source_pk) && has_name skus l.real_product_sku && l.is_active
    then (l.real_product_sku, l) ∷ links_by_sku source_pk skus rows
    else links_by_sku source_pk skus rows

-- `links_by_sku.get(sku)`; of two entries with one key a dict keeps the later
abbrev pub get_sku_link : String → List (String × SourceProductLink) → Option SourceProductLink
get_sku_link sku [] = none
get_sku_link sku ((k, l) ∷ rest) = elim (get_sku_link sku rest) [
  | some m ↦ some m
  | none ↦ if str_eq k sku then some l else none
]

-- The link that the gate asks: from the dict over the SKUs of the batch, or by a query.
unfoldable pub link_for :
    Option (List String) → SourceProduct → String → Store → Option SourceProductLink
unfolding links_by_sku
link_for (some skus) sp sku s = get_sku_link sku (links_by_sku sp.source.pk skus s.links.rows)
link_for none sp sku s =
    first_row (λ (l : SourceProductLink). of_pair sku sp.source.pk l && l.is_active) s.links.rows

abbrev pub is_primary_link : Option SourceProductLink → Bool
is_primary_link none = false
is_primary_link (some l) = l.is_primary

-- The guards before the gate, for an item with physical values.
abbrev pub is_passed_over : SourceProduct → Bool
is_passed_over sp =
    not (is_pushed_status sp.status) || (is_push_blocked sp.source || not (is_some sp.real_product))

abbrev pub physical_row :
    ChangeLogSource → String → Bool → SourceProduct → RealProduct → SourceProductChangeLog
physical_row source field_path applied_to_pim sp rp = record {
  source_product = sp.pk;
  real_product_sku = rp.sku;
  source = source;
  field_path = field_path;
  applied_to_pim = applied_to_pim;
}

-- `_flush_audit_drafts`, best-effort
abbrev pub flush_drafts : Faults → List SourceProductChangeLog → Store → Store
flush_drafts faults drafts s = record s {
  change_logs = if faults.audit_fails then s.change_logs else s.change_logs ++ drafts;
}

-- `_emit_physical_race_skip`
abbrev pub skip_noted : Faults → SourceProduct → RealProduct → Store → Store
skip_noted faults sp rp s =
    flush_drafts faults
      (physical_row ChangeLogSource.physical_skipped "physical_skipped" false sp rp ∷ [])
      (record_event faults
        (source_event EventType.physical_update_skipped_non_primary EventSeverity.info sp) s)

-- The event and the drafts of a write, by whether the source is the primary one.
abbrev pub write_event : Bool → EventType × EventSeverity
write_event true = (EventType.physical_update_applied, EventSeverity.info)
write_event false = (EventType.physical_update_overwrite, EventSeverity.warning)

abbrev pub write_source : Bool → ChangeLogSource
write_source true = ChangeLogSource.delta_sync
write_source false = ChangeLogSource.physical_overwrite

abbrev pub write_outcome : Bool → PhysicalOutcome
write_outcome true = applied
write_outcome false = overwritten

abbrev pub stamped : ℕ → SourceProduct → SourceProduct
stamped started_at sp = record sp { physical_changed_at = some started_at }

module _ (pim : Catalogue) (texts : TextOps) (rejects : RealProduct → Bool) where
  -- The value that the item has for a field, if it has one that the column can hold.
  abbrev pub offered : Attributes → String × RpField → Option Scalar
  offered d (k, f) = elim (raw_of f (scalar_of (get_attribute k d))) [
    | none ↦ none
    | some (g, v) ↦ coerced texts g v
  ]

  -- One round of the loop: the changed fields, and the row after.
  abbrev pub put_field : String × RpField → Option Scalar → RealProduct → List String × RealProduct
  put_field kf none rp = ([], rp)
  put_field (k, f) (some v) rp =
      if scalar_eq (get_rp f rp) v then ([], rp) else (k ∷ [], set_rp pim f v rp)

  unfoldable pub put_fields :
      List (String × RpField) → Attributes → RealProduct → List String × RealProduct
  put_fields [] d rp = ([], rp)
  put_fields (kf ∷ kfs) d rp =
      let first = put_field kf (offered d kf) rp in
      let rest = put_fields kfs d first.1 in (first.0 ++ rest.0, rest.1)

  -- The save of a changed row, with its event and its drafts.
  unfoldable pub write_physical :
      Faults
      → ℕ
      → Bool
      → SourceProduct
      → List String × RealProduct
      → Store
      → Result PhysicalError (PhysicalOutcome × SourceProduct × Store)
  write_physical faults started_at primary sp ([], rp) s = ok (noop, sp, s)
  write_physical faults started_at primary sp (k ∷ ks, rp) s = do
    raise_if (rejects rp) save_failed
    raise_if faults.event_fails event_failed
    ok (
      write_outcome primary,
      stamped started_at sp,
      flush_drafts faults
          (map (λ f. physical_row (write_source primary) (dotted "physical" f) true sp rp) (k ∷ ks))
          (record s {
            real_products = update_rows (has_rp_pk rp.pk) (λ _. rp) s.real_products;
            events =
                s.events ++ source_event (write_event primary).0 (write_event primary).1 sp ∷ [];
          }),
    )

  -- The gate: the primary link writes, another one only if the source opts in.
  unfoldable pub gate_physical :
      Faults
      → ℕ
      → Bool
      → SourceProduct
      → Attributes
      → RealProduct
      → Store
      → Result PhysicalError (PhysicalOutcome × SourceProduct × Store)
  unfolding write_physical put_fields
  gate_physical faults started_at primary sp d rp s =
      if not primary && not sp.source.allow_physical_writes_from_non_primary
      then ok (skipped_non_primary, sp, skip_noted faults sp rp s)
      else write_physical faults started_at primary sp (put_fields updated_fields d rp) s

  unfoldable pub apply_physical_values :
      Faults
      → ℕ
      → Option (List String)
      → SourceProduct
      → Attributes
      → Store
      → Result PhysicalError (PhysicalOutcome × SourceProduct × Store)
  unfolding gate_physical link_for
  apply_physical_values faults started_at skus sp d s =
      if is_passed_over sp then ok (noop, sp, s) else do
        rp ← or_raise (linked_rp sp s.real_products) no_real_product
        gate_physical faults started_at (is_primary_link (link_for skus sp rp.sku s)) sp d rp s

  -- `_apply_physical_update_to_real_product`
  unfoldable pub apply_physical_update :
      Faults
      → ℕ
      → Option (List String)
      → SourceProduct
      → PriceStockUpdate
      → Store
      → Result PhysicalError (PhysicalOutcome × SourceProduct × Store)
  unfolding apply_physical_values
  apply_physical_update faults started_at skus sp upd s = elim upd.physical [
    | none ↦ ok (noop, sp, s)
    | some d ↦ apply_physical_values faults started_at skus sp d s
  ]
