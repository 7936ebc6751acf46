-- ===== src/Pim/Target.antt =====
-- The RealProduct that a push writes to (`_resolve_push_target`).
use entirius_django_atlas.Base.{
  suc, ◌==◌, Bool, true, false, not, ◌&&◌, Option, none, some, List, [], ◌∷◌, ◌++◌, String, str_eq,
  if◌then◌else◌, first_row, exists_row, is_some,
}
use entirius_django_atlas.Base.Outcome.{Result, ok, err, ◌>>=◌}
use entirius_django_atlas.Model.{
  SourceProduct, RealProduct, IntegrationEvent, SourceProductChangeLog,
}
use entirius_django_atlas.Model.Enums.{EventType, EventSeverity, ChangeLogSource}
use entirius_django_atlas.Links.{has_sku}
use entirius_django_atlas.Store.{Store, Faults, record_event, log_change}
use entirius_django_atlas.Attach.{linked_rp}
use entirius_django_atlas.Sku.{SkuError, generate_sku}
use entirius_django_atlas.Match.{find_match_by_ean, physical_tolerance_check}
use entirius_django_atlas.Pim.{
  Catalogue, Runtime, AttributeMapping, PimState, PushError, reserved_sku, real_product_gone,
}
use entirius_django_atlas.Pim.Physical.{real_product_defaults, physical_defaults}

abbrev pub source_event : EventType → EventSeverity → SourceProduct → IntegrationEvent
source_event event_type severity sp = record {
  event_type = event_type;
  severity = severity;
  source_idx = some sp.source.idx;
  source_product = some sp.pk;
}

abbrev pub in_store : (Store → Store) → PimState → PimState
in_store f p = record p { store = f p.store }

-- `_log_auto_link_audit`
abbrev pub auto_link_row : SourceProduct → RealProduct → SourceProductChangeLog
auto_link_row sp rp = record {
  source_product = sp.pk;
  real_product_sku = rp.sku;
  source = ChangeLogSource.auto_link;
  field_path = "real_product.link";
  applied_to_pim = true;
}

-- `_detect_multi_source_overlap`: an event if another source has a link to the SKU
abbrev pub overlap_noted : SourceProduct → String → Store → Store
overlap_noted sp sku s = record s {
  events =
      if exists_row (λ l. has_sku sku l && not (l.source.pk == sp.source.pk)) s.links.rows
      then s.events
        ++ record {
          event_type = EventType.multi_source_overlap;
          severity = EventSeverity.info;
          source_idx = none;
          source_product = some sp.pk;
        }
          ∷ []
      else s.events;
}

-- `_emit_tolerance_violation_event`, when the candidate was outside the tolerance
abbrev pub violation_noted : Faults → SourceProduct → Bool → PimState → PimState
violation_noted faults sp true p =
    in_store
      (record_event faults
        (source_event EventType.physical_tolerance_violation EventSeverity.warning sp))
      p
violation_noted faults sp false p = p

abbrev pub of_sku_error : Result SkuError String → Result PushError String
of_sku_error (ok sku) = ok sku
of_sku_error (err _) = err reserved_sku

abbrev pub with_sku : String → RealProduct → Bool
with_sku sku rp = str_eq rp.sku sku

-- `RealProduct.objects.get_or_create(sku=..., defaults=...)`
abbrev pub get_or_create_rp :
    SourceProduct → RealProduct → Option RealProduct → PimState → RealProduct × PimState
get_or_create_rp sp fresh (some rp) p = (rp, in_store (overlap_noted sp rp.sku) p)
get_or_create_rp sp fresh none p = (
  fresh,
  record p {
    store = record p.store { real_products = p.store.real_products ++ fresh ∷ [] };
    next_real_product = suc p.next_real_product;
  },
)

-- Whether the candidate of the EAN is taken, or the generated SKU.
pub data Target : Type 0 where
  linked : RealProduct → Target
  matched : RealProduct → Target
  generated : Bool → Target

module _ (pim : Catalogue) (run : Runtime) where
  abbrev pub judged : SourceProduct → List AttributeMapping → Option RealProduct → Target
  judged sp ms none = generated false
  judged sp ms (some candidate) =
      if (physical_tolerance_check (physical_defaults pim run.texts sp ms) candidate
        sp.source).passed
      then matched candidate
      else generated true

  -- An existing link wins; then a match by EAN within the tolerance; then the generated SKU.
  unfoldable pub choose_target :
      SourceProduct → List AttributeMapping → Store → Result PushError Target
  unfolding physical_tolerance_check physical_defaults find_match_by_ean
  choose_target sp ms s =
      if is_some sp.real_product
      then (elim (linked_rp sp s.real_products) [
        | none ↦ err real_product_gone
        | some rp ↦ ok (linked rp)
      ])
      else ok (judged sp ms (find_match_by_ean run.texts.strip sp sp.source s.real_products))

  -- What is written for the target.
  unfoldable pub write_target :
      Faults
      → SourceProduct
      → List AttributeMapping
      → Target
      → PimState
      → Result PushError (RealProduct × PimState)
  write_target faults sp ms (linked rp) p = ok (
    rp,
    in_store
        (record_event faults
          (source_event EventType.pushed_onto_linked_realproduct EventSeverity.info sp))
        p,
  )
  write_target faults sp ms (matched rp) p = ok (
    rp,
    in_store
        (λ s. log_change faults (auto_link_row sp rp) (
          record_event faults
            (source_event EventType.auto_linked_to_existing_realproduct EventSeverity.info sp) s))
        p,
  )
  write_target faults sp ms (generated violated) p = do
    sku ← of_sku_error (generate_sku run.skus sp.source sp.external_id)
    ok (
        get_or_create_rp sp (real_product_defaults pim run.texts sp ms p.next_real_product sku)
          (first_row (with_sku sku) p.store.real_products) (violation_noted faults sp violated p))

  unfoldable pub resolve_push_target :
      Faults
      → SourceProduct
      → List AttributeMapping
      → PimState
      → Result PushError (RealProduct × PimState)
  unfolding choose_target write_target
  resolve_push_target faults sp ms p = do
    target ← choose_target sp ms p.store
    write_target faults sp ms target p
