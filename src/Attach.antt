-- ===== src/Attach.antt =====
-- The operations of django_atlas/services/product_link_service.py that attach a product to a
-- RealProduct and detach it. `iexact` compares without regard to case; the answer of django-lookup's
-- dedup log is a parameter, and so is the key that PIM's sequence gives to a new RealProduct.
pub mod Attached
pub mod Detached
pub mod Service
use entirius_django_atlas.Base.{
  ℕ, suc, ◌==◌, Bool, true, false, not, ◌&&◌, ◌||◌, Option, none, some, List, [], ◌∷◌, ◌++◌, String,
  str_eq, if◌then◌else◌, is_some, where_rows, first_row, exists_row, update_rows,
}
use entirius_django_atlas.Base.Int.{ℤ, pos}
use entirius_django_atlas.Base.Outcome.{Result, ok, err, ◌>>=◌, ◌>>◌, raise_if, or_raise}
use entirius_django_atlas.Model.{SourceProductLink, SourceProduct, RealProduct, IntegrationEvent}
use entirius_django_atlas.Model.Enums.{EventType, EventSeverity, ChangeLogSource}
use entirius_django_atlas.KindGuard.{assert_push_allowed}
use entirius_django_atlas.Links.{
  LinkTable, has_pk, of_pair, is_primary_for, new_link, insert_row, delete_link,
}
use entirius_django_atlas.Store.{Store, Faults, record_event, log_change}
use entirius_django_atlas.Sku.{SkuText, SkuError, generate_sku}

pub data AttachError : Type 0 where
  product_not_found already_linked real_product_not_found : AttachError
  not_linked push_not_allowed link_not_found sku_taken reserved_sku integrity_error : AttachError
  write_failed : AttachError

-- How the write of the verdict ends: written, django-lookup not installed, another exception.
pub data VerdictWrite : Type 0 where
  written not_installed raised : VerdictWrite

abbrev pub verdict_raises : VerdictWrite → Bool
verdict_raises written = false
verdict_raises not_installed = false
verdict_raises raised = true

abbrev pub has_sp_pk : ℕ → SourceProduct → Bool
has_sp_pk k sp = sp.pk == k

abbrev pub has_rp_key : ℕ → RealProduct → Bool
has_rp_key k rp = rp.pk == k

-- `sp.real_product`: a foreign key, so the row is there
abbrev pub linked_rp : SourceProduct → List RealProduct → Option RealProduct
linked_rp sp real_products = elim sp.real_product [
  | none ↦ none
  | some k ↦ first_row (has_rp_key k) real_products
]

-- `sp.save(update_fields=["real_product", "modified_at"])`
abbrev pub set_real_product : ℕ → ℕ → ℕ → List SourceProduct → List SourceProduct
set_real_product sp_pk rp_pk now =
    update_rows (has_sp_pk sp_pk)
      (λ (r : SourceProduct). record r { real_product = some rp_pk; modified_at = now })

abbrev pub link_event : EventType → SourceProduct → IntegrationEvent
link_event event_type sp = record {
  event_type = event_type;
  severity = EventSeverity.info;
  source_idx = some sp.source.idx;
  source_product = some sp.pk;
}

-- `get_or_create(real_product_sku=..., source=..., defaults={"external_id": ...})`
unfoldable pub get_or_create_link :
    String → SourceProduct → LinkTable → SourceProductLink × LinkTable
get_or_create_link sku sp t = elim (first_row (of_pair sku sp.source.pk) t.rows) [
  | some l ↦ (l, t)
  | none ↦
      let l = new_link t.next_pk sku sp.source sp.external_id (pos 0) false "" in
      (l, insert_row l t)
]

-- `_attach_sp`: the event is not best-effort, and a verdict that raises rolls everything back.
unfoldable pub attach_sp :
    Faults
    → VerdictWrite
    → ℕ
    → SourceProduct
    → RealProduct
    → Store
    → Result AttachError (SourceProductLink × Store)
unfolding get_or_create_link
attach_sp faults verdict now sp real_product s = do
  raise_if faults.event_fails write_failed
  raise_if (verdict_raises verdict) write_failed
  let found = get_or_create_link real_product.sku sp s.links
  ok (
    found.0,
    record s {
      links = found.1;
      products = set_real_product sp.pk real_product.pk now s.products;
      events = s.events ++ link_event EventType.linked_via_lookup_ui sp ∷ [];
    },
  )

-- The payload, and what a caller's `event_sink` is appended.
pub record LinkedTo : Type 0 where
  pub real_product_sku : String
  pub link_pk : ℕ
  pub sink : List IntegrationEvent

unfoldable pub link_sp_to_realproduct :
    (String → String → Bool)
    → Faults
    → VerdictWrite
    → ℕ
    → ℕ
    → String
    → Store
    → Result AttachError (LinkedTo × Store)
unfolding attach_sp
link_sp_to_realproduct iexact faults verdict now sp_pk real_product_sku s = do
  sp ← or_raise (first_row (has_sp_pk sp_pk) s.products) product_not_found
  raise_if (is_some sp.real_product) already_linked
  real_product ←
      or_raise (first_row (λ (rp : RealProduct). iexact rp.sku real_product_sku) s.real_products)
        real_product_not_found
  done ← attach_sp faults verdict now sp real_product s
  ok (
    record {
      real_product_sku = real_product.sku;
      link_pk = done.0.pk;
      sink = link_event EventType.linked_via_lookup_ui sp ∷ [];
    },
    done.1,
  )

abbrev pub sku_or_raise : Result SkuError String → Result AttachError String
sku_or_raise (ok sku) = ok sku
sku_or_raise (err _) = err reserved_sku

-- The columns of the fresh RealProduct.
abbrev pub fresh_real_product : ℕ → String → SourceProduct → RealProduct → RealProduct
fresh_real_product k sku sp old = record old {
  pk = k;
  sku = sku;
  ean = if str_eq sp.ean "" then none else some sp.ean;
}

-- `SourceProductLink.objects.create(..., is_primary=True)`, with the unique constraints
unfoldable pub create_primary_link :
    String → SourceProduct → LinkTable → Result AttachError (SourceProductLink × LinkTable)
create_primary_link sku sp t = do
  raise_if (exists_row (of_pair sku sp.source.pk) t.rows || exists_row (is_primary_for sku) t.rows)
      integrity_error
  let l = new_link t.next_pk sku sp.source sp.external_id (pos 0) true ""
  ok (l, insert_row l t)

pub record Unlinked : Type 0 where
  pub previous_real_product_sku : String
  pub new_real_product_sku : String
  pub new_link_pk : ℕ
  pub sink : List IntegrationEvent

unfoldable pub unlink_sp_from_realproduct :
    SkuText → Faults → ℕ → ℕ → ℕ → Store → Result AttachError (Unlinked × Store)
unfolding create_primary_link delete_link
unlink_sp_from_realproduct lib faults now new_rp_pk sp_pk s = do
  sp ← or_raise (first_row (has_sp_pk sp_pk) s.products) product_not_found
  old_rp ← or_raise (linked_rp sp s.real_products) not_linked
  assert_push_allowed sp.source push_not_allowed
  link ← or_raise (first_row (of_pair old_rp.sku sp.source.pk) s.links.rows) link_not_found
  new_sku ← sku_or_raise (generate_sku lib sp.source sp.external_id)
  raise_if
      (str_eq new_sku old_rp.sku
        || exists_row (λ (rp : RealProduct). str_eq rp.sku new_sku) s.real_products)
      sku_taken
  created ← create_primary_link new_sku sp (delete_link link.pk s.links)
  let new_rp = fresh_real_product new_rp_pk new_sku sp old_rp
  let moved = record s {
    links = created.1;
    real_products = s.real_products ++ new_rp ∷ [];
    products = set_real_product sp.pk new_rp_pk now s.products;
  }
  let noted = record_event faults (link_event EventType.manual_unlink_from_realproduct sp) moved
  ok (
    record {
      previous_real_product_sku = old_rp.sku;
      new_real_product_sku = new_sku;
      new_link_pk = created.0.pk;
      sink = link_event EventType.manual_unlink_from_realproduct sp ∷ [];
    },
    log_change faults
        (record {
          source_product = sp.pk;
          real_product_sku = new_sku;
          source = ChangeLogSource.manual_unlink;
          field_path = "real_product.unlink";
          applied_to_pim = true;
        })
        noted,
  )
