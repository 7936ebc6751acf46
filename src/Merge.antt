-- ===== src/Merge.antt =====
-- django_atlas/services/realproduct_merge_service.py. `stripped_length` stands for
-- `len(reason.strip())`. The update that moves the links is checked against the unique constraints
-- of the link table, as the database does; the writes of the audit row and of the event may fail,
-- and then the transaction is rolled back.
pub mod Redirect
use entirius_django_atlas.Base.{
  ℕ, suc, ◌==◌, Bool, true, false, not, ◌&&◌, ◌||◌, Option, none, some, List, [], ◌∷◌, ◌++◌, String,
  str_eq, if◌then◌else◌, ltb, leb, is_some, where_rows, first_row, count_rows, update_rows,
}
use entirius_django_atlas.Base.Outcome.{Result, ok, err, ◌>>=◌, ◌>>◌, raise_if, or_raise}
use entirius_django_atlas.Model.{
  SourceProductLink, SourceProduct, RealProduct, IntegrationEvent, SourceProductChangeLog,
}
use entirius_django_atlas.Model.Enums.{EventType, EventSeverity, ChangeLogSource}
use entirius_django_atlas.Links.{LinkTable, has_sku, of_pair, is_primary_for}
use entirius_django_atlas.Store.{Store, Faults, record_event, log_change}

pub data MergeError : Type 0 where
  reason_too_short same_sku real_product_not_found no_ean ean_mismatch : MergeError
  integrity_error write_failed : MergeError

pub record MergeResult : Type 0 where
  pub winner_sku : String
  pub loser_sku : String
  pub links_redirected : ℕ
  pub source_products_repointed : ℕ
  pub audited : Bool

-- The two unique constraints, asked at one row.
abbrev pub row_is_unique : List SourceProductLink → SourceProductLink → Bool
row_is_unique all l =
    leb (count_rows (of_pair l.real_product_sku l.source.pk) all) 1
    && (not l.is_primary || leb (count_rows (is_primary_for l.real_product_sku) all) 1)

abbrev pub rows_are_unique : List SourceProductLink → List SourceProductLink → Bool
rows_are_unique all [] = true
rows_are_unique all (l ∷ rows) = row_is_unique all l && rows_are_unique all rows

abbrev pub move_link : String → SourceProductLink → SourceProductLink
move_link sku l = record l { real_product_sku = sku }

-- `filter(real_product_sku=loser_sku).update(real_product_sku=winner_sku)`
unfoldable pub redirect_links : String → String → LinkTable → Result MergeError LinkTable
redirect_links winner_sku loser_sku t =
    let rows = update_rows (has_sku loser_sku) (move_link winner_sku) t.rows in
    if rows_are_unique rows rows then ok (record t { rows = rows }) else err integrity_error

abbrev pub points_at : ℕ → SourceProduct → Bool
points_at k sp = elim sp.real_product [ none ↦ false | some j ↦ j == k ]

abbrev pub repoint : ℕ → SourceProduct → SourceProduct
repoint k sp = record sp { real_product = some k }

abbrev pub has_rp_sku : String → RealProduct → Bool
has_rp_sku sku rp = str_eq rp.sku sku

abbrev pub has_rp_pk : ℕ → RealProduct → Bool
has_rp_pk k rp = rp.pk == k

-- `not rp.ean`
abbrev pub lacks_ean : RealProduct → Bool
lacks_ean rp = elim rp.ean [ none ↦ true | some e ↦ str_eq e "" ]

abbrev pub same_ean : RealProduct → RealProduct → Bool
same_ean a b = elim a.ean [
  | none ↦ not (is_some b.ean)
  | some e ↦ elim b.ean [ none ↦ false | some f ↦ str_eq e f ]
]

abbrev pub pk_of : Option SourceProduct → Option ℕ
pk_of none = none
pk_of (some sp) = some sp.pk

abbrev pub merged_event : Option SourceProduct → IntegrationEvent
merged_event sp = record {
  event_type = EventType.realproduct_manually_merged;
  severity = EventSeverity.info;
  source_idx = none;
  source_product = pk_of sp;
}

-- The audit row, against the product of the lowest key on the winner.
abbrev pub merge_rows : String → Option SourceProduct → List SourceProductChangeLog
merge_rows winner_sku none = []
merge_rows winner_sku (some sp) =
    record {
      source_product = sp.pk;
      real_product_sku = winner_sku;
      source = ChangeLogSource.manual_merge;
      field_path = "realproduct.merge";
      applied_to_pim = false;
    }
    ∷ []

unfoldable pub merge_realproducts :
    (String → ℕ)
    → Faults
    → String
    → String
    → String
    → Store
    → Result MergeError (MergeResult × Store)
merge_realproducts stripped_length faults winner_sku loser_sku reason s = do
  raise_if (str_eq reason "" || ltb (stripped_length reason) 3) reason_too_short
  raise_if (str_eq winner_sku loser_sku) same_sku
  winner ← or_raise (first_row (has_rp_sku winner_sku) s.real_products) real_product_not_found
  loser ← or_raise (first_row (has_rp_sku loser_sku) s.real_products) real_product_not_found
  raise_if (lacks_ean winner || lacks_ean loser) no_ean
  raise_if (not (same_ean winner loser)) ean_mismatch
  links ← redirect_links winner_sku loser_sku s.links
  let products = update_rows (points_at loser.pk) (repoint winner.pk) s.products
  let audit_sp = first_row (points_at winner.pk) products
  raise_if (is_some audit_sp && faults.audit_fails) write_failed
  raise_if faults.event_fails write_failed
  ok (
    record {
      winner_sku = winner_sku;
      loser_sku = loser_sku;
      links_redirected = count_rows (has_sku loser_sku) s.links.rows;
      source_products_repointed = count_rows (points_at loser.pk) s.products;
      audited = is_some audit_sp;
    },
    record s {
      links = links;
      products = products;
      change_logs = s.change_logs ++ merge_rows winner_sku audit_sp;
      events = s.events ++ merged_event audit_sp ∷ [];
      real_products = where_rows (λ rp. not (has_rp_pk loser.pk rp)) s.real_products;
    },
  )
