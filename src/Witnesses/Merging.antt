-- ===== src/Witnesses/Merging.antt =====
-- The theorems on merges, links to RealProducts and unlinks at two lamps.
use entirius_django_atlas.Base.{
  ℕ, ◌≡◌, ◌≢◌, ◌+◌, ◌≤◌, refl, true, false, none, some, String, [], ◌∷◌, str_eq, arith, is_some,
  first_row, exists_row, count_rows, update_rows,
}
use entirius_django_atlas.Base.Outcome.{ok, err}
use entirius_django_atlas.Model.{SourceProduct, RealProduct}
use entirius_django_atlas.Model.Enums.{approved}
use entirius_django_atlas.Links.{
  has_sku, of_pair, is_primary_for, delete_link, get_primary_source_idx,
}
use entirius_django_atlas.Links.Consistency.{IsConsistent}
use entirius_django_atlas.Store.{Store}
use entirius_django_atlas.Merge.{
  MergeResult, merge_realproducts, redirect_links, has_rp_sku, same_ean, points_at, repoint,
  has_rp_pk,
}
use entirius_django_atlas.Merge.Redirect.{merge_realproducts_lem, merge_two_primaries}
use entirius_django_atlas.Sku.{SkuText, generate_sku, validate_routable_sku}
use entirius_django_atlas.Attach.{
  LinkedTo, Unlinked, written, not_installed, already_linked, has_sp_pk, link_sp_to_realproduct,
  attach_sp, get_or_create_link, unlink_sp_from_realproduct, create_primary_link,
}
use entirius_django_atlas.Attach.Attached.{attached, link_sp_to_realproduct_lem, link_again_raises}
use entirius_django_atlas.Witnesses.{
  value_or, bolt, a_link, acme_link, two_links-IsConsistent, a_product, acme_lamp, a_store,
  no_faults,
}

abbrev lamp_row : ℕ → String → RealProduct
lamp_row k sku = record {
  pk = k;
  sku = sku;
  ean = some "590";
  weight = none;
  width = none;
  height = none;
  deep = none;
  kind_of_product = 0;
}

abbrev reason_length : String → ℕ
reason_length _ = 9

abbrev two_rows : Store
two_rows = record a_store { real_products = lamp_row 1 "LAMP" ∷ lamp_row 2 "VASE" ∷ [] }

abbrev no_merge : MergeResult
no_merge = record {
  winner_sku = "";
  loser_sku = "";
  links_redirected = 0;
  source_products_repointed = 0;
  audited = false;
}

abbrev merged : MergeResult × Store
unfolding merge_realproducts redirect_links str_eq
merged =
    value_or (no_merge, two_rows)
      (merge_realproducts reason_length no_faults "VASE" "LAMP" "same lamp" two_rows)

merged_lem :
    merge_realproducts reason_length no_faults "VASE" "LAMP" "same lamp" two_rows
    ≡ ok (merged.0, merged.1)
unfolding merge_realproducts redirect_links str_eq
merged_lem = refl

merge_realproducts_lem_example :
    IsConsistent merged.1.links
    × (count_rows (has_sku "VASE") merged.1.links.rows
        ≡ count_rows (has_sku "VASE") two_rows.links.rows + merged.0.links_redirected)
    × (count_rows (has_sku "LAMP") merged.1.links.rows ≡ 0)
    × (winner : RealProduct) × (loser : RealProduct) × (first_row
          (has_rp_sku "VASE")
          two_rows.real_products
        ≡ some winner)
    × (first_row (has_rp_sku "LAMP") two_rows.real_products ≡ some loser)
    × (same_ean winner loser ≡ true)
    × (merged.1.products ≡ update_rows (points_at loser.pk) (repoint winner.pk) two_rows.products)
    × (count_rows (has_rp_pk loser.pk) merged.1.real_products ≡ 0)
merge_realproducts_lem_example =
    merge_realproducts_lem reason_length no_faults "VASE" "LAMP" "same lamp" two_rows
      two_links-IsConsistent merged_lem

-- Both SKUs with a primary link.
abbrev two_primaries : Store
two_primaries = record two_rows {
  links = record {
    rows = acme_link ∷ record (a_link 2 bolt "B1" true) { real_product_sku = "VASE" } ∷ [];
    next_pk = 3;
  };
}

one_vase : 1 ≤ count_rows (is_primary_for "VASE") two_primaries.links.rows
unfolding str_eq
one_vase = omega arith

one_lamp : 1 ≤ count_rows (is_primary_for "LAMP") two_primaries.links.rows
unfolding str_eq
one_lamp = omega arith

merge_two_primaries_example :
    merge_realproducts reason_length no_faults "VASE" "LAMP" "same lamp" two_primaries
    ≢ ok (no_merge, two_primaries)
merge_two_primaries_example =
    merge_two_primaries reason_length no_faults "VASE" "LAMP" "same lamp" two_primaries
      (no_merge, two_primaries) one_vase one_lamp

-- A product that is not linked yet.
abbrev loose_lamp : SourceProduct
loose_lamp = record (a_product 5 bolt "B7" 800_000 approved) { real_product = none }

abbrev loose_store : Store
loose_store = record two_rows { products = loose_lamp ∷ acme_lamp ∷ [] }

abbrev linked_now : LinkedTo × Store
unfolding link_sp_to_realproduct attach_sp get_or_create_link str_eq
linked_now =
    value_or (record { real_product_sku = ""; link_pk = 0; sink = [] }, loose_store)
      (link_sp_to_realproduct str_eq no_faults written 90 5 "VASE" loose_store)

linked_now_lem :
    link_sp_to_realproduct str_eq no_faults written 90 5 "VASE" loose_store
    ≡ ok (linked_now.0, linked_now.1)
unfolding link_sp_to_realproduct attach_sp get_or_create_link str_eq
linked_now_lem = refl

link_sp_to_realproduct_lem_example :
    (sp : SourceProduct) × (rp : RealProduct) × (first_row (has_sp_pk 5) loose_store.products
      ≡ some sp)
    × (is_some sp.real_product ≡ false)
    × (first_row (λ (q : RealProduct). str_eq q.sku "VASE") loose_store.real_products ≡ some rp)
    × (str_eq rp.sku "VASE" ≡ true)
    × (first_row (has_sp_pk 5) linked_now.1.products ≡ some (attached rp.pk 90 sp))
    × (exists_row (of_pair rp.sku sp.source.pk) linked_now.1.links.rows ≡ true)
    × IsConsistent linked_now.1.links
    × (get_primary_source_idx "LAMP" linked_now.1.links
        ≡ get_primary_source_idx "LAMP" loose_store.links)
link_sp_to_realproduct_lem_example =
    link_sp_to_realproduct_lem str_eq no_faults 90 5 "VASE" written loose_store "LAMP"
      two_links-IsConsistent linked_now_lem

link_again_raises_example :
    (link_sp_to_realproduct str_eq no_faults not_installed 90 5 "LAMP" linked_now.1
      ≡ err already_linked)
    × (link_sp_to_realproduct str_eq no_faults not_installed 90 5 "VASE" loose_store
        ≡ link_sp_to_realproduct str_eq no_faults written 90 5 "VASE" loose_store)
link_again_raises_example =
    link_again_raises str_eq no_faults 90 5 "VASE" written not_installed "LAMP" loose_store
      two_links-IsConsistent linked_now_lem

abbrev plain_skus : SkuText
plain_skus = record { digest = λ s. s; split = λ s. s ∷ []; is_digit = λ s. false }

abbrev unlinked_now : Unlinked × Store
unfolding unlink_sp_from_realproduct generate_sku validate_routable_sku create_primary_link
    delete_link str_eq
unlinked_now =
    value_or
      (
        record {
          previous_real_product_sku = "";
          new_real_product_sku = "";
          new_link_pk = 0;
          sink = [];
        },
        two_rows,
      )
      (unlink_sp_from_realproduct plain_skus no_faults 90 3 1 two_rows)
