-- ===== src/Witnesses/Delta.antt =====
-- The gate of physical values, at a delta item of the primary source of the catalogue's SKU.
use mathlib.Core.Path.{subst}
use entirius_django_atlas.Base.{
  ◌≡◌, ◌⊎◌, refl, ap, some_inj, true, false, none, some, [], ◌∷◌, str_eq,
}
use entirius_django_atlas.Base.Outcome.{ok}
use entirius_django_atlas.Model.{SourceProduct, RealProduct}
use entirius_django_atlas.Model.Enums.{pushed, is_pushed_status}
use entirius_django_atlas.Model.Values.{Value, Attributes, get_attribute}
use entirius_django_atlas.KindGuard.{is_push_blocked}
use entirius_django_atlas.Store.{Store}
use entirius_django_atlas.Attach.{linked_rp}
use entirius_django_atlas.Import.Physical.{
  PhysicalOutcome, noop, overwritten, PriceStockUpdate, link_for, links_by_sku, put_fields,
  write_physical, gate_physical, apply_physical_values, apply_physical_update,
}
use entirius_django_atlas.Import.Gate.{
  Untouched, Written, Excused, HasPrimary, expected_row, looks_up, apply_physical_update_lem,
}
use entirius_django_atlas.Witnesses.{
  value_or, acme, a_product, a_store, no_faults, two_links-IsConsistent,
}
use entirius_django_atlas.Witnesses.Pushing.{texts, a_catalogue}

abbrev lamp : RealProduct
lamp = record {
  pk = 1;
  sku = "LAMP";
  ean = some "590";
  weight = none;
  width = none;
  height = none;
  deep = none;
  kind_of_product = 0;
}

abbrev sold_lamp : SourceProduct
sold_lamp = record (a_product 1 acme "A1" 800_000 pushed) { real_product = some 1 }

abbrev heavier : PriceStockUpdate
heavier = record {
  external_id = "A1";
  cost = none;
  currency = none;
  stock = none;
  physical = some (("weight", Value.text "1500") ∷ []);
}

abbrev lamp_store : Store
lamp_store = record a_store { products = sold_lamp ∷ []; real_products = lamp ∷ [] }

abbrev weighed : PhysicalOutcome × SourceProduct × Store
unfolding apply_physical_update apply_physical_values gate_physical write_physical put_fields
    link_for links_by_sku get_attribute str_eq
weighed =
    value_or (noop, sold_lamp, lamp_store)
      (apply_physical_update a_catalogue texts (λ _. false) no_faults 90 (some ("LAMP" ∷ []))
        sold_lamp heavier lamp_store)

weighed_lem :
    apply_physical_update a_catalogue texts
      (λ _. false)
      no_faults
      90
      (some ("LAMP" ∷ []))
      sold_lamp
      heavier
      lamp_store
    ≡ ok weighed
unfolding apply_physical_update apply_physical_values gate_physical write_physical put_fields
    link_for links_by_sku get_attribute str_eq
weighed_lem = refl

weighed_written : weighed.0 ≡ PhysicalOutcome.applied
unfolding apply_physical_update apply_physical_values gate_physical write_physical put_fields
    link_for links_by_sku get_attribute str_eq
weighed_written = refl

covered : (rp : RealProduct) → looks_up (some ("LAMP" ∷ [])) "LAMP" ≡ true
unfolding str_eq
covered rp = refl

its_sku :
    (rp : RealProduct) → linked_rp sold_lamp lamp_store.real_products ≡ some rp → "LAMP" ≡ rp.sku
its_sku rp h = ap (λ (x : RealProduct). x.sku) (some_inj h)

apply_physical_update_lem_example :
    (Untouched a_catalogue texts (λ _. false) no_faults 90 sold_lamp lamp_store weighed
      × Excused a_catalogue texts
          (λ _. false)
          no_faults
          90
          (some ("LAMP" ∷ []))
          sold_lamp
          heavier
          lamp_store
          weighed.0)
    ⊎ ((d : Attributes) × (rp : RealProduct) × (heavier.physical ≡ some d)
        × (linked_rp sold_lamp lamp_store.real_products ≡ some rp)
        × (is_pushed_status sold_lamp.status ≡ true)
        × (is_push_blocked acme ≡ false)
        × (((weighed.0 ≡ PhysicalOutcome.applied)
              × HasPrimary a_catalogue texts
                  (λ _. false)
                  no_faults
                  90
                  (some ("LAMP" ∷ []))
                  sold_lamp
                  heavier
                  lamp_store
                  rp.sku)
            ⊎ ((weighed.0 ≡ overwritten)
                × (¬ HasPrimary a_catalogue texts
                    (λ _. false)
                    no_faults
                    90
                    (some ("LAMP" ∷ []))
                    sold_lamp
                    heavier
                    lamp_store
                    rp.sku)
                × (acme.allow_physical_writes_from_non_primary ≡ true)))
        × Written a_catalogue texts
            (λ _. false)
            no_faults
            90
            sold_lamp
            rp
            (expected_row a_catalogue texts (λ _. false) no_faults 90 d rp)
            lamp_store
            weighed)
apply_physical_update_lem_example =
    apply_physical_update_lem a_catalogue texts (λ _. false) no_faults 90 (some ("LAMP" ∷ []))
      sold_lamp heavier lamp_store two_links-IsConsistent
      (λ rp h. subst (λ x. looks_up (some ("LAMP" ∷ [])) x ≡ true) (its_sku rp h) (covered rp))
      weighed_lem
