-- ===== src/Witnesses/Linking.antt =====
-- The theorems on links and on primary sources at the small catalogue.
use entirius_django_atlas.Base.{
  ℕ, ◌≡◌, ◌≢◌, ◌⊎◌, refl, Bool, true, false, none, some, String, List, [], ◌∷◌, ◌++◌, arith, str_eq,
  map, length, exists_row, first_row, if◌then◌else◌,
}
use entirius_django_atlas.Base.Int.{pos, ◌-ℤ◌}
use entirius_django_atlas.Base.Outcome.{ok}
use entirius_django_atlas.Model.{SourceProductLink, RealProduct}
use entirius_django_atlas.Model.Enums.{PrimarySkipReason}
use entirius_django_atlas.KindGuard.{is_push_blocked}
use entirius_django_atlas.Links.{
  LinkTable, set_primary, get_primary_source_idx, upsert_for_push, of_pair,
}
use entirius_django_atlas.Links.Consistency.{IsConsistent}
use entirius_django_atlas.Links.Safety.{create, make_primary, delete}
use entirius_django_atlas.Links.Flags.{set_primary_lem, upsert_for_push_flags, operator_flags}
use entirius_django_atlas.Store.{Store, Faults}
use entirius_django_atlas.Sku.{SkuText}
use entirius_django_atlas.Attach.{not_installed}
use entirius_django_atlas.Attach.Service.{
  ServiceCall, on_links, link_product, unlink_product, run_calls, run_calls-IsConsistent,
}
use entirius_django_atlas.Primary.{
  PrimaryCandidate, evaluate_primary_source, active_links, summarise_link, resolve_audit_sp,
  cost_improvement_pct, sort_candidates, candidates_of,
}
use entirius_django_atlas.Switching.{evaluate_and_apply, force_set_primary}
use entirius_django_atlas.Primary.Savings.{IsCheaper, switch_saves}
use entirius_django_atlas.Switching.Tables.{evaluate_and_apply_lem}
use entirius_django_atlas.Switching.Override.{force_set_primary_lem, force_set_primary_sticks}
use entirius_django_atlas.Switching.Stable.{evaluate_and_apply_settles}
use entirius_django_atlas.Switching.{maybe_trigger_emergency_on_stock_drop}
use entirius_django_atlas.Switching.Batch.{
  evaluate_all, eligible_real_product_skus, outcomes, total, returns, IsSummary, evaluate_all_lem,
}
use entirius_django_atlas.Switching.Emergency.{Occasion, Evaluated, maybe_trigger_emergency_lem}
use entirius_django_atlas.Witnesses.{
  value_or, acme, bolt, watch, acme_link, two_links, two_links-IsConsistent, acme_lamp, a_store,
  no_faults,
}

abbrev any_sku : String → Bool
any_sku _ = true

abbrev some_calls : List ServiceCall
some_calls =
    on_links (create "LAMP" "watch" "W1" (pos 1) true "")
    ∷ on_links (make_primary 2)
    ∷ link_product no_faults not_installed 90 1 "LAMP"
    ∷ unlink_product no_faults 95 3 1
    ∷ on_links (delete 1)
    ∷ []

abbrev plain_skus : SkuText
plain_skus = record { digest = λ s. s; split = λ s. s ∷ []; is_digit = λ s. false }

run_calls-IsConsistent_example :
    IsConsistent
      (run_calls any_sku (acme ∷ bolt ∷ watch ∷ []) str_eq plain_skus some_calls a_store).links
run_calls-IsConsistent_example =
    run_calls-IsConsistent any_sku (acme ∷ bolt ∷ watch ∷ []) str_eq plain_skus some_calls a_store
      two_links-IsConsistent

lamp_not_vase : str_eq "LAMP" "VASE" ≡ false
unfolding str_eq
lamp_not_vase = refl

abbrev set_bolt : SourceProductLink × LinkTable
unfolding set_primary
set_bolt = value_or (acme_link, two_links) (set_primary 2 two_links)

set_bolt_lem : set_primary 2 two_links ≡ ok (set_bolt.0, set_bolt.1)
unfolding set_primary
set_bolt_lem = refl

set_primary_lem_example :
    (is_push_blocked set_bolt.0.source ≡ false)
    × (get_primary_source_idx set_bolt.0.real_product_sku set_bolt.1 ≡ some set_bolt.0.source.idx)
    × (get_primary_source_idx "VASE" set_bolt.1 ≡ get_primary_source_idx "VASE" two_links)
unfolding set_bolt
set_primary_lem_example =
    set_primary_lem 2 two_links two_links-IsConsistent set_bolt_lem "VASE" lamp_not_vase

upsert_for_push_flags_example :
    (added : List SourceProductLink) × (map operator_flags
        (upsert_for_push "LAMP" watch none true two_links).1.rows
      ≡ map operator_flags two_links.rows ++ map operator_flags added)
    × (length added ≡ (if exists_row (of_pair "LAMP" watch.pk) two_links.rows then 0 else 1))
upsert_for_push_flags_example = upsert_for_push_flags "LAMP" watch none true two_links

lamp_switches : (evaluate_primary_source 500 false "LAMP" a_store).should_switch ≡ true
unfolding evaluate_primary_source str_eq sort_candidates candidates_of summarise_link
    resolve_audit_sp cost_improvement_pct ◌-ℤ◌
lamp_switches = refl

abbrev acme_summary : PrimaryCandidate
acme_summary = record {
  link = acme_link;
  source_product = acme_lamp;
  cost = pos 1_000_000;
  stock = pos 5;
}

acme_held : first_row (λ l. l.is_primary) (active_links "LAMP" a_store.links) ≡ some acme_link
unfolding str_eq
acme_held = refl

acme_summed : summarise_link a_store.products acme_link ≡ some acme_summary
unfolding summarise_link resolve_audit_sp str_eq
acme_summed = refl

switch_saves_example :
    (w : PrimaryCandidate) × ((evaluate_primary_source 500 false "LAMP" a_store).new_primary
      ≡ some w.link)
    × (summarise_link a_store.products w.link ≡ some w)
    × IsCheaper 1_000_000 50_000 w.cost
switch_saves_example =
    switch_saves 500 "LAMP" a_store acme_link acme_summary 1_000_000 lamp_switches acme_held
      acme_summed refl (omega arith)

abbrev all_faults : Faults
all_faults = record { event_fails = true; audit_fails = true; signal_fails = true }

evaluate_and_apply_lem_example :
    let after = (evaluate_and_apply no_faults 500 false "LAMP" a_store).1.links in
    let r = evaluate_primary_source 500 false "LAMP" a_store in
    IsConsistent after
    × (((r.should_switch ≡ false) × (after ≡ a_store.links))
        ⊎ ((r.should_switch ≡ true)
            × ((link : SourceProductLink) × (r.new_primary ≡ some link)
                × (get_primary_source_idx "LAMP" after ≡ some link.source.idx))))
    × (get_primary_source_idx "VASE" after ≡ get_primary_source_idx "VASE" a_store.links)
    × (after ≡ (evaluate_and_apply all_faults 500 false "LAMP" a_store).1.links)
evaluate_and_apply_lem_example =
    evaluate_and_apply_lem no_faults 500 false "LAMP" a_store "VASE" all_faults lamp_not_vase
      two_links-IsConsistent

evaluate_and_apply_settles_example :
    (evaluate_primary_source 600 true "LAMP"
      (record (evaluate_and_apply no_faults 500 false "LAMP" a_store).1 {
        products = a_store.products;
      })).skip_reason
    ≡ PrimarySkipReason.no_change
evaluate_and_apply_settles_example =
    evaluate_and_apply_settles no_faults 500 false "LAMP" a_store two_links-IsConsistent
      lamp_switches 600 true

abbrev ten_letters : String → ℕ
ten_letters _ = 10

abbrev forced_bolt : SourceProductLink × Store
unfolding force_set_primary
forced_bolt =
    value_or (acme_link, a_store)
      (force_set_primary ten_letters no_faults 500 "LAMP" "bolt" "price deal" a_store)

forced_bolt_lem :
    force_set_primary ten_letters no_faults 500 "LAMP" "bolt" "price deal" a_store
    ≡ ok (forced_bolt.0, forced_bolt.1)
unfolding force_set_primary str_eq
forced_bolt_lem = refl

force_set_primary_lem_example :
    IsConsistent forced_bolt.1.links
    × (is_push_blocked forced_bolt.0.source ≡ false)
    × (get_primary_source_idx "LAMP" forced_bolt.1.links ≡ some "bolt")
    × (exists_row (λ r. r.manual_override) (active_links "LAMP" forced_bolt.1.links)
        ≡ forced_bolt.0.is_active)
    × (forced_bolt.0.real_product_sku ≡ "LAMP")
    × (forced_bolt.0.source.idx ≡ "bolt")
force_set_primary_lem_example =
    force_set_primary_lem ten_letters no_faults 500 "LAMP" "bolt" "price deal" a_store
      two_links-IsConsistent forced_bolt_lem

force_set_primary_sticks_example :
    let r = evaluate_primary_source 900 true "LAMP" (record forced_bolt.1 { products = [] }) in
    ((forced_bolt.0.is_active ≡ true) × (r.should_switch ≡ false))
    ⊎ ((forced_bolt.0.is_active ≡ false) × (r.skip_reason ≢ PrimarySkipReason.manual_override))
force_set_primary_sticks_example =
    force_set_primary_sticks ten_letters no_faults 500 "LAMP" "bolt" "price deal" a_store
      two_links-IsConsistent forced_bolt_lem 900 true []

evaluate_all_lem_example :
    let out = evaluate_all (λ _. returns) no_faults 500 false a_store in
    let skus = eligible_real_product_skus a_store.links in
    IsSummary out.0 (outcomes (λ _. returns) no_faults 500 false skus a_store)
    × (length (outcomes (λ _. returns) no_faults 500 false skus a_store) ≡ length skus)
    × (total out.0 ≡ length skus)
    × IsConsistent out.1.links
evaluate_all_lem_example =
    evaluate_all_lem (λ _. returns) no_faults 500 false a_store two_links-IsConsistent

abbrev with_lamp : Store
with_lamp = record a_store {
  real_products =
      record {
        pk = 1;
        sku = "LAMP";
        ean = some "590";
        weight = none;
        width = none;
        height = none;
        deep = none;
        kind_of_product = 1;
      }
      ∷ [];
}

maybe_trigger_emergency_lem_example :
    let out =
      maybe_trigger_emergency_on_stock_drop no_faults 500 acme_lamp
        (some (pos 5))
        (some (pos 0))
        with_lamp in
    (((rp : RealProduct)
        → ¬ Occasion no_faults 500 acme_lamp (some (pos 5)) (some (pos 0)) with_lamp rp)
      × (out ≡ (none, with_lamp)))
    ⊎ ((rp : RealProduct) × Occasion no_faults 500 acme_lamp
          (some (pos 5))
          (some (pos 0))
          with_lamp
          rp
        × Evaluated no_faults 500 acme_lamp (some (pos 5)) (some (pos 0)) with_lamp rp out)
maybe_trigger_emergency_lem_example =
    maybe_trigger_emergency_lem no_faults 500 acme_lamp (some (pos 5)) (some (pos 0)) with_lamp
      two_links-IsConsistent
