-- ===== src/Witnesses/Imports.antt =====
-- The theorems on reviews, mapping profiles, imports and fetches at small inputs.
use entirius_django_atlas.Base.{
  ℕ, ◌+◌, ◌*◌, ◌≤◌, ◌<◌, ◌≡◌, ◌↔◌, ◌⊎◌, refl, Bool, true, false, ◌&&◌, leb, Option, none, some,
  String, List, [], ◌∷◌, arith, str_eq, length, count_rows, where_rows, update_rows, Pairwise, ◌++◌,
  if◌then◌else◌, All,
}
use entirius_django_atlas.Base.Int.{pos, ◌-ℤ◌, ◌≤ℤ◌}
use entirius_django_atlas.Modifier.{apply_qty_modifiers, apply_qty_modifiers_lem}
use entirius_django_atlas.Base.Outcome.{Result, ok, err}
use entirius_django_atlas.Model.{Source, SourceProduct, IntegrationEvent}
use entirius_django_atlas.Model.Enums.{approved, is_pushed_status}
use entirius_django_atlas.Model.Values.{Attributes}
use entirius_django_atlas.Review.{
  mem_id, bulk_valid, bulk_change, bulk_apply, transition_status, transition_allowed, moved_to,
  push_not_allowed, invalid_transition,
}
use entirius_django_atlas.Review.Bulk.{HasKeys, bulk_apply_lem}
use entirius_django_atlas.Review.Workflow.{
  ReviewOp, approve_one, queue_one, requeue_many, approve_many, skip_one, run_reviews, IsReviewable,
  run_reviews-IsReviewable,
}
use entirius_django_atlas.Mapping.{SourceMappingProfile, MappingState, ProfilePatch}
use entirius_django_atlas.Mapping.Disjoint.{IsDisjoint}
use entirius_django_atlas.Mapping.Profiles.{
  MappingOp, create, update, delete, run_mappings, run_mappings-IsDisjoint,
}
use entirius_django_atlas.Import.{RawProduct}
use entirius_django_atlas.Import.Stale.{
  delisting_pass, is_stale_pushed, is_stale_non_pushed, of_source, delisting_pass_lem, IsDelisted,
  IsUnseen, IsOpen, IsPublished, Reports, mass_delisting_event,
}
use entirius_django_atlas.UrlGuard.{ParsedUrl, Response, safe_get}
use entirius_django_atlas.UrlGuard.Fetch.{IsSafe, WithinCap, safe_get-Guarded}
use entirius_django_atlas.Witnesses.{acme, three_products}

three_keys : HasKeys three_products
three_keys = (refl, (refl, (refl, tt)))

abbrev some_reviews : List ReviewOp
some_reviews =
    approve_one 200 (some 9) 3
    ∷ queue_one 201 none 1
    ∷ approve_many 202 (some 9) (1 ∷ 2 ∷ 3 ∷ [])
    ∷ requeue_many 203 (3 ∷ [])
    ∷ skip_one 204 3
    ∷ []

run_reviews-IsReviewable_example : IsReviewable (run_reviews some_reviews three_products)
run_reviews-IsReviewable_example =
    run_reviews-IsReviewable some_reviews three_products (three_keys, (refl, (refl, (refl, tt))))

bulk_apply_lem_example :
    let done = bulk_apply 200 (some 9) approved (1 ∷ 3 ∷ []) three_products in
    (done.1
      ≡ update_rows
          (λ sp. mem_id sp.pk (1 ∷ 3 ∷ []) && bulk_valid approved sp)
          (bulk_change 200 (some 9) approved)
          three_products)
    × (done.0.success + done.0.invalid_transition_count
        ≡ count_rows (λ sp. mem_id sp.pk (1 ∷ 3 ∷ [])) three_products)
    × ((sp : SourceProduct)
        → transition_status 200 (some 9) approved sp ≡ (
            if bulk_valid approved sp
            then ok (moved_to 200 (some 9) approved sp)
            else if transition_allowed sp.status approved
            then err push_not_allowed
            else err invalid_transition))
bulk_apply_lem_example = bulk_apply_lem 200 (some 9) approved (1 ∷ 3 ∷ []) three_products three_keys

abbrev any_text : String → Bool
any_text _ = true

abbrev a_profile : String → List String → SourceMappingProfile
a_profile idx channels = record {
  source_idx = "acme";
  idx = idx;
  name = idx;
  target_channel_idxs = channels;
  import_language = none;
  feature_set_idx = none;
  is_active = true;
}

abbrev take_all : ProfilePatch
take_all = record {
  name = none;
  target_channel_idxs = some ("shop" ∷ "outlet" ∷ []);
  import_language = none;
  feature_set_idx = none;
  is_active = none;
}

abbrev one_profile : MappingState
one_profile = record { profiles = a_profile "main" ("shop" ∷ []) ∷ []; removals = [] }

abbrev some_mappings : List MappingOp
some_mappings =
    create (a_profile "second" ("outlet" ∷ []))
    ∷ update "acme" "main" take_all
    ∷ delete "acme" "second"
    ∷ update "acme" "main" take_all
    ∷ []

abbrev any_language : ℕ → Bool
any_language _ = true

run_mappings-IsDisjoint_example :
    IsDisjoint
      (run_mappings any_text any_language three_products any_text some_mappings
        one_profile).profiles
run_mappings-IsDisjoint_example =
    run_mappings-IsDisjoint any_text any_language three_products any_text some_mappings one_profile
      (tt, tt)

abbrev no_hash : Attributes → String
no_hash _ = "h1"

abbrev raw_lamp : RawProduct
raw_lamp = record {
  external_id = "A2";
  name = "Lamp";
  cost = some (pos 950_000);
  currency = some "EUR";
  stock = some (pos 3);
  ean = some "590";
  url = none;
  images = [];
  attributes = [];
}

-- Fails twice, then counts its items.
abbrev third_time : ℕ → ℕ → Result ℕ ℕ × ℕ
third_time n s = if leb 3 n then (ok 5, s + 5) else (err 1, s + 1)

abbrev always : ℕ → ℕ → Bool
always _ _ = true

abbrev items : List ℕ
items = 1 ∷ 2 ∷ 3 ∷ []

delisting_pass_lem_example :
    let done = delisting_pass acme 200 250 three_products in
    let gone = where_rows (is_stale_pushed acme 200) three_products in
    let total = count_rows (λ sp. of_source acme sp && is_pushed_status sp.status) three_products in
    Pairwise (IsDelisted acme 200 250) three_products done.products
    × (done.delisted_count ≡ count_rows (is_stale_non_pushed acme 200) three_products)
    × ((sp : SourceProduct)
        → (is_stale_non_pushed acme 200 sp ≡ true)
          ↔ (IsUnseen acme 200 250 sp × IsOpen acme 200 250 sp))
    × (count_rows (is_stale_non_pushed acme 200) done.products ≡ 0)
    × ((sp : SourceProduct)
        → (is_stale_pushed acme 200 sp ≡ true)
          ↔ (IsUnseen acme 200 250 sp × IsPublished acme 200 250 sp))
    × (done.pushed_delisted_count ≡ length gone)
    × ((done.mass_delisting_triggered ≡ true) ↔ (total < length gone * 2))
    × ((events : List IntegrationEvent) × (done.events
          ≡ events
            ++ (if done.mass_delisting_triggered then mass_delisting_event acme ∷ [] else []))
        × Pairwise (Reports acme 200 250) gone events)
delisting_pass_lem_example = delisting_pass_lem acme 200 250 three_products

abbrev parse_all : String → ParsedUrl
parse_all url = record { scheme = "https"; hostname = some url }

abbrev resolve_all : String → Option (List String)
resolve_all host = some (host ∷ [])

abbrev internal_host : String → Option Bool
internal_host ip = some (str_eq ip "intranet")

-- Everything redirects to the intranet.
abbrev redirecting : String → Option Response
redirecting url =
    some (record { status_code = 302; location = some "intranet"; chunks = (1 ∷ 2 ∷ []) ∷ [] })

abbrev no_error : ℕ → Bool
no_error _ = false

abbrev join_urls : String → String → String
join_urls base location = location

safe_get-Guarded_example :
    let out =
      safe_get parse_all resolve_all internal_host true redirecting no_error join_urls 10 "feed" in
    All (IsSafe parse_all resolve_all internal_host true) out.1
    × (length out.1 ≤ 6)
    × WithinCap 10 out.0
safe_get-Guarded_example =
    safe_get-Guarded parse_all resolve_all internal_host true no_error join_urls redirecting 10
      "feed"

abbrev careful : Source
careful = record acme { qty_subtract = 2; qty_minimum = 1 }

apply_qty_modifiers_lem_example :
    let qty = apply_qty_modifiers (some (pos 5)) careful in
    let rest = pos 5 -ℤ pos 2 in
    (pos 1 ≤ℤ qty)
    × (rest ≤ℤ qty)
    × ((qty ≡ pos 1) ⊎ (qty ≡ rest))
    × (qty ≤ℤ apply_qty_modifiers (some (pos 9)) careful)
apply_qty_modifiers_lem_example =
    apply_qty_modifiers_lem careful (some (pos 5)) (some (pos 9)) (omega arith)
