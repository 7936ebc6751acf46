-- ===== src/Import/Stale.antt =====
-- The delisting pass of a full sync.
use mathlib.Core.Path.{subst}
use entirius_django_atlas.Base.{
  ℕ, ◌*◌, ◌≤◌, ◌<◌, ◌≡◌, refl, sym, ap, ◌∙◌, ◌↔◌, ◌⊎◌, inl, inr, Bool, Bool-cases, true≢false,
  ==_iff, Pairwise, true, false, not, ◌&&◌, ◌==◌, leb, ltb, none, some, List, [], ◌∷◌, ◌++◌, length,
  count_rows, where_rows, update_rows, map, arith, if◌then◌else◌, length-where_rows,
}
use entirius_django_atlas.Model.{Source, SourceProduct, IntegrationEvent}
use entirius_django_atlas.Model.Enums.{
  ProductStatus, new, queued, approved, rejected, pushed_pending_images, pushed, is_pushed_status,
  EventType, EventSeverity,
}

-- `_NON_PUSHED_DELIST_TARGETS`
abbrev pub is_delist_target : ProductStatus → Bool
is_delist_target new = true
is_delist_target queued = true
is_delist_target approved = true
is_delist_target _ = false

abbrev pub of_source : Source → SourceProduct → Bool
of_source source sp = sp.source.pk == source.pk

-- `filter(source=source).exclude(last_synced_at__gte=started_at)`
abbrev pub is_stale : Source → ℕ → SourceProduct → Bool
is_stale source started_at sp = of_source source sp && not (leb started_at sp.last_synced_at)

abbrev pub is_stale_non_pushed : Source → ℕ → SourceProduct → Bool
is_stale_non_pushed source started_at sp =
    is_stale source started_at sp && is_delist_target sp.status

abbrev pub is_stale_pushed : Source → ℕ → SourceProduct → Bool
is_stale_pushed source started_at sp = is_stale source started_at sp && is_pushed_status sp.status

abbrev pub delisted : ℕ → SourceProduct → SourceProduct
delisted now sp = record sp { status = rejected; modified_at = now }

abbrev pub delisting_event : Source → SourceProduct → IntegrationEvent
delisting_event source sp = record {
  event_type = EventType.pushed_product_delisted;
  severity = EventSeverity.warning;
  source_idx = some source.idx;
  source_product = some sp.pk;
}

abbrev pub mass_delisting_event : Source → IntegrationEvent
mass_delisting_event source = record {
  event_type = EventType.mass_delisting;
  severity = EventSeverity.warning;
  source_idx = some source.idx;
  source_product = none;
}

pub record Delisting : Type 0 where
  pub products : List SourceProduct
  pub events : List IntegrationEvent
  pub delisted_count : ℕ
  pub pushed_delisted_count : ℕ
  pub mass_delisting_triggered : Bool

abbrev pub is_mass : ℕ → ℕ → Bool
is_mass pushed_total pushed_delisted = ltb 0 pushed_total && ltb pushed_total (pushed_delisted * 2)

-- The delisting pass of `process_full_sync`. `events` are those that it records.
unfoldable pub delisting_pass : Source → ℕ → ℕ → List SourceProduct → Delisting
delisting_pass source started_at now products =
    let pushed_total =
      count_rows (λ sp. of_source source sp && is_pushed_status sp.status) products in
    let after = update_rows (is_stale_non_pushed source started_at) (delisted now) products in
    let gone = where_rows (is_stale_pushed source started_at) after in
    let mass = is_mass pushed_total (length gone) in
    record {
      products = after;
      events =
          map (delisting_event source) gone
          ++ (if mass then mass_delisting_event source ∷ [] else []);
      delisted_count = count_rows (is_stale_non_pushed source started_at) products;
      pushed_delisted_count = length gone;
      mass_delisting_triggered = mass;
    }

-- No status is both pushed and a target of the pass.
disjoint : (status : ProductStatus) → (is_delist_target status && is_pushed_status status) ≡ false
disjoint new = refl
disjoint queued = refl
disjoint approved = refl
disjoint rejected = refl
disjoint pushed_pending_images = refl
disjoint pushed = refl

is_open_iff :
    (status : ProductStatus)
    → (is_delist_target status ≡ true) ↔ ((status ≡ new) ⊎ (status ≡ queued) ⊎ (status ≡ approved))
is_open_iff status = ground arith

is_published_iff :
    (status : ProductStatus)
    → (is_pushed_status status ≡ true) ↔ ((status ≡ pushed) ⊎ (status ≡ pushed_pending_images))
is_published_iff status = ground arith

module _ (source : Source) (started_at now : ℕ) where
  none_left :
      (products : List SourceProduct)
      → count_rows
          (is_stale_non_pushed source started_at)
          (update_rows (is_stale_non_pushed source started_at) (delisted now) products)
        ≡ 0
  none_left [] = refl
  none_left (sp ∷ rest) = ground (arith, none_left rest)

  same_pushed :
      (products : List SourceProduct)
      → where_rows
          (is_stale_pushed source started_at)
          (update_rows (is_stale_non_pushed source started_at) (delisted now) products)
        ≡ where_rows (is_stale_pushed source started_at) products
  same_pushed [] = refl
  same_pushed (sp ∷ rest) = ground (arith, same_pushed rest, disjoint sp.status)

  stale_among :
      (products : List SourceProduct)
      → count_rows (is_stale_pushed source started_at) products
        ≤ count_rows (λ sp. of_source source sp && is_pushed_status sp.status) products
  stale_among [] = omega arith
  stale_among (sp ∷ rest) = ground (arith, stale_among rest)

  is_mass_iff : (total gone : ℕ) → gone ≤ total → (is_mass total gone ≡ true) ↔ (total < gone * 2)
  is_mass_iff total gone h = ground arith

  -- A row of the source that the sync did not see.
  abbrev pub IsUnseen : SourceProduct → Type 0
  IsUnseen sp = (sp.source.pk ≡ source.pk) × (sp.last_synced_at < started_at)

  abbrev pub IsOpen : SourceProduct → Type 0
  IsOpen sp = (sp.status ≡ new) ⊎ (sp.status ≡ queued) ⊎ (sp.status ≡ approved)

  abbrev pub IsPublished : SourceProduct → Type 0
  IsPublished sp = (sp.status ≡ pushed) ⊎ (sp.status ≡ pushed_pending_images)

  stale_non_pushed_iff :
      (sp : SourceProduct)
      → (is_stale_non_pushed source started_at sp ≡ true) ↔ (IsUnseen sp × IsOpen sp)
  stale_non_pushed_iff sp = ground (arith, ==_iff sp.source.pk source.pk, is_open_iff sp.status)

  stale_pushed_iff :
      (sp : SourceProduct)
      → (is_stale_pushed source started_at sp ≡ true) ↔ (IsUnseen sp × IsPublished sp)
  stale_pushed_iff sp = ground (arith, ==_iff sp.source.pk source.pk, is_published_iff sp.status)

  -- The row of a product after the pass.
  abbrev pub IsDelisted : SourceProduct → SourceProduct → Type 0
  IsDelisted sp sp' =
      ((IsUnseen sp × IsOpen sp) × (sp' ≡ record sp { status = rejected; modified_at = now }))
      ⊎ ((¬ (IsUnseen sp × IsOpen sp)) × (sp' ≡ sp))

  -- The event of a pushed row that the sync did not see.
  abbrev pub Reports : SourceProduct → IntegrationEvent → Type 0
  Reports sp e =
      (IsUnseen sp × IsPublished sp)
      × (e.event_type ≡ EventType.pushed_product_delisted)
      × (e.source_product ≡ some sp.pk)

  rows-IsDelisted :
      (products : List SourceProduct)
      → Pairwise IsDelisted products
          (update_rows (is_stale_non_pushed source started_at) (delisted now) products)
  rows-IsDelisted [] = tt
  rows-IsDelisted (sp ∷ rest) = elim (Bool-cases (is_stale_non_pushed source started_at sp)) [
    | inl e ↦ rw e (inl ((stale_non_pushed_iff sp).0 e, refl), rows-IsDelisted rest)
    | inr e ↦ rw e (
      inr ((λ h. true≢false (sym ((stale_non_pushed_iff sp).1 h) ∙ e)), refl),
      rows-IsDelisted rest,
    )
  ]

  gone-Reports :
      (products : List SourceProduct)
      → Pairwise Reports
          (where_rows (is_stale_pushed source started_at) products)
          (map (delisting_event source) (where_rows (is_stale_pushed source started_at) products))
  gone-Reports [] = tt
  gone-Reports (sp ∷ rest) = elim (Bool-cases (is_stale_pushed source started_at sp)) [
    | inl e ↦ rw e (((stale_pushed_iff sp).0 e, refl, refl), gone-Reports rest)
    | inr e ↦ rw e (gone-Reports rest)
  ]

  -- The delisting pass changes a row only by rejecting it, and exactly the rows of the source that
  -- the sync did not see and that are new, queued or approved: their number is the count that it
  -- returns, and none of them is left. Its events are one for each pushed row that the sync did not
  -- see, and a mass event exactly when these are over half of the source's pushed rows.
  pub delisting_pass_lem :
      (products : List SourceProduct)
      → let done = delisting_pass source started_at now products in
        let gone = where_rows (is_stale_pushed source started_at) products in
        let total = count_rows (λ sp. of_source source sp && is_pushed_status sp.status) products in
        Pairwise IsDelisted products done.products
        × (done.delisted_count ≡ count_rows (is_stale_non_pushed source started_at) products)
        × ((sp : SourceProduct)
            → (is_stale_non_pushed source started_at sp ≡ true) ↔ (IsUnseen sp × IsOpen sp))
        × (count_rows (is_stale_non_pushed source started_at) done.products ≡ 0)
        × ((sp : SourceProduct)
            → (is_stale_pushed source started_at sp ≡ true) ↔ (IsUnseen sp × IsPublished sp))
        × (done.pushed_delisted_count ≡ length gone)
        × ((done.mass_delisting_triggered ≡ true) ↔ (total < length gone * 2))
        × ((events : List IntegrationEvent) × (done.events
              ≡ events
                ++ (if done.mass_delisting_triggered then mass_delisting_event source ∷ [] else []))
            × Pairwise Reports gone events)
  unfolding delisting_pass
  delisting_pass_lem products =
      let pushed_rows = count_rows (λ sp. of_source source sp && is_pushed_status sp.status) in
      let gone = where_rows (is_stale_pushed source started_at) products in
      let same = same_pushed products in
      (
        rows-IsDelisted products,
        refl,
        stale_non_pushed_iff,
        none_left products,
        stale_pushed_iff,
        ap length same,
        subst
            (λ g.
              (is_mass (pushed_rows products) (length g) ≡ true)
              ↔ (pushed_rows products < length gone * 2))
            (sym same)
            (is_mass_iff _ _ (
              rw (length-where_rows (is_stale_pushed source started_at) products)
                (stale_among products))),
        (
          map (delisting_event source) gone,
          ap
              (λ g.
                map (delisting_event source) g
                ++ (if is_mass (pushed_rows products) (
                      length (
                        where_rows (is_stale_pushed source started_at) (
                          update_rows (is_stale_non_pushed source started_at) (delisted now)
                            products)))
                    then mass_delisting_event source ∷ []
                    else []))
              same,
          gone-Reports products,
        ),
      )
