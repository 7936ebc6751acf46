-- ===== src/Import/Gate.antt =====
-- Who writes physical values of a delta item, and what such a write changes
-- (`_apply_physical_update_to_real_product` of services/import_service.py).
use mathlib.Core.Path.{subst}
use entirius_django_atlas.Base.{
  ◌++◌, ◌≢◌, is_some, ℕ, ◌≤◌, ◌==◌, if◌then◌else◌, first_row, exists_row, count_rows, str_eq,
  str_eq→eq, sym, Bool, true, false, not, ◌&&◌, Option, none, some, String, List, [], ◌∷◌, refl,
  ◌≡◌, ◌⊎◌, inl, inr, Bool-cases, Option-cases, update_rows, ap, ◌∙◌, arith, true≢false,
}
use entirius_django_atlas.Base.Int.{ℤ}
use entirius_django_atlas.Base.Outcome.{ok, ok_inj, raise_if-ok, or_raise-ok}
use entirius_django_atlas.Model.{SourceProduct, SourceProductLink, RealProduct}
use entirius_django_atlas.Model.Enums.{is_pushed_status}
use entirius_django_atlas.Model.Values.{Attributes, get_attribute}
use entirius_django_atlas.KindGuard.{is_push_blocked}
use entirius_django_atlas.Links.{of_pair}
use entirius_django_atlas.Links.Consistency.{IsConsistent}
use entirius_django_atlas.Store.{Store, Faults}
use entirius_django_atlas.Attach.{linked_rp}
use entirius_django_atlas.Merge.{has_rp_pk}
use entirius_django_atlas.Match.{PhysicalField, weight, width, height, deep}
use entirius_django_atlas.Transform.{
  Scalar, null, text, boolean, number, other, TextOps, to_decimal,
}
use entirius_django_atlas.Pim.{Catalogue}
use entirius_django_atlas.Pim.Lookup.{scalar_eq, scalar_of}
use entirius_django_atlas.Pim.Physical.{
  RpField, physical, ean, kind_of_product, get_rp, set_rp, column_scalar, text_scalar,
  stored_decimal, decimal_or_none, raw_of, coerced,
}
use entirius_django_atlas.Import.Physical.{
  PhysicalOutcome, noop, skipped_non_primary, applied, overwritten, PriceStockUpdate,
  updated_fields, link_for, links_by_sku, get_sku_link, has_name, is_primary_link, is_passed_over,
  stamped, write_outcome, put_field, put_fields, offered, write_physical, gate_physical,
  apply_physical_values, apply_physical_update,
}

abbrev pub is_write : PhysicalOutcome → Bool
is_write applied = true
is_write overwritten = true
is_write _ = false

passed_on :
    (sp : SourceProduct)
    → is_passed_over sp ≡ false
    → (is_pushed_status sp.status ≡ true) × (is_push_blocked sp.source ≡ false)
passed_on sp h = ground arith

write_is_write : (primary : Bool) → is_write (write_outcome primary) ≡ true
write_is_write true = refl
write_is_write false = refl

set_rp_pk :
    (pim : Catalogue) (f : RpField) (v : Scalar) (rp : RealProduct) → (set_rp pim f v rp).pk ≡ rp.pk
set_rp_pk pim (physical weight) v rp = refl
set_rp_pk pim (physical width) v rp = refl
set_rp_pk pim (physical height) v rp = refl
set_rp_pk pim (physical deep) v rp = refl
set_rp_pk pim ean v rp = refl
set_rp_pk pim kind_of_product v rp = refl

neither :
    (primary allowed : Bool)
    → (not primary && not allowed) ≡ true
    → (primary ≡ false) × (allowed ≡ false)
neither true allowed h = absurd (true≢false (sym h))
neither false true h = absurd (true≢false (sym h))
neither false false h = (refl, refl)

cons≢nil : {A : Type 0} {x : A} {xs : List A} → x ∷ xs ≢ []
cons≢nil h = cc

may_write :
    (primary allowed : Bool)
    → (not primary && not allowed) ≡ false
    → (primary ≡ true) ⊎ (allowed ≡ true)
may_write true allowed h = inl refl
may_write false true h = inr refl
may_write false false h = absurd (true≢false h)

-- What an item offers for a decimal column and for a text column; an item that is given no value, or
-- none that reads as a decimal, offers none.
abbrev pub new_decimal : TextOps → Attributes → String → Option Scalar
new_decimal texts d k = decimal_or_none (to_decimal texts (scalar_of (get_attribute k d)))

abbrev pub given_value : Scalar → Option Scalar
given_value null = none
given_value v = some v

abbrev pub new_text : Attributes → String → Option Scalar
new_text d k = given_value (scalar_of (get_attribute k d))

-- A column after: an equal value leaves it, another is stored.
abbrev pub decimal_after : Catalogue → Option Scalar → Option ℤ → Option ℤ
decimal_after pim none old = old
decimal_after pim (some v) old =
    if scalar_eq (column_scalar old) v then old else stored_decimal pim v

abbrev pub text_after : Catalogue → Option Scalar → Option String → Option String
text_after pim none old = old
text_after pim (some v) old = if scalar_eq (text_scalar old) v then old else some (pim.str_of v)

-- An active primary link of a SKU and a source.
abbrev pub is_live_primary : String → ℕ → SourceProductLink → Bool
is_live_primary sku source_pk l = of_pair sku source_pk l && l.is_active && l.is_primary

-- The SKUs that a batch looks up before its loop.
abbrev pub looks_up : Option (List String) → String → Bool
looks_up none sku = true
looks_up (some skus) sku = has_name skus sku

skip_entry :
    {A : Type 0} (b : Bool) (l : A) (o : Option A)
    → b ≡ false
    → elim o as (λ _. Option A) [ some m ↦ some m | none ↦ if b then some l else none ] ≡ o
skip_entry b l none h = rw h refl
skip_entry b l (some m) h = refl

module _ (sku : String) (source_pk : ℕ) where
  abbrev live_link : List SourceProductLink → Option SourceProductLink
  live_link = first_row (λ (l : SourceProductLink). of_pair sku source_pk l && l.is_active)

  no_live_link :
      (rows : List SourceProductLink)
      → count_rows (of_pair sku source_pk) rows ≡ 0
      → (live_link rows ≡ none) × (exists_row (is_live_primary sku source_pk) rows ≡ false)
  no_live_link [] z = (refl, refl)
  no_live_link (r ∷ rows) z = ground (arith, z, no_live_link rows)

  queried-primary :
      (rows : List SourceProductLink)
      → count_rows (of_pair sku source_pk) rows ≤ 1
      → is_primary_link (live_link rows) ≡ exists_row (is_live_primary sku source_pk) rows
  queried-primary [] c = refl
  queried-primary (r ∷ rows) c = elim (Bool-cases (of_pair sku source_pk r && r.is_active)) [
    | inl e ↦
        let z : count_rows (of_pair sku source_pk) rows ≡ 0 = ground (arith, c, e) in
        rw e (ground (arith, e, (no_live_link rows z).1))
    | inr e ↦ rw e (ground (arith, e, c, queried-primary rows))
  ]

  dict-link :
      (skus : List String) (rows : List SourceProductLink)
      → has_name skus sku ≡ true
      → count_rows (of_pair sku source_pk) rows ≤ 1
      → get_sku_link sku (links_by_sku source_pk skus rows) ≡ live_link rows
  unfolding links_by_sku
  dict-link skus [] m c = refl
  dict-link skus (r ∷ rows) m c =
      let rest : count_rows (of_pair sku source_pk) rows ≤ 1 = ground (arith, c) in
      let same = dict-link skus rows m rest in
      elim (Bool-cases (of_pair sku source_pk r)) [
        | inl e ↦
            let z : count_rows (of_pair sku source_pk) rows ≡ 0 = ground (arith, c, e) in
            let gone = (no_live_link rows z).0 in
            let here : str_eq r.real_product_sku sku ≡ true = ground (arith, e) in
            let named : has_name skus r.real_product_sku ≡ true =
              rw (str_eq→eq r.real_product_sku sku here) m in
            let own : (r.source.pk == source_pk) ≡ true = ground (arith, e) in
            elim (Bool-cases r.is_active) [
              | inl a ↦ rw (links_by_sku, own, named, a, here) (rw (same, gone, here) refl)
              | inr a ↦ rw (links_by_sku, own, named, a, here) same
            ]
        | inr e ↦
            elim (Bool-cases
              ((r.source.pk == source_pk) && has_name skus r.real_product_sku && r.is_active)) [
                | inr b ↦ rw (links_by_sku, b, e) same
                | inl b ↦
                    let other : str_eq r.real_product_sku sku ≡ false = ground (arith, e, b) in
                    rw (links_by_sku, b, e)
                      (skip_entry (str_eq r.real_product_sku sku) r
                          (get_sku_link sku (links_by_sku source_pk skus rows)) other
                        ∙ same)
              ]
      ]

link_for-primary :
    (skus : Option (List String)) (sp : SourceProduct) (sku : String) (s : Store)
    → count_rows (of_pair sku sp.source.pk) s.links.rows ≤ 1
    → looks_up skus sku ≡ true
    → is_primary_link (link_for skus sp sku s)
      ≡ exists_row (is_live_primary sku sp.source.pk) s.links.rows
unfolding link_for
link_for-primary none sp sku s c m = queried-primary sku sp.source.pk s.links.rows c
link_for-primary (some skus) sp sku s c m =
    ap is_primary_link (dict-link sku sp.source.pk skus s.links.rows m c)
    ∙ queried-primary sku sp.source.pk s.links.rows c

outcome_of :
    (primary live : Bool) (out : PhysicalOutcome) (allowed : Bool)
    → primary ≡ live
    → out ≡ write_outcome primary
    → (primary ≡ true) ⊎ (allowed ≡ true)
    → ((out ≡ applied) × (live ≡ true))
      ⊎ ((out ≡ overwritten) × (¬ (live ≡ true)) × (allowed ≡ true))
outcome_of true live out allowed same o g = inl (o, sym same)
outcome_of false live out allowed same o (inl g) = absurd (true≢false (sym g))
outcome_of false live out allowed same o (inr g) = inr (o, (λ h. true≢false (sym (same ∙ h))), g)

module _ (pim : Catalogue) (texts : TextOps) (rejects : RealProduct → Bool) (faults : Faults)
    (started_at : ℕ) where
  -- Nothing was written to the product or to a RealProduct.
  abbrev pub Untouched : SourceProduct → Store → PhysicalOutcome × SourceProduct × Store → Type 0
  Untouched sp s out =
      (is_write out.0 ≡ false) × (out.1 ≡ sp) × (out.2.real_products ≡ s.real_products)

  -- The row `rp` was saved with the values of the item, and the product was stamped.
  abbrev pub Written :
      SourceProduct
      → RealProduct
      → RealProduct
      → Store
      → PhysicalOutcome × SourceProduct × Store
      → Type 0
  Written sp rp saved s out =
      (out.1 ≡ stamped started_at sp)
      × (rejects saved ≡ false)
      × (out.2.real_products ≡ update_rows (has_rp_pk rp.pk) (λ _. saved) s.real_products)

  abbrev pub Writes :
      Bool
      → SourceProduct
      → RealProduct
      → RealProduct
      → Store
      → PhysicalOutcome × SourceProduct × Store
      → Type 0
  Writes primary sp rp saved s out =
      (Untouched sp s out × (out.0 ≡ noop) × (saved ≡ rp))
      ⊎ ((out.0 ≡ write_outcome primary) × Written sp rp saved s out)

  write_physical-Writes :
      (primary : Bool) (sp : SourceProduct) (changed : List String) (rp saved : RealProduct)
      (s : Store) {out : PhysicalOutcome × SourceProduct × Store}
      → saved.pk ≡ rp.pk
      → (changed ≡ [] → saved ≡ rp)
      → write_physical pim texts rejects faults started_at primary sp (changed, saved) s ≡ ok out
      → Writes primary sp rp saved s out
  unfolding write_physical
  write_physical-Writes primary sp [] rp saved s same quiet h =
      subst (λ out. Writes primary sp rp saved s out) (ok_inj h)
        (inl ((refl, refl, refl), refl, quiet refl))
  write_physical-Writes primary sp (k ∷ ks) rp saved s same quiet h =
      let (kept, h') = raise_if-ok (rejects saved) _ h in
      let (_, h'') = raise_if-ok faults.event_fails _ h' in
      subst (λ out. Writes primary sp rp saved s out) (ok_inj h'')
        (inr (
          refl,
          (refl, kept, ap (λ k. update_rows (has_rp_pk k) (λ _. saved) s.real_products) same),
        ))

  put_field_pk :
      (kf : String × RpField) (v : Option Scalar) (rp : RealProduct)
      → (put_field pim texts rejects kf v rp).1.pk ≡ rp.pk
  put_field_pk (k, f) none rp = refl
  put_field_pk (k, f) (some v) rp = elim (Bool-cases (scalar_eq (get_rp f rp) v)) [
    | inl e ↦ rw (e) refl
    | inr e ↦ rw (e) (set_rp_pk pim f v rp)
  ]

  put_fields_pk :
      (kfs : List (String × RpField)) (d : Attributes) (rp : RealProduct)
      → (put_fields pim texts rejects kfs d rp).1.pk ≡ rp.pk
  unfolding put_fields
  put_fields_pk [] d rp = refl
  put_fields_pk (kf ∷ kfs) d rp =
      put_fields_pk kfs d (put_field pim texts rejects kf (offered pim texts rejects d kf) rp).1
      ∙ put_field_pk kf (offered pim texts rejects d kf) rp

  append_nil_inv : {A : Type 0} (xs ys : List A) → xs ++ ys ≡ [] → (xs ≡ []) × (ys ≡ [])
  append_nil_inv [] ys h = (refl, h)
  append_nil_inv (x ∷ xs) ys h = cc

  put_field_same :
      (kf : String × RpField) (v : Option Scalar) (rp : RealProduct)
      → (put_field pim texts rejects kf v rp).0 ≡ []
      → (put_field pim texts rejects kf v rp).1 ≡ rp
  put_field_same (k, f) none rp h = refl
  put_field_same (k, f) (some v) rp h = elim (Bool-cases (scalar_eq (get_rp f rp) v)) [
    | inl e ↦ rw (e) refl
    | inr e ↦ absurd (cons≢nil (rw (e) at h))
  ]

  put_fields_same :
      (kfs : List (String × RpField)) (d : Attributes) (rp : RealProduct)
      → (put_fields pim texts rejects kfs d rp).0 ≡ []
      → (put_fields pim texts rejects kfs d rp).1 ≡ rp
  unfolding put_fields
  put_fields_same [] d rp h = refl
  put_fields_same (kf ∷ kfs) d rp h =
      let first = put_field pim texts rejects kf (offered pim texts rejects d kf) rp in
      let (a, b) = append_nil_inv first.0 (put_fields pim texts rejects kfs d first.1).0 h in
      put_fields_same kfs d first.1 b ∙ put_field_same kf (offered pim texts rejects d kf) rp a

  -- The row that a write saves.
  abbrev pub saved_row : Attributes → RealProduct → RealProduct
  saved_row d rp = (put_fields pim texts rejects updated_fields d rp).1

  abbrev Quiet : Bool → SourceProduct → Attributes → RealProduct → PhysicalOutcome → Type 0
  Quiet primary sp d rp outcome =
      ((outcome ≡ skipped_non_primary)
        × (primary ≡ false)
        × (sp.source.allow_physical_writes_from_non_primary ≡ false))
      ⊎ ((outcome ≡ noop) × (saved_row d rp ≡ rp))

  gate_physical-Writes :
      (primary : Bool) (sp : SourceProduct) (d : Attributes) (rp : RealProduct) (s : Store)
      {out : PhysicalOutcome × SourceProduct × Store}
      → gate_physical pim texts rejects faults started_at primary sp d rp s ≡ ok out
      → (Untouched sp s out × Quiet primary sp d rp out.0)
        ⊎ ((out.0 ≡ write_outcome primary)
            × ((primary ≡ true) ⊎ (sp.source.allow_physical_writes_from_non_primary ≡ true))
            × Written sp rp (saved_row d rp) s out)
  unfolding gate_physical
  gate_physical-Writes primary sp d rp s h =
      elim (Bool-cases (not primary && not sp.source.allow_physical_writes_from_non_primary)) [
        | inl e ↦
            subst
              (λ out.
                (Untouched sp s out × Quiet primary sp d rp out.0)
                ⊎ ((out.0 ≡ write_outcome primary)
                    × ((primary ≡ true) ⊎ (sp.source.allow_physical_writes_from_non_primary ≡ true))
                    × Written sp rp (saved_row d rp) s out))
              (ok_inj (rw (gate_physical, e) at h))
              (inl (
                (refl, refl, refl),
                inl (
                  refl,
                  (neither primary sp.source.allow_physical_writes_from_non_primary e).0,
                  (neither primary sp.source.allow_physical_writes_from_non_primary e).1,
                ),
              ))
        | inr e ↦
            elim (write_physical-Writes primary sp
              (put_fields pim texts rejects updated_fields d rp).0 rp (saved_row d rp) s
              (put_fields_pk updated_fields d rp) (put_fields_same updated_fields d rp)
              (rw (gate_physical, e) at h)) [
                | inl (u, n, same) ↦ inl (u, inr (n, same))
                | inr (o, w) ↦
                    inr (o, may_write primary sp.source.allow_physical_writes_from_non_primary e, w)
              ]
      ]

  put_weight :
      (k : String) (o : Option Scalar) (rp : RealProduct)
      → (put_field pim texts rejects (k, physical weight) o rp).1
        ≡ record rp { weight = decimal_after pim o rp.weight }
  put_weight k none rp = refl
  put_weight k (some v) rp = elim (Bool-cases (scalar_eq (column_scalar rp.weight) v)) [
    | inl e ↦ rw e refl
    | inr e ↦ rw e refl
  ]

  put_width :
      (k : String) (o : Option Scalar) (rp : RealProduct)
      → (put_field pim texts rejects (k, physical width) o rp).1
        ≡ record rp { width = decimal_after pim o rp.width }
  put_width k none rp = refl
  put_width k (some v) rp = elim (Bool-cases (scalar_eq (column_scalar rp.width) v)) [
    | inl e ↦ rw e refl
    | inr e ↦ rw e refl
  ]

  put_height :
      (k : String) (o : Option Scalar) (rp : RealProduct)
      → (put_field pim texts rejects (k, physical height) o rp).1
        ≡ record rp { height = decimal_after pim o rp.height }
  put_height k none rp = refl
  put_height k (some v) rp = elim (Bool-cases (scalar_eq (column_scalar rp.height) v)) [
    | inl e ↦ rw e refl
    | inr e ↦ rw e refl
  ]

  put_deep :
      (k : String) (o : Option Scalar) (rp : RealProduct)
      → (put_field pim texts rejects (k, physical deep) o rp).1
        ≡ record rp { deep = decimal_after pim o rp.deep }
  put_deep k none rp = refl
  put_deep k (some v) rp = elim (Bool-cases (scalar_eq (column_scalar rp.deep) v)) [
    | inl e ↦ rw e refl
    | inr e ↦ rw e refl
  ]

  put_ean :
      (k : String) (o : Option Scalar) (rp : RealProduct)
      → (put_field pim texts rejects (k, ean) o rp).1 ≡ record rp { ean = text_after pim o rp.ean }
  put_ean k none rp = refl
  put_ean k (some v) rp = elim (Bool-cases (scalar_eq (text_scalar rp.ean) v)) [
    | inl e ↦ rw e refl
    | inr e ↦ rw e refl
  ]

  offered_decimal :
      (d : Attributes) (k : String) (f : PhysicalField)
      → offered pim texts rejects d (k, physical f) ≡ new_decimal texts d k
  offered_decimal d k f = by_value (scalar_of (get_attribute k d))
    where
      by_value :
          (v : Scalar)
          → elim (raw_of (physical f) v) as (λ _. Option Scalar) [
            | none ↦ none
            | some (g, w) ↦ coerced texts g w
          ]
            ≡ decimal_or_none (to_decimal texts v)
      by_value null = refl
      by_value (text t) = refl
      by_value (boolean b) = refl
      by_value (number n) = refl
      by_value (other x) = refl

  offered_text : (d : Attributes) (k : String) → offered pim texts rejects d (k, ean) ≡ new_text d k
  offered_text d k = by_value (scalar_of (get_attribute k d))
    where
      by_value :
          (v : Scalar)
          → elim (raw_of ean v) as (λ _. Option Scalar) [
            | none ↦ none
            | some (g, w) ↦ coerced texts g w
          ]
            ≡ given_value v
      by_value null = refl
      by_value (text t) = refl
      by_value (boolean b) = refl
      by_value (number n) = refl
      by_value (other x) = refl

  -- The row that a write saves, column by column.
  abbrev pub expected_row : Attributes → RealProduct → RealProduct
  expected_row d rp = record rp {
    weight = decimal_after pim (new_decimal texts d "weight") rp.weight;
    ean = text_after pim (new_text d "ean") rp.ean;
    width = decimal_after pim (new_decimal texts d "width") rp.width;
    height = decimal_after pim (new_decimal texts d "height") rp.height;
    deep = decimal_after pim (new_decimal texts d "deep") rp.deep;
  }

  abbrev put : String × RpField → Option Scalar → RealProduct → RealProduct
  put kf o x = (put_field pim texts rejects kf o x).1

  put_all :
      (a b c e f : Option Scalar) (rp : RealProduct)
      → put
          ("deep", physical deep)
          f
          (put
            ("height", physical height)
            e
            (put
              ("width", physical width)
              c
              (put ("ean", ean) b (put ("weight", physical weight) a rp))))
        ≡ record rp {
          weight = decimal_after pim a rp.weight;
          ean = text_after pim b rp.ean;
          width = decimal_after pim c rp.width;
          height = decimal_after pim e rp.height;
          deep = decimal_after pim f rp.deep;
        }
  put_all a b c e f rp =
      let x1 : RealProduct = put ("weight", physical weight) a rp in
      let x2 : RealProduct = put ("ean", ean) b x1 in
      let x3 : RealProduct = put ("width", physical width) c x2 in
      let x4 : RealProduct = put ("height", physical height) e x3 in
      let e1 = put_weight "weight" a rp in
      let e2 =
        put_ean "ean" b x1
        ∙ ap (λ (x : RealProduct). record x { ean = text_after pim b x.ean }) e1 in
      let e3 =
        put_width "width" c x2
        ∙ ap (λ (x : RealProduct). record x { width = decimal_after pim c x.width }) e2 in
      let e4 =
        put_height "height" e x3
        ∙ ap (λ (x : RealProduct). record x { height = decimal_after pim e x.height }) e3 in
      put_deep "deep" f x4
      ∙ ap (λ (x : RealProduct). record x { deep = decimal_after pim f x.deep }) e4

  saved_expected : (d : Attributes) (rp : RealProduct) → saved_row d rp ≡ expected_row d rp
  unfolding put_fields
  saved_expected d rp =
      put_all (offered pim texts rejects d ("weight", physical weight))
        (offered pim texts rejects d ("ean", ean))
        (offered pim texts rejects d ("width", physical width))
        (offered pim texts rejects d ("height", physical height))
        (offered pim texts rejects d ("deep", physical deep)) rp
      ∙ rw
          (
            offered_decimal d "weight" weight,
            offered_text d "ean",
            offered_decimal d "width" width,
            offered_decimal d "height" height,
            offered_decimal d "deep" deep,
          )
          refl

  module _ (skus : Option (List String)) (sp : SourceProduct) (upd : PriceStockUpdate)
      (s : Store) where
    -- The source of the product has the SKU's active primary link.
    abbrev pub HasPrimary : String → Type 0
    HasPrimary sku = exists_row (is_live_primary sku sp.source.pk) s.links.rows ≡ true

    -- Why nothing was written: the item has no physical values, the product is not pushed, its source
    -- may not push, it has no RealProduct, another source is the primary one and the source does not
    -- opt in, or the row has the item's values already.
    abbrev pub Excused : PhysicalOutcome → Type 0
    Excused outcome =
        (upd.physical ≡ none)
        ⊎ (is_pushed_status sp.status ≡ false)
        ⊎ (is_push_blocked sp.source ≡ true)
        ⊎ (is_some sp.real_product ≡ false)
        ⊎ ((d : Attributes) × (rp : RealProduct) × (upd.physical ≡ some d)
            × (linked_rp sp s.real_products ≡ some rp)
            × (((outcome ≡ skipped_non_primary)
                  × (¬ HasPrimary rp.sku)
                  × (sp.source.allow_physical_writes_from_non_primary ≡ false))
                ⊎ ((outcome ≡ noop) × (expected_row d rp ≡ rp))))

    passed_over-Excused : (outcome : PhysicalOutcome) → is_passed_over sp ≡ true → Excused outcome
    passed_over-Excused outcome p = elim (Bool-cases (is_pushed_status sp.status)) [
      | inr a ↦ inr (inl a)
      | inl a ↦ elim (Bool-cases (is_push_blocked sp.source)) [
        | inl b ↦ inr (inr (inl b))
        | inr b ↦ inr (inr (inr (inl (ground (arith, p, a, b)))))
      ]
    ]

    Quiet-Excused :
        (d : Attributes) (rp : RealProduct) (primary : Bool) (outcome : PhysicalOutcome)
        → upd.physical ≡ some d
        → linked_rp sp s.real_products ≡ some rp
        → primary ≡ exists_row (is_live_primary rp.sku sp.source.pk) s.links.rows
        → Quiet primary sp d rp outcome
        → Excused outcome
    Quiet-Excused d rp primary outcome e found same (inl (o, off, allowed)) = inr (
        inr (
          inr
            (inr (d, rp, e, found, inl (o, (λ h. true≢false (sym h ∙ sym same ∙ off)), allowed)))))
    Quiet-Excused d rp primary outcome e found same (inr (o, kept)) =
        inr (inr (inr (inr (d, rp, e, found, inr (o, sym (saved_expected d rp) ∙ kept)))))

    -- On links that meet the table's constraints, and with the SKU of the product's RealProduct among
    -- those that the batch looked up, a delta item that returned either left the product and the
    -- RealProducts as they were, for one of six reasons (no values, not pushed, a source that may not
    -- push, no RealProduct, not the primary source and no opt-in, no new value), or its product was pushed, of a source that may push, and linked to
    -- a RealProduct; the source has the active primary link of its SKU, and the outcome says so, or
    -- it allows writes beside the primary one; the row of that RealProduct alone is saved, each of
    -- weight, EAN, width, height and depth as the item gives it or else as it was; and the product is
    -- stamped with the start of the sync.
    pub apply_physical_update_lem :
        {out : PhysicalOutcome × SourceProduct × Store}
        → IsConsistent s.links
        → ((rp : RealProduct)
            → linked_rp sp s.real_products ≡ some rp
            → looks_up skus rp.sku ≡ true)
        → apply_physical_update pim texts rejects faults started_at skus sp upd s ≡ ok out
        → (Untouched sp s out × Excused out.0)
          ⊎ ((d : Attributes) × (rp : RealProduct) × (upd.physical ≡ some d)
              × (linked_rp sp s.real_products ≡ some rp)
              × (is_pushed_status sp.status ≡ true)
              × (is_push_blocked sp.source ≡ false)
              × (((out.0 ≡ applied) × HasPrimary rp.sku)
                  ⊎ ((out.0 ≡ overwritten)
                      × (¬ HasPrimary rp.sku)
                      × (sp.source.allow_physical_writes_from_non_primary ≡ true)))
              × Written sp rp (expected_row d rp) s out)
    unfolding apply_physical_update apply_physical_values
    apply_physical_update_lem {out} c seen h = elim (Option-cases upd.physical) [
      | inl e ↦ inl (
        subst (λ out. Untouched sp s out) (ok_inj (rw (apply_physical_update, e) at h))
            (refl, refl, refl),
        inl e,
      )
      | inr (d, e) ↦
          let h' : apply_physical_values pim texts rejects faults started_at skus sp d s ≡ ok out =
            rw (apply_physical_update, e) at h in
          elim (Bool-cases (is_passed_over sp)) [
            | inl p ↦ inl (
              subst (λ out. Untouched sp s out) (ok_inj (rw (apply_physical_values, p) at h'))
                  (refl, refl, refl),
              passed_over-Excused out.0 p,
            )
            | inr p ↦
                let (rp, found, h'') =
                  or_raise-ok (linked_rp sp s.real_products) _
                    (rw (apply_physical_values, p) at h') in
                let primary = is_primary_link (link_for skus sp rp.sku s) in
                let same : primary ≡ exists_row (is_live_primary rp.sku sp.source.pk) s.links.rows =
                  link_for-primary skus sp rp.sku s (c.pairs rp.sku sp.source.pk) (seen rp found) in
                elim (gate_physical-Writes primary sp d rp s h'') [
                  | inl (u, q) ↦ inl (u, Quiet-Excused d rp primary out.0 e found same q)
                  | inr (o, g, w) ↦ inr (
                    d,
                    rp,
                    e,
                    found,
                    (passed_on sp p).0,
                    (passed_on sp p).1,
                    outcome_of primary
                        (exists_row (is_live_primary rp.sku sp.source.pk) s.links.rows) out.0 _ same
                        o g,
                    subst (λ saved. Written sp rp saved s out) (saved_expected d rp) w,
                  )
                ]
          ]
    ]
