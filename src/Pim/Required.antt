-- ===== src/Pim/Required.antt =====
-- What the attribute mappings require, and the attributes that they create.
use mathlib.Core.Path.{subst}
use entirius_django_atlas.Base.{
  ◌≡◌, ◌⊎◌, refl, sym, ◌∙◌, inl, inr, Bool, true, false, not, ◌&&◌, Option, none, some, List, [],
  ◌∷◌, String, str_eq, dotted, str_eq→eq, first_row, exists_row, All, All-append, Bool-cases,
  Option-cases, first_row-passes, exists_row-first_row,
}
use entirius_django_atlas.Base.Outcome.{ok, ok_inj, err≢ok, bind-ok}
use entirius_django_atlas.Model.{SourceProduct}
use entirius_django_atlas.Model.Values.{Value, array, Items, nil, cons}
use entirius_django_atlas.Model.Enums.{EventType, EventSeverity}
use entirius_django_atlas.Store.{Faults}
use entirius_django_atlas.Transform.{
  Decimal, Scalar, null, text, boolean, number, other, TextOps, TransformResult, to_decimal,
}
use entirius_django_atlas.Pim.{
  Catalogue, AttributeMapping, Feature, FeatureType, ProductAttribute, AttributeValue,
  required_field_missing, arithmetic_failed,
}
use entirius_django_atlas.Pim.Lookup.{scalar_of}
use entirius_django_atlas.Pim.Attributes.{
  Additions, both_added, one_event, has_option, create_select, create_elements, create_multiselect,
  create_decimal, create_attribute, is_misplaced_list, transform_failure, transform_audit,
  is_null_value, with_feature, is_feature_target, mapped_value, apply_mapping,
  apply_attribute_mappings,
}

module _ (pim : Catalogue) where
  abbrev pub has_feature : String → Bool
  has_feature idx = exists_row (λ (f : Feature). str_eq f.idx idx) pim.features

  abbrev pub option_known : String → AttributeValue → Bool
  option_known idx (AttributeValue.option o) = has_option pim idx o
  option_known idx _ = true

  -- The attribute is of a feature that PIM has, and an option is one of the feature's.
  abbrev pub IsKnown : ProductAttribute → Type 0
  IsKnown a = (has_feature a.feature ≡ true) × (option_known a.feature a.value ≡ true)

  abbrev AllKnown : Additions → Type 0
  AllKnown a = All IsKnown a.attributes

  both-AllKnown : (a b : Additions) → AllKnown a → AllKnown b → AllKnown (both_added a b)
  both-AllKnown a b h g = All-append IsKnown a.attributes b.attributes h g

  module _ (sp : SourceProduct) (idx : String) (known : has_feature idx ≡ true) where
    select-AllKnown : (o : String) → AllKnown (create_select pim sp idx o)
    select-AllKnown o = elim (Bool-cases (has_option pim idx o)) [
      | inl e ↦ rw e ((known, e), tt)
      | inr e ↦ rw e tt
    ]

    elements-AllKnown : (vs : Items) → AllKnown (create_elements pim sp idx vs)
    elements-AllKnown nil = tt
    elements-AllKnown (cons v vs) =
        both-AllKnown (create_select pim sp idx (pim.str_of (scalar_of v)))
          (create_elements pim sp idx vs) (select-AllKnown (pim.str_of (scalar_of v)))
          (elements-AllKnown vs)

    multiselect-AllKnown : (v : Scalar) → AllKnown (create_multiselect pim sp idx v)
    multiselect-AllKnown null = tt
    multiselect-AllKnown (text s) = select-AllKnown s
    multiselect-AllKnown (boolean b) = tt
    multiselect-AllKnown (number d) = tt
    multiselect-AllKnown (other (array vs)) = elements-AllKnown vs
    multiselect-AllKnown (other Value.null) = tt
    multiselect-AllKnown (other (Value.text s)) = tt
    multiselect-AllKnown (other (Value.number z k)) = tt
    multiselect-AllKnown (other (Value.boolean b)) = tt
    multiselect-AllKnown (other (Value.object f)) = tt

    decimal-AllKnown : (d : Option Decimal) → AllKnown (create_decimal idx d)
    decimal-AllKnown none = tt
    decimal-AllKnown (some d) = ((known, refl), tt)

    module _ (texts : TextOps) (language : String) where
      attribute-AllKnown :
          (t : FeatureType) (v : Scalar) → AllKnown (create_attribute pim texts language sp idx t v)
      unfolding create_attribute
      attribute-AllKnown FeatureType.select v = select-AllKnown (pim.str_of v)
      attribute-AllKnown FeatureType.multiselect v = multiselect-AllKnown v
      attribute-AllKnown FeatureType.decimal v = decimal-AllKnown (to_decimal texts v)
      attribute-AllKnown FeatureType.temperature v = decimal-AllKnown (to_decimal texts v)
      attribute-AllKnown FeatureType.length v = decimal-AllKnown (to_decimal texts v)
      attribute-AllKnown FeatureType.mass v = decimal-AllKnown (to_decimal texts v)
      attribute-AllKnown FeatureType.unknown v = tt
      attribute-AllKnown FeatureType.bool v = ((known, refl), tt)
      attribute-AllKnown FeatureType.varchar255 v = ((known, refl), tt)
      attribute-AllKnown FeatureType.txt v = ((known, refl), tt)
      attribute-AllKnown FeatureType.varchar255_t9n v = ((known, refl), tt)
      attribute-AllKnown FeatureType.txt_t9n v = ((known, refl), tt)
      attribute-AllKnown FeatureType.json v = ((known, refl), tt)
      attribute-AllKnown FeatureType.json_t9n v = ((known, refl), tt)
      attribute-AllKnown FeatureType.datetime v = ((known, refl), tt)

  module _ (sp : SourceProduct) (faults : Faults) where
    failure-AllKnown : (r : TransformResult) → AllKnown (transform_failure sp faults r)
    failure-AllKnown r = elim (Option-cases r.failure_reason) [
      | inl e ↦ rw e tt
      | inr (reason, e) ↦ elim (Bool-cases faults.event_fails) [
        | inl b ↦ rw (e, b) tt
        | inr b ↦ rw (e, b) tt
      ]
    ]

    audit-AllKnown :
        (path : String) (r : TransformResult) → AllKnown (transform_audit sp faults path r)
    audit-AllKnown path r = elim (Bool-cases (r.applied && not faults.audit_fails)) [
      | inl e ↦ rw e tt
      | inr e ↦ rw e tt
    ]

    module _ (texts : TextOps) (language : String) (m : AttributeMapping)
        (r : TransformResult) where
      feature-AllKnown :
          (f : Feature)
          → has_feature f.idx ≡ true
          → AllKnown (with_feature pim texts language sp faults m r (some f))
      feature-AllKnown f known =
          elim (Bool-cases (is_misplaced_list pim texts language sp f.feature_type r.value)) [
            | inl e ↦ rw e tt
            | inr e ↦ rw e (
                both-AllKnown (create_attribute pim texts language sp f.idx f.feature_type r.value)
                  (transform_audit sp faults (dotted "feature" m.target_identifier) r)
                  (attribute-AllKnown sp f.idx known texts language f.feature_type r.value)
                  (audit-AllKnown (dotted "feature" m.target_identifier) r))
          ]

      found-AllKnown : AllKnown (
          with_feature pim texts language sp faults m r
            (first_row (λ (f : Feature). str_eq f.idx m.target_identifier) pim.features))
      found-AllKnown =
          let named : Feature → Bool = λ f. str_eq f.idx m.target_identifier in
          elim (Option-cases (first_row named pim.features)) [
            | inl e ↦ rw e tt
            | inr (f, e) ↦
                let here : has_feature m.target_identifier ≡ true =
                  exists_row-first_row named pim.features ∙ rw e refl in
                rw e (
                  feature-AllKnown f (
                    subst (λ idx. has_feature idx ≡ true)
                      (sym (
                        str_eq→eq f.idx m.target_identifier
                          (first_row-passes named pim.features e)))
                      here))
          ]

module _ (pim : Catalogue) (texts : TextOps) (language : String) (sp : SourceProduct)
    (faults : Faults) where
  -- A required mapping to a feature has a value.
  abbrev pub IsMet : AttributeMapping → Type 0
  IsMet m =
      (is_feature_target m.target_type && m.is_required ≡ false)
      ⊎ ((r : TransformResult) × (mapped_value pim texts language sp m ≡ some r)
          × (is_null_value r.value ≡ false))

  mapping_lem :
      (m : AttributeMapping) {a : Additions}
      → apply_mapping pim texts language sp faults m ≡ ok a
      → IsMet m × All (IsKnown pim) a.attributes
  unfolding apply_mapping
  mapping_lem m {a} h =
      let Known : Additions → Type 0 = λ x. All (IsKnown pim) x.attributes in
      elim (Bool-cases (is_feature_target m.target_type)) [
        | inr e ↦ (inl (rw e refl), subst Known (ok_inj (rw (apply_mapping, e) at h)) tt)
        | inl e ↦ elim (Option-cases (mapped_value pim texts language sp m)) [
          | inl v ↦ absurd (err≢ok {e = arithmetic_failed} (rw (apply_mapping, e, v) at h))
          | inr (r, v) ↦ elim (Bool-cases (is_null_value r.value)) [
            | inl n ↦ elim (Bool-cases m.is_required) [
              | inl q ↦
                  absurd (err≢ok {e = required_field_missing} (rw (apply_mapping, e, v, n, q) at h))
              | inr q ↦ (
                inl (rw (e, q) refl),
                subst Known (ok_inj (rw (apply_mapping, e, v, n, q) at h)) (
                    both-AllKnown pim (transform_failure sp faults r)
                      (one_event EventType.attribute_value_missing EventSeverity.info sp)
                      (failure-AllKnown pim sp faults r) tt),
              )
            ]
            | inr n ↦ (
              inr (r, v, n),
              subst Known (ok_inj (rw (apply_mapping, e, v, n) at h)) (
                  both-AllKnown pim (transform_failure sp faults r)
                    (with_feature pim texts language sp faults m r
                      (first_row (λ (f : Feature). str_eq f.idx m.target_identifier) pim.features))
                    (failure-AllKnown pim sp faults r)
                    (found-AllKnown pim sp faults texts language m r)),
            )
          ]
        ]
      ]

  -- When the attribute mappings of a push return, every required mapping to a feature had a value
  -- after its modifier, each attribute that they create is of a feature that PIM has, and an attribute
  -- option is one of its feature.
  pub apply_attribute_mappings_lem :
      (ms : List AttributeMapping) {a : Additions}
      → apply_attribute_mappings pim texts language sp faults ms ≡ ok a
      → All IsMet ms × All (IsKnown pim) a.attributes
  unfolding apply_attribute_mappings
  apply_attribute_mappings_lem [] {a} h =
      (tt, subst (λ (x : Additions). All (IsKnown pim) x.attributes) (ok_inj h) tt)
  apply_attribute_mappings_lem (m ∷ ms) {a} h =
      let (first, e, h1) = bind-ok (apply_mapping pim texts language sp faults m) h in
      let (rest, e', h2) = bind-ok (apply_attribute_mappings pim texts language sp faults ms) h1 in
      let (met, known) = mapping_lem m e in
      let (all_met, all_known) = apply_attribute_mappings_lem ms e' in
      (
        (met, all_met),
        subst (λ (x : Additions). All (IsKnown pim) x.attributes) (ok_inj h2)
            (both-AllKnown pim first rest known all_known),
      )
