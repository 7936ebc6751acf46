-- ===== src/Pim/Attributes.antt =====
-- The attributes and the categories that a push gives to a product of a channel.
use entirius_django_atlas.Base.{
  Bool, true, false, not, ◌&&◌, ◌==◌, Option, none, some, List, [], ◌∷◌, ◌++◌, String, str_eq,
  dotted, if◌then◌else◌, exists_row, first_row,
}
use entirius_django_atlas.Base.Outcome.{Result, ok, err, ◌>>=◌}
use entirius_django_atlas.Model.{SourceProduct, IntegrationEvent, SourceProductChangeLog}
use entirius_django_atlas.Model.Values.{Value, array, Items, nil, cons, get_attribute}
use entirius_django_atlas.Model.Enums.{EventType, EventSeverity, ChangeLogSource}
use entirius_django_atlas.Transform.{
  Decimal, Scalar, null, text, boolean, number, other, TextOps, TransformResult, transform,
  to_decimal,
}
use entirius_django_atlas.Pim.{
  Catalogue, AttributeMapping, CategoryMapping, TargetType, Feature, FeatureType, ProductAttribute,
  AttributeValue, PushError, required_field_missing, arithmetic_failed, feature,
}
use entirius_django_atlas.Pim.Lookup.{lookup_value, scalar_of}
use entirius_django_atlas.Store.{Faults}

-- What a mapping adds: attributes, events and audit rows.
pub record Additions : Type 0 where
  pub attributes : List ProductAttribute
  pub events : List IntegrationEvent
  pub audits : List SourceProductChangeLog

abbrev pub nothing_added : Additions
nothing_added = record { attributes = []; events = []; audits = [] }

abbrev pub both_added : Additions → Additions → Additions
both_added a b = record {
  attributes = a.attributes ++ b.attributes;
  events = a.events ++ b.events;
  audits = a.audits ++ b.audits;
}

abbrev pub push_event : EventType → EventSeverity → SourceProduct → IntegrationEvent
push_event event_type severity sp = record {
  event_type = event_type;
  severity = severity;
  source_idx = none;
  source_product = some sp.pk;
}

abbrev pub one_event : EventType → EventSeverity → SourceProduct → Additions
one_event event_type severity sp = record nothing_added {
  events = push_event event_type severity sp ∷ [];
}

abbrev pub one_attribute : String → AttributeValue → Additions
one_attribute idx value = record nothing_added {
  attributes = record { feature = idx; value = value } ∷ [];
}

-- `bool(value)`
abbrev pub truthy : Scalar → Bool
truthy null = false
truthy (text s) = not (str_eq s "")
truthy (boolean b) = b
truthy (number d) = not (d.digits == 0)
truthy (other (array nil)) = false
truthy (other _) = true

abbrev pub has_option : Catalogue → String → String → Bool
has_option pim idx value = exists_row (λ o. str_eq o.0 idx && str_eq o.1 value) pim.options

-- `_create_select_attribute`
abbrev pub create_select : Catalogue → SourceProduct → String → String → Additions
create_select pim sp idx value =
    if has_option pim idx value
    then one_attribute idx (AttributeValue.option value)
    else one_event EventType.pim_attribute_missing EventSeverity.warning sp

abbrev pub create_elements : Catalogue → SourceProduct → String → Items → Additions
create_elements pim sp idx nil = nothing_added
create_elements pim sp idx (cons v vs) =
    both_added (create_select pim sp idx (pim.str_of (scalar_of v))) (create_elements pim sp idx vs)

-- `_create_multiselect_attributes`
abbrev pub create_multiselect : Catalogue → SourceProduct → String → Scalar → Additions
create_multiselect pim sp idx (text s) = create_select pim sp idx s
create_multiselect pim sp idx (other (array vs)) = create_elements pim sp idx vs
create_multiselect pim sp idx _ = one_event EventType.pim_attribute_missing EventSeverity.warning sp

abbrev pub create_decimal : String → Option Decimal → Additions
create_decimal idx none = nothing_added
create_decimal idx (some d) = one_attribute idx (AttributeValue.value_decimal d)

-- `_record_transform_outcome`, best-effort
abbrev pub transform_failure : SourceProduct → Faults → TransformResult → Additions
transform_failure sp faults r = elim r.failure_reason [
  | none ↦ nothing_added
  | some _ ↦
      if faults.event_fails
      then nothing_added
      else one_event EventType.mapping_transform_failed EventSeverity.warning sp
]

-- `_log_transform_audit`, best-effort
abbrev pub transform_audit : SourceProduct → Faults → String → TransformResult → Additions
transform_audit sp faults field_path r =
    if r.applied && not faults.audit_fails
    then record nothing_added {
      audits =
          record {
            source_product = sp.pk;
            real_product_sku = "";
            source = ChangeLogSource.mapping_transform;
            field_path = field_path;
            applied_to_pim = false;
          }
          ∷ [];
    }
    else nothing_added

abbrev pub is_null_value : Scalar → Bool
is_null_value null = true
is_null_value _ = false

abbrev pub is_feature_target : TargetType → Bool
is_feature_target feature = true
is_feature_target _ = false

module _ (pim : Catalogue) (texts : TextOps) (language : String) (sp : SourceProduct) where
  -- The branch of the feature's type, `_create_typed_attribute` among them.
  unfoldable pub create_attribute : String → FeatureType → Scalar → Additions
  create_attribute idx FeatureType.select v = create_select pim sp idx (pim.str_of v)
  create_attribute idx FeatureType.multiselect v = create_multiselect pim sp idx v
  create_attribute idx FeatureType.bool v = one_attribute idx (AttributeValue.value_bool (truthy v))
  create_attribute idx FeatureType.decimal v = create_decimal idx (to_decimal texts v)
  create_attribute idx FeatureType.temperature v = create_decimal idx (to_decimal texts v)
  create_attribute idx FeatureType.length v = create_decimal idx (to_decimal texts v)
  create_attribute idx FeatureType.mass v = create_decimal idx (to_decimal texts v)
  create_attribute idx FeatureType.varchar255 v =
      one_attribute idx (AttributeValue.value_txt (pim.str_of v))
  create_attribute idx FeatureType.txt v =
      one_attribute idx (AttributeValue.value_txt (pim.str_of v))
  create_attribute idx FeatureType.varchar255_t9n v =
      one_attribute idx (AttributeValue.value_txt_t9n language (pim.str_of v))
  create_attribute idx FeatureType.txt_t9n v =
      one_attribute idx (AttributeValue.value_txt_t9n language (pim.str_of v))
  create_attribute idx FeatureType.json v = one_attribute idx (AttributeValue.value_json v)
  create_attribute idx FeatureType.json_t9n v =
      one_attribute idx (AttributeValue.value_json_t9n language v)
  create_attribute idx FeatureType.datetime v = one_attribute idx (AttributeValue.value_datetime v)
  create_attribute idx FeatureType.unknown v = nothing_added

  -- A list that a SELECT feature is given: a warning, and the loop goes on.
  abbrev pub is_misplaced_list : FeatureType → Scalar → Bool
  is_misplaced_list FeatureType.select (other (array _)) = true
  is_misplaced_list _ _ = false

  abbrev pub with_feature : Faults → AttributeMapping → TransformResult → Option Feature → Additions
  with_feature faults m r none = one_event EventType.pim_feature_missing EventSeverity.warning sp
  with_feature faults m r (some f) =
      if is_misplaced_list f.feature_type r.value
      then one_event EventType.pim_attribute_missing EventSeverity.warning sp
      else both_added (create_attribute f.idx f.feature_type r.value)
          (transform_audit sp faults (dotted "feature" m.target_identifier) r)

  -- The value of a mapping, transformed.
  abbrev pub mapped_value : AttributeMapping → Option TransformResult
  mapped_value m = transform texts (lookup_value sp m.source_field) m.modifier

  abbrev pub with_value : Faults → AttributeMapping → TransformResult → Result PushError Additions
  with_value faults m r =
      if is_null_value r.value
      then (if m.is_required
          then err required_field_missing
          else ok (
              both_added (transform_failure sp faults r)
                (one_event EventType.attribute_value_missing EventSeverity.info sp)))
      else ok (
          both_added (transform_failure sp faults r) (
            with_feature faults m r
              (first_row (λ (f : Feature). str_eq f.idx m.target_identifier) pim.features)))

  -- One round of the loop.
  unfoldable pub apply_mapping : Faults → AttributeMapping → Result PushError Additions
  unfolding create_attribute transform lookup_value
  apply_mapping faults m =
      if not (is_feature_target m.target_type)
      then ok nothing_added
      else (elim (mapped_value m) [ none ↦ err arithmetic_failed | some r ↦ with_value faults m r ])

  unfoldable pub apply_attribute_mappings :
      Faults → List AttributeMapping → Result PushError Additions
  unfolding apply_mapping
  apply_attribute_mappings faults [] = ok nothing_added
  apply_attribute_mappings faults (m ∷ ms) = do
    first ← apply_mapping faults m
    rest ← apply_attribute_mappings faults ms
    ok (both_added first rest)

-- `sp_value != mapping.source_value`
abbrev pub is_text : Value → String → Bool
is_text (Value.text s) t = str_eq s t
is_text _ t = false

abbrev pub has_category : List (String × String) → String → String → Bool
has_category known channel idx = exists_row (λ c. str_eq c.0 channel && str_eq c.1 idx) known

abbrev pub add_category : String → List String → List String
add_category idx given = if exists_row (λ c. str_eq c idx) given then given else given ++ idx ∷ []

-- `apply_category_mappings`: the categories of the product after, and the events.
unfoldable pub apply_category_mappings :
    Catalogue
    → SourceProduct
    → String
    → List CategoryMapping
    → List String
    → List String × List IntegrationEvent
apply_category_mappings pim sp channel [] given = (given, [])
apply_category_mappings pim sp channel (m ∷ ms) given =
    if not (is_text (get_attribute m.source_field sp.attributes) m.source_value)
    then apply_category_mappings pim sp channel ms given
    else (if has_category pim.categories channel m.target_category_idx
        then apply_category_mappings pim sp channel ms (add_category m.target_category_idx given)
        else (let rest = apply_category_mappings pim sp channel ms given in
            (rest.0, push_event EventType.pim_category_missing EventSeverity.warning sp ∷ rest.1)))
