-- ===== src/Pim/Physical.antt =====
-- The columns of the RealProduct that a push sets: `_real_product_defaults` for a new row and
-- `apply_real_product_mappings` for a re-push.
use entirius_django_atlas.Base.{
  ℕ, Bool, true, false, not, ◌&&◌, ◌||◌, Option, none, some, List, [], ◌∷◌, String, str_eq, dotted,
  if◌then◌else◌, ◌≡◌, refl, ap, map,
}
use entirius_django_atlas.Base.Int.{ℤ}
use entirius_django_atlas.Base.Outcome.{Result, ok, err, ◌>>=◌}
use entirius_django_atlas.Model.{SourceProduct, RealProduct}
use entirius_django_atlas.Match.{
  PhysicalField, PhysicalValues, weight, width, height, deep, of_column,
}
use entirius_django_atlas.Store.{Faults}
use entirius_django_atlas.Transform.{
  Decimal, Scalar, null, text, number, TextOps, transform, to_decimal, blank,
}
use entirius_django_atlas.Pim.{
  Catalogue, AttributeMapping, TargetType, real_product, PushError, arithmetic_failed,
}
use entirius_django_atlas.Pim.Lookup.{lookup_value, scalar_eq}
use entirius_django_atlas.Pim.Attributes.{
  Additions, nothing_added, both_added, transform_failure, transform_audit,
}

-- `_REAL_PRODUCT_FIELDS`
pub data RpField : Type 0 where
  physical : PhysicalField → RpField
  ean kind_of_product : RpField

abbrev pub rp_field_of : String → Option RpField
rp_field_of s =
    if str_eq s "weight"
    then some (physical weight)
    else (if str_eq s "width"
        then some (physical width)
        else (if str_eq s "height"
            then some (physical height)
            else (if str_eq s "deep"
                then some (physical deep)
                else (if str_eq s "ean"
                    then some ean
                    else (if str_eq s "kind_of_product" then some kind_of_product else none)))))

abbrev pub column_scalar : Option ℤ → Scalar
column_scalar none = null
column_scalar (some z) = number (of_column z)

abbrev pub text_scalar : Option String → Scalar
text_scalar none = null
text_scalar (some s) = text s

-- `getattr(real_product, field)`
abbrev pub get_rp : RpField → RealProduct → Scalar
get_rp (physical weight) rp = column_scalar rp.weight
get_rp (physical width) rp = column_scalar rp.width
get_rp (physical height) rp = column_scalar rp.height
get_rp (physical deep) rp = column_scalar rp.deep
get_rp ean rp = text_scalar rp.ean
get_rp kind_of_product rp =
    number (record { negative = false; digits = rp.kind_of_product; scale = 1 })

module _ (pim : Catalogue) where
  abbrev pub stored_decimal : Scalar → Option ℤ
  stored_decimal (number d) = some (pim.decimal_column d)
  stored_decimal _ = none

  -- `setattr(real_product, field, value)`, and what the columns store of it
  abbrev pub set_rp : RpField → Scalar → RealProduct → RealProduct
  set_rp (physical weight) v rp = record rp { weight = stored_decimal v }
  set_rp (physical width) v rp = record rp { width = stored_decimal v }
  set_rp (physical height) v rp = record rp { height = stored_decimal v }
  set_rp (physical deep) v rp = record rp { deep = stored_decimal v }
  set_rp ean v rp = record rp { ean = some (pim.str_of v) }
  set_rp kind_of_product v rp = record rp { kind_of_product = pim.kind_column v }

-- `value = _coerce_decimal(value)` for the decimal fields; None means that the field is passed over
abbrev pub decimal_or_none : Option Decimal → Option Scalar
decimal_or_none none = none
decimal_or_none (some d) = some (number d)

abbrev pub coerced : TextOps → RpField → Scalar → Option Scalar
coerced texts (physical f) v = decimal_or_none (to_decimal texts v)
coerced texts ean v = some v
coerced texts kind_of_product v = some v

abbrev pub is_real_product_target : TargetType → Bool
is_real_product_target real_product = true
is_real_product_target _ = false

-- The field and the raw value of a mapping that is not passed over at once.
abbrev pub raw_of : RpField → Scalar → Option (RpField × Scalar)
raw_of f null = none
raw_of f v = some (f, v)

abbrev pub raw_target : SourceProduct → AttributeMapping → Option (RpField × Scalar)
raw_target sp m =
    if is_real_product_target m.target_type
    then (elim (rp_field_of m.target_identifier) [
      | none ↦ none
      | some f ↦ raw_of f (lookup_value sp m.source_field)
    ])
    else none

abbrev pub without_modifier : AttributeMapping → AttributeMapping
without_modifier m = record m { modifier = blank }

module _ (pim : Catalogue) (texts : TextOps) (sp : SourceProduct) where
  -- One round of `_real_product_defaults`: the value is not transformed.
  abbrev pub set_default : Option (RpField × Scalar) → RealProduct → RealProduct
  set_default none rp = rp
  set_default (some (f, raw)) rp = elim (coerced texts f raw) [
    | none ↦ rp
    | some v ↦ set_rp pim f v rp
  ]

  abbrev pub set_defaults : List AttributeMapping → RealProduct → RealProduct
  set_defaults [] rp = rp
  set_defaults (m ∷ ms) rp = set_defaults ms (set_default (raw_target sp m) rp)

  -- `if sp.ean and "ean" not in defaults`
  abbrev pub default_ean : RealProduct → RealProduct
  default_ean rp = elim rp.ean [
    | some _ ↦ rp
    | none ↦ if str_eq sp.ean "" then rp else record rp { ean = some sp.ean }
  ]

  abbrev pub blank_row : RealProduct
  blank_row = record {
    pk = 0;
    sku = "";
    ean = none;
    weight = none;
    width = none;
    height = none;
    deep = none;
    kind_of_product = pim.default_kind;
  }

  -- The row that `get_or_create(sku=..., defaults=_real_product_defaults(...))` creates; a column
  -- that the defaults do not name has PIM's default.
  unfoldable pub real_product_defaults : List AttributeMapping → ℕ → String → RealProduct
  unfolding lookup_value
  real_product_defaults ms k sku = record (default_ean (set_defaults ms blank_row)) {
    pk = k;
    sku = sku;
  }

  -- The decimal fields of the defaults, as the tolerance check reads them.
  abbrev pub with_physical : Option (RpField × Scalar) → PhysicalValues → PhysicalValues
  with_physical (some (physical weight, raw)) v = elim (to_decimal texts raw) [
    | none ↦ v
    | some d ↦ record v { weight_of = some d }
  ]
  with_physical (some (physical width, raw)) v = elim (to_decimal texts raw) [
    | none ↦ v
    | some d ↦ record v { width_of = some d }
  ]
  with_physical (some (physical height, raw)) v = elim (to_decimal texts raw) [
    | none ↦ v
    | some d ↦ record v { height_of = some d }
  ]
  with_physical (some (physical deep, raw)) v = elim (to_decimal texts raw) [
    | none ↦ v
    | some d ↦ record v { deep_of = some d }
  ]
  with_physical _ v = v

  abbrev pub physical_from : List AttributeMapping → PhysicalValues → PhysicalValues
  physical_from [] v = v
  physical_from (m ∷ ms) v = physical_from ms (with_physical (raw_target sp m) v)

  unfoldable pub physical_defaults : List AttributeMapping → PhysicalValues
  unfolding lookup_value
  physical_defaults ms =
      physical_from ms
        (record { weight_of = none; width_of = none; height_of = none; deep_of = none })

  -- `current not in (None, "")`
  abbrev pub is_filled : Scalar → Bool
  is_filled null = false
  is_filled (text s) = not (str_eq s "")
  is_filled _ = true

  -- One round of `apply_real_product_mappings`: whether the field changed, and the row after.
  abbrev pub overwrite_value : Bool → RpField → Option Scalar → RealProduct → Bool × RealProduct
  overwrite_value force f none rp = (false, rp)
  overwrite_value force f (some v) rp =
      if (not force && is_filled (get_rp f rp)) || scalar_eq (get_rp f rp) v
      then (false, rp)
      else (true, set_rp pim f v rp)

  abbrev pub overwrite :
      Faults
      → Bool
      → AttributeMapping
      → Option (RpField × Scalar)
      → RealProduct
      → Result PushError ((Bool × RealProduct) × Additions)
  overwrite faults force m none rp = ok ((false, rp), nothing_added)
  overwrite faults force m (some (f, raw)) rp = elim (transform texts raw m.modifier) [
    | none ↦ err arithmetic_failed
    | some r ↦
        let done = overwrite_value force f (coerced texts f r.value) rp in
        ok (
          done,
          both_added (transform_failure sp faults r) (
              if done.0
              then transform_audit sp faults (dotted "real_product" m.target_identifier) r
              else nothing_added),
        )
  ]

  unfoldable pub apply_real_product_mappings :
      Faults
      → Bool
      → List AttributeMapping
      → RealProduct
      → Result PushError ((Bool × RealProduct) × Additions)
  unfolding lookup_value transform
  apply_real_product_mappings faults force [] rp = ok ((false, rp), nothing_added)
  apply_real_product_mappings faults force (m ∷ ms) rp = do
    first ← overwrite faults force m (raw_target sp m) rp
    rest ← apply_real_product_mappings faults force ms first.0.1
    ok ((first.0.0 || rest.0.0, rest.0.1), both_added first.1 rest.1)

  defaults_same :
      (ms : List AttributeMapping) (rp : RealProduct)
      → set_defaults (map without_modifier ms) rp ≡ set_defaults ms rp
  defaults_same [] rp = refl
  defaults_same (m ∷ ms) rp = defaults_same ms (set_default (raw_target sp m) rp)

  values_same :
      (ms : List AttributeMapping) (v : PhysicalValues)
      → physical_from (map without_modifier ms) v ≡ physical_from ms v
  values_same [] v = refl
  values_same (m ∷ ms) v = values_same ms (with_physical (raw_target sp m) v)

  -- The modifiers of the mappings have no part in a first push's RealProduct: with every modifier
  -- taken out, the row that is created and the values that the tolerance check compares are the same.
  pub defaults_ignore_modifiers :
      (ms : List AttributeMapping) (k : ℕ) (sku : String)
      → (real_product_defaults (map without_modifier ms) k sku ≡ real_product_defaults ms k sku)
        × (physical_defaults (map without_modifier ms) ≡ physical_defaults ms)
  unfolding real_product_defaults physical_defaults
  defaults_ignore_modifiers ms k sku = (
    ap (λ rp. record (default_ean rp) { pk = k; sku = sku }) (defaults_same ms blank_row),
    values_same ms (record { weight_of = none; width_of = none; height_of = none; deep_of = none }),
  )
