-- ===== src/Transform.antt =====
-- django_atlas/services/value_transformer.py: the unit and text conversions of mapped values. A
-- Decimal is a sign and a fraction of natural numbers; a text that reads as NaN or an infinity is not
-- modelled. `rounded` stands for the context of Python's arithmetic: it gives the exact result rounded
-- to the context's precision, or none where the operation raises (`decimal.Overflow`). `parse_decimal`
-- stands for `Decimal(str)`, and `strip`, `lower` and `upper` for the methods of `str`.
use entirius_django_atlas.Base.{
  ℕ, ◌*◌, Bool, true, false, ◌||◌, Option, none, some, String, if◌then◌else◌,
}
use entirius_django_atlas.Model.Values.{Value}
use entirius_django_atlas.Model.Enums.{
  MappingValueModifier, grams_to_kg, kg_to_grams, mm_to_cm, cm_to_mm, mm_to_m,
  currency_minor_to_major, currency_major_to_minor, string_trim, string_lowercase, string_uppercase,
}

-- digits / scale, with a sign
pub record Decimal : Type 0 where
  pub negative : Bool
  pub digits : ℕ
  pub scale : ℕ

-- The values that a mapping reads: `number` is an int, a float or a Decimal, `other` a list or a
-- dictionary.
pub data Scalar : Type 0 where
  null : Scalar
  text : String → Scalar
  boolean : Bool → Scalar
  number : Decimal → Scalar
  other : Value → Scalar

-- The column `modifier`: empty, a member of the enumeration, or another text.
pub data ModifierField : Type 0 where
  blank : ModifierField
  member : MappingValueModifier → ModifierField
  foreign : ModifierField

pub data FailureReason : Type 0 where
  unknown_modifier invalid_decimal type_mismatch : FailureReason

pub record TransformResult : Type 0 where
  pub value : Scalar
  pub applied : Bool
  pub failure_reason : Option FailureReason

abbrev pub untouched : Scalar → TransformResult
untouched v = record { value = v; applied = false; failure_reason = none }

abbrev pub refused : Scalar → FailureReason → TransformResult
refused v reason = record { value = v; applied = false; failure_reason = some reason }

abbrev pub replaced : Scalar → TransformResult
replaced v = record { value = v; applied = true; failure_reason = none }

-- `value is None`
abbrev pub is_null : Scalar → Bool
is_null null = true
is_null _ = false

-- `modifier in (None, "", "none")`
abbrev pub is_unset : ModifierField → Bool
is_unset blank = true
is_unset (member MappingValueModifier.none) = true
is_unset _ = false

-- `decimal_value / factor if divide else decimal_value * factor`, before it is rounded
abbrev pub scaled : ℕ → Bool → Decimal → Decimal
scaled factor divide d =
    if divide
    then record d { scale = d.scale * factor }
    else record d { digits = d.digits * factor }

pub record TextOps : Type 0 where
  pub parse_decimal : String → Option Decimal
  pub rounded : Decimal → Option Decimal
  pub strip : String → String
  pub lower : String → String
  pub upper : String → String

module _ (ops : TextOps) where
  -- `_to_decimal`
  abbrev pub to_decimal : Scalar → Option Decimal
  to_decimal (number d) = some d
  to_decimal (text s) = ops.parse_decimal s
  to_decimal _ = none

  abbrev pub transformed : Option Decimal → Option TransformResult
  transformed none = none
  transformed (some d) = some (replaced (number d))

  abbrev pub from_decimal : Scalar → ℕ → Bool → Option Decimal → Option TransformResult
  from_decimal v factor divide none = some (refused v invalid_decimal)
  from_decimal v factor divide (some d) = transformed (ops.rounded (scaled factor divide d))

  -- `_numeric`; none is a raise of the arithmetic, which stands outside the `try`.
  abbrev pub numeric : Scalar → ℕ → Bool → Option TransformResult
  numeric v factor divide = from_decimal v factor divide (to_decimal v)

  -- `_string`
  abbrev pub on_text : Scalar → (String → String) → Option TransformResult
  on_text (text s) op = some (replaced (text (op s)))
  on_text v op = some (refused v type_mismatch)

  -- `_DISPATCH`
  unfoldable pub dispatch : MappingValueModifier → Scalar → Option TransformResult
  dispatch MappingValueModifier.none v = some (untouched v)
  dispatch grams_to_kg v = numeric v 1000 true
  dispatch kg_to_grams v = numeric v 1000 false
  dispatch mm_to_cm v = numeric v 10 true
  dispatch cm_to_mm v = numeric v 10 false
  dispatch mm_to_m v = numeric v 1000 true
  dispatch currency_minor_to_major v = numeric v 100 true
  dispatch currency_major_to_minor v = numeric v 100 false
  dispatch string_trim v = on_text v ops.strip
  dispatch string_lowercase v = on_text v ops.lower
  dispatch string_uppercase v = on_text v ops.upper

  -- `modifier not in MAPPING_VALUE_MODIFIERS`, else `_DISPATCH[modifier]`
  unfoldable pub dispatched : ModifierField → Scalar → Option TransformResult
  unfolding dispatch
  dispatched blank v = some (refused v unknown_modifier)
  dispatched foreign v = some (refused v unknown_modifier)
  dispatched (member m) v = dispatch m v

  unfoldable pub transform : Scalar → ModifierField → Option TransformResult
  unfolding dispatched
  transform v modifier =
      if is_null v || is_unset modifier then some (untouched v) else dispatched modifier v
