-- ===== src/Model/Values.antt =====
-- The JSON-like values that feeds put into `attributes` and `physical` (Python's `Any`), with the
-- equality of Python: dictionaries are compared without regard to order, and a Boolean is the number
-- 0 or 1. `number z k` is z / k: an integer, or a fractional number of JSON as its decimal digits.
use entirius_django_atlas.Base.{
  ℕ, Bool, true, false, ◌&&◌, ◌==◌, ◌+◌, ◌*◌, Option, none, some, List, [], ◌∷◌, String, str_eq,
  if◌then◌else◌,
}
use entirius_django_atlas.Base.Int.{ℤ, pos, pos_part, neg_part}

mutual
  pub data Value : Type 0 where
    null : Value
    text : String → Value
    boolean : Bool → Value
    number : ℤ → ℕ → Value
    array : Items → Value
    object : Fields → Value

  pub data Items : Type 0 where
    nil : Items
    cons : Value → Items → Items

  pub data Fields : Type 0 where
    end : Fields
    field : String → Value → Fields → Fields

-- `dict[str, Any]`
abbrev pub Attributes : Type 0
Attributes = List (String × Value)

-- `attributes.get(key)`, where a missing key reads as `None`
unfoldable pub get_attribute : String → Attributes → Value
get_attribute key [] = null
get_attribute key ((k, v) ∷ rest) = if str_eq k key then v else get_attribute key rest

-- `key in attributes`
pub has_attribute : String → Attributes → Bool
has_attribute key [] = false
has_attribute key ((k, v) ∷ rest) = if str_eq k key then true else has_attribute key rest

field_value : String → Fields → Option Value
field_value key end = none
field_value key (field k v rest) = if str_eq k key then some v else field_value key rest

-- m / k = n / j
abbrev pub fraction_eq : ℤ → ℕ → ℤ → ℕ → Bool
fraction_eq m k n j = pos_part m * j + neg_part n * k == pos_part n * k + neg_part m * j

abbrev pub of_bool : Bool → ℤ
of_bool true = pos 1
of_bool false = pos 0

count_fields : Fields → ℕ
count_fields end = 0
count_fields (field _ _ rest) = Prim.Native.Nat.◌+◌ 1 (count_fields rest)

-- `a == b`
unfoldable mutual
  unfolding field_value count_fields

  pub value_eq : Value → Value → Bool
  value_eq null null = true
  value_eq (text s) (text t) = str_eq s t
  value_eq (number m k) (number n j) = fraction_eq m k n j
  value_eq (boolean a) (boolean b) = fraction_eq (of_bool a) 1 (of_bool b) 1
  value_eq (boolean a) (number n j) = fraction_eq (of_bool a) 1 n j
  value_eq (number m k) (boolean b) = fraction_eq m k (of_bool b) 1
  value_eq (array xs) (array ys) = items_eq xs ys
  value_eq (object f) (object g) = (count_fields f == count_fields g) && fields_in f g
  value_eq _ _ = false

  pub items_eq : Items → Items → Bool
  items_eq nil nil = true
  items_eq (cons x xs) (cons y ys) = value_eq x y && items_eq xs ys
  items_eq _ _ = false

  pub fields_in : Fields → Fields → Bool
  fields_in end g = true
  fields_in (field k v rest) g =
      (elim (field_value k g) [ none ↦ false | some w ↦ value_eq v w ]) && fields_in rest g
