-- ===== src/Pim/Lookup.antt =====
-- What a push reads of the product: the value of a mapping's field, and the feature set and language
-- that it uses.
use entirius_django_atlas.Base.{
  ◌*◌, ◌==◌, Bool, true, false, not, ◌&&◌, ◌||◌, Option, none, some, List, [], ◌∷◌, String, str_eq,
  if◌then◌else◌, exists_row,
}
use entirius_django_atlas.Base.Int.{ℤ, pos, negsuc}
use entirius_django_atlas.Base.Outcome.{Result, or_raise}
use entirius_django_atlas.Model.{Source, SourceProduct}
use entirius_django_atlas.Model.Values.{Value, get_attribute, value_eq}
use entirius_django_atlas.Mapping.{SourceMappingProfile}
use entirius_django_atlas.Transform.{Decimal, Scalar, null, text, boolean, number, other}
use entirius_django_atlas.Match.{of_column, same_sign}
use entirius_django_atlas.Pim.{Catalogue, ChannelRow, PushError, no_feature_set}

-- An integer of the feed as a Decimal
abbrev pub of_int : ℤ → Decimal
of_int (pos n) = record { negative = false; digits = n; scale = 1 }
of_int (negsuc n) = record { negative = true; digits = Prim.Native.Nat.◌+◌ 1 n; scale = 1 }

abbrev pub scalar_of : Value → Scalar
scalar_of Value.null = null
scalar_of (Value.text s) = text s
scalar_of (Value.boolean b) = boolean b
scalar_of (Value.number z k) = number (record (of_int z) { scale = k })
scalar_of v = other v

abbrev pub cost_value : Option ℤ → Scalar
cost_value none = null
cost_value (some z) = number (of_column z)

-- `sp.ean or None`
abbrev pub text_or_null : String → Scalar
text_or_null s = if str_eq s "" then null else text s

-- `_lookup_value`
unfoldable pub lookup_value : SourceProduct → String → Scalar
lookup_value sp source_field =
    if str_eq source_field "__name__"
    then text sp.name
    else (if str_eq source_field "__cost__"
        then cost_value sp.cost
        else (if str_eq source_field "__ean__"
            then text_or_null sp.ean
            else scalar_of (get_attribute source_field sp.attributes)))

-- The first that is neither None nor empty.
abbrev pub first_given : List (Option String) → Option String
first_given [] = none
first_given (none ∷ rest) = first_given rest
first_given (some s ∷ rest) = if str_eq s "" then first_given rest else some s

-- `resolve_feature_set`; `feed` is the feature set of the product's feed
unfoldable pub resolve_feature_set :
    SourceProduct → Option String → SourceMappingProfile → Source → Result PushError String
resolve_feature_set sp feed profile source =
    or_raise
      (first_given (
        sp.feature_set_idx_override ∷ feed ∷ profile.feature_set_idx
        ∷ source.default_feature_set_idx ∷ []))
      no_feature_set

pub data LanguageOrigin : Type 0 where
  profile_override source_default channel_default_fallback : LanguageOrigin

pub record LanguageResolution : Type 0 where
  pub language : String
  pub origin : LanguageOrigin
  pub used_fallback : Bool

abbrev pub speaks : ChannelRow → String → Bool
speaks channel language = exists_row (λ l. str_eq l language) channel.languages

-- `resolve_language`
unfoldable pub resolve_language : Catalogue → SourceMappingProfile → Source → String
resolve_language pim profile source = elim profile.import_language [
  | some k ↦ pim.iso2 k
  | none ↦ source.default_language
]

unfoldable pub resolve_language_for_channel :
    Catalogue → SourceMappingProfile → Source → ChannelRow → LanguageResolution
resolve_language_for_channel pim profile source channel = elim profile.import_language [
  | some k ↦ record { language = pim.iso2 k; origin = profile_override; used_fallback = false }
  | none ↦
      if speaks channel source.default_language
      then record {
        language = source.default_language;
        origin = source_default;
        used_fallback = false;
      }
      else record {
        language = channel.default_language;
        origin = channel_default_fallback;
        used_fallback = true;
      }
]

abbrev pub same_decimal : Decimal → Decimal → Bool
same_decimal a b =
    ((a.digits * b.scale) == (b.digits * a.scale))
    && (same_sign a.negative b.negative || (a.digits == 0))

abbrev pub scalar_eq : Scalar → Scalar → Bool
scalar_eq null null = true
scalar_eq (text s) (text t) = str_eq s t
scalar_eq (boolean true) (boolean b) = b
scalar_eq (boolean false) (boolean b) = not b
scalar_eq (number a) (number b) = same_decimal a b
scalar_eq (other v) (other w) = value_eq v w
scalar_eq _ _ = false
