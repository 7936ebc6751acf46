-- ===== src/Sku.antt =====
-- The SKU that a push generates (`generate_sku` of django_atlas/services/pim_writer.py) and the check
-- of django_atlas/validators.py. The SHA-1 digest, the split at slashes and `str.isdigit` are
-- parameters.
use Prim.Native.String.{◌++◌}
use entirius_django_atlas.Base.{
  Bool, false, ◌&&◌, ◌||◌, List, [], ◌∷◌, String, str_eq, if◌then◌else◌,
}
use entirius_django_atlas.Base.Outcome.{Result, ok, ◌>>◌, raise_if}
use entirius_django_atlas.Model.{Source}

pub record SkuText : Type 0 where
  -- the first twelve digits of the SHA-1 of a text
  pub digest : String → String
  -- `str.split("/")`
  pub split : String → List String
  pub is_digit : String → Bool

pub data SkuError : Type 0 where
  reserved_sku : SkuError

-- `RESERVED_SKU_SUFFIXES`
abbrev pub reserved_sku_suffixes : List String
reserved_sku_suffixes =
    "copy-attributes" ∷ "copy-translations" ∷ "add-to-channel" ∷ "toggle-override"
    ∷ "toggle-media-override" ∷ "links" ∷ "pictures" ∷ "files" ∷ "videos" ∷ "edit" ∷ "flush-special"
    ∷ "preview" ∷ "history" ∷ "changes" ∷ "acknowledge" ∷ "force-repush" ∷ "set-primary-source"
    ∷ "reset-primary-to-auto" ∷ []

abbrev pub is_one_of : String → List String → Bool
is_one_of s [] = false
is_one_of s (t ∷ ts) = str_eq s t || is_one_of s ts

module _ (lib : SkuText) where
  -- Whether the last segment, or the one before a number, is reserved; a SKU without a slash has one
  -- segment and is not.
  abbrev pub ends_reserved : List String → Bool
  ends_reserved [] = false
  ends_reserved (s ∷ []) = false
  ends_reserved (s ∷ t ∷ []) =
      is_one_of t reserved_sku_suffixes || (lib.is_digit t && is_one_of s reserved_sku_suffixes)
  ends_reserved (s ∷ t ∷ u ∷ rest) = ends_reserved (t ∷ u ∷ rest)

  unfoldable pub validate_routable_sku : String → Result SkuError (Unit {0})
  validate_routable_sku sku =
      raise_if (str_eq sku "bulk" || ends_reserved (lib.split sku)) reserved_sku

  abbrev pub with_prefix : String → String → String
  with_prefix sku_prefix digest =
      if str_eq sku_prefix "" then digest else sku_prefix ++ "-" ++ digest

  unfoldable pub generate_sku : Source → String → Result SkuError String
  unfolding validate_routable_sku
  generate_sku source external_id = do
    let sku = with_prefix source.sku_prefix (lib.digest external_id)
    validate_routable_sku sku
    ok sku
