-- ===== src/Match.antt =====
-- django_atlas/services/realproduct_match_service.py and the suggestion of
-- duplicate_detection_service.py. A percentage is a fraction of natural numbers, compared by cross
-- multiplication; the code's rounding to 28 digits is not modelled. `strip` stands for `str.strip`.
pub mod Difference
pub mod Tolerance
pub mod Suggestion
use entirius_django_atlas.Base.{
  ℕ, ◌+◌, ◌-◌, ◌*◌, Bool, true, false, not, ◌&&◌, ◌==◌, Option, none, some, List, [], ◌∷◌, ◌++◌,
  String, str_eq, if◌then◌else◌, ltb, leb, first_row,
}
use entirius_django_atlas.Base.Int.{ℤ, pos, negsuc, pos_part, neg_part}
use entirius_django_atlas.Model.{Source, SourceProduct, RealProduct}
use entirius_django_atlas.Transform.{Decimal}

-- A percentage num / den
pub record Percent : Type 0 where
  pub num : ℕ
  pub den : ℕ

abbrev pub larger : ℕ → ℕ → ℕ
larger a b = if leb a b then b else a

abbrev pub distance : ℕ → ℕ → ℕ
distance a b = (a - b) + (b - a)

abbrev pub same_sign : Bool → Bool → Bool
same_sign true true = true
same_sign false false = true
same_sign _ _ = false

-- `_diff_pct`: |a - b| / max(|a|, |b|, 0.001) * 100, over the common scale
unfoldable pub diff_pct : Decimal → Decimal → Percent
diff_pct a b =
    let x = a.digits * b.scale in
    let y = b.digits * a.scale in
    let diff = if same_sign a.negative b.negative then distance x y else x + y in
    record { num = 100_000 * diff; den = larger (larger (1000 * x) (1000 * y)) (a.scale * b.scale) }

-- `p > q`
abbrev pub above : Percent → Percent → Bool
above p q = ltb (q.num * p.den) (p.num * q.den)

-- `_PHYSICAL_FIELDS`
pub data PhysicalField : Type 0 where
  weight width height deep : PhysicalField

-- `_real_product_defaults(...)`, the decimal fields
pub record PhysicalValues : Type 0 where
  pub weight_of : Option Decimal
  pub width_of : Option Decimal
  pub height_of : Option Decimal
  pub deep_of : Option Decimal

abbrev pub value_of : PhysicalValues → PhysicalField → Option Decimal
value_of v weight = v.weight_of
value_of v width = v.width_of
value_of v height = v.height_of
value_of v deep = v.deep_of

-- A decimal column, in units of 1/10000
abbrev pub of_column : ℤ → Decimal
of_column (pos n) = record { negative = false; digits = n; scale = 10_000 }
of_column (negsuc n) = record { negative = true; digits = 1 + n; scale = 10_000 }

abbrev pub column : Option ℤ → Option Decimal
column none = none
column (some z) = some (of_column z)

abbrev pub columns_of : RealProduct → PhysicalValues
columns_of rp = record {
  weight_of = column rp.weight;
  width_of = column rp.width;
  height_of = column rp.height;
  deep_of = column rp.deep;
}

pub record ToleranceResult : Type 0 where
  pub passed : Bool
  pub failed_fields : List PhysicalField
  pub skipped_fields : List PhysicalField
  pub diffs_pct : List (PhysicalField × Percent)

-- The lists that the loop fills.
pub record Collected : Type 0 where
  pub failed : List PhysicalField
  pub skipped : List PhysicalField
  pub diffs : List (PhysicalField × Percent)

abbrev pub missing_field : Bool → PhysicalField → Collected → Collected
missing_field strict f c =
    if strict
    then record c { failed = c.failed ++ f ∷ [] }
    else record c { skipped = c.skipped ++ f ∷ [] }

-- One round of the loop over the fields.
unfoldable pub check_field :
    ℕ → Bool → PhysicalField → Option Decimal → Option Decimal → Collected → Collected
unfolding diff_pct
check_field tolerance strict f (some a) (some b) c =
    let d = diff_pct a b in
    let noted = record c { diffs = c.diffs ++ (f, d) ∷ [] } in
    if above d (record { num = tolerance; den = 1 })
    then record noted { failed = c.failed ++ f ∷ [] }
    else noted
check_field tolerance strict f _ _ c = missing_field strict f c

abbrev pub nothing_collected : Collected
nothing_collected = record { failed = []; skipped = []; diffs = [] }

abbrev pub is_empty {ℓ} : {A : Type ℓ} → List A → Bool
is_empty [] = true
is_empty (_ ∷ _) = false

unfoldable pub check_fields :
    ℕ → Bool → PhysicalValues → PhysicalValues → List PhysicalField → Collected → Collected
unfolding check_field
check_fields tolerance strict new old [] c = c
check_fields tolerance strict new old (f ∷ fs) c =
    check_fields tolerance strict new old fs
      (check_field tolerance strict f (value_of new f) (value_of old f) c)

abbrev pub physical_fields : List PhysicalField
physical_fields = weight ∷ width ∷ height ∷ deep ∷ []

abbrev pub result_of : Collected → ToleranceResult
result_of c = record {
  passed = is_empty c.failed;
  failed_fields = c.failed;
  skipped_fields = c.skipped;
  diffs_pct = c.diffs;
}

unfoldable pub physical_tolerance_check : PhysicalValues → RealProduct → Source → ToleranceResult
unfolding check_fields
physical_tolerance_check rp_defaults existing_rp source = result_of (
    check_fields source.realproduct_match_tolerance_pct source.realproduct_match_strict rp_defaults
      (columns_of existing_rp) physical_fields nothing_collected)

-- `RealProduct.objects.filter(ean=ean)`
abbrev pub has_ean : String → RealProduct → Bool
has_ean ean rp = elim rp.ean [ none ↦ false | some e ↦ str_eq e ean ]

unfoldable pub find_match_by_ean :
    (String → String) → SourceProduct → Source → List RealProduct → Option RealProduct
find_match_by_ean strip sp source real_products =
    if source.disable_ean_auto_link
    then none
    else (let ean = strip sp.ean in
        if str_eq ean "" then none else first_row (has_ean ean) real_products)

-- duplicate_detection_service

pub data SuggestedAction : Type 0 where
  merge review : SuggestedAction

abbrev pub with_weight : Option Decimal → Option (List Decimal) → Option (List Decimal)
with_weight (some w) (some ws) = some (w ∷ ws)
with_weight _ _ = none

-- None if `any(w is None for w in weights)`
abbrev pub all_weights : List RealProduct → Option (List Decimal)
all_weights [] = some []
all_weights (rp ∷ rps) = with_weight (column rp.weight) (all_weights rps)

abbrev pub raised : Percent → Percent → Percent
raised best d = if above d best then d else best

-- `for w_j in weights[i + 1 :]`
unfoldable pub raise_over : Decimal → List Decimal → Percent → Percent
unfolding diff_pct
raise_over w [] best = best
raise_over w (v ∷ vs) best = raise_over w vs (raised best (diff_pct w v))

unfoldable pub max_diff_from : List Decimal → Percent → Percent
unfolding raise_over
max_diff_from [] best = best
max_diff_from (w ∷ ws) best = max_diff_from ws (raise_over w ws best)

-- `_suggest_action`, without the text for the operator
unfoldable pub suggest_action : Percent → List RealProduct → SuggestedAction
unfolding max_diff_from
suggest_action tolerance rps = elim (all_weights rps) [
  | none ↦ review
  | some weights ↦
      if above (max_diff_from weights (record { num = 0; den = 1 })) tolerance
      then review
      else merge
]
