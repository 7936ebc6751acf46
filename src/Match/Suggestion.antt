-- ===== src/Match/Suggestion.antt =====
-- The suggestion for a group of duplicates.
use entirius_django_atlas.Base.{◌<◌, Option, none, some, List, [], ◌∷◌, All}
use entirius_django_atlas.Transform.{Decimal}
use entirius_django_atlas.Match.{Percent, diff_pct}
use entirius_django_atlas.Match.Difference.{◌≤%◌}

module _ (tolerance : Percent) where
  -- Every two of the values differ by at most the tolerance.
  abbrev pub AllClose : List Decimal → Type 0
  AllClose [] = Unit
  AllClose (w ∷ ws) = All (λ v. diff_pct w v ≤% tolerance) ws × AllClose ws

abbrev pub HasScales : Option (List Decimal) → Type 0
HasScales none = Unit
HasScales (some ws) = All (λ w. 0 < w.scale) ws
