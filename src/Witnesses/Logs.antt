-- ===== src/Witnesses/Logs.antt =====
-- The theorems on the change log at a small table.
use entirius_django_atlas.Base.{
  ℕ, ◌≡◌, ◌↔◌, ◌⊎◌, ◌++◌, List, where_rows, ◌≤◌, refl, Bool, true, false, none, some, String, [],
  ◌∷◌, str_eq, length,
}
use entirius_django_atlas.Base.Outcome.{ok}
use entirius_django_atlas.ChangeLog.{
  ChangeRow, ChangeTable, Timeline, acknowledge, acknowledge_target, mark_rows, list_for_sku,
  active_link, is_blank, selected,
}
use entirius_django_atlas.ChangeLog.Acknowledge.{
  acknowledge_lem, acknowledge_accepts, Marked, IsAnswerable,
}
use entirius_django_atlas.ChangeLog.Newest.{
  acknowledge_settles, list_for_sku_lem, IsNewestFirst, IsWanted,
}
use mathlib.Core.List.{Permᴰ}
use entirius_django_atlas.Witnesses.{value_or}

abbrev a_change : ℕ → String → Bool → ℕ → ChangeRow
a_change k sku applied created = record {
  pk = k;
  source_product = 11;
  real_product_sku = sku;
  source = "full_sync";
  applied_to_pim = applied;
  applied_to_pim_at = none;
  created_at = created;
}

abbrev three_changes : ChangeTable
three_changes = record {
  rows = a_change 1 "LAMP" false 50 ∷ a_change 2 "VASE" false 60 ∷ a_change 3 "LAMP" false 70 ∷ [];
  next_pk = 4;
}

abbrev marked_all : ℕ × ChangeTable
unfolding acknowledge acknowledge_target mark_rows str_eq
marked_all =
    value_or (0, three_changes) (acknowledge str_eq false 90 "LAMP" none true three_changes)

abbrev lamp_timeline : Timeline
unfolding marked_all acknowledge acknowledge_target mark_rows str_eq list_for_sku active_link
lamp_timeline =
    value_or
      (record {
        has_source = false;
        source_idx = none;
        unseen_count = 7;
        last_change_at = none;
        changes = [];
      })
      (list_for_sku str_eq [] "LAMP" none none false marked_all.1.rows)

marked_all_lem :
    acknowledge str_eq false 90 "LAMP" none true three_changes ≡ ok (marked_all.0, marked_all.1)
unfolding acknowledge acknowledge_target mark_rows str_eq
marked_all_lem = refl

lamp_timeline_lem :
    list_for_sku str_eq [] "LAMP" none none false marked_all.1.rows ≡ ok lamp_timeline
unfolding acknowledge acknowledge_target mark_rows str_eq list_for_sku active_link
lamp_timeline_lem = refl

marked_two : marked_all.0 ≡ 2
unfolding acknowledge acknowledge_target mark_rows str_eq
marked_two = refl

acknowledge_lem_example : Marked str_eq "LAMP" 90 none three_changes marked_all.0 marked_all.1
acknowledge_lem_example =
    acknowledge_lem str_eq "LAMP" false 90 none true three_changes marked_all_lem

acknowledge_accepts_example :
    ((r : ℕ × ChangeTable) × (acknowledge str_eq true 90 "LAMP" (some (3 ∷ [])) false three_changes
        ≡ ok r))
    ↔ ((is_blank "LAMP" ≡ false)
        × IsAnswerable str_eq "LAMP" (some (3 ∷ [])) false three_changes.rows)
acknowledge_accepts_example =
    acknowledge_accepts str_eq "LAMP" true 90 (some (3 ∷ [])) false three_changes

acknowledge_settles_example :
    (acknowledge str_eq true 95 "LAMP" none true marked_all.1 ≡ ok (0, marked_all.1))
    × (lamp_timeline.unseen_count ≡ 0)
acknowledge_settles_example =
    acknowledge_settles str_eq "LAMP" false true 90 95 three_changes [] none none false
      marked_all_lem lamp_timeline_lem

list_for_sku_lem_example :
    ((r : ChangeRow)
      → (selected str_eq "LAMP" none none false r ≡ true)
        ↔ IsWanted str_eq "LAMP" none none false r)
    × (rest : List ChangeRow) × Permᴰ
        (lamp_timeline.changes ++ rest)
        (where_rows (selected str_eq "LAMP" none none false) marked_all.1.rows)
    × IsNewestFirst (lamp_timeline.changes ++ rest)
    × (length lamp_timeline.changes ≤ 100)
    × ((rest ≡ []) ⊎ (length lamp_timeline.changes ≡ 100))
list_for_sku_lem_example =
    list_for_sku_lem str_eq "LAMP" none none false [] marked_all.1.rows lamp_timeline_lem
