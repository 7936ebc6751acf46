-- ===== src/ChangeLog.antt =====
-- django_atlas/services/change_log_service.py: the timeline and the acknowledge of the
-- change log. `iexact` is the database's comparison without regard to case; a row has the
-- columns that the service reads and writes, and a time is in seconds.
pub mod Acknowledge
pub mod Newest
use entirius_django_atlas.Base.{
  ℕ, suc, ◌==◌, Bool, true, false, not, ◌&&◌, ◌||◌, Option, none, some, List, [], ◌∷◌, ◌++◌, String,
  str_eq, if◌then◌else◌, is_some, ltb, leb, where_rows, first_row, exists_row, count_rows,
  update_rows, take,
}
use entirius_django_atlas.Base.Int.{ltb_ℤ}
use entirius_django_atlas.Base.Outcome.{Result, ok, err, ◌>>=◌, ◌>>◌, raise_if}
use entirius_django_atlas.Model.{SourceProductLink}
use entirius_django_atlas.Model.Enums.{ChangeLogSource}

-- A row of SourceProductChangeLog.
pub record ChangeRow : Type 0 where
  pub pk : ℕ
  pub source_product : ℕ
  pub real_product_sku : String
  pub source : String
  pub applied_to_pim : Bool
  pub applied_to_pim_at : Option ℕ
  pub created_at : ℕ

-- The table in primary-key order, and the key of the next row.
pub record ChangeTable : Type 0 where
  pub rows : List ChangeRow
  pub next_pk : ℕ

pub data ChangeLogError : Type 0 where
  sku_required both_modes no_mode unknown_ids sku_not_found unknown_source : ChangeLogError

-- `not sku`
abbrev pub is_blank : String → Bool
is_blank s = str_eq s ""

abbrev pub mem_key : ℕ → List ℕ → Bool
mem_key k [] = false
mem_key k (j ∷ js) = (k == j) || mem_key k js

abbrev pub keys_of : List ChangeRow → List ℕ
keys_of [] = []
keys_of (r ∷ rows) = r.pk ∷ keys_of rows

-- `set(ids) - set(known)` is not empty
abbrev pub some_unknown : List ℕ → List ℕ → Bool
some_unknown [] known = false
some_unknown (k ∷ ids) known = not (mem_key k known) || some_unknown ids known

-- `not change_ids`
abbrev pub no_ids : Option (List ℕ) → Bool
no_ids none = true
no_ids (some []) = true
no_ids (some (_ ∷ _)) = false

abbrev pub acknowledged_at : ℕ → ChangeRow → ChangeRow
acknowledged_at now r = record r { applied_to_pim = true; applied_to_pim_at = some now }

-- The row that `audit_service.log_change` adds for an acknowledge.
abbrev pub acknowledge_row : ℕ → ℕ → ℕ → String → ChangeRow
acknowledge_row k now sp_id sku = record {
  pk = k;
  source_product = sp_id;
  real_product_sku = sku;
  source = "operator_acknowledge";
  applied_to_pim = true;
  applied_to_pim_at = some now;
  created_at = now;
}

-- The count and the table after the update: `found` is the first row, `updated` and `rows` what
-- the update gives. `audit_fails` tells that the product is gone or that the write of the audit
-- row failed; both are caught.
abbrev pub with_audit_row :
    Bool → ℕ → String → Option ChangeRow → ℕ → List ChangeRow → ChangeTable → ℕ × ChangeTable
with_audit_row audit_fails now sku none updated rows t = (0, t)
with_audit_row audit_fails now sku (some r) updated rows t = (
  updated,
  if ltb 0 updated && not audit_fails
      then record {
        rows = rows ++ acknowledge_row t.next_pk now r.source_product sku ∷ [];
        next_pk = suc t.next_pk;
      }
      else record t { rows = rows },
)

module _ (iexact : String → String → Bool) where
  abbrev pub of_sku : String → ChangeRow → Bool
  of_sku sku r = iexact r.real_product_sku sku

  -- `base_qs`
  abbrev pub unseen : String → ChangeRow → Bool
  unseen sku r = iexact r.real_product_sku sku && not r.applied_to_pim

  -- The rows that the call is about: `target_qs`, as a test.
  unfoldable pub acknowledge_target :
      String → Option (List ℕ) → List ChangeRow → Result ChangeLogError (ChangeRow → Bool)
  acknowledge_target sku none rows = ok (unseen sku)
  acknowledge_target sku (some ids) rows = do
    let valid_ids = keys_of (where_rows (λ r. unseen sku r && mem_key r.pk ids) rows)
    raise_if (some_unknown ids valid_ids) unknown_ids
    ok (λ r. unseen sku r && mem_key r.pk valid_ids)

  unfoldable pub mark_rows : Bool → ℕ → String → (ChangeRow → Bool) → ChangeTable → ℕ × ChangeTable
  mark_rows audit_fails now sku target t =
      with_audit_row audit_fails now sku (first_row target t.rows) (count_rows target t.rows)
        (update_rows target (acknowledged_at now) t.rows) t

  unfoldable pub acknowledge :
      Bool
      → ℕ
      → String
      → Option (List ℕ)
      → Bool
      → ChangeTable
      → Result ChangeLogError (ℕ × ChangeTable)
  acknowledge audit_fails now sku change_ids all_unseen t = do
    raise_if (is_blank sku) sku_required
    raise_if (is_some change_ids && all_unseen) both_modes
    raise_if (no_ids change_ids && not all_unseen) no_mode
    target ← acknowledge_target sku change_ids t.rows
    ok (mark_rows audit_fails now sku target t)

-- `order_by("-created_at", "-pk")`
abbrev pub later : ChangeRow → ChangeRow → Bool
later a b = ltb b.created_at a.created_at || ((a.created_at == b.created_at) && ltb b.pk a.pk)

unfoldable pub insert_change : ChangeRow → List ChangeRow → List ChangeRow
insert_change r [] = r ∷ []
insert_change r (q ∷ rows) = if later r q then r ∷ q ∷ rows else q ∷ insert_change r rows

unfoldable pub newest_first : List ChangeRow → List ChangeRow
unfolding insert_change
newest_first [] = []
newest_first (r ∷ rows) = insert_change r (newest_first rows)

-- `_MAX_TIMELINE`
abbrev pub max_timeline : ℕ
max_timeline = 100

-- `CHANGE_LOG_SOURCES`: the values of the members of ChangeLogSource
abbrev pub change_log_sources : List String
change_log_sources =
    "full_sync" ∷ "delta_sync" ∷ "init_push" ∷ "force_repush" ∷ "operator_sp_edit" ∷ "auto_link"
    ∷ "auto_primary_switch" ∷ "manual_override" ∷ "emergency_switch" ∷ "operator_acknowledge"
    ∷ "language_fallback" ∷ "mapping_transform" ∷ "cost_signal_received"
    ∷ "cost_ignored_non_primary" ∷ "cost_ignored_no_link" ∷ "cost_skipped_admin_override"
    ∷ "cost_skipped_resolution_failed" ∷ "manual_unlink" ∷ "manual_merge" ∷ "physical_skipped"
    ∷ "physical_overwrite" ∷ []

abbrev pub mem_text : String → List String → Bool
mem_text s [] = false
mem_text s (t ∷ ts) = str_eq s t || mem_text s ts

abbrev pub all_in : List String → List String → Bool
all_in [] known = true
all_in (s ∷ ss) known = mem_text s known && all_in ss known

-- The payload of the timeline: the link's source and the counts beside the rows.
pub record Timeline : Type 0 where
  pub has_source : Bool
  pub source_idx : Option String
  pub unseen_count : ℕ
  pub last_change_at : Option ℕ
  pub changes : List ChangeRow

abbrev pub passes_since : Option ℕ → ChangeRow → Bool
passes_since none r = true
passes_since (some since) r = leb since r.created_at

-- `if sources:` an empty list is no filter
abbrev pub passes_sources : Option (List String) → ChangeRow → Bool
passes_sources none r = true
passes_sources (some []) r = true
passes_sources (some (s ∷ ss)) r = mem_text r.source (s ∷ ss)

abbrev pub created_of : List ChangeRow → Option ℕ
created_of [] = none
created_of (r ∷ _) = some r.created_at

abbrev pub idx_of : Option SourceProductLink → Option String
idx_of none = none
idx_of (some l) = some l.source.idx

abbrev pub given_sources : Option (List String) → List String
given_sources none = []
given_sources (some sources) = sources

abbrev pub selected :
    (String → String → Bool) → String → Option ℕ → Option (List String) → Bool → ChangeRow → Bool
selected iexact sku since sources unseen_only r =
    of_sku iexact sku r
    && passes_since since r
    && passes_sources sources r
    && (if unseen_only then not r.applied_to_pim else true)

-- `order_by("-is_primary", "priority", "pk")`
abbrev pub comes_before : SourceProductLink → SourceProductLink → Bool
comes_before a b =
    (a.is_primary && not b.is_primary)
    || (not (b.is_primary && not a.is_primary)
        && (ltb_ℤ a.priority b.priority || (not (ltb_ℤ b.priority a.priority) && ltb a.pk b.pk)))

abbrev pub earlier : SourceProductLink → Option SourceProductLink → SourceProductLink
earlier l none = l
earlier l (some m) = if comes_before l m then l else m

-- The first active link of the SKU in that order.
unfoldable pub active_link :
    (String → String → Bool) → String → List SourceProductLink → Option SourceProductLink
active_link iexact sku [] = none
active_link iexact sku (l ∷ rows) =
    let rest = active_link iexact sku rows in
    if iexact l.real_product_sku sku && l.is_active then some (earlier l rest) else rest

-- `source_product_id` of the call is not kept.
unfoldable pub list_for_sku :
    (String → String → Bool)
    → List SourceProductLink
    → String
    → Option ℕ
    → Option (List String)
    → Bool
    → List ChangeRow
    → Result ChangeLogError Timeline
unfolding newest_first active_link
list_for_sku iexact links sku since sources unseen_only rows = do
  raise_if (is_blank sku) sku_required
  raise_if
      (not (is_some (active_link iexact sku links)) && not (exists_row (of_sku iexact sku) rows))
      sku_not_found
  raise_if (not (all_in (given_sources sources) change_log_sources)) unknown_source
  ok (record {
    has_source = is_some (active_link iexact sku links);
    source_idx = idx_of (active_link iexact sku links);
    unseen_count = count_rows (unseen iexact sku) rows;
    last_change_at = created_of (newest_first (where_rows (of_sku iexact sku) rows));
    changes =
        take max_timeline
          (newest_first (where_rows (selected iexact sku since sources unseen_only) rows));
  })
