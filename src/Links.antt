-- ===== src/Links.antt =====
-- The link table and the operations of django_atlas/services/product_link_service.py on it. A table
-- is the list of its rows in primary-key order, so `.first()` is the first row that passes.
pub mod Consistency
pub mod Flags
pub mod Safety
pub mod Preserve
use entirius_django_atlas.Base.{
  ℕ, suc, ◌+◌, Bool, true, false, not, ◌&&◌, ◌==◌, Option, none, some, List, [], ◌∷◌, ◌++◌, String,
  str_eq, if◌then◌else◌, is_some, where_rows, first_row, exists_row, update_rows,
}
use entirius_django_atlas.Base.Int.{ℤ, pos}
use entirius_django_atlas.Base.Outcome.{Result, ok, err, ◌>>=◌, ◌>>◌, raise_if, or_raise}
use entirius_django_atlas.Model.{Source, SourceProductLink}
use entirius_django_atlas.KindGuard.{is_push_blocked, assert_push_allowed}

-- The table, and the key that its sequence gives to the next row.
pub record LinkTable : Type 0 where
  pub rows : List SourceProductLink
  pub next_pk : ℕ

pub data LinkError : Type 0 where
  sku_not_found source_not_found already_exists link_not_found not_editable : LinkError
  push_not_allowed : LinkError

abbrev pub has_pk : ℕ → SourceProductLink → Bool
has_pk k l = l.pk == k

abbrev pub has_sku : String → SourceProductLink → Bool
has_sku sku l = str_eq l.real_product_sku sku

abbrev pub of_pair : String → ℕ → SourceProductLink → Bool
of_pair sku source_pk l = str_eq l.real_product_sku sku && (l.source.pk == source_pk)

abbrev pub is_primary_for : String → SourceProductLink → Bool
is_primary_for sku l = str_eq l.real_product_sku sku && l.is_primary

abbrev pub unflag : SourceProductLink → SourceProductLink
unflag l = record l { is_primary = false }

abbrev pub flag : SourceProductLink → SourceProductLink
flag l = record l { is_primary = true }

-- `filter(real_product_sku=sku).exclude(pk=k).update(is_primary=False)`
abbrev pub clear_others : String → ℕ → List SourceProductLink → List SourceProductLink
clear_others sku k = update_rows (λ l. has_sku sku l && not (has_pk k l)) unflag

-- `link.save()`: the row of that key takes the object's values
abbrev pub save_row :
    ℕ → (SourceProductLink → SourceProductLink) → List SourceProductLink → List SourceProductLink
save_row k f = update_rows (has_pk k) f

unfoldable pub get_link : ℕ → LinkTable → Result LinkError SourceProductLink
get_link k t = or_raise (first_row (has_pk k) t.rows) link_not_found

unfoldable pub get_primary_source_idx : String → LinkTable → Option String
get_primary_source_idx sku t = elim (first_row (is_primary_for sku) t.rows) [
  | none ↦ none
  | some l ↦ some l.source.idx
]

unfoldable pub has_active_link : String → LinkTable → Bool
has_active_link sku t = exists_row (λ l. has_sku sku l && l.is_active) t.rows

-- `list_links`; `iexact` is the database's comparison without regard to case
unfoldable pub list_links :
    (String → String → Bool)
    → Option String
    → Option ℕ
    → Option Bool
    → LinkTable
    → List SourceProductLink
list_links iexact sku source_id active t =
    where_rows
      (λ l.
        (elim sku [ none ↦ true | some s ↦ iexact l.real_product_sku s ])
        && (elim source_id [ none ↦ true | some k ↦ l.source.pk == k ])
        && (elim active [ none ↦ true | some b ↦ if b then l.is_active else not l.is_active ]))
      t.rows

-- The columns that a new link gets, by keyword or by the model's defaults.
abbrev pub new_link : ℕ → String → Source → String → ℤ → Bool → String → SourceProductLink
new_link k sku source external_id priority is_primary notes = record {
  pk = k;
  real_product_sku = sku;
  source = source;
  external_id = external_id;
  priority = priority;
  is_primary = is_primary;
  is_active = true;
  notes = notes;
  manual_override = false;
  preferred_changed_at = none;
}

abbrev pub insert_row : SourceProductLink → LinkTable → LinkTable
insert_row l t = record { rows = t.rows ++ l ∷ []; next_pk = suc t.next_pk }

-- `sku_known` answers for `RealProduct.objects.filter(sku__iexact=...).exists()`
unfoldable pub create_link :
    (String → Bool)
    → List Source
    → String
    → String
    → String
    → ℤ
    → Bool
    → String
    → LinkTable
    → Result LinkError (SourceProductLink × LinkTable)
create_link sku_known sources sku source_idx external_id priority is_primary notes t = do
  raise_if (not (sku_known sku)) sku_not_found
  source ← or_raise (first_row (λ s. str_eq s.idx source_idx) sources) source_not_found
  raise_if (exists_row (of_pair sku source.pk) t.rows) already_exists
  raise_if (is_primary && is_push_blocked source) push_not_allowed
  let l = new_link t.next_pk sku source external_id priority is_primary notes
  let rows = if is_primary then update_rows (has_sku sku) unflag t.rows else t.rows
  ok (l, insert_row l (record t { rows = rows }))

-- The keyword arguments of `update_link`; `others` are the names outside `_EDITABLE_FIELDS`.
pub record LinkPatch : Type 0 where
  pub external_id : Option String
  pub priority : Option ℤ
  pub is_primary : Option Bool
  pub is_active : Option Bool
  pub notes : Option String
  pub others : List String

abbrev pub given {ℓ} : {A : Type ℓ} → Option A → A → A
given none old = old
given (some new) old = new

-- `for field, value in fields.items(): setattr(link, field, value)`
abbrev pub patch_link : LinkPatch → SourceProductLink → SourceProductLink
patch_link p l = record l {
  external_id = given p.external_id l.external_id;
  priority = given p.priority l.priority;
  is_primary = given p.is_primary l.is_primary;
  is_active = given p.is_active l.is_active;
  notes = given p.notes l.notes;
}

abbrev pub no_others : List String → Bool
no_others [] = true
no_others (_ ∷ _) = false

unfoldable pub update_link :
    ℕ → LinkPatch → LinkTable → Result LinkError (SourceProductLink × LinkTable)
update_link k p t = do
  raise_if (not (no_others p.others)) not_editable
  link ← or_raise (first_row (has_pk k) t.rows) link_not_found
  let set_it = given p.is_primary false
  raise_if (set_it && is_push_blocked link.source) push_not_allowed
  let rows = if set_it then clear_others link.real_product_sku k t.rows else t.rows
  ok (patch_link p link, record t { rows = save_row k (patch_link p) rows })

unfoldable pub delete_link : ℕ → LinkTable → LinkTable
delete_link k t = record t { rows = where_rows (λ l. not (has_pk k l)) t.rows }

abbrev pub or_empty : Option String → String
or_empty none = ""
or_empty (some s) = s

-- The branch of `upsert_for_push` where `update_or_create` found no row.
abbrev pub create_for_push : String → Source → Option String → Bool → LinkTable → SourceProductLink
create_for_push sku source external_id set_primary_if_first t =
    new_link t.next_pk sku source (or_empty external_id) (pos 0)
      (set_primary_if_first
        && not (exists_row (has_sku sku) t.rows)
        && not (is_push_blocked source))
      ""

-- Only `external_id` is written on a link that exists.
unfoldable pub upsert_for_push :
    String → Source → Option String → Bool → LinkTable → SourceProductLink × LinkTable
upsert_for_push sku source external_id set_primary_if_first t =
    elim (first_row (of_pair sku source.pk) t.rows) [
      | some l ↦
          let rename : SourceProductLink → SourceProductLink =
            λ l. record l { external_id = or_empty external_id } in
          (rename l, record t { rows = save_row l.pk rename t.rows })
      | none ↦
          let l = create_for_push sku source external_id set_primary_if_first t in
          (l, insert_row l t)
    ]

unfoldable pub set_primary : ℕ → LinkTable → Result LinkError (SourceProductLink × LinkTable)
set_primary k t = do
  link ← or_raise (first_row (has_pk k) t.rows) link_not_found
  assert_push_allowed link.source push_not_allowed
  let rows = clear_others link.real_product_sku k t.rows
  ok (flag link, record t { rows = save_row k flag rows })

unfoldable pub unset_primary : ℕ → LinkTable → Result LinkError (SourceProductLink × LinkTable)
unset_primary k t = do
  link ← or_raise (first_row (has_pk k) t.rows) link_not_found
  ok (unflag link, record t { rows = save_row k unflag t.rows })
