-- ===== src/Links/Flags.antt =====
-- Who is primary after `set_primary`, and what `upsert_for_push` may not touch.
use entirius_django_atlas.Base.{
  ℕ, ◌≡◌, refl, Bool, true, false, Option, some, List, [], ◌∷◌, ◌++◌, String, str_eq, str_eq→eq,
  str_eq_refl, if◌then◌else◌, inl, inr, Bool-cases, Option-cases, first_row, exists_row,
  update_rows, map, arith, length, All, exists_row-first_row,
}
use mathlib.Core.List.{append-nil, map-append}
use entirius_django_atlas.Base.Int.{ℤ}
use entirius_django_atlas.Base.Outcome.{ok}
use entirius_django_atlas.Model.{Source, SourceProductLink}
use entirius_django_atlas.KindGuard.{is_push_blocked}
use entirius_django_atlas.Links.{
  LinkTable, has_pk, is_primary_for, of_pair, flag, save_row, clear_others, set_primary,
  get_primary_source_idx, upsert_for_push, create_for_push, or_empty,
}
use entirius_django_atlas.Links.Consistency.{IsConsistent, OnlySku, found_sku}

-- The search for a primary link finds the one that the flag moved to.
pub first_primary_moved :
    (f : SourceProductLink → SourceProductLink) (k : ℕ) (link : SourceProductLink)
    (rows : List SourceProductLink)
    → (f link).is_primary ≡ true
    → (f link).real_product_sku ≡ link.real_product_sku
    → first_row (has_pk k) rows ≡ some link
    → first_row
        (is_primary_for link.real_product_sku)
        (save_row k f (clear_others link.real_product_sku k rows))
      ≡ some (f link)
first_primary_moved f k link [] p q h = cc
first_primary_moved f k link (r ∷ rows) p q h = elim (Bool-cases (has_pk k r)) [
  | inl e ↦ ground (arith, p, q, str_eq_refl link.real_product_sku)
  | inr e ↦ ground (arith, first_primary_moved f k link rows p q)
]

-- Other SKUs keep the primary link that they had.
pub first_primary_elsewhere :
    (f : SourceProductLink → SourceProductLink) (k : ℕ) (sku s : String)
    (rows : List SourceProductLink)
    → ((l : SourceProductLink) → (f l).real_product_sku ≡ l.real_product_sku)
    → str_eq sku s ≡ false
    → All (OnlySku k sku) rows
    → first_row (is_primary_for s) (save_row k f (clear_others sku k rows))
      ≡ first_row (is_primary_for s) rows
first_primary_elsewhere f k sku s [] keeps ne h = refl
first_primary_elsewhere f k sku s (r ∷ rows) keeps ne h = ground (
  arith,
  keeps r,
  h.0,
  str_eq→eq r.real_product_sku sku,
  first_primary_elsewhere f k sku s rows keeps ne h.1,
)

-- On a table that meets its constraints, a successful `set_primary` was of a source that may push;
-- afterwards that link is the one its SKU's primary source is read from, and every other SKU has
-- the primary source that it had.
pub set_primary_lem :
    (k : ℕ) (t : LinkTable)
    → IsConsistent t
    → {l : SourceProductLink} {t' : LinkTable} → set_primary k t ≡ ok (l, t')
    → (s : String) → str_eq l.real_product_sku s ≡ false
    → (is_push_blocked l.source ≡ false)
      × (get_primary_source_idx l.real_product_sku t' ≡ some l.source.idx)
      × (get_primary_source_idx s t' ≡ get_primary_source_idx s t)
unfolding set_primary get_primary_source_idx
set_primary_lem k t c {l} {t'} h s ne = elim (Option-cases (first_row (has_pk k) t.rows)) [
  | inl e ↦ absurd (ground arith)
  | inr (link, e) ↦ (
    ground arith,
    ground (arith, first_primary_moved flag k link t.rows refl refl e),
    let only = found_sku k t.rows {l = link} (c.keys k) e in
        let same : str_eq link.real_product_sku s ≡ false = ground arith in
        ground (
          arith,
          first_primary_elsewhere flag k link.real_product_sku s t.rows (λ r. refl) same only,
        ),
  )
]

-- What an operator sets on a link, and its key.
abbrev pub operator_flags : SourceProductLink → ℕ × Bool × ℤ × Bool × String × Bool
operator_flags l = (l.pk, l.is_primary, l.priority, l.is_active, l.notes, l.manual_override)

map-save {ℓ} :
    {B : Type ℓ} (g : SourceProductLink → B) (test : SourceProductLink → Bool)
    (f : SourceProductLink → SourceProductLink)
    → ((l : SourceProductLink) → g (f l) ≡ g l)
    → (rows : List SourceProductLink) → map g (update_rows test f rows) ≡ map g rows
map-save g test f same [] = refl
map-save g test f same (l ∷ rows) = ground (arith, same l, map-save g test f same rows)

-- An upsert for a push leaves the key, the primary flag, the priority, the active flag, the notes and
-- the override of every link as they were; it appends one new link exactly when the SKU and the
-- source have none.
pub upsert_for_push_flags :
    (sku : String) (source : Source) (ext : Option String) (first : Bool) (t : LinkTable)
    → (added : List SourceProductLink) × (map operator_flags
          (upsert_for_push sku source ext first t).1.rows
        ≡ map operator_flags t.rows ++ map operator_flags added)
      × (length added ≡ (if exists_row (of_pair sku source.pk) t.rows then 0 else 1))
unfolding upsert_for_push
upsert_for_push_flags sku source ext first t =
    elim (Option-cases (first_row (of_pair sku source.pk) t.rows)) [
      | inr (l, e) ↦ (
        [],
        rw (e, upsert_for_push, append-nil)
            (map-save operator_flags (has_pk l.pk) (λ r. record r { external_id = or_empty ext })
              (λ r. refl) t.rows),
        ground (arith, e, exists_row-first_row (of_pair sku source.pk) t.rows),
      )
      | inl e ↦ (
        create_for_push sku source ext first t ∷ [],
        rw (e, upsert_for_push)
            (map-append operator_flags t.rows (create_for_push sku source ext first t ∷ [])),
        ground (arith, e, exists_row-first_row (of_pair sku source.pk) t.rows),
      )
    ]

module _ (f : SourceProductLink → SourceProductLink) (k : ℕ) (link : SourceProductLink)
    (t : LinkTable) (found : first_row (has_pk k) t.rows ≡ some link) where
  -- The primary source of the SKU is the one of the link that the flag moved to.
  pub get_primary-moved :
      (f link).is_primary ≡ true
      → (f link).real_product_sku ≡ link.real_product_sku
      → get_primary_source_idx link.real_product_sku
          (record t { rows = save_row k f (clear_others link.real_product_sku k t.rows) })
        ≡ some (f link).source.idx
  unfolding get_primary_source_idx
  get_primary-moved p q =
      rw (first_primary_moved f k link t.rows p q found, get_primary_source_idx) refl

  -- Every other SKU keeps its primary source.
  pub get_primary-elsewhere :
      ((l : SourceProductLink) → (f l).real_product_sku ≡ l.real_product_sku)
      → IsConsistent t
      → (other : String) → str_eq link.real_product_sku other ≡ false
      → get_primary_source_idx other
          (record t { rows = save_row k f (clear_others link.real_product_sku k t.rows) })
        ≡ get_primary_source_idx other t
  unfolding get_primary_source_idx
  get_primary-elsewhere keeps c other ne =
      rw
        (
          first_primary_elsewhere f k link.real_product_sku other t.rows keeps ne
              (found_sku k t.rows {l = link} (c.keys k) found),
          get_primary_source_idx,
        )
        refl
