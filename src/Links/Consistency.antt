-- ===== src/Links/Consistency.antt =====
-- The constraints of the link table (models/source_product_link.py), and how they fare under the
-- updates that the services are made of.
use entirius_django_atlas.Base.{
  ℕ, suc, ◌≤◌, ◌<◌, ◌≡◌, refl, inl, inr, Bool, true, some, List, [], ◌∷◌, String, str_eq, str_eq→eq,
  str_eq_refl, if◌then◌else◌, Bool-cases, first_row, count_rows, update_rows, All, arith,
}
use entirius_django_atlas.Model.{SourceProductLink}
use entirius_django_atlas.Links.{
  LinkTable, has_pk, has_sku, of_pair, is_primary_for, clear_others, save_row,
}

-- Keys are unique and below the sequence, and both unique constraints of the model hold: one link
-- for each (SKU, source), and at most one primary link for each SKU.
pub record IsConsistent (t : LinkTable) : Type 0 where
  pub keys : (k : ℕ) → count_rows (has_pk k) t.rows ≤ 1
  pub fresh : All (λ l. l.pk < t.next_pk) t.rows
  pub pairs : (sku : String) (source_pk : ℕ) → count_rows (of_pair sku source_pk) t.rows ≤ 1
  pub primaries : (sku : String) → count_rows (is_primary_for sku) t.rows ≤ 1

module _ {ℓ} {A : Type ℓ} (p test : A → Bool) (f : A → A) where
  -- An update that does not touch what a query asks leaves its count alone.
  pub count_rows-update_same :
      ((x : A) → p (f x) ≡ p x)
      → (xs : List A) → count_rows p (update_rows test f xs) ≡ count_rows p xs
  count_rows-update_same h [] = refl
  count_rows-update_same h (x ∷ xs) = ground (arith, h x, count_rows-update_same h xs)

  -- An update that can only take rows out of a query does not raise its count.
  pub count_rows-update_le :
      ((x : A) → p (f x) ≡ true → p x ≡ true)
      → (xs : List A) → count_rows p (update_rows test f xs) ≤ count_rows p xs
  count_rows-update_le h [] = omega arith
  count_rows-update_le h (x ∷ xs) = ground (arith, h x, count_rows-update_le h xs)

module _ {ℓ κ} {A : Type ℓ} (P : A → Type κ) (test : A → Bool) (f : A → A) where
  pub All-update :
      ((x : A) → P x → P (f x)) → (xs : List A) → All P xs → All P (update_rows test f xs)
  All-update h [] a = tt
  All-update h (x ∷ xs) (px, pxs) = elim (Bool-cases (test x)) [
    | inl e ↦ rw e (h x px, All-update h xs pxs)
    | inr e ↦ rw e (px, All-update h xs pxs)
  ]

-- All rows with a fresh key are none.
pub count_rows-fresh :
    (k : ℕ) (rows : List SourceProductLink)
    → All (λ l. l.pk < k) rows
    → count_rows (has_pk k) rows ≡ 0
count_rows-fresh k [] h = refl
count_rows-fresh k (l ∷ rows) h = ground (arith, count_rows-fresh k rows h.1)

pub All-weaken :
    (k : ℕ) (rows : List SourceProductLink)
    → All (λ l. l.pk < k) rows
    → All (λ l. l.pk < suc k) rows
All-weaken k [] h = tt
All-weaken k (l ∷ rows) h = (omega arith, All-weaken k rows h.1)

-- The row found by key is the only one with that key.
abbrev pub OnlySku : ℕ → String → SourceProductLink → Type 0
OnlySku k sku l = has_pk k l ≡ true → has_sku sku l ≡ true

no_pk :
    (k : ℕ) (sku : String) (rows : List SourceProductLink)
    → count_rows (has_pk k) rows ≡ 0
    → All (OnlySku k sku) rows
no_pk k sku [] h = tt
no_pk k sku (l ∷ rows) h = (λ e. absurd (ground arith), no_pk k sku rows (ground arith))

pub found_sku :
    (k : ℕ) (rows : List SourceProductLink) {l : SourceProductLink}
    → count_rows (has_pk k) rows ≤ 1
    → first_row (has_pk k) rows ≡ some l
    → All (OnlySku k l.real_product_sku) rows
found_sku k [] c h = tt
found_sku k (r ∷ rows) {l} c h = elim (Bool-cases (has_pk k r)) [
  | inl e ↦ (
    λ _. ground (arith, str_eq_refl l.real_product_sku),
    no_pk k l.real_product_sku rows (ground arith),
  )
  | inr e ↦ (λ e'. cc, found_sku k rows {l = l} (ground arith) (ground arith))
]

module _ (f : SourceProductLink → SourceProductLink) (k : ℕ) (sku : String) where
  -- Clearing the other links of a SKU and then saving link `k` leaves at most link `k` primary
  -- there, and other SKUs as they were.
  pub count_rows-make_primary :
      ((l : SourceProductLink) → (f l).real_product_sku ≡ l.real_product_sku)
      → (s : String) (rows : List SourceProductLink) → All (OnlySku k sku) rows
      → count_rows (is_primary_for s) (save_row k f (clear_others sku k rows))
        ≤ (if str_eq sku s then count_rows (has_pk k) rows else count_rows (is_primary_for s) rows)
  count_rows-make_primary keeps s [] h = ground arith
  count_rows-make_primary keeps s (l ∷ rows) h = ground (
    arith,
    h.0,
    keeps l,
    str_eq→eq l.real_product_sku sku,
    str_eq→eq sku s,
    count_rows-make_primary keeps s rows h.1,
  )
