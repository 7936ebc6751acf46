-- ===== src/Links/Preserve.antt =====
-- The four kinds of write to the link table keep its constraints: an update in place, the move of
-- the primary flag, an insert and a delete.
use entirius_django_atlas.Base.{
  ℕ, suc, ◌≤◌, ◌<◌, ◌≡◌, refl, Bool, true, false, not, ◌&&◌, ◌==◌, some, List, [], ◌∷◌, String,
  str_eq, str_eq→eq, inl, inr, Bool-cases, first_row, where_rows, count_rows, count_rows-append,
  update_rows, All, All-append, arith, ap, exists_row,
}
use entirius_django_atlas.Model.{SourceProductLink}
use entirius_django_atlas.Links.{
  LinkTable, has_pk, has_sku, of_pair, is_primary_for, clear_others, save_row, insert_row, unflag,
}
use entirius_django_atlas.Links.Consistency.{
  IsConsistent, count_rows-update_same, count_rows-update_le, All-update, count_rows-fresh,
  All-weaken, found_sku, count_rows-make_primary,
}

-- A write that leaves the identity of a link alone.
pub record Keeps (f : SourceProductLink → SourceProductLink) : Type 0 where
  pub pk : (l : SourceProductLink) → (f l).pk ≡ l.pk
  pub sku : (l : SourceProductLink) → (f l).real_product_sku ≡ l.real_product_sku
  pub source : (l : SourceProductLink) → (f l).source ≡ l.source

pub unflag-Keeps : Keeps unflag
unflag-Keeps = record { pk = λ l. refl; sku = λ l. refl; source = λ l. refl }

module _ (f : SourceProductLink → SourceProductLink) (keeps : Keeps f) where
  same_pk : (k : ℕ) (l : SourceProductLink) → has_pk k (f l) ≡ has_pk k l
  same_pk k l = ap (λ n. n == k) (keeps.pk l)

  same_pair :
      (sku : String) (source_pk : ℕ) (l : SourceProductLink)
      → of_pair sku source_pk (f l) ≡ of_pair sku source_pk l
  same_pair sku source_pk l =
      λ i. str_eq (keeps.sku l i) sku && ((keeps.source l i).pk == source_pk)

  pub update_rows-keys :
      (test : SourceProductLink → Bool) (k : ℕ) (rows : List SourceProductLink)
      → count_rows (has_pk k) (update_rows test f rows) ≡ count_rows (has_pk k) rows
  update_rows-keys test k = count_rows-update_same (has_pk k) test f (same_pk k)

  pub update_rows-pairs :
      (test : SourceProductLink → Bool) (sku : String) (source_pk : ℕ)
      (rows : List SourceProductLink)
      → count_rows (of_pair sku source_pk) (update_rows test f rows)
        ≡ count_rows (of_pair sku source_pk) rows
  update_rows-pairs test sku source_pk =
      count_rows-update_same (of_pair sku source_pk) test f (same_pair sku source_pk)

  pub update_rows-fresh :
      (test : SourceProductLink → Bool) (n : ℕ) (rows : List SourceProductLink)
      → All (λ l. l.pk < n) rows
      → All (λ l. l.pk < n) (update_rows test f rows)
  update_rows-fresh test n = All-update (λ l. l.pk < n) test f (λ l h. omega (arith, keeps.pk l))

  -- An update that does not set the flag.
  pub update-IsConsistent :
      ((l : SourceProductLink) → (f l).is_primary ≡ true → l.is_primary ≡ true)
      → (test : SourceProductLink → Bool) (t : LinkTable) → IsConsistent t
      → IsConsistent (record t { rows = update_rows test f t.rows })
  update-IsConsistent drops test t c = record {
    keys = λ k. omega (arith, c.keys k, update_rows-keys test k t.rows);
    fresh = update_rows-fresh test t.next_pk t.rows c.fresh;
    pairs = λ sku s. omega (arith, c.pairs sku s, update_rows-pairs test sku s t.rows);
    primaries = λ sku. omega (
      arith,
      c.primaries sku,
      count_rows-update_le (is_primary_for sku) test f (λ l. ground (arith, drops l, keeps.sku l))
          t.rows,
    );
  }

abbrev pub primary_moved :
    ℕ → String → (SourceProductLink → SourceProductLink) → LinkTable → LinkTable
primary_moved k sku f t = record t { rows = save_row k f (clear_others sku k t.rows) }

-- The flag moves to link `k`, found in the table, from the other links of its SKU.
pub primary_moved-IsConsistent :
    (f : SourceProductLink → SourceProductLink) (keeps : Keeps f) (k : ℕ) (link : SourceProductLink)
    (t : LinkTable)
    → IsConsistent t
    → first_row (has_pk k) t.rows ≡ some link
    → IsConsistent (primary_moved k link.real_product_sku f t)
primary_moved-IsConsistent f keeps k link t c found =
    let others : SourceProductLink → Bool =
      λ l. has_sku link.real_product_sku l && not (has_pk k l) in
    let mid = clear_others link.real_product_sku k t.rows in
    record {
      keys = λ j. omega (
        arith,
        c.keys j,
        update_rows-keys f keeps (has_pk k) j mid,
        update_rows-keys unflag unflag-Keeps others j t.rows,
      );
      fresh =
          update_rows-fresh f keeps (has_pk k) t.next_pk mid
            (update_rows-fresh unflag unflag-Keeps others t.next_pk t.rows c.fresh);
      pairs = λ sku s. omega (
        arith,
        c.pairs sku s,
        update_rows-pairs f keeps (has_pk k) sku s mid,
        update_rows-pairs unflag unflag-Keeps others sku s t.rows,
      );
      primaries = λ sku. ground (
        arith,
        c.keys k,
        c.primaries sku,
        count_rows-make_primary f k link.real_product_sku keeps.sku sku t.rows
            (found_sku k t.rows {l = link} (c.keys k) found),
      );
    }

module _ (t : LinkTable) (c : IsConsistent t) (l : SourceProductLink) where
  -- A new row under the next key, for a pair that has none; primary only if its SKU has none.
  pub insert-IsConsistent :
      l.pk ≡ t.next_pk
      → count_rows (of_pair l.real_product_sku l.source.pk) t.rows ≡ 0
      → (l.is_primary ≡ true → count_rows (is_primary_for l.real_product_sku) t.rows ≡ 0)
      → IsConsistent (insert_row l t)
  insert-IsConsistent key unpaired unflagged = record {
    keys = λ k. ground (
      arith,
      c.keys k,
      count_rows-append (has_pk k) t.rows (l ∷ []),
      count_rows-fresh t.next_pk t.rows c.fresh,
    );
    fresh =
        All-append (λ r. r.pk < suc t.next_pk) t.rows (l ∷ []) (All-weaken t.next_pk t.rows c.fresh)
          (omega arith, tt);
    pairs = λ sku s. ground (
      arith,
      c.pairs sku s,
      count_rows-append (of_pair sku s) t.rows (l ∷ []),
      str_eq→eq l.real_product_sku sku,
    );
    primaries = λ sku. ground (
      arith,
      c.primaries sku,
      count_rows-append (is_primary_for sku) t.rows (l ∷ []),
      str_eq→eq l.real_product_sku sku,
    );
  }

count_rows-where_le {ℓ} :
    {A : Type ℓ} (p test : A → Bool) (xs : List A)
    → count_rows p (where_rows test xs) ≤ count_rows p xs
count_rows-where_le p test [] = omega arith
count_rows-where_le p test (x ∷ xs) = ground (arith, count_rows-where_le p test xs)

All-where {ℓ κ} :
    {A : Type ℓ} (P : A → Type κ) (test : A → Bool) (xs : List A)
    → All P xs
    → All P (where_rows test xs)
All-where P test [] h = tt
All-where P test (x ∷ xs) h = elim (Bool-cases (test x)) [
  | inl e ↦ rw e (h.0, All-where P test xs h.1)
  | inr e ↦ rw e (All-where P test xs h.1)
]

pub delete-IsConsistent :
    (test : SourceProductLink → Bool) (t : LinkTable)
    → IsConsistent t
    → IsConsistent (record t { rows = where_rows test t.rows })
delete-IsConsistent test t c = record {
  keys = λ k. omega (arith, c.keys k, count_rows-where_le (has_pk k) test t.rows);
  fresh = All-where (λ l. l.pk < t.next_pk) test t.rows c.fresh;
  pairs = λ sku s. omega (arith, c.pairs sku s, count_rows-where_le (of_pair sku s) test t.rows);
  primaries =
      λ sku. omega (arith, c.primaries sku, count_rows-where_le (is_primary_for sku) test t.rows);
}

-- Searches that find nothing, as counts.
pub count_rows_of_not_exists {ℓ} :
    {A : Type ℓ} (p : A → Bool) (xs : List A) → exists_row p xs ≡ false → count_rows p xs ≡ 0
count_rows_of_not_exists p [] h = refl
count_rows_of_not_exists p (x ∷ xs) h = ground (arith, count_rows_of_not_exists p xs)

pub count_primary_of_no_sku :
    (sku : String) (rows : List SourceProductLink)
    → exists_row (has_sku sku) rows ≡ false
    → count_rows (is_primary_for sku) rows ≡ 0
count_primary_of_no_sku sku [] h = refl
count_primary_of_no_sku sku (l ∷ rows) h = ground (arith, count_primary_of_no_sku sku rows)

pub count_primary_of_unflagged :
    (sku : String) (rows : List SourceProductLink)
    → count_rows (is_primary_for sku) (update_rows (has_sku sku) unflag rows) ≡ 0
count_primary_of_unflagged sku [] = refl
count_primary_of_unflagged sku (l ∷ rows) = ground (arith, count_primary_of_unflagged sku rows)
