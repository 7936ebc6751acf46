-- ===== src/Merge/Redirect.antt =====
-- What a merge does to the links, and the merges that can only raise.
use mathlib.Core.Path.{subst}
use entirius_django_atlas.Base.{
  ℕ, ◌+◌, ◌≤◌, ◌<◌, ◌≡◌, ◌≢◌, refl, sym, ap, ◌∙◌, inl, inr, true, false, not, ◌&&◌, ◌||◌, some,
  List, [], ◌∷◌, String, str_eq, str_eq→eq, str_eq_refl, str_eq_sym, ltb, is_some, where_rows,
  first_row, count_rows, update_rows, All, arith, Bool-cases, Option-cases, first_row-passes,
  first_row-All, count_rows_of_none,
}
use entirius_django_atlas.Base.Outcome.{ok, raise_if-ok, or_raise-ok, bind-ok, ok_inj, err≢ok}
use entirius_django_atlas.Model.{SourceProductLink, RealProduct}
use entirius_django_atlas.Links.{LinkTable, has_pk, has_sku, of_pair, is_primary_for}
use entirius_django_atlas.Links.Consistency.{IsConsistent, count_rows-update_same, All-update}
use entirius_django_atlas.Store.{Store, Faults}
use entirius_django_atlas.Merge.{
  MergeResult, integrity_error, row_is_unique, rows_are_unique, move_link, redirect_links,
  merge_realproducts, reason_too_short, same_sku, real_product_not_found, no_ean, ean_mismatch,
  write_failed, has_rp_sku, lacks_ean, same_ean, points_at, repoint, has_rp_pk,
}

module _ (all : List SourceProductLink) where
  rows_unique-All :
      (rows : List SourceProductLink)
      → rows_are_unique all rows ≡ true
      → All (λ l. row_is_unique all l ≡ true) rows
  rows_unique-All [] h = tt
  rows_unique-All (l ∷ rows) h = (ground (arith, h), rows_unique-All rows (ground (arith, h)))

  module _ (h : rows_are_unique all all ≡ true) where
    one_link : (sku : String) (source_pk : ℕ) → count_rows (of_pair sku source_pk) all ≤ 1
    one_link sku source_pk = elim (Option-cases (first_row (of_pair sku source_pk) all)) [
      | inl e ↦ omega (arith, count_rows_of_none (of_pair sku source_pk) all e)
      | inr (l, e) ↦
          let passes : of_pair sku source_pk l ≡ true =
            first_row-passes (of_pair sku source_pk) all e in
          let unique : row_is_unique all l ≡ true =
            first_row-All (λ r. row_is_unique all r ≡ true) (of_pair sku source_pk) all
              (rows_unique-All all h) e in
          let same : str_eq l.real_product_sku sku ≡ true = ground (arith, passes) in
          let here : l.source.pk ≡ source_pk = ground (arith, passes) in
          subst (λ s. count_rows (of_pair s source_pk) all ≤ 1)
            (str_eq→eq l.real_product_sku sku same)
            (subst (λ k. count_rows (of_pair l.real_product_sku k) all ≤ 1) here
              (ground (arith, unique)))
    ]

    one_primary : (sku : String) → count_rows (is_primary_for sku) all ≤ 1
    one_primary sku = elim (Option-cases (first_row (is_primary_for sku) all)) [
      | inl e ↦ omega (arith, count_rows_of_none (is_primary_for sku) all e)
      | inr (l, e) ↦
          let passes : is_primary_for sku l ≡ true = first_row-passes (is_primary_for sku) all e in
          let unique : row_is_unique all l ≡ true =
            first_row-All (λ r. row_is_unique all r ≡ true) (is_primary_for sku) all
              (rows_unique-All all h) e in
          let same : str_eq l.real_product_sku sku ≡ true = ground (arith, passes) in
          subst (λ s. count_rows (is_primary_for s) all ≤ 1) (str_eq→eq l.real_product_sku sku same)
            (ground (arith, passes, unique))
    ]

module _ (winner loser : String) where
  other :
      (l : SourceProductLink)
      → str_eq winner loser ≡ false
      → str_eq l.real_product_sku loser ≡ true
      → str_eq l.real_product_sku winner ≡ false
  other l d h =
      subst (λ s. str_eq s winner ≡ false) (sym (str_eq→eq l.real_product_sku loser h))
        (str_eq_sym loser winner ∙ d)

  -- Every link of the loser is counted for the winner after the move.
  moved_primaries :
      (rows : List SourceProductLink)
      → str_eq winner loser ≡ false
      → count_rows (is_primary_for winner) (update_rows (has_sku loser) (move_link winner) rows)
        ≡ count_rows (is_primary_for winner) rows + count_rows (is_primary_for loser) rows
  moved_primaries [] d = refl
  moved_primaries (l ∷ rows) d = ground (
    arith,
    str_eq_refl winner,
    λ (h : str_eq l.real_product_sku loser ≡ true). other l d h,
    moved_primaries rows d,
  )

  moved_links :
      (rows : List SourceProductLink)
      → str_eq winner loser ≡ false
      → (count_rows (has_sku winner) (update_rows (has_sku loser) (move_link winner) rows)
          ≡ count_rows (has_sku winner) rows + count_rows (has_sku loser) rows)
        × (count_rows (has_sku loser) (update_rows (has_sku loser) (move_link winner) rows) ≡ 0)
  moved_links [] d = (refl, refl)
  moved_links (l ∷ rows) d = ground (
    arith,
    str_eq_refl winner,
    d,
    λ (h : str_eq l.real_product_sku loser ≡ true). other l d h,
    moved_links rows d,
  )

  redirect_links-ok :
      (t : LinkTable) {t' : LinkTable}
      → redirect_links winner loser t ≡ ok t'
      → (t' ≡ (record t { rows = update_rows (has_sku loser) (move_link winner) t.rows }))
        × (rows_are_unique t'.rows t'.rows ≡ true)
  unfolding redirect_links
  redirect_links-ok t {t'} h =
      let rows = update_rows (has_sku loser) (move_link winner) t.rows in
      elim (Bool-cases (rows_are_unique rows rows)) [
        | inl e ↦
            let eq : (record t { rows = rows }) ≡ t' = ok_inj (rw (redirect_links, e) at h) in
            (sym eq, subst (λ (q : LinkTable). rows_are_unique q.rows q.rows ≡ true) eq e)
        | inr e ↦ absurd (err≢ok {e = integrity_error} (rw (redirect_links, e) at h))
      ]

  redirected-IsConsistent :
      (t : LinkTable) {t' : LinkTable}
      → IsConsistent t
      → redirect_links winner loser t ≡ ok t'
      → IsConsistent t'
  redirected-IsConsistent t {t'} c h =
      let (eq, unique) = redirect_links-ok t h in
      let moved : LinkTable = record t {
        rows = update_rows (has_sku loser) (move_link winner) t.rows;
      } in
      let unique' : rows_are_unique moved.rows moved.rows ≡ true =
        subst (λ (q : LinkTable). rows_are_unique q.rows q.rows ≡ true) eq unique in
      subst IsConsistent (sym eq) (record {
        keys = λ k. omega (
          arith,
          c.keys k,
          count_rows-update_same (has_pk k) (has_sku loser) (move_link winner) (λ l. refl) t.rows,
        );
        fresh =
            All-update (λ l. l.pk < t.next_pk) (has_sku loser) (move_link winner) (λ l q. q) t.rows
              c.fresh;
        pairs = one_link moved.rows unique';
        primaries = one_primary moved.rows unique';
      })

removed :
    (k : ℕ) (rps : List RealProduct)
    → count_rows (has_rp_pk k) (where_rows (λ rp. not (has_rp_pk k rp)) rps) ≡ 0
removed k [] = refl
removed k (rp ∷ rps) = ground (arith, removed k rps)

-- The two rows that a merge that returned found, and the links that it moved.
merge-ok :
    (stripped_length : String → ℕ) (faults : Faults) (winner_sku loser_sku reason : String)
    (s : Store) {r : MergeResult} {s' : Store}
    → merge_realproducts stripped_length faults winner_sku loser_sku reason s ≡ ok (r, s')
    → (str_eq winner_sku loser_sku ≡ false)
      × (redirect_links winner_sku loser_sku s.links ≡ ok s'.links)
      × (winner : RealProduct) × (loser : RealProduct) × (first_row
            (has_rp_sku winner_sku)
            s.real_products
          ≡ some winner)
      × (first_row (has_rp_sku loser_sku) s.real_products ≡ some loser)
      × (same_ean winner loser ≡ true)
      × (s'.products ≡ update_rows (points_at loser.pk) (repoint winner.pk) s.products)
      × (s'.real_products ≡ where_rows (λ rp. not (has_rp_pk loser.pk rp)) s.real_products)
      × (r.links_redirected ≡ count_rows (has_sku loser_sku) s.links.rows)
unfolding merge_realproducts
merge-ok stripped_length faults winner_sku loser_sku reason s {r} {s'} h =
    let (_, h1) =
      raise_if-ok (str_eq reason "" || ltb (stripped_length reason) 3) reason_too_short h in
    let (d, h2) = raise_if-ok (str_eq winner_sku loser_sku) same_sku h1 in
    let (winner, fw, h3) =
      or_raise-ok (first_row (has_rp_sku winner_sku) s.real_products) real_product_not_found h2 in
    let (loser, fl, h4) =
      or_raise-ok (first_row (has_rp_sku loser_sku) s.real_products) real_product_not_found h3 in
    let (_, h5) = raise_if-ok (lacks_ean winner || lacks_ean loser) no_ean h4 in
    let (e, h6) = raise_if-ok (not (same_ean winner loser)) ean_mismatch h5 in
    let (links, moved, h7) = bind-ok (redirect_links winner_sku loser_sku s.links) h6 in
    let products = update_rows (points_at loser.pk) (repoint winner.pk) s.products in
    let audit_sp = first_row (points_at winner.pk) products in
    let (_, h8) = raise_if-ok (is_some audit_sp && faults.audit_fails) write_failed h7 in
    let (_, h9) = raise_if-ok faults.event_fails write_failed h8 in
    let eq = ok_inj h9 in
    (
      d,
      moved ∙ ap (λ l. ok l) (ap (λ (x : MergeResult × Store). x.1.links) eq),
      winner,
      loser,
      fw,
      fl,
      ground (arith, e),
      sym (ap (λ (x : MergeResult × Store). x.1.products) eq),
      sym (ap (λ (x : MergeResult × Store). x.1.real_products) eq),
      sym (ap (λ (x : MergeResult × Store). x.0.links_redirected) eq),
    )

-- A merge that returned, on links that meet the table's constraints: they still do; every link of the
-- loser is now one of the winner, and they are the ones it counts; the products of the loser point at
-- the winner, a product of the same EAN; the loser's row is gone.
pub merge_realproducts_lem :
    (stripped_length : String → ℕ) (faults : Faults) (winner_sku loser_sku reason : String)
    (s : Store) {r : MergeResult} {s' : Store}
    → IsConsistent s.links
    → merge_realproducts stripped_length faults winner_sku loser_sku reason s ≡ ok (r, s')
    → IsConsistent s'.links
      × (count_rows (has_sku winner_sku) s'.links.rows
          ≡ count_rows (has_sku winner_sku) s.links.rows + r.links_redirected)
      × (count_rows (has_sku loser_sku) s'.links.rows ≡ 0)
      × (winner : RealProduct) × (loser : RealProduct) × (first_row
            (has_rp_sku winner_sku)
            s.real_products
          ≡ some winner)
      × (first_row (has_rp_sku loser_sku) s.real_products ≡ some loser)
      × (same_ean winner loser ≡ true)
      × (s'.products ≡ update_rows (points_at loser.pk) (repoint winner.pk) s.products)
      × (count_rows (has_rp_pk loser.pk) s'.real_products ≡ 0)
merge_realproducts_lem stripped_length faults winner_sku loser_sku reason s {r} {s'} c h =
    let (d, moved, winner, loser, fw, fl, e, products, rest, counted) =
      merge-ok stripped_length faults winner_sku loser_sku reason s h in
    let rows = update_rows (has_sku loser_sku) (move_link winner_sku) s.links.rows in
    let (eq, _) = redirect_links-ok winner_sku loser_sku s.links moved in
    let rows_eq : s'.links.rows ≡ rows = ap (λ (t : LinkTable). t.rows) eq in
    let (gained, lost) = moved_links winner_sku loser_sku s.links.rows d in
    (
      redirected-IsConsistent winner_sku loser_sku s.links c moved,
      rw (rows_eq, counted) gained,
      rw rows_eq lost,
      winner,
      loser,
      fw,
      fl,
      e,
      products,
      rw rest (removed loser.pk s.real_products),
    )

-- Two SKUs that each have a primary link are never merged: whatever the reason and the rows, the
-- call raises.
pub merge_two_primaries :
    (stripped_length : String → ℕ) (faults : Faults) (winner_sku loser_sku reason : String)
    (s : Store) (r : MergeResult × Store)
    → 1 ≤ count_rows (is_primary_for winner_sku) s.links.rows
    → 1 ≤ count_rows (is_primary_for loser_sku) s.links.rows
    → merge_realproducts stripped_length faults winner_sku loser_sku reason s ≢ ok r
merge_two_primaries stripped_length faults winner_sku loser_sku reason s (r, s') a b h =
    let found = merge-ok stripped_length faults winner_sku loser_sku reason s h in
    let d = found.0 in
    let moved = found.1 in
    let rows = update_rows (has_sku loser_sku) (move_link winner_sku) s.links.rows in
    let (eq, unique) = redirect_links-ok winner_sku loser_sku s.links moved in
    let rows_eq : s'.links.rows ≡ rows = ap (λ (t : LinkTable). t.rows) eq in
    let unique' : rows_are_unique rows rows ≡ true =
      subst (λ q. rows_are_unique q q ≡ true) rows_eq unique in
    omega (
      arith,
      a,
      b,
      one_primary rows unique' winner_sku,
      moved_primaries winner_sku loser_sku s.links.rows d,
    )
