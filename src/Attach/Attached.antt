-- ===== src/Attach/Attached.antt =====
-- What an operator's link does, and what it leaves alone.
use mathlib.Core.Path.{subst}
use entirius_django_atlas.Base.{
  ℕ, ◌≡◌, refl, sym, ap, ◌∙◌, inl, inr, Bool, true, false, some, List, String, str_eq_refl, is_some,
  first_row, exists_row, Option-cases, arith, ==_iff, ==_refl, first_row-passes,
  first_row-append_out, exists_row-append_new, first_row-update, exists_row-first_row,
  count_rows_of_none,
}
use entirius_django_atlas.Base.Int.{pos}
use entirius_django_atlas.Base.Outcome.{ok, err, ok_inj, raise_if-ok, or_raise-ok, bind-ok}
use entirius_django_atlas.Model.{SourceProduct, RealProduct, SourceProductLink}
use entirius_django_atlas.Links.{
  LinkTable, of_pair, is_primary_for, new_link, get_primary_source_idx,
}
use entirius_django_atlas.Links.Consistency.{IsConsistent}
use entirius_django_atlas.Links.Preserve.{insert-IsConsistent}
use entirius_django_atlas.Store.{Store, Faults}
use entirius_django_atlas.Attach.{
  LinkedTo, VerdictWrite, written, not_installed, product_not_found, already_linked,
  real_product_not_found, write_failed, has_sp_pk, set_real_product, get_or_create_link, attach_sp,
  link_sp_to_realproduct, verdict_raises,
}

-- The product after it was attached.
abbrev pub attached : ℕ → ℕ → SourceProduct → SourceProduct
attached rp_pk now sp = record sp { real_product = some rp_pk; modified_at = now }

pub set_real_product_lem :
    (k rp_pk now : ℕ) (products : List SourceProduct) {sp : SourceProduct}
    → first_row (has_sp_pk k) products ≡ some sp
    → first_row (has_sp_pk k) (set_real_product sp.pk rp_pk now products)
      ≡ some (attached rp_pk now sp)
set_real_product_lem k rp_pk now products {sp} h =
    let key : sp.pk ≡ k = (==_iff sp.pk k).0 (first_row-passes (has_sp_pk k) products h) in
    subst
      (λ j.
        first_row (has_sp_pk k) (set_real_product j rp_pk now products)
        ≡ some (attached rp_pk now sp))
      (sym key) (first_row-update (has_sp_pk k) (attached rp_pk now) (λ x. refl) products h)

module _ (sku : String) (sp : SourceProduct) (t : LinkTable) (c : IsConsistent t) where
  -- The link that stands after `get_or_create_link` takes no primary flag.
  get_or_create_link_lem :
      (q : String)
      → IsConsistent (get_or_create_link sku sp t).1
        × (exists_row (of_pair sku sp.source.pk) (get_or_create_link sku sp t).1.rows ≡ true)
        × (get_primary_source_idx q (get_or_create_link sku sp t).1 ≡ get_primary_source_idx q t)
  unfolding get_or_create_link get_primary_source_idx
  get_or_create_link_lem q = elim (Option-cases (first_row (of_pair sku sp.source.pk) t.rows)) [
    | inr (l, e) ↦
        rw (get_or_create_link, e)
          (c, exists_row-first_row (of_pair sku sp.source.pk) t.rows ∙ rw e refl, refl)
    | inl e ↦
        let l = new_link t.next_pk sku sp.source sp.external_id (pos 0) false "" in
        rw (get_or_create_link, e)
          (
            insert-IsConsistent t c l refl (count_rows_of_none (of_pair sku sp.source.pk) t.rows e)
                (λ h. cc),
            exists_row-append_new (of_pair sku sp.source.pk) t.rows l
                (ground (arith, str_eq_refl sku, ==_refl sp.source.pk)),
            rw
                (
                  get_primary_source_idx,
                  first_row-append_out (is_primary_for q) t.rows l (ground arith),
                )
                refl,
          )
  ]

module _ (iexact : String → String → Bool) (faults : Faults) (now sp_pk : ℕ) (sku : String) where
  -- A link that returned, on links that meet the table's constraints: the product was not linked, and
  -- now points at the first RealProduct of the table with the SKU; the pair of that SKU and the product's source has a link;
  -- the constraints still hold; and every SKU has the primary source that it had.
  pub link_sp_to_realproduct_lem :
      (verdict : VerdictWrite) (s : Store) (q : String) {r : LinkedTo} {s' : Store}
      → IsConsistent s.links
      → link_sp_to_realproduct iexact faults verdict now sp_pk sku s ≡ ok (r, s')
      → (sp : SourceProduct) × (rp : RealProduct) × (first_row (has_sp_pk sp_pk) s.products
          ≡ some sp)
        × (is_some sp.real_product ≡ false)
        × (first_row (λ (q : RealProduct). iexact q.sku sku) s.real_products ≡ some rp)
        × (iexact rp.sku sku ≡ true)
        × (first_row (has_sp_pk sp_pk) s'.products ≡ some (attached rp.pk now sp))
        × (exists_row (of_pair rp.sku sp.source.pk) s'.links.rows ≡ true)
        × IsConsistent s'.links
        × (get_primary_source_idx q s'.links ≡ get_primary_source_idx q s.links)
  unfolding link_sp_to_realproduct attach_sp
  link_sp_to_realproduct_lem verdict s q {r} {s'} c h =
      let find : RealProduct → Bool = λ rp. iexact rp.sku sku in
      let (sp, found, h1) =
        or_raise-ok (first_row (has_sp_pk sp_pk) s.products) product_not_found h in
      let (free, h2) = raise_if-ok (is_some sp.real_product) already_linked h1 in
      let (rp, match, h3) =
        or_raise-ok (first_row find s.real_products) real_product_not_found h2 in
      let (done, h4, h5) = bind-ok (attach_sp faults verdict now sp rp s) h3 in
      let (_, h6) = raise_if-ok faults.event_fails write_failed h4 in
      let (_, h7) = raise_if-ok (verdict_raises verdict) write_failed h6 in
      let links_eq : (get_or_create_link rp.sku sp s.links).1 ≡ s'.links =
        ap (λ (x : SourceProductLink × Store). x.1.links) (ok_inj h7)
        ∙ ap (λ (x : LinkedTo × Store). x.1.links) (ok_inj h5) in
      let products_eq : set_real_product sp.pk rp.pk now s.products ≡ s'.products =
        ap (λ (x : SourceProductLink × Store). x.1.products) (ok_inj h7)
        ∙ ap (λ (x : LinkedTo × Store). x.1.products) (ok_inj h5) in
      let (consistent, linked, primary) = get_or_create_link_lem rp.sku sp s.links c q in
      (
        sp,
        rp,
        found,
        free,
        match,
        first_row-passes find s.real_products match,
        subst (λ ps. first_row (has_sp_pk sp_pk) ps ≡ some (attached rp.pk now sp)) products_eq
            (set_real_product_lem sp_pk rp.pk now s.products found),
        subst (λ (t : LinkTable). exists_row (of_pair rp.sku sp.source.pk) t.rows ≡ true) links_eq
            linked,
        subst IsConsistent links_eq consistent,
        subst (λ t. get_primary_source_idx q t ≡ get_primary_source_idx q s.links) links_eq primary,
      )

  -- After a link returned, linking the same product again raises that it is linked already, whatever
  -- the SKU; and a link returns without django-lookup exactly what it returns with its verdict
  -- written.
  pub link_again_raises :
      (verdict again : VerdictWrite) (other_sku : String) (s : Store) {r : LinkedTo} {s' : Store}
      → IsConsistent s.links
      → link_sp_to_realproduct iexact faults verdict now sp_pk sku s ≡ ok (r, s')
      → (link_sp_to_realproduct iexact faults again now sp_pk other_sku s' ≡ err already_linked)
        × (link_sp_to_realproduct iexact faults not_installed now sp_pk sku s
            ≡ link_sp_to_realproduct iexact faults written now sp_pk sku s)
  unfolding link_sp_to_realproduct attach_sp
  link_again_raises verdict again other_sku s {r} {s'} c h =
      let (sp, rp, _, _, _, _, linked, _, _, _) = link_sp_to_realproduct_lem verdict s sku c h in
      (rw (link_sp_to_realproduct, linked) refl, refl)
