-- ===== src/Attach/Detached.antt =====
-- What an operator's unlink does: the product alone on a fresh RealProduct, and the old one intact.
use mathlib.Core.Path.{subst}
use entirius_django_atlas.Base.{
  ℕ, ◌≡◌, refl, ap, Bool, true, false, not, ◌||◌, or_false, some, [], ◌∷◌, ◌++◌, String, str_eq,
  str_eq_refl, first_row, exists_row, arith, first_row-append_new,
}
use entirius_django_atlas.Base.Int.{pos}
use entirius_django_atlas.Base.Outcome.{
  Result, ok, err, ok_inj, err≢ok, raise_if-ok, or_raise-ok, bind-ok,
}
use entirius_django_atlas.Model.{SourceProduct, RealProduct, SourceProductLink}
use entirius_django_atlas.KindGuard.{is_push_blocked}
use entirius_django_atlas.Links.{
  LinkTable, has_pk, of_pair, is_primary_for, new_link, delete_link, get_primary_source_idx,
}
use entirius_django_atlas.Links.Consistency.{IsConsistent}
use entirius_django_atlas.Links.Preserve.{
  insert-IsConsistent, delete-IsConsistent, count_rows_of_not_exists,
}
use entirius_django_atlas.Store.{Store, Faults}
use entirius_django_atlas.Sku.{SkuText, SkuError, generate_sku}
use entirius_django_atlas.Attach.{
  Unlinked, product_not_found, not_linked, push_not_allowed, link_not_found, sku_taken,
  reserved_sku, integrity_error, has_sp_pk, linked_rp, fresh_real_product, sku_or_raise,
  create_primary_link, unlink_sp_from_realproduct,
}
use entirius_django_atlas.Attach.Attached.{attached, set_real_product_lem}

sku_or_raise-ok : (m : Result SkuError String) {sku : String} → sku_or_raise m ≡ ok sku → m ≡ ok sku
sku_or_raise-ok (ok a) h = ap (λ b. ok b) (ok_inj h)
sku_or_raise-ok (err e) h = absurd (err≢ok {e = reserved_sku} h)

module _ (sku : String) (sp : SourceProduct) (t : LinkTable) (c : IsConsistent t) where
  create_primary_link-ok :
      {r : SourceProductLink × LinkTable}
      → create_primary_link sku sp t ≡ ok r
      → IsConsistent r.1
        × (get_primary_source_idx sku r.1 ≡ some sp.source.idx)
        × (r.1.rows ≡ t.rows ++ r.0 ∷ [])
        × (r.0.real_product_sku ≡ sku)
  unfolding create_primary_link get_primary_source_idx
  create_primary_link-ok {r} h =
      let l = new_link t.next_pk sku sp.source sp.external_id (pos 0) true "" in
      let (free, h1) =
        raise_if-ok
          (exists_row (of_pair sku sp.source.pk) t.rows || exists_row (is_primary_for sku) t.rows)
          integrity_error h in
      let no_pair : exists_row (of_pair sku sp.source.pk) t.rows ≡ false = ground (arith, free) in
      let no_primary : exists_row (is_primary_for sku) t.rows ≡ false = ground (arith, free) in
      let Right : SourceProductLink × LinkTable → Type 0 = λ x.
        IsConsistent x.1
        × (get_primary_source_idx sku x.1 ≡ some sp.source.idx)
        × (x.1.rows ≡ t.rows ++ x.0 ∷ [])
        × (x.0.real_product_sku ≡ sku) in
      subst Right (ok_inj h1) (
        insert-IsConsistent t c l refl
            (count_rows_of_not_exists (of_pair sku sp.source.pk) t.rows no_pair)
            (λ _. count_rows_of_not_exists (is_primary_for sku) t.rows no_primary),
        rw
            (
              get_primary_source_idx,
              first_row-append_new (is_primary_for sku) t.rows l no_primary
                  (ground (arith, str_eq_refl sku)),
            )
            refl,
        refl,
        refl,
      )

module _ (lib : SkuText) (faults : Faults) (now new_rp_pk sp_pk : ℕ) where
  pub unlink_sp_from_realproduct_lem :
      (s : Store) {r : Unlinked} {s' : Store}
      → IsConsistent s.links
      → unlink_sp_from_realproduct lib faults now new_rp_pk sp_pk s ≡ ok (r, s')
      → (sp : SourceProduct) × (old_rp : RealProduct) × (first_row (has_sp_pk sp_pk) s.products
          ≡ some sp)
        × (linked_rp sp s.real_products ≡ some old_rp)
        × (is_push_blocked sp.source ≡ false)
        × (generate_sku lib sp.source sp.external_id ≡ ok r.new_real_product_sku)
        × (exists_row (λ (rp : RealProduct). str_eq rp.sku r.new_real_product_sku) s.real_products
            ≡ false)
        × (first_row (has_sp_pk sp_pk) s'.products ≡ some (attached new_rp_pk now sp))
        × (s'.real_products
            ≡ s.real_products ++ fresh_real_product new_rp_pk r.new_real_product_sku sp old_rp ∷ [])
        × IsConsistent s'.links
        × (get_primary_source_idx r.new_real_product_sku s'.links ≡ some sp.source.idx)
  unfolding unlink_sp_from_realproduct delete_link
  unlink_sp_from_realproduct_lem s {r} {s'} c h =
      let (sp, found, h1) =
        or_raise-ok (first_row (has_sp_pk sp_pk) s.products) product_not_found h in
      let (old_rp, old, h2) = or_raise-ok (linked_rp sp s.real_products) not_linked h1 in
      let (allowed, h3) = raise_if-ok (is_push_blocked sp.source) push_not_allowed h2 in
      let (link, at, h4) =
        or_raise-ok (first_row (of_pair old_rp.sku sp.source.pk) s.links.rows) link_not_found h3 in
      let (new_sku, generated, h5) =
        bind-ok (sku_or_raise (generate_sku lib sp.source sp.external_id)) h4 in
      let taken : RealProduct → Bool = λ rp. str_eq rp.sku new_sku in
      let (free, h6) =
        raise_if-ok (str_eq new_sku old_rp.sku || exists_row taken s.real_products) sku_taken h5 in
      let (created, made, h7) =
        bind-ok (create_primary_link new_sku sp (delete_link link.pk s.links)) h6 in
      let deleted = delete-IsConsistent (λ l. not (has_pk link.pk l)) s.links c in
      let (consistent, primary, _, _) =
        create_primary_link-ok new_sku sp (delete_link link.pk s.links) deleted made in
      let Right : Unlinked × Store → Type 0 = λ x.
        (generate_sku lib sp.source sp.external_id ≡ ok x.0.new_real_product_sku)
        × (exists_row (λ (rp : RealProduct). str_eq rp.sku x.0.new_real_product_sku) s.real_products
            ≡ false)
        × (first_row (has_sp_pk sp_pk) x.1.products ≡ some (attached new_rp_pk now sp))
        × (x.1.real_products
            ≡ s.real_products
              ++ fresh_real_product new_rp_pk x.0.new_real_product_sku sp old_rp ∷ [])
        × IsConsistent x.1.links
        × (get_primary_source_idx x.0.new_real_product_sku x.1.links ≡ some sp.source.idx) in
      let right : Right (r, s') = subst Right (ok_inj h7) (
        sku_or_raise-ok (generate_sku lib sp.source sp.external_id) generated,
        (or_false (str_eq new_sku old_rp.sku) (exists_row taken s.real_products) free).1,
        set_real_product_lem sp_pk new_rp_pk now s.products found,
        refl,
        consistent,
        primary,
      ) in
      (sp, old_rp, found, old, allowed, right.0, right.1, right.2, right.3, right.4, right.5)
