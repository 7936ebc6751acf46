-- ===== src/Attach/Service.antt =====
-- Any sequence of the writing calls of services/product_link_service.py keeps the constraints of the
-- link table: the six on links alone, the manual link and the manual unlink.
use entirius_django_atlas.Base.{ℕ, inl, inr, Bool, List, [], ◌∷◌, String}
use entirius_django_atlas.Base.Outcome.{committed, Result-cases}
use entirius_django_atlas.Model.{Source}
use entirius_django_atlas.Links.Consistency.{IsConsistent}
use entirius_django_atlas.Links.Safety.{LinkOp, apply_op, apply_op-IsConsistent}
use entirius_django_atlas.Store.{Store, Faults}
use entirius_django_atlas.Sku.{SkuText}
use entirius_django_atlas.Attach.{VerdictWrite, link_sp_to_realproduct, unlink_sp_from_realproduct}
use entirius_django_atlas.Attach.Attached.{link_sp_to_realproduct_lem}
use entirius_django_atlas.Attach.Detached.{unlink_sp_from_realproduct_lem}

-- The calls of the service that write; a manual link and unlink come with the key of the product, the
-- time, and what fails beside them.
pub data ServiceCall : Type 0 where
  on_links : LinkOp → ServiceCall
  link_product : Faults → VerdictWrite → ℕ → ℕ → String → ServiceCall
  unlink_product : Faults → ℕ → ℕ → ℕ → ServiceCall

module _ (sku_known : String → Bool) (sources : List Source) (iexact : String → String → Bool)
    (lib : SkuText) where
  -- One call; a call that raises leaves the tables as they were.
  pub apply_call : ServiceCall → Store → Store
  apply_call (on_links op) s = record s { links = apply_op sku_known sources op s.links }
  apply_call (link_product faults verdict now sp_pk sku) s =
      committed s (link_sp_to_realproduct iexact faults verdict now sp_pk sku s)
  apply_call (unlink_product faults now new_rp_pk sp_pk) s =
      committed s (unlink_sp_from_realproduct lib faults now new_rp_pk sp_pk s)

  pub run_calls : List ServiceCall → Store → Store
  run_calls [] s = s
  run_calls (c ∷ cs) s = run_calls cs (apply_call c s)

  apply_call-IsConsistent :
      (call : ServiceCall) (s : Store)
      → IsConsistent s.links
      → IsConsistent (apply_call call s).links
  unfolding apply_call
  apply_call-IsConsistent (on_links op) s c = apply_op-IsConsistent sku_known sources op s.links c
  apply_call-IsConsistent (link_product faults verdict now sp_pk sku) s c =
      elim (Result-cases (link_sp_to_realproduct iexact faults verdict now sp_pk sku s)) [
        | inl (e, h) ↦ rw h c
        | inr ((r, s'), h) ↦
            rw h (link_sp_to_realproduct_lem iexact faults now sp_pk sku verdict s sku c h).8
      ]
  apply_call-IsConsistent (unlink_product faults now new_rp_pk sp_pk) s c =
      elim (Result-cases (unlink_sp_from_realproduct lib faults now new_rp_pk sp_pk s)) [
        | inl (e, h) ↦ rw h c
        | inr ((r, s'), h) ↦
            rw h (unlink_sp_from_realproduct_lem lib faults now new_rp_pk sp_pk s c h).9
      ]

  -- After any sequence of calls of create_link, update_link, delete_link, upsert_for_push,
  -- set_primary, unset_primary, link_sp_to_realproduct and unlink_sp_from_realproduct, successful or
  -- raising, on a link table that meets its constraints, it meets them: keys are unique and below the
  -- sequence, no (SKU, source) pair has two links, and no SKU has two primary links.
  pub run_calls-IsConsistent :
      (calls : List ServiceCall) (s : Store)
      → IsConsistent s.links
      → IsConsistent (run_calls calls s).links
  unfolding run_calls
  run_calls-IsConsistent [] s c = c
  run_calls-IsConsistent (call ∷ calls) s c =
      run_calls-IsConsistent calls (apply_call call s) (apply_call-IsConsistent call s c)
