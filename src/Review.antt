-- ===== src/Review.antt =====
-- The review workflow of django_atlas/services/review_service.py over the table of source products,
-- and the row lookup of django_atlas/services/product_service.py. A save stamps `modified_at`.
pub mod Bulk
pub mod Workflow
use entirius_django_atlas.Base.{
  ℕ, ◌+◌, Bool, true, false, not, ◌&&◌, ◌||◌, ◌==◌, Option, none, some, List, [], ◌∷◌,
  if◌then◌else◌, first_row, exists_row, where_rows, update_rows, map, length,
}
use entirius_django_atlas.Base.Outcome.{Result, ok, err, ◌>>=◌, ◌>>◌, raise_if, or_raise}
use entirius_django_atlas.Model.{SourceProduct}
use entirius_django_atlas.Model.Enums.{
  ProductStatus, new, queued, approved, rejected, pushed_pending_images, pushed, status_eq,
}
use entirius_django_atlas.KindGuard.{is_push_blocked}

pub data ReviewError : Type 0 where
  invalid_transition push_not_allowed not_found skip_not_queued : ReviewError

-- `STATUS_TRANSITIONS`
abbrev pub transition_allowed : ProductStatus → ProductStatus → Bool
transition_allowed new queued = true
transition_allowed new approved = true
transition_allowed new rejected = true
transition_allowed queued new = true
transition_allowed queued approved = true
transition_allowed queued rejected = true
transition_allowed approved rejected = true
transition_allowed approved pushed_pending_images = true
transition_allowed rejected queued = true
transition_allowed pushed_pending_images pushed = true
transition_allowed pushed approved = true
transition_allowed _ _ = false

-- `_REVIEW_AUDIT_STATUSES`
abbrev pub is_review_audit_status : ProductStatus → Bool
is_review_audit_status approved = true
is_review_audit_status rejected = true
is_review_audit_status queued = true
is_review_audit_status _ = false

-- `_MONITORING_BLOCKED_TARGETS`
abbrev pub is_blocked_target : ProductStatus → Bool
is_blocked_target approved = true
is_blocked_target queued = true
is_blocked_target _ = false

abbrev pub pushed_to_approved : ProductStatus → ProductStatus → Bool
pushed_to_approved old target = status_eq old pushed && status_eq target approved

-- The object after `transition_status`, saved at `now`.
abbrev pub moved_to : ℕ → Option ℕ → ProductStatus → SourceProduct → SourceProduct
moved_to now user target sp =
    if pushed_to_approved sp.status target
    then record sp { status = target; reviewed_at = some now; modified_at = now }
    else if is_review_audit_status target
    then record sp {
      status = target;
      reviewed_by = user;
      reviewed_at = some now;
      modified_at = now;
    }
    else record sp { status = target; modified_at = now }

unfoldable pub transition_status :
    ℕ → Option ℕ → ProductStatus → SourceProduct → Result ReviewError SourceProduct
transition_status now user target sp = do
  raise_if (not (transition_allowed sp.status target)) invalid_transition
  raise_if (is_blocked_target target && is_push_blocked sp.source) push_not_allowed
  ok (moved_to now user target sp)

abbrev pub has_id : ℕ → SourceProduct → Bool
has_id k sp = sp.pk == k

-- `product_service.get_sp`
unfoldable pub get_sp : ℕ → List SourceProduct → Result ReviewError SourceProduct
get_sp k products = or_raise (first_row (has_id k) products) not_found

-- `sp.save()`
abbrev pub save_product : SourceProduct → List SourceProduct → List SourceProduct
save_product sp = update_rows (has_id sp.pk) (λ _. sp)

-- `transition_status(product_service.get_sp(sp_id), target, user=user)`, the body of `approve`,
-- `reject` and `queue`
unfoldable pub move :
    ℕ
    → Option ℕ
    → ProductStatus
    → ℕ
    → List SourceProduct
    → Result ReviewError (SourceProduct × List SourceProduct)
unfolding transition_status get_sp
move now user target k products = do
  sp ← get_sp k products
  sp' ← transition_status now user target sp
  ok (sp', save_product sp' products)

unfoldable pub approve :
    ℕ → Option ℕ → ℕ → List SourceProduct → Result ReviewError (SourceProduct × List SourceProduct)
unfolding move
approve now user = move now user approved

unfoldable pub reject :
    ℕ → Option ℕ → ℕ → List SourceProduct → Result ReviewError (SourceProduct × List SourceProduct)
unfolding move
reject now user = move now user rejected

unfoldable pub queue :
    ℕ → Option ℕ → ℕ → List SourceProduct → Result ReviewError (SourceProduct × List SourceProduct)
unfolding move
queue now user = move now user queued

unfoldable pub skip :
    ℕ → ℕ → List SourceProduct → Result ReviewError (SourceProduct × List SourceProduct)
unfolding get_sp
skip now k products = do
  sp ← get_sp k products
  raise_if (not (status_eq sp.status queued)) skip_not_queued
  let sp' = record sp { status = new; modified_at = now }
  ok (sp', save_product sp' products)

-- `pk in ids`
abbrev pub mem_id : ℕ → List ℕ → Bool
mem_id k ids = exists_row (λ j. j == k) ids

pub record BulkResult : Type 0 where
  pub success : ℕ
  pub invalid_transition_count : ℕ
  pub ids_failed : List ℕ

abbrev pub ids_of : List SourceProduct → List ℕ
ids_of = map (λ sp. sp.pk)

-- The loop over the selected rows, and the one update of the valid ones.
unfoldable pub bulk_update :
    (SourceProduct → Bool)
    → (SourceProduct → SourceProduct)
    → List ℕ
    → List SourceProduct
    → BulkResult × List SourceProduct
bulk_update valid change sp_ids products =
    let selected = where_rows (λ sp. mem_id sp.pk sp_ids) products in
    let valid_ids = ids_of (where_rows valid selected) in
    let failed = ids_of (where_rows (λ sp. not (valid sp)) selected) in
    (
      record {
        success = length valid_ids;
        invalid_transition_count = length failed;
        ids_failed = failed;
      },
      update_rows (λ sp. mem_id sp.pk valid_ids) change products,
    )

abbrev pub bulk_valid : ProductStatus → SourceProduct → Bool
bulk_valid target sp =
    transition_allowed sp.status target
    && not (is_blocked_target target && is_push_blocked sp.source)

-- The columns of the bulk update, with those of the audit.
abbrev pub bulk_change : ℕ → Option ℕ → ProductStatus → SourceProduct → SourceProduct
bulk_change now user target sp = record sp {
  status = target;
  reviewed_by = user;
  reviewed_at = some now;
  modified_at = now;
}

-- `_bulk_apply(..., touch_audit=True)`, as `bulk_approve` and `bulk_reject` call it
unfoldable pub bulk_apply :
    ℕ → Option ℕ → ProductStatus → List ℕ → List SourceProduct → BulkResult × List SourceProduct
unfolding bulk_update
bulk_apply now user target = bulk_update (bulk_valid target) (bulk_change now user target)

unfoldable pub bulk_approve :
    ℕ → Option ℕ → List ℕ → List SourceProduct → BulkResult × List SourceProduct
unfolding bulk_apply
bulk_approve now user = bulk_apply now user approved

unfoldable pub bulk_reject :
    ℕ → Option ℕ → List ℕ → List SourceProduct → BulkResult × List SourceProduct
unfolding bulk_apply
bulk_reject now user = bulk_apply now user rejected

abbrev pub requeue_valid : SourceProduct → Bool
requeue_valid sp = status_eq sp.status rejected && not (is_push_blocked sp.source)

abbrev pub requeue_change : ℕ → SourceProduct → SourceProduct
requeue_change now sp = record sp { status = queued; modified_at = now }

unfoldable pub bulk_requeue : ℕ → List ℕ → List SourceProduct → BulkResult × List SourceProduct
unfolding bulk_update
bulk_requeue now = bulk_update requeue_valid (requeue_change now)
