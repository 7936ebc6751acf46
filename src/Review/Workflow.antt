-- ===== src/Review/Workflow.antt =====
-- Which statuses the review actions can give to the products of a source that may not be pushed.
use mathlib.Core.Path.{subst}
use entirius_django_atlas.Base.{
  ℕ, ◌≡◌, ◌≢◌, refl, sym, ap, ◌∙◌, Bool, true, false, not, ◌&&◌, ◌||◌, Option, some, List, [], ◌∷◌,
  if◌then◌else◌, inl, inr, Bool-cases, Option-cases, first_row, exists_row, update_rows, All, arith,
}
use entirius_django_atlas.Base.Outcome.{Result, ok, err, Result-cases}
use entirius_django_atlas.Model.{SourceProduct}
use entirius_django_atlas.Model.Enums.{ProductStatus, new, queued, approved, rejected, status_eq}
use entirius_django_atlas.KindGuard.{is_push_blocked}
use entirius_django_atlas.Review.{
  ReviewError, invalid_transition, push_not_allowed, transition_allowed, is_blocked_target,
  moved_to, transition_status, has_id, get_sp, save_product, move, skip, mem_id, bulk_valid,
  bulk_change, requeue_valid, requeue_change, approve, reject, queue, bulk_approve, bulk_reject,
  bulk_requeue, bulk_apply,
}
use entirius_django_atlas.Review.Bulk.{HasKeys, bulk_update_rows}

pub data ReviewOp : Type 0 where
  approve_one reject_one queue_one : ℕ → Option ℕ → ℕ → ReviewOp
  skip_one : ℕ → ℕ → ReviewOp
  approve_many reject_many : ℕ → Option ℕ → List ℕ → ReviewOp
  requeue_many : ℕ → List ℕ → ReviewOp

-- The table after a call; one that raises leaves it as it was.
abbrev pub table_after :
    List SourceProduct
    → Result ReviewError (SourceProduct × List SourceProduct)
    → List SourceProduct
table_after before (ok (_, after)) = after
table_after before (err _) = before

unfoldable pub apply_review : ReviewOp → List SourceProduct → List SourceProduct
unfolding approve reject queue skip bulk_approve bulk_reject bulk_requeue
apply_review (approve_one now user k) rows = table_after rows (approve now user k rows)
apply_review (reject_one now user k) rows = table_after rows (reject now user k rows)
apply_review (queue_one now user k) rows = table_after rows (queue now user k rows)
apply_review (skip_one now k) rows = table_after rows (skip now k rows)
apply_review (approve_many now user ids) rows = (bulk_approve now user ids rows).1
apply_review (reject_many now user ids) rows = (bulk_reject now user ids rows).1
apply_review (requeue_many now ids) rows = (bulk_requeue now ids rows).1

unfoldable pub run_reviews : List ReviewOp → List SourceProduct → List SourceProduct
unfolding apply_review
run_reviews [] rows = rows
run_reviews (op ∷ ops) rows = run_reviews ops (apply_review op rows)

-- A product of a source that may not be pushed waits as new or is rejected.
abbrev pub is_kept_out : SourceProduct → Bool
is_kept_out sp =
    not (is_push_blocked sp.source) || status_eq sp.status new || status_eq sp.status rejected

abbrev pub KeptOut : List SourceProduct → Type 0
KeptOut = All (λ sp. is_kept_out sp ≡ true)

allowed_status :
    (blocked : Bool) (old target : ProductStatus)
    → (not blocked || status_eq old new || status_eq old rejected) ≡ true
    → transition_allowed old target ≡ true
    → (is_blocked_target target && blocked) ≡ false
    → (not blocked || status_eq target new || status_eq target rejected) ≡ true
allowed_status blocked old target a b c = ground arith

moved_to_status :
    (now : ℕ) (user : Option ℕ) (target : ProductStatus) (sp : SourceProduct)
    → is_kept_out (moved_to now user target sp)
      ≡ (not (is_push_blocked sp.source) || status_eq target new || status_eq target rejected)
moved_to_status now user target sp = ground arith

abbrev pub IsReviewable : List SourceProduct → Type 0
IsReviewable rows = HasKeys rows × KeptOut rows

-- What an update may do to the rows that it touches.
abbrev KeepsOut : (SourceProduct → Bool) → (SourceProduct → SourceProduct) → Type 0
KeepsOut test f =
    (sp : SourceProduct)
    → is_kept_out sp ≡ true
    → test sp ≡ true
    → (is_kept_out (f sp) ≡ true) × ((f sp).pk ≡ sp.pk)

module _ (test : SourceProduct → Bool) (f : SourceProduct → SourceProduct)
    (keeps : KeepsOut test f) where
  update_rows-KeptOut :
      (rows : List SourceProduct) → KeptOut rows → KeptOut (update_rows test f rows)
  update_rows-KeptOut [] a = tt
  update_rows-KeptOut (r ∷ rows) a = elim (Bool-cases (test r)) [
    | inl e ↦ (rw e (keeps r a.0 e).0, update_rows-KeptOut rows a.1)
    | inr e ↦ (rw e a.0, update_rows-KeptOut rows a.1)
  ]

  update_rows-pk :
      (r : SourceProduct) → is_kept_out r ≡ true → (if test r then f r else r).pk ≡ r.pk
  update_rows-pk r a = elim (Bool-cases (test r)) [
    | inl e ↦ rw e (keeps r a e).1
    | inr e ↦ rw e refl
  ]

  update_rows-exists :
      (k : ℕ) (rows : List SourceProduct)
      → KeptOut rows
      → exists_row (has_id k) (update_rows test f rows) ≡ exists_row (has_id k) rows
  update_rows-exists k [] a = refl
  update_rows-exists k (r ∷ rows) a = rw (update_rows-pk r a.0, update_rows-exists k rows a.1) refl

  update_rows-HasKeys :
      (rows : List SourceProduct) → KeptOut rows → HasKeys rows → HasKeys (update_rows test f rows)
  update_rows-HasKeys [] a keys = tt
  update_rows-HasKeys (r ∷ rows) a keys = (
    ap (λ k. exists_row (has_id k) (update_rows test f rows)) (update_rows-pk r a.0)
        ∙ update_rows-exists r.pk rows a.1
        ∙ keys.0,
    update_rows-HasKeys rows a.1 keys.1,
  )

  update_rows-IsReviewable :
      (rows : List SourceProduct) → IsReviewable rows → IsReviewable (update_rows test f rows)
  update_rows-IsReviewable rows c = (update_rows-HasKeys rows c.1 c.0, update_rows-KeptOut rows c.1)

-- Saving an object over its own row.
save_product-IsReviewable :
    (sp : SourceProduct) (rows : List SourceProduct)
    → is_kept_out sp ≡ true
    → IsReviewable rows
    → IsReviewable (save_product sp rows)
save_product-IsReviewable sp rows kept =
    update_rows-IsReviewable (has_id sp.pk) (λ _. sp) (λ r a e. (kept, ground (arith, e))) rows

found-KeptOut :
    (k : ℕ) (rows : List SourceProduct) {sp : SourceProduct}
    → KeptOut rows
    → first_row (has_id k) rows ≡ some sp
    → is_kept_out sp ≡ true
found-KeptOut k [] a h = cc
found-KeptOut k (r ∷ rows) {sp} a h = ground (arith, found-KeptOut k rows {sp = sp})

bulk_keeps :
    (now : ℕ) (user : Option ℕ) (target : ProductStatus) (ids : List ℕ)
    → KeepsOut (λ sp. mem_id sp.pk ids && bulk_valid target sp) (bulk_change now user target)
bulk_keeps now user target ids sp kept e = (ground (arith, kept, e), refl)

requeue_keeps :
    (now : ℕ) (ids : List ℕ)
    → KeepsOut (λ sp. mem_id sp.pk ids && requeue_valid sp) (requeue_change now)
requeue_keeps now ids sp kept e = (ground (arith, kept, e), refl)

abbrev returning : SourceProduct → Result ReviewError SourceProduct
returning sp = ok sp

ok_inj : {x y : SourceProduct} → returning x ≡ returning y → x ≡ y
ok_inj h = cc

ok≢err : (x : SourceProduct) (e : ReviewError) → returning x ≢ err e
ok≢err x e h = cc

transition_status-KeptOut :
    (now : ℕ) (user : Option ℕ) (target : ProductStatus) (sp : SourceProduct) {sp' : SourceProduct}
    → is_kept_out sp ≡ true
    → transition_status now user target sp ≡ ok sp'
    → is_kept_out sp' ≡ true
unfolding transition_status
transition_status-KeptOut now user target sp {sp'} kept h =
    elim (Bool-cases (transition_allowed sp.status target)) [
      | inr e ↦ absurd (ok≢err sp' invalid_transition (sym h ∙ rw (transition_status, e) refl))
      | inl e ↦ elim (Bool-cases (is_blocked_target target && is_push_blocked sp.source)) [
        | inl f ↦ absurd (ok≢err sp' push_not_allowed (sym h ∙ rw (transition_status, e, f) refl))
        | inr f ↦
            subst (λ x. is_kept_out x ≡ true) (ok_inj (sym (returned e f) ∙ h))
              (moved_to_status now user target sp
                ∙ allowed_status (is_push_blocked sp.source) sp.status target kept e f)
      ]
    ]
  where
    returned :
        transition_allowed sp.status target ≡ true
        → (is_blocked_target target && is_push_blocked sp.source) ≡ false
        → transition_status now user target sp ≡ ok (moved_to now user target sp)
    returned e f = rw (transition_status, e, f) refl

bulk_apply-IsReviewable :
    (now : ℕ) (user : Option ℕ) (target : ProductStatus) (ids : List ℕ) (rows : List SourceProduct)
    → IsReviewable rows
    → IsReviewable (bulk_apply now user target ids rows).1
unfolding bulk_apply
bulk_apply-IsReviewable now user target ids rows c =
    subst IsReviewable
      (sym (bulk_update_rows (bulk_valid target) (bulk_change now user target) ids rows c.0))
      (update_rows-IsReviewable _ _ (bulk_keeps now user target ids) rows c)

bulk_requeue-IsReviewable :
    (now : ℕ) (ids : List ℕ) (rows : List SourceProduct)
    → IsReviewable rows
    → IsReviewable (bulk_requeue now ids rows).1
unfolding bulk_requeue
bulk_requeue-IsReviewable now ids rows c =
    subst IsReviewable (sym (bulk_update_rows requeue_valid (requeue_change now) ids rows c.0))
      (update_rows-IsReviewable _ _ (requeue_keeps now ids) rows c)

move-IsReviewable :
    (now : ℕ) (user : Option ℕ) (target : ProductStatus) (k : ℕ) (rows : List SourceProduct)
    → IsReviewable rows
    → IsReviewable (table_after rows (move now user target k rows))
unfolding move get_sp
move-IsReviewable now user target k rows c = elim (Option-cases (first_row (has_id k) rows)) [
  | inl e ↦ rw (move, get_sp, e) c
  | inr (sp, e) ↦ elim (Result-cases (transition_status now user target sp)) [
    | inl (_, f) ↦ rw (move, get_sp, e, f) c
    | inr (sp', f) ↦
        rw (move, get_sp, e, f)
          (save_product-IsReviewable sp' rows
            (transition_status-KeptOut now user target sp (found-KeptOut k rows c.1 e) f) c)
  ]
]

skip-IsReviewable :
    (now k : ℕ) (rows : List SourceProduct)
    → IsReviewable rows
    → IsReviewable (table_after rows (skip now k rows))
unfolding skip get_sp
skip-IsReviewable now k rows c = elim (Option-cases (first_row (has_id k) rows)) [
  | inl e ↦ rw (skip, get_sp, e) c
  | inr (sp, e) ↦ elim (Bool-cases (status_eq sp.status queued)) [
    | inl f ↦ rw (skip, get_sp, e, f) (save_product-IsReviewable _ rows (ground arith) c)
    | inr f ↦ rw (skip, get_sp, e, f) c
  ]
]

apply_review-IsReviewable :
    (op : ReviewOp) (rows : List SourceProduct)
    → IsReviewable rows
    → IsReviewable (apply_review op rows)
unfolding apply_review approve reject queue bulk_approve bulk_reject
apply_review-IsReviewable (approve_one now user k) rows c =
    move-IsReviewable now user approved k rows c
apply_review-IsReviewable (reject_one now user k) rows c =
    move-IsReviewable now user rejected k rows c
apply_review-IsReviewable (queue_one now user k) rows c = move-IsReviewable now user queued k rows c
apply_review-IsReviewable (skip_one now k) rows c = skip-IsReviewable now k rows c
apply_review-IsReviewable (approve_many now user ids) rows c =
    bulk_apply-IsReviewable now user approved ids rows c
apply_review-IsReviewable (reject_many now user ids) rows c =
    bulk_apply-IsReviewable now user rejected ids rows c
apply_review-IsReviewable (requeue_many now ids) rows c = bulk_requeue-IsReviewable now ids rows c

-- Whatever single and bulk review actions are called, in whatever order and with whatever outcome,
-- a table without repeated keys whose products of monitoring and enrichment sources are all new or
-- rejected stays one: none of them is ever queued, approved or pushed.
pub run_reviews-IsReviewable :
    (ops : List ReviewOp) (rows : List SourceProduct)
    → IsReviewable rows
    → IsReviewable (run_reviews ops rows)
unfolding run_reviews
run_reviews-IsReviewable [] rows c = c
run_reviews-IsReviewable (op ∷ ops) rows c =
    run_reviews-IsReviewable ops (apply_review op rows) (apply_review-IsReviewable op rows c)
