-- ===== src/Review/Bulk.antt =====
-- The bulk actions act on each selected row as the single actions would, row by row.
use mathlib.Core.Path.{subst}
use entirius_django_atlas.Base.{
  ℕ, ◌+◌, ◌≡◌, refl, sym, ◌∙◌, Bool, true, false, not, ◌&&◌, Option, List, [], ◌∷◌, if◌then◌else◌,
  inl, inr, Bool-cases, exists_row, where_rows, update_rows, count_rows, length, All, arith,
  update_rows-agree, ==_refl,
}
use entirius_django_atlas.Base.Outcome.{ok, err}
use entirius_django_atlas.Model.{SourceProduct}
use entirius_django_atlas.Model.Enums.{ProductStatus, pushed, approved}
use entirius_django_atlas.KindGuard.{is_push_blocked}
use entirius_django_atlas.Review.{
  transition_allowed, is_blocked_target, has_id, mem_id, ids_of, bulk_update, bulk_valid,
  bulk_change, bulk_apply, transition_status, moved_to, push_not_allowed, invalid_transition,
}

-- No key occurs twice.
abbrev pub HasKeys : List SourceProduct → Type 0
HasKeys [] = Unit
HasKeys (sp ∷ rest) = (exists_row (has_id sp.pk) rest ≡ false) × HasKeys rest

module _ (test : SourceProduct → Bool) where
  absent_id :
      (k : ℕ) (rows : List SourceProduct)
      → exists_row (has_id k) rows ≡ false
      → mem_id k (ids_of (where_rows test rows)) ≡ false
  absent_id k [] h = refl
  absent_id k (r ∷ rows) h = ground (arith, absent_id k rows)

-- A later row is not the one whose key was put in front.
agree_later :
    (test : SourceProduct → Bool) (k : ℕ) (ids : List ℕ) (rows : List SourceProduct)
    → exists_row (has_id k) rows ≡ false
    → All (λ r. mem_id r.pk ids ≡ test r) rows
    → All (λ r. mem_id r.pk (k ∷ ids) ≡ test r) rows
agree_later test k ids [] h a = tt
agree_later test k ids (r ∷ rows) h a =
    (ground (arith, a.0), agree_later test k ids rows (ground arith) a.1)

whole_in :
    (test : SourceProduct → Bool) (r : SourceProduct) (rows : List SourceProduct)
    → test r ≡ true
    → ids_of (where_rows test (r ∷ rows)) ≡ r.pk ∷ ids_of (where_rows test rows)
whole_in test r rows e = rw e refl

whole_out :
    (test : SourceProduct → Bool) (r : SourceProduct) (rows : List SourceProduct)
    → test r ≡ false
    → ids_of (where_rows test (r ∷ rows)) ≡ ids_of (where_rows test rows)
whole_out test r rows e = rw e refl

ids_agree :
    (test : SourceProduct → Bool) (rows : List SourceProduct)
    → HasKeys rows
    → All (λ r. mem_id r.pk (ids_of (where_rows test rows)) ≡ test r) rows
ids_agree test [] h = tt
ids_agree test (r ∷ rows) h =
    let Agree =
      λ (ids : List ℕ). All (λ (x : SourceProduct). mem_id x.pk ids ≡ test x) (r ∷ rows) in
    let later = ids_agree test rows h.1 in
    elim (Bool-cases (test r)) as (λ _. Agree (ids_of (where_rows test (r ∷ rows)))) [
      | inl e ↦
          subst Agree (sym (whole_in test r rows e)) (
            ground (arith, e),
            agree_later test r.pk (ids_of (where_rows test rows)) rows h.0 later,
          )
      | inr e ↦
          subst Agree (sym (whole_out test r rows e)) (absent_id test r.pk rows h.0 ∙ sym e, later)
    ]

where_rows-where_rows :
    (p q : SourceProduct → Bool) (rows : List SourceProduct)
    → where_rows p (where_rows q rows) ≡ where_rows (λ r. q r && p r) rows
where_rows-where_rows p q [] = refl
where_rows-where_rows p q (r ∷ rows) = ground (arith, where_rows-where_rows p q rows)

-- A row is counted as moved or as failed, never both.
both_counts :
    (p q : SourceProduct → Bool) (rows : List SourceProduct)
    → length (where_rows p (where_rows q rows))
        + length (where_rows (λ r. not (p r)) (where_rows q rows))
      ≡ count_rows q rows
both_counts p q [] = refl
both_counts p q (r ∷ rows) = ground (arith, both_counts p q rows)

length-ids_of : (rows : List SourceProduct) → length (ids_of rows) ≡ length rows
length-ids_of [] = refl
length-ids_of (r ∷ rows) = omega (arith, length-ids_of rows)

-- The update by the valid ids is the update of the selected valid rows.
pub bulk_update_rows :
    (valid : SourceProduct → Bool) (change : SourceProduct → SourceProduct) (sp_ids : List ℕ)
    (products : List SourceProduct)
    → HasKeys products
    → (bulk_update valid change sp_ids products).1
      ≡ update_rows (λ sp. mem_id sp.pk sp_ids && valid sp) change products
unfolding bulk_update
bulk_update_rows valid change sp_ids products keys =
    let selected = λ (sp : SourceProduct). mem_id sp.pk sp_ids in
    subst
      (λ rows.
        update_rows (λ sp. mem_id sp.pk (ids_of rows)) change products
        ≡ update_rows (λ sp. selected sp && valid sp) change products)
      (sym (where_rows-where_rows valid selected products))
      (update_rows-agree _ _ change products
        (ids_agree (λ sp. selected sp && valid sp) products keys))

pub bulk_update_counts :
    (valid : SourceProduct → Bool) (change : SourceProduct → SourceProduct) (sp_ids : List ℕ)
    (products : List SourceProduct)
    → (bulk_update valid change sp_ids products).0.success
        + (bulk_update valid change sp_ids products).0.invalid_transition_count
      ≡ count_rows (λ sp. mem_id sp.pk sp_ids) products
unfolding bulk_update
bulk_update_counts valid change sp_ids products =
    let selected = λ (sp : SourceProduct). mem_id sp.pk sp_ids in
    let kept = where_rows selected products in
    omega (
      arith,
      length-ids_of (where_rows valid kept),
      length-ids_of (where_rows (λ sp. not (valid sp)) kept),
      both_counts valid selected products,
    )

-- A single transition succeeds exactly on the rows that a bulk action accepts.
bulk_valid-transition :
    (now : ℕ) (user : Option ℕ) (target : ProductStatus) (sp : SourceProduct)
    → transition_status now user target sp ≡ (
        if bulk_valid target sp
        then ok (moved_to now user target sp)
        else if transition_allowed sp.status target
        then err push_not_allowed
        else err invalid_transition)
unfolding transition_status
bulk_valid-transition now user target sp = elim (Bool-cases (transition_allowed sp.status target)) [
  | inl e ↦ elim (Bool-cases (is_blocked_target target && is_push_blocked sp.source)) [
    | inl f ↦ rw (e, f) refl
    | inr f ↦ rw (e, f) refl
  ]
  | inr e ↦ rw e refl
]

-- On a table without repeated keys `_bulk_apply` writes its columns to exactly the selected rows
-- that pass its test, leaves every other row alone, and counts each selected row once. The test
-- of a row is the one of the single action: `transition_status` returns exactly when it passes.
pub bulk_apply_lem :
    (now : ℕ) (user : Option ℕ) (target : ProductStatus) (sp_ids : List ℕ)
    (products : List SourceProduct)
    → HasKeys products
    → let done = bulk_apply now user target sp_ids products in
      (done.1
        ≡ update_rows
            (λ sp. mem_id sp.pk sp_ids && bulk_valid target sp)
            (bulk_change now user target)
            products)
      × (done.0.success + done.0.invalid_transition_count
          ≡ count_rows (λ sp. mem_id sp.pk sp_ids) products)
      × ((sp : SourceProduct)
          → transition_status now user target sp ≡ (
              if bulk_valid target sp
              then ok (moved_to now user target sp)
              else if transition_allowed sp.status target
              then err push_not_allowed
              else err invalid_transition))
unfolding bulk_apply
bulk_apply_lem now user target sp_ids products keys = (
  bulk_update_rows (bulk_valid target) (bulk_change now user target) sp_ids products keys,
  bulk_update_counts (bulk_valid target) (bulk_change now user target) sp_ids products,
  bulk_valid-transition now user target,
)

the_valid :
    (now : ℕ) (user : Option ℕ) (sp : SourceProduct)
    → sp.status ≡ pushed
    → is_push_blocked sp.source ≡ false
    → (mem_id sp.pk (sp.pk ∷ []) && bulk_valid approved sp) ≡ true
the_valid now user sp s b = rw (s, b, ==_refl sp.pk) refl

one_row :
    (test : SourceProduct → Bool) (f : SourceProduct → SourceProduct) (sp : SourceProduct)
    → test sp ≡ true
    → update_rows test f (sp ∷ []) ≡ f sp ∷ []
one_row test f sp h = rw h refl
