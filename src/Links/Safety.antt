-- ===== src/Links/Safety.antt =====
-- Each operation of the link service on links alone keeps the constraints of the table.
use entirius_django_atlas.Base.{
  ℕ, ◌≡◌, refl, Bool, true, false, not, ◌&&◌, Option, List, String, if◌then◌else◌, inl, inr,
  Bool-cases, Option-cases, first_row, exists_row, update_rows, arith, count_rows_of_none, str_eq,
  ◌∙◌,
}
use entirius_django_atlas.Base.Int.{ℤ}
use entirius_django_atlas.Base.Outcome.{Result, committed}
use entirius_django_atlas.Model.{Source}
use entirius_django_atlas.KindGuard.{is_push_blocked}
use entirius_django_atlas.Links.{
  LinkTable, LinkPatch, given, patch_link, no_others, has_pk, has_sku, of_pair, unflag, flag,
  new_link, insert_row, create_link, update_link, delete_link, upsert_for_push, or_empty,
  create_for_push, set_primary, unset_primary,
}
use entirius_django_atlas.Links.Consistency.{IsConsistent}
use entirius_django_atlas.Links.Preserve.{
  Keeps, unflag-Keeps, update-IsConsistent, primary_moved-IsConsistent, insert-IsConsistent,
  delete-IsConsistent, count_rows_of_not_exists, count_primary_of_no_sku,
  count_primary_of_unflagged, update_rows-pairs,
}

-- The calls of the service that write links and nothing else.
pub data LinkOp : Type 0 where
  create : String → String → String → ℤ → Bool → String → LinkOp
  update : ℕ → LinkPatch → LinkOp
  delete : ℕ → LinkOp
  upsert : String → Source → Option String → Bool → LinkOp
  make_primary : ℕ → LinkOp
  drop_primary : ℕ → LinkOp

module _ (sku_known : String → Bool) (sources : List Source) where
  -- One call; a call that raises leaves the table as it was.
  pub apply_op : LinkOp → LinkTable → LinkTable
  apply_op (create sku idx ext priority primary notes) t =
      committed t (create_link sku_known sources sku idx ext priority primary notes t)
  apply_op (update k p) t = committed t (update_link k p t)
  apply_op (delete k) t = delete_link k t
  apply_op (upsert sku source ext first) t = (upsert_for_push sku source ext first t).1
  apply_op (make_primary k) t = committed t (set_primary k t)
  apply_op (drop_primary k) t = committed t (unset_primary k t)

patch_link-Keeps : (p : LinkPatch) → Keeps (patch_link p)
patch_link-Keeps p = record { pk = λ l. refl; sku = λ l. refl; source = λ l. refl }

flag-Keeps : Keeps flag
flag-Keeps = record { pk = λ l. refl; sku = λ l. refl; source = λ l. refl }

-- A predicate of the table that a call leaves, whichever way it ends.
abbrev Leaves : {A : Type 0} {E : Type 0} → LinkTable → Result E (A × LinkTable) → Type 0
Leaves t r = IsConsistent (committed t r)

module _ (t : LinkTable) (c : IsConsistent t) where
  set_primary-IsConsistent : (k : ℕ) → Leaves t (set_primary k t)
  unfolding set_primary
  set_primary-IsConsistent k = elim (Option-cases (first_row (has_pk k) t.rows)) [
    | inl e ↦ rw e c
    | inr (link, e) ↦ rw e (elim (Bool-cases (is_push_blocked link.source)) [
      | inl b ↦ rw b c
      | inr b ↦ rw b (primary_moved-IsConsistent flag flag-Keeps k link t c e)
    ])
  ]

  unset_primary-IsConsistent : (k : ℕ) → Leaves t (unset_primary k t)
  unfolding unset_primary
  unset_primary-IsConsistent k = elim (Option-cases (first_row (has_pk k) t.rows)) [
    | inl e ↦ rw e c
    | inr (link, e) ↦ rw e (update-IsConsistent unflag unflag-Keeps (λ l h. cc) (has_pk k) t c)
  ]

  update_link-IsConsistent : (k : ℕ) (p : LinkPatch) → Leaves t (update_link k p t)
  unfolding update_link
  update_link-IsConsistent k p = elim (Bool-cases (no_others p.others)) [
    | inr e ↦ rw e c
    | inl e ↦ rw e (elim (Option-cases (first_row (has_pk k) t.rows)) [
      | inl m ↦ rw m c
      | inr (link, m) ↦ rw m (elim (Bool-cases (given p.is_primary false)) [
        | inl g ↦ rw g (elim (Bool-cases (is_push_blocked link.source)) [
          | inl b ↦ rw b c
          | inr b ↦
              rw b (primary_moved-IsConsistent (patch_link p) (patch_link-Keeps p) k link t c m)
        ])
        | inr g ↦ rw g (
            update-IsConsistent (patch_link p) (patch_link-Keeps p) (λ l. ground (arith, g))
              (has_pk k) t c)
      ])
    ])
  ]

  upsert-IsConsistent :
      (sku : String) (source : Source) (ext : Option String) (first : Bool)
      → IsConsistent (upsert_for_push sku source ext first t).1
  unfolding upsert_for_push
  upsert-IsConsistent sku source ext first =
      elim (Option-cases (first_row (of_pair sku source.pk) t.rows)) [
        | inr (l, e) ↦
            rw (e, upsert_for_push)
              (update-IsConsistent (λ r. record r { external_id = or_empty ext })
                (record { pk = λ r. refl; sku = λ r. refl; source = λ r. refl }) (λ r h. h)
                (has_pk l.pk) t c)
        | inl e ↦
            rw (e, upsert_for_push)
              (insert-IsConsistent t c (create_for_push sku source ext first t) refl
                (count_rows_of_none (of_pair sku source.pk) t.rows e)
                (λ h. count_primary_of_no_sku sku t.rows (ground (arith, h))))
      ]

  -- The insert of `create_link`, with the other links of the SKU cleared first if it is primary.
  insert_new-IsConsistent :
      (sku : String) (source : Source) (ext : String) (priority : ℤ) (primary : Bool)
      (notes : String)
      → exists_row (of_pair sku source.pk) t.rows ≡ false
      → IsConsistent (
          insert_row (new_link t.next_pk sku source ext priority primary notes) (record t {
            rows = if primary then update_rows (has_sku sku) unflag t.rows else t.rows;
          }))
  insert_new-IsConsistent sku source ext priority true notes absent =
      insert-IsConsistent (record t { rows = update_rows (has_sku sku) unflag t.rows })
        (update-IsConsistent unflag unflag-Keeps (λ l h. cc) (has_sku sku) t c)
        (new_link t.next_pk sku source ext priority true notes) refl
        (update_rows-pairs unflag unflag-Keeps (has_sku sku) sku source.pk t.rows
          ∙ count_rows_of_not_exists (of_pair sku source.pk) t.rows absent)
        (λ _. count_primary_of_unflagged sku t.rows)
  insert_new-IsConsistent sku source ext priority false notes absent =
      insert-IsConsistent t c (new_link t.next_pk sku source ext priority false notes) refl
        (count_rows_of_not_exists (of_pair sku source.pk) t.rows absent) (λ h. cc)

  create_link-IsConsistent :
      (sku_known : String → Bool) (sources : List Source) (sku idx ext : String) (priority : ℤ)
      (primary : Bool) (notes : String)
      → Leaves t (create_link sku_known sources sku idx ext priority primary notes t)
  unfolding create_link
  create_link-IsConsistent sku_known sources sku idx ext priority primary notes =
      elim (Bool-cases (sku_known sku)) [
        | inr e ↦ rw e c
        | inl e ↦ rw e (elim (Option-cases (first_row (λ s. str_eq s.idx idx) sources)) [
          | inl m ↦ rw m c
          | inr (source, m) ↦ rw m (elim (Bool-cases (exists_row (of_pair sku source.pk) t.rows)) [
            | inl x ↦ rw x c
            | inr x ↦ rw x (elim (Bool-cases (primary && is_push_blocked source)) [
              | inl b ↦ rw b c
              | inr b ↦ rw b (insert_new-IsConsistent sku source ext priority primary notes x)
            ])
          ])
        ])
      ]

module _ (sku_known : String → Bool) (sources : List Source) where
  pub apply_op-IsConsistent :
      (op : LinkOp) (t : LinkTable)
      → IsConsistent t
      → IsConsistent (apply_op sku_known sources op t)
  unfolding apply_op delete_link
  apply_op-IsConsistent (create sku idx ext priority primary notes) t c =
      create_link-IsConsistent t c sku_known sources sku idx ext priority primary notes
  apply_op-IsConsistent (update k p) t c = update_link-IsConsistent t c k p
  apply_op-IsConsistent (delete k) t c = delete-IsConsistent (λ l. not (has_pk k l)) t c
  apply_op-IsConsistent (upsert sku source ext first) t c =
      upsert-IsConsistent t c sku source ext first
  apply_op-IsConsistent (make_primary k) t c = set_primary-IsConsistent t c k
  apply_op-IsConsistent (drop_primary k) t c = unset_primary-IsConsistent t c k
