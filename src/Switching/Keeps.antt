-- ===== src/Switching/Keeps.antt =====
-- An evaluation and a switch write no source product.
use entirius_django_atlas.Base.{
  ℕ, ◌≡◌, ◌∙◌, refl, inl, inr, Bool, false, Option, String, Option-cases, Bool-cases, ltb,
  count_rows, ◌&&◌,
}
use entirius_django_atlas.Model.{SourceProductLink}
use entirius_django_atlas.Model.Enums.{ChangeLogSource, EventType, EventSeverity}
use entirius_django_atlas.Links.{has_sku}
use entirius_django_atlas.Primary.{
  PrimaryEvalResult, resolve_audit_sp, evaluate, emit_skip_event, skip_event_type,
  evaluate_primary_source,
}
use entirius_django_atlas.Switching.{
  apply_primary_switch, apply_result, evaluate_and_apply, maybe_trigger_inline_after_link, trigger,
}
use entirius_django_atlas.Store.{Store, Faults}

module _ (faults : Faults) (now : ℕ) where
  switch_keeps_products :
      (link : SourceProductLink) (previous : Option SourceProductLink) (reason : ChangeLogSource)
      (event_type : EventType) (severity : EventSeverity) (s : Store)
      → (apply_primary_switch faults now link previous reason event_type severity s).products
        ≡ s.products
  unfolding apply_primary_switch
  switch_keeps_products link previous reason event_type severity s =
      elim (Option-cases (resolve_audit_sp s.products link)) [
        | inl e ↦ rw (apply_primary_switch, e) refl
        | inr (p, e) ↦ rw (apply_primary_switch, e) refl
      ]

  result_keeps_products :
      (bypass : Bool) (result : PrimaryEvalResult) (s : Store)
      → (apply_result faults now bypass result s).products ≡ s.products
  unfolding apply_result
  result_keeps_products bypass result s = elim (Option-cases result.new_primary) [
    | inl e ↦ rw (apply_result, e) refl
    | inr (link, e) ↦ elim (Bool-cases result.should_switch) [
      | inl b ↦
          let (reason, event_type, severity) = trigger bypass in
          rw (apply_result, e, b)
            (switch_keeps_products link result.current_primary reason event_type severity s)
      | inr b ↦ rw (apply_result, e, b) refl
    ]
  ]

  evaluate_keeps_products :
      (bypass : Bool) (sku : String) (s : Store)
      → (evaluate faults now bypass sku s).1.products ≡ s.products
  unfolding evaluate emit_skip_event
  evaluate_keeps_products bypass sku s =
      elim (Option-cases (skip_event_type (evaluate_primary_source now bypass sku s).skip_reason)) [
        | inl e ↦ rw (evaluate, emit_skip_event, e) refl
        | inr (t, e) ↦ rw (evaluate, emit_skip_event, e) refl
      ]

  pub inline_keeps_products :
      (sku : String) (s : Store)
      → (maybe_trigger_inline_after_link faults now sku s).1.products ≡ s.products
  unfolding maybe_trigger_inline_after_link evaluate_and_apply
  inline_keeps_products sku s =
      elim (Bool-cases (ltb (count_rows (λ l. has_sku sku l && l.is_active) s.links.rows) 2)) [
        | inl b ↦ rw (maybe_trigger_inline_after_link, b) refl
        | inr b ↦
            rw (maybe_trigger_inline_after_link, b)
              (result_keeps_products false (evaluate faults now false sku s).0
                  (evaluate faults now false sku s).1
                ∙ evaluate_keeps_products false sku s)
      ]
