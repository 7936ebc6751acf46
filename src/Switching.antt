-- ===== src/Switching.antt =====
-- The entry points of django_atlas/services/primary_strategy_service.py that change the primary link,
-- and the nightly batch of django_atlas/tasks/primary_strategy.py.
pub mod Keeps
pub mod Tables
pub mod Stable
pub mod Batch
pub mod Emergency
pub mod Override
use entirius_django_atlas.Base.{
  ℕ, zero, suc, ◌+◌, ◌*◌, Bool, true, false, not, ◌&&◌, ◌||◌, ◌==◌, ltb, leb, Option, none, some,
  List, [], ◌∷◌, String, str_eq, if◌then◌else◌, first_row, exists_row, where_rows, count_rows,
  update_rows,
}
use entirius_django_atlas.Base.Int.{ℤ, pos, leb_ℤ, ltb_ℤ}
use entirius_django_atlas.Base.Outcome.{Result, ok, err, ◌>>=◌, ◌>>◌, raise_if, or_raise}
use entirius_django_atlas.Model.{
  Source, SourceProduct, SourceProductLink, RealProduct, IntegrationEvent, SourceProductChangeLog,
}
use entirius_django_atlas.Model.Enums.{
  PrimarySkipReason, EventType, EventSeverity, ChangeLogSource, EvalFrequency,
}
use entirius_django_atlas.KindGuard.{is_push_blocked}
use entirius_django_atlas.Links.{LinkTable, has_pk, has_sku, unflag, save_row}
use entirius_django_atlas.Store.{
  Store, Faults, PrimarySwitched, record_event, log_change, send_switched,
}
use entirius_django_atlas.Primary.{
  PrimaryEvalResult, resolve_audit_sp, evaluate, source_idx_of, active_links,
}

-- `filter(real_product_sku=sku, is_primary=True).exclude(pk=k).update(is_primary=False)`
abbrev pub clear_flagged : String → ℕ → List SourceProductLink → List SourceProductLink
clear_flagged sku k = update_rows (λ l. has_sku sku l && l.is_primary && not (has_pk k l)) unflag

abbrev pub flag_at : ℕ → SourceProductLink → SourceProductLink
flag_at now l = record l { is_primary = true; preferred_changed_at = some now }

-- The atomic part of the flip.
unfoldable pub flip_rows : ℕ → SourceProductLink → List SourceProductLink → List SourceProductLink
flip_rows now link rows =
    save_row link.pk (flag_at now) (clear_flagged link.real_product_sku link.pk rows)

-- `apply_primary_switch`: flip, then audit, event and signal, each best-effort. The signal goes out
-- on commit.
unfoldable pub apply_primary_switch :
    Faults
    → ℕ
    → SourceProductLink
    → Option SourceProductLink
    → ChangeLogSource
    → EventType
    → EventSeverity
    → Store
    → Store
unfolding flip_rows
apply_primary_switch faults now link previous reason event_type severity s =
    let flipped : Store = record s {
      links = record s.links { rows = flip_rows now link s.links.rows };
    } in
    let sp = resolve_audit_sp s.products link in
    let audited : Store = elim sp [
      | none ↦ flipped
      | some p ↦
          log_change faults
            (record {
              source_product = p.pk;
              real_product_sku = link.real_product_sku;
              source = reason;
              field_path = "source_product_link.is_primary";
              applied_to_pim = true;
            })
            flipped
    ] in
    let recorded =
      record_event faults
        (record {
          event_type = event_type;
          severity = severity;
          source_idx = some link.source.idx;
          source_product = elim sp [ none ↦ none | some p ↦ some p.pk ];
        })
        audited in
    send_switched faults
      (record {
        sku = link.real_product_sku;
        from_source_idx = source_idx_of previous;
        to_source_idx = link.source.idx;
        reason = reason;
      })
      recorded

-- The audit reason, the event and the severity by the trigger.
abbrev pub trigger : Bool → ChangeLogSource × EventType × EventSeverity
trigger true = (
  ChangeLogSource.emergency_switch, EventType.primary_source_emergency_switch,
  EventSeverity.warning,
)
trigger false =
    (ChangeLogSource.auto_primary_switch, EventType.primary_source_switched, EventSeverity.info)

-- `if not result.should_switch or result.new_primary is None: return result`, and the switch.
unfoldable pub apply_result : Faults → ℕ → Bool → PrimaryEvalResult → Store → Store
apply_result faults now bypass result s = elim result.new_primary [
  | none ↦ s
  | some link ↦
      let (reason, event_type, severity) = trigger bypass in
      if result.should_switch
      then apply_primary_switch faults now link result.current_primary reason event_type severity s
      else s
]

unfoldable pub evaluate_and_apply : Faults → ℕ → Bool → String → Store → PrimaryEvalResult × Store
unfolding apply_result
evaluate_and_apply faults now bypass sku s =
    let (result, s') = evaluate faults now bypass sku s in
    (result, apply_result faults now bypass result s')

pub data ForceError : Type 0 where
  reason_too_short link_not_found push_not_allowed : ForceError

abbrev pub set_override : Bool → SourceProductLink → SourceProductLink
set_override b l = record l { manual_override = b }

-- `.filter(real_product_sku=sku).update(manual_override=False)`
abbrev pub clear_overrides : String → LinkTable → LinkTable
clear_overrides sku t = record t { rows = update_rows (has_sku sku) (set_override false) t.rows }

-- `force_set_primary`; `stripped_len` stands for `len(reason.strip())`. The evaluation that it asks
-- for is a snapshot for the audit, which can record a skip event.
unfoldable pub force_set_primary :
    (String → ℕ)
    → Faults
    → ℕ
    → String
    → String
    → String
    → Store
    → Result ForceError (SourceProductLink × Store)
force_set_primary stripped_len faults now sku source_idx reason s = do
  raise_if (ltb (stripped_len reason) 3) reason_too_short
  link ←
      or_raise (first_row (λ l. has_sku sku l && str_eq l.source.idx source_idx) s.links.rows)
        link_not_found
  raise_if (is_push_blocked link.source) push_not_allowed
  let previous =
      first_row (λ l. has_sku sku l && l.is_primary && not (has_pk link.pk l)) s.links.rows
  let (_, snapped) = evaluate faults now false sku s
  let switched =
      apply_primary_switch faults now link previous ChangeLogSource.manual_override
        EventType.primary_source_forced EventSeverity.warning snapped
  let cleared = clear_overrides sku switched.links
  let sticky = record cleared { rows = save_row link.pk (set_override true) cleared.rows }
  ok (set_override true (flag_at now link), record switched { links = sticky })

unfoldable pub reset_to_auto : Faults → ℕ → String → Store → PrimaryEvalResult × Store
reset_to_auto faults now sku s =
    evaluate_and_apply faults now true sku (record s { links = clear_overrides sku s.links })

abbrev pub skipped : Store → Option PrimaryEvalResult × Store
skipped s = (none, s)

abbrev pub evaluated : PrimaryEvalResult × Store → Option PrimaryEvalResult × Store
evaluated (r, s) = (some r, s)

unfoldable pub maybe_trigger_inline_after_link :
    Faults → ℕ → String → Store → Option PrimaryEvalResult × Store
maybe_trigger_inline_after_link faults now sku s =
    if ltb (count_rows (λ l. has_sku sku l && l.is_active) s.links.rows) 2
    then skipped s
    else evaluated (evaluate_and_apply faults now false sku s)

-- A stock that has just become zero or less: it is known, and was not known to be so before.
abbrev pub just_ran_out : Option ℤ → Option ℤ → Bool
just_ran_out previous none = false
just_ran_out none (some new) = leb_ℤ new (pos 0)
just_ran_out (some old) (some new) = leb_ℤ new (pos 0) && ltb_ℤ (pos 0) old

-- The active primary link of the product's own source for a SKU.
abbrev pub own_primary : SourceProduct → String → LinkTable → Option SourceProductLink
own_primary sp sku t =
    first_row (λ l. has_sku sku l && (l.source.pk == sp.source.pk) && l.is_primary) t.rows

abbrev pub real_product_of : SourceProduct → Store → Option RealProduct
real_product_of sp s = elim sp.real_product [
  | none ↦ none
  | some k ↦ first_row (λ rp. rp.pk == k) s.real_products
]

unfoldable pub maybe_trigger_emergency_on_stock_drop :
    Faults → ℕ → SourceProduct → Option ℤ → Option ℤ → Store → Option PrimaryEvalResult × Store
maybe_trigger_emergency_on_stock_drop faults now sp previous new s = elim (real_product_of sp s) [
  | none ↦ skipped s
  | some rp ↦
      if just_ran_out previous new
      then elim (own_primary sp rp.sku s.links) [
        | none ↦ skipped s
        | some l ↦
            if l.is_active
            then evaluated (evaluate_and_apply faults now true rp.sku s)
            else skipped s
      ]
      else skipped s
]
