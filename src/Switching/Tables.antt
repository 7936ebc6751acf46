-- ===== src/Switching/Tables.antt =====
-- Every entry point of the primary strategy keeps the constraints of the link table; a decision
-- without a switch writes no link; a switch moves the flag within its SKU alone.
use mathlib.Core.Path.{subst}
use entirius_django_atlas.Base.{
  ℕ, ◌≡◌, refl, sym, ◌∙◌, ap, Bool, true, false, Option, some, List, [], ◌∷◌, String, str_eq, inl,
  inr, Bool-cases, Option-cases, first_row, where_rows, count_rows, arith, str_eq→eq, ◌≤◌, ◌⊎◌,
  count_rows_of_found,
}
use entirius_django_atlas.Model.{SourceProductLink}
use entirius_django_atlas.Model.Enums.{EventType, EventSeverity, ChangeLogSource}
use entirius_django_atlas.Links.{
  has_pk, has_sku, unflag, save_row, clear_others, get_primary_source_idx,
}
use entirius_django_atlas.Links.Consistency.{IsConsistent}
use entirius_django_atlas.Links.Preserve.{Keeps, primary_moved-IsConsistent, primary_moved}
use entirius_django_atlas.Links.Flags.{get_primary-moved, get_primary-elsewhere}
use entirius_django_atlas.Store.{Store, Faults}
use entirius_django_atlas.Primary.{
  PrimaryEvalResult, resolve_audit_sp, evaluate, evaluate_primary_source, emit_skip_event,
  skip_event_type,
}
use entirius_django_atlas.Primary.Winner.{IsIn}
use entirius_django_atlas.Primary.Decision.{evaluate_primary_source-Switches}
use entirius_django_atlas.Switching.{
  clear_flagged, flag_at, apply_primary_switch, apply_result, evaluate_and_apply, trigger,
  set_override,
}

-- Clearing only the links that are flagged comes to the same as clearing all others.
clear_flagged-eq-clear_others :
    (sku : String) (k : ℕ) (rows : List SourceProductLink)
    → clear_flagged sku k rows ≡ clear_others sku k rows
clear_flagged-eq-clear_others sku k [] = refl
clear_flagged-eq-clear_others sku k (l ∷ rows) = elim (Bool-cases l.is_primary) [
  | inl e ↦ ground (arith, e, clear_flagged-eq-clear_others sku k rows)
  | inr e ↦
      let same : unflag l ≡ l = λ i. record l { is_primary = sym e i } in
      ground (arith, e, same, clear_flagged-eq-clear_others sku k rows)
]

pub flag_at-Keeps : (now : ℕ) → Keeps (flag_at now)
flag_at-Keeps now = record { pk = λ l. refl; sku = λ l. refl; source = λ l. refl }

pub override-Keeps : (b : Bool) → Keeps (set_override b)
override-Keeps b = record { pk = λ l. refl; sku = λ l. refl; source = λ l. refl }

-- The links after a switch, whatever fails beside it.
pub apply_primary_switch-links :
    (faults : Faults) (now : ℕ) (link : SourceProductLink) (previous : Option SourceProductLink)
    (reason : ChangeLogSource) (e : EventType) (v : EventSeverity) (s : Store)
    → (apply_primary_switch faults now link previous reason e v s).links
      ≡ primary_moved link.pk link.real_product_sku (flag_at now) s.links
unfolding apply_primary_switch
apply_primary_switch-links faults now link previous reason e v s =
    elim (Option-cases (resolve_audit_sp s.products link)) [
      | inl none_of ↦ rw none_of moved
      | inr (p, some_of) ↦ rw some_of moved
    ]
  where
    moved :
        record s.links {
          rows =
              save_row link.pk
                (flag_at now)
                (clear_flagged link.real_product_sku link.pk s.links.rows);
        }
        ≡ primary_moved link.pk link.real_product_sku (flag_at now) s.links
    moved =
        ap (λ rows. record s.links { rows = save_row link.pk (flag_at now) rows })
          (clear_flagged-eq-clear_others link.real_product_sku link.pk s.links.rows)

pub IsIn-where :
    {A : Type 0} (x : A) (test : A → Bool) (xs : List A)
    → IsIn x (where_rows test xs)
    → IsIn x xs × (test x ≡ true)
IsIn-where x test [] m = absurd m
IsIn-where x test (y ∷ ys) m = elim (Bool-cases (test y)) [
  | inl e ↦
      let m' : (x ≡ y) ⊎ IsIn x (where_rows test ys) = rw e at m in
      elim m' [
        | inl same ↦ (inl same, ap test same ∙ e)
        | inr later ↦ let (a, b) = IsIn-where x test ys later in (inr a, b)
      ]
  | inr e ↦ let (a, b) = IsIn-where x test ys (rw e at m) in (inr a, b)
]

-- A row is the one that its key finds.
pub IsIn-found :
    (l : SourceProductLink) (rows : List SourceProductLink)
    → IsIn l rows
    → count_rows (has_pk l.pk) rows ≤ 1
    → first_row (has_pk l.pk) rows ≡ some l
IsIn-found l [] m c = absurd m
IsIn-found l (r ∷ rows) (inl e) c = ground arith
IsIn-found l (r ∷ rows) (inr m) c = ground (arith, IsIn-found l rows m, found_counts)
  where
    found_counts : first_row (has_pk l.pk) rows ≡ some l → 1 ≤ count_rows (has_pk l.pk) rows
    found_counts e = count_rows_of_found (has_pk l.pk) rows e

-- The link that a switch goes to, looked up by its key, has the SKU of the evaluation.
pub switch_target :
    (now : ℕ) (bypass : Bool) (sku : String) (s : Store)
    → IsConsistent s.links
    → (evaluate_primary_source now bypass sku s).should_switch ≡ true
    → (link : SourceProductLink) × ((evaluate_primary_source now bypass sku s).new_primary
        ≡ some link)
      × (first_row (has_pk link.pk) s.links.rows ≡ some link)
      × (has_sku sku link ≡ true)
      × (link.is_active ≡ true)
switch_target now bypass sku s c on =
    let (w, new, sw) = evaluate_primary_source-Switches now bypass sku s on in
    let (here, passes) = IsIn-where w.link _ s.links.rows sw.winner.stocked.0 in
    (
      w.link,
      new,
      IsIn-found w.link s.links.rows here (c.keys w.link.pk),
      ground (arith, passes),
      ground (arith, passes),
    )

pub emit_skip_event-links :
    (faults : Faults) (r : PrimaryEvalResult) (s : Store)
    → (emit_skip_event faults r s).links ≡ s.links
unfolding emit_skip_event
emit_skip_event-links faults r s = elim (Option-cases (skip_event_type r.skip_reason)) [
  | inl e ↦ rw (e, emit_skip_event) refl
  | inr (t, e) ↦ rw (e, emit_skip_event) refl
]

apply_result-off :
    (faults : Faults) (now : ℕ) (bypass : Bool) (r : PrimaryEvalResult) (s : Store)
    → r.should_switch ≡ false
    → (apply_result faults now bypass r s).links ≡ s.links
unfolding apply_result
apply_result-off faults now bypass r s off = elim (Option-cases r.new_primary) [
  | inl e ↦ rw (e, apply_result) refl
  | inr (l, e) ↦ rw (e, apply_result) (rw off refl)
]

apply_result-on :
    (faults : Faults) (now : ℕ) (bypass : Bool) (r : PrimaryEvalResult) (s : Store)
    (link : SourceProductLink)
    → r.should_switch ≡ true
    → r.new_primary ≡ some link
    → (apply_result faults now bypass r s).links
      ≡ primary_moved link.pk link.real_product_sku (flag_at now) s.links
unfolding apply_result
apply_result-on faults now bypass r s link on new =
    rw (new, apply_result)
      (rw on (
        apply_primary_switch-links faults now link r.current_primary (trigger bypass).0
          (trigger bypass).1 (trigger bypass).2 s))

module _ (faults : Faults) (now : ℕ) (bypass : Bool) (sku : String) (s : Store) where
  -- The links when the evaluation does not switch.
  pub evaluate_and_apply-unchanged :
      (evaluate_primary_source now bypass sku s).should_switch ≡ false
      → (evaluate_and_apply faults now bypass sku s).1.links ≡ s.links
  unfolding evaluate_and_apply evaluate
  evaluate_and_apply-unchanged off =
      let r = evaluate_primary_source now bypass sku s in
      apply_result-off faults now bypass r (emit_skip_event faults r s) off
      ∙ emit_skip_event-links faults r s

  -- The links when it does.
  pub evaluate_and_apply-moved :
      (link : SourceProductLink)
      → (evaluate_primary_source now bypass sku s).should_switch ≡ true
      → (evaluate_primary_source now bypass sku s).new_primary ≡ some link
      → (evaluate_and_apply faults now bypass sku s).1.links
        ≡ primary_moved link.pk link.real_product_sku (flag_at now) s.links
  unfolding evaluate_and_apply evaluate
  evaluate_and_apply-moved link on new =
      let r = evaluate_primary_source now bypass sku s in
      apply_result-on faults now bypass r (emit_skip_event faults r s) link on new
      ∙ ap (primary_moved link.pk link.real_product_sku (flag_at now))
          (emit_skip_event-links faults r s)

  pub evaluate_and_apply-IsConsistent :
      IsConsistent s.links → IsConsistent (evaluate_and_apply faults now bypass sku s).1.links
  evaluate_and_apply-IsConsistent c =
      elim (Bool-cases (evaluate_primary_source now bypass sku s).should_switch) [
        | inr off ↦ subst IsConsistent (sym (evaluate_and_apply-unchanged off)) c
        | inl on ↦
            let (link, new, found, _, _) = switch_target now bypass sku s c on in
            subst IsConsistent (sym (evaluate_and_apply-moved link on new)) (
              primary_moved-IsConsistent (flag_at now) (flag_at-Keeps now) link.pk link s.links c
                found)
      ]

  moved_here :
      (link : SourceProductLink)
      → (evaluate_primary_source now bypass sku s).should_switch ≡ true
      → (evaluate_primary_source now bypass sku s).new_primary ≡ some link
      → first_row (has_pk link.pk) s.links.rows ≡ some link
      → has_sku sku link ≡ true
      → get_primary_source_idx sku (evaluate_and_apply faults now bypass sku s).1.links
        ≡ some link.source.idx
  moved_here link on new found passes = rw (evaluate_and_apply-moved link on new) (
      rw (← str_eq→eq link.real_product_sku sku passes)
        (get_primary-moved (flag_at now) link.pk link s.links found refl refl))

  elsewhere :
      IsConsistent s.links
      → (other : String) → str_eq sku other ≡ false
      → get_primary_source_idx other (evaluate_and_apply faults now bypass sku s).1.links
        ≡ get_primary_source_idx other s.links
  elsewhere c other ne =
      elim (Bool-cases (evaluate_primary_source now bypass sku s).should_switch) [
        | inr off ↦ ap (get_primary_source_idx other) (evaluate_and_apply-unchanged off)
        | inl on ↦
            let (link, new, found, passes, _) = switch_target now bypass sku s c on in
            ap (get_primary_source_idx other) (evaluate_and_apply-moved link on new)
            ∙ get_primary-elsewhere (flag_at now) link.pk link s.links found (λ l. refl) c other
                (rw (str_eq→eq link.real_product_sku sku passes) ne)
      ]

-- The links after an evaluation do not depend on what fails beside it.
same_links :
    (faults faults' : Faults) (now : ℕ) (bypass : Bool) (sku : String) (s : Store)
    → IsConsistent s.links
    → (evaluate_and_apply faults now bypass sku s).1.links
      ≡ (evaluate_and_apply faults' now bypass sku s).1.links
same_links faults faults' now bypass sku s c =
    elim (Bool-cases (evaluate_primary_source now bypass sku s).should_switch) [
      | inr off ↦
          evaluate_and_apply-unchanged faults now bypass sku s off
          ∙ sym (evaluate_and_apply-unchanged faults' now bypass sku s off)
      | inl on ↦
          let (link, new, _, _, _) = switch_target now bypass sku s c on in
          evaluate_and_apply-moved faults now bypass sku s link on new
          ∙ sym (evaluate_and_apply-moved faults' now bypass sku s link on new)
    ]

module _ (faults : Faults) (now : ℕ) (bypass : Bool) (sku : String) (s : Store) where
  -- On links that meet the table's constraints: without a switch no link is written; with one, the
  -- primary source read back for the SKU is that of the new link; and the primary source of every
  -- other SKU is as before. The links are the same whichever of the audit, event and
  -- signal writes fail.
  pub evaluate_and_apply_lem :
      (other : String) (faults' : Faults)
      → str_eq sku other ≡ false
      → IsConsistent s.links
      → let after = (evaluate_and_apply faults now bypass sku s).1.links in
        let r = evaluate_primary_source now bypass sku s in
        IsConsistent after
        × (((r.should_switch ≡ false) × (after ≡ s.links))
            ⊎ ((r.should_switch ≡ true)
                × ((link : SourceProductLink) × (r.new_primary ≡ some link)
                    × (get_primary_source_idx sku after ≡ some link.source.idx))))
        × (get_primary_source_idx other after ≡ get_primary_source_idx other s.links)
        × (after ≡ (evaluate_and_apply faults' now bypass sku s).1.links)
  evaluate_and_apply_lem other faults' differs c = (
    evaluate_and_apply-IsConsistent faults now bypass sku s c,
    elim (Bool-cases (evaluate_primary_source now bypass sku s).should_switch) [
      | inr off ↦ inl (off, evaluate_and_apply-unchanged faults now bypass sku s off)
      | inl on ↦
          let (link, new, found, passes, _) = switch_target now bypass sku s c on in
          inr (on, (link, new, moved_here faults now bypass sku s link on new found passes))
    ],
    elsewhere faults now bypass sku s c other differs,
    same_links faults faults' now bypass sku s c,
  )
