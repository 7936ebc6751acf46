-- ===== src/Switching/Override.antt =====
-- The operator's override: what `force_set_primary` pins, and what `reset_to_auto` frees.
use mathlib.Core.Path.{subst}
use entirius_django_atlas.Base.{
  ℕ, ◌≡◌, refl, sym, ◌∙◌, ap, ◌≢◌, ◌≤◌, Bool, true, false, not, ◌&&◌, ltb, Option, some, List, [],
  ◌∷◌, String, str_eq, inl, inr, Bool-cases, Option-cases, first_row, exists_row, where_rows,
  update_rows, count_rows, arith, str_eq→eq, first_row-passes, ◌⊎◌,
}
use entirius_django_atlas.Base.Outcome.{ok}
use entirius_django_atlas.Model.{SourceProduct, SourceProductLink}
use entirius_django_atlas.Model.Enums.{PrimarySkipReason, EventType, EventSeverity, ChangeLogSource}
use entirius_django_atlas.KindGuard.{is_push_blocked}
use entirius_django_atlas.Links.{
  LinkTable, has_pk, has_sku, save_row, clear_others, get_primary_source_idx,
}
use entirius_django_atlas.Links.Consistency.{IsConsistent}
use entirius_django_atlas.Links.Preserve.{
  Keeps, primary_moved, primary_moved-IsConsistent, update-IsConsistent,
}
use entirius_django_atlas.Store.{Store, Faults}
use entirius_django_atlas.Primary.{
  PrimaryEvalResult, evaluate, evaluate_primary_source, emit_skip_event, active_links,
}
use entirius_django_atlas.Primary.Decision.{Explains, evaluate_primary_source-Explains}
use entirius_django_atlas.Switching.{
  flag_at, apply_primary_switch, evaluate_and_apply, force_set_primary, set_override,
  clear_overrides, reset_to_auto,
}
use entirius_django_atlas.Switching.Tables.{
  apply_primary_switch-links, emit_skip_event-links, flag_at-Keeps, override-Keeps, IsIn-found,
}
use entirius_django_atlas.Primary.Winner.{IsIn}
use entirius_django_atlas.Links.Flags.{get_primary-moved}

module _ (sku : String) (k : ℕ) where
  -- The last two writes of `force_set_primary`.
  abbrev pub pinned : List SourceProductLink → List SourceProductLink
  pinned rows = save_row k (set_override true) (update_rows (has_sku sku) (set_override false) rows)

  abbrev pub is_live : SourceProductLink → Bool
  is_live l = has_sku sku l && l.is_active

  abbrev pub any_override : List SourceProductLink → Bool
  any_override rows = exists_row (λ l. l.manual_override) (where_rows is_live rows)

  pinned_absent :
      (rows : List SourceProductLink)
      → count_rows (has_pk k) rows ≡ 0
      → any_override (pinned rows) ≡ false
  pinned_absent [] z = refl
  pinned_absent (r ∷ rows) z = ground (arith, pinned_absent rows)

  -- Among the active links of the SKU an override stands exactly if the pinned link is active.
  pinned_found :
      (rows : List SourceProductLink) (l : SourceProductLink)
      → count_rows (has_pk k) rows ≤ 1
      → first_row (has_pk k) rows ≡ some l
      → has_sku sku l ≡ true
      → any_override (pinned rows) ≡ l.is_active
  pinned_found [] l c e p = cc
  pinned_found (r ∷ rows) l c e p = elim (Bool-cases (has_pk k r)) [
    | inl h ↦ ground (arith, h, pinned_absent rows)
    | inr h ↦ ground (arith, h, pinned_found rows l)
  ]

first_row_pk-moved :
    (f : SourceProductLink → SourceProductLink) (keeps : Keeps f) (k : ℕ) (sku : String)
    (l : SourceProductLink) (rows : List SourceProductLink)
    → first_row (has_pk k) rows ≡ some l
    → first_row (has_pk k) (save_row k f (clear_others sku k rows)) ≡ some (f l)
first_row_pk-moved f keeps k sku l [] e = cc
first_row_pk-moved f keeps k sku l (r ∷ rows) e = elim (Bool-cases (has_pk k r)) [
  | inl h ↦ ground (arith, h, keeps.pk r)
  | inr h ↦ ground (arith, h, keeps.pk r, first_row_pk-moved f keeps k sku l rows)
]

abbrev pin_table : ℕ → String → LinkTable → LinkTable
pin_table k sku t = record t { rows = pinned sku k t.rows }

abbrev forced : ℕ → String → SourceProductLink → LinkTable → LinkTable
forced now sku link t =
    pin_table link.pk sku (primary_moved link.pk link.real_product_sku (flag_at now) t)

module _ (stripped_len : String → ℕ) (faults : Faults) (now : ℕ) (sku source_idx reason : String)
    (s : Store) where
  -- What a call that did not raise found and wrote.
  force_inversion :
      {l : SourceProductLink} {s' : Store}
      → force_set_primary stripped_len faults now sku source_idx reason s ≡ ok (l, s')
      → (link : SourceProductLink) × (is_push_blocked link.source ≡ false)
        × (l ≡ set_override true (flag_at now link))
        × (first_row (λ r. has_sku sku r && str_eq r.source.idx source_idx) s.links.rows
            ≡ some link)
        × (s'.links ≡ forced now sku link s.links)
  unfolding force_set_primary evaluate
  force_inversion {l} {s'} h = elim (Bool-cases (ltb (stripped_len reason) 3)) [
    | inl short ↦ absurd (ground (arith, short))
    | inr long ↦
        elim (Option-cases
          (first_row (λ r. has_sku sku r && str_eq r.source.idx source_idx) s.links.rows)) [
            | inl e ↦ absurd (ground (arith, long, e))
            | inr (link, e) ↦ elim (Bool-cases (is_push_blocked link.source)) [
              | inl b ↦ absurd (ground (arith, long, e, b))
              | inr b ↦
                  let previous =
                    first_row (λ r. has_sku sku r && r.is_primary && not (has_pk link.pk r))
                      s.links.rows in
                  let result = evaluate_primary_source now false sku s in
                  let snapped = emit_skip_event faults result s in
                  let switched =
                    apply_primary_switch faults now link previous ChangeLogSource.manual_override
                      EventType.primary_source_forced EventSeverity.warning snapped in
                  let form : s'.links ≡ pin_table link.pk sku switched.links =
                    ground (arith, long, e, b) in
                  (
                    link,
                    b,
                    ground (arith, long, e, b),
                    e,
                    form
                        ∙ ap (pin_table link.pk sku) (
                            apply_primary_switch-links faults now link previous
                              ChangeLogSource.manual_override EventType.primary_source_forced
                              EventSeverity.warning snapped
                            ∙ ap (primary_moved link.pk link.real_product_sku (flag_at now))
                                (emit_skip_event-links faults result s)),
                  )
            ]
          ]
  ]

first_row-IsIn :
    {A : Type 0} (x : A) (test : A → Bool) (xs : List A) → first_row test xs ≡ some x → IsIn x xs
first_row-IsIn x test [] e = cc
first_row-IsIn x test (y ∷ ys) e = elim (Bool-cases (test y)) [
  | inl h ↦ inl (ground arith)
  | inr h ↦ inr (first_row-IsIn x test ys (ground arith))
]

primary_idx-update :
    (f : SourceProductLink → SourceProductLink) (test : SourceProductLink → Bool) (sku : String)
    (rows : List SourceProductLink)
    → ((l : SourceProductLink)
        → ((f l).real_product_sku ≡ l.real_product_sku)
          × ((f l).is_primary ≡ l.is_primary)
          × ((f l).source ≡ l.source))
    → (n : ℕ)
    → get_primary_source_idx sku (record { rows = update_rows test f rows; next_pk = n })
      ≡ get_primary_source_idx sku (record { rows = rows; next_pk = n })
unfolding get_primary_source_idx
primary_idx-update f test sku [] keeps n = refl
primary_idx-update f test sku (l ∷ rows) keeps n =
    ground (arith, keeps l, primary_idx-update f test sku rows keeps n)

pin_table-IsConsistent :
    (k : ℕ) (sku : String) (t : LinkTable) → IsConsistent t → IsConsistent (pin_table k sku t)
pin_table-IsConsistent k sku t c =
    update-IsConsistent (set_override true) (override-Keeps true) (λ l h. h) (has_pk k)
      (clear_overrides sku t)
      (update-IsConsistent (set_override false) (override-Keeps false) (λ l h. h) (has_sku sku) t c)

primary_idx-pin :
    (k : ℕ) (sku other : String) (t : LinkTable)
    → get_primary_source_idx other (pin_table k sku t) ≡ get_primary_source_idx other t
primary_idx-pin k sku other t =
    primary_idx-update (set_override true) (has_pk k) other
      (update_rows (has_sku sku) (set_override false) t.rows) (λ l. (refl, refl, refl)) t.next_pk
    ∙ primary_idx-update (set_override false) (has_sku sku) other t.rows (λ l. (refl, refl, refl))
        t.next_pk

module _ (stripped_len : String → ℕ) (faults : Faults) (now : ℕ) (sku source_idx reason : String)
    (s : Store) where
  -- A forced primary, on links that meet the constraints: they still do, the link that is returned is
  -- the one of the SKU and the source that were asked for, that source may push and is read back as
  -- the SKU's primary source, and an override stands among the active links of
  -- the SKU exactly if the forced link is itself active.
  pub force_set_primary_lem :
      IsConsistent s.links
      → {l : SourceProductLink} {s' : Store}
      → force_set_primary stripped_len faults now sku source_idx reason s ≡ ok (l, s')
      → IsConsistent s'.links
        × (is_push_blocked l.source ≡ false)
        × (get_primary_source_idx sku s'.links ≡ some source_idx)
        × (exists_row (λ r. r.manual_override) (active_links sku s'.links) ≡ l.is_active)
        × (l.real_product_sku ≡ sku)
        × (l.source.idx ≡ source_idx)
  force_set_primary_lem c {l} {s'} h =
      let (link, b, is_link, e, form) =
        force_inversion stripped_len faults now sku source_idx reason s h in
      let passes : has_sku sku link ≡ true = ground (
        arith,
        first_row-passes (λ r. has_sku sku r && str_eq r.source.idx source_idx) s.links.rows
            {x = link} e,
      ) in
      let named : link.source.idx ≡ source_idx = str_eq→eq link.source.idx source_idx (
        ground (
          arith,
          first_row-passes (λ r. has_sku sku r && str_eq r.source.idx source_idx) s.links.rows
              {x = link} e,
        )) in
      let some_idx : String → Option String = λ i. some i in
      let found =
        IsIn-found link s.links.rows (first_row-IsIn link _ s.links.rows e) (c.keys link.pk) in
      let m = primary_moved link.pk link.real_product_sku (flag_at now) s.links in
      let c' : IsConsistent m =
        primary_moved-IsConsistent (flag_at now) (flag_at-Keeps now) link.pk link s.links c found in
      (
        subst IsConsistent (sym form) (pin_table-IsConsistent link.pk sku m c'),
        ground (arith, b, is_link),
        ap (get_primary_source_idx sku) form
            ∙ primary_idx-pin link.pk sku sku m
            ∙ rw (← str_eq→eq link.real_product_sku sku passes)
                (get_primary-moved (flag_at now) link.pk link s.links found refl refl)
            ∙ ap some_idx named,
        ap (λ t. exists_row (λ r. r.manual_override) (active_links sku t)) form
            ∙ pinned_found sku link.pk m.rows (flag_at now link) (c'.keys link.pk)
                (first_row_pk-moved (flag_at now) (flag_at-Keeps now) link.pk link.real_product_sku
                  link s.links.rows found)
                passes
            ∙ ap (λ r. r.is_active) (sym is_link),
        ap (λ r. r.real_product_sku) is_link ∙ str_eq→eq link.real_product_sku sku passes,
        ap (λ r. r.source.idx) is_link ∙ named,
      )

no_switch :
    (products : List SourceProduct) (now : ℕ) (bypass : Bool) (links : List SourceProductLink)
    (r : PrimaryEvalResult) (reason : PrimarySkipReason)
    → Explains products now bypass links r reason
    → exists_row (λ l. l.manual_override) links ≡ true
    → r.should_switch ≡ false
no_switch products now bypass links r PrimarySkipReason.none (w, on, new, sw) h =
    absurd (ground (arith, sw.free))
no_switch products now bypass links r PrimarySkipReason.no_candidates x h = x.0
no_switch products now bypass links r PrimarySkipReason.manual_override x h = x.0
no_switch products now bypass links r PrimarySkipReason.no_change (a, b, off, _, _) h = off
no_switch products now bypass links r PrimarySkipReason.hysteresis (a, b, c, off, _, _, _, _) h =
    off
no_switch products now bypass links r PrimarySkipReason.cooldown (a, b, c, off, _, _, _, _) h = off

-- After an operator has forced an active link, no evaluation switches, at any time, for any products
-- and even when it bypasses the safety gates; after forcing an inactive link, no evaluation is
-- stopped by an override.
pub force_set_primary_sticks :
    (stripped_len : String → ℕ) (faults : Faults) (now : ℕ) (sku source_idx reason : String)
    (s : Store)
    → IsConsistent s.links
    → {l : SourceProductLink} {s' : Store}
    → force_set_primary stripped_len faults now sku source_idx reason s ≡ ok (l, s')
    → (later : ℕ) (bypass : Bool) (products : List SourceProduct)
    → let r = evaluate_primary_source later bypass sku (record s' { products = products }) in
      ((l.is_active ≡ true) × (r.should_switch ≡ false))
      ⊎ ((l.is_active ≡ false) × (r.skip_reason ≢ PrimarySkipReason.manual_override))
force_set_primary_sticks stripped_len faults now sku source_idx reason s c {l} {s'} h later bypass
      products =
    let s'' = record s' { products = products } in
    let r = evaluate_primary_source later bypass sku s'' in
    let why = evaluate_primary_source-Explains later bypass sku s'' in
    let live = (force_set_primary_lem stripped_len faults now sku source_idx reason s c h).3 in
    elim (Bool-cases l.is_active) [
      | inl active ↦ inl (
        active,
        no_switch products later bypass (active_links sku s'.links) r r.skip_reason why
            (live ∙ active),
      )
      | inr inactive ↦ inr (
        inactive,
        λ stopped.
            let stands : Explains products later bypass (active_links sku s'.links) r
                PrimarySkipReason.manual_override =
              subst (Explains products later bypass (active_links sku s'.links) r) stopped why in
            absurd (ground (arith, stands.1, live, inactive)),
      )
    ]

reset_cases :
    (products : List SourceProduct) (now : ℕ) (links : List SourceProductLink)
    (r : PrimaryEvalResult) (reason : PrimarySkipReason)
    → Explains products now true links r reason
    → exists_row (λ l. l.manual_override) links ≡ false
    → (r.should_switch ≡ true)
      ⊎ (reason ≡ PrimarySkipReason.no_change)
      ⊎ (reason ≡ PrimarySkipReason.no_candidates)
reset_cases products now links r PrimarySkipReason.none (w, on, new, sw) h = inl on
reset_cases products now links r PrimarySkipReason.no_candidates x h = inr (inr refl)
reset_cases products now links r PrimarySkipReason.manual_override x h =
    absurd (ground (arith, x.1))
reset_cases products now links r PrimarySkipReason.no_change x h = inr (inl refl)
reset_cases products now links r PrimarySkipReason.hysteresis (a, b, c, off, _, on, _, _) h =
    absurd (ground (arith, on))
reset_cases products now links r PrimarySkipReason.cooldown (a, b, c, off, _, on, _, _) h =
    absurd (ground (arith, on))

cleared_none :
    (sku : String) (rows : List SourceProductLink)
    → any_override sku 0 (update_rows (has_sku sku) (set_override false) rows) ≡ false
cleared_none sku [] = refl
cleared_none sku (l ∷ rows) = ground (arith, cleared_none sku rows)

-- `reset_to_auto` clears the overrides of the SKU first and bypasses the gates, so it answers with a
-- switch, or that the cheapest stocked link is primary already, or that no link has stock.
pub reset_to_auto_reasons :
    (faults : Faults) (now : ℕ) (sku : String) (s : Store)
    → let r = (reset_to_auto faults now sku s).0 in
      (r.should_switch ≡ true)
      ⊎ (r.skip_reason ≡ PrimarySkipReason.no_change)
      ⊎ (r.skip_reason ≡ PrimarySkipReason.no_candidates)
unfolding reset_to_auto evaluate_and_apply evaluate
reset_to_auto_reasons faults now sku s =
    let s' = record s { links = clear_overrides sku s.links } in
    let r = evaluate_primary_source now true sku s' in
    reset_cases s.products now (active_links sku s'.links) r r.skip_reason
      (evaluate_primary_source-Explains now true sku s') (cleared_none sku s.links.rows)
