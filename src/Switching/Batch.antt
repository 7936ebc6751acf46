-- ===== src/Switching/Batch.antt =====
-- The nightly batch of tasks/primary_strategy.py over the SKUs with several active links.
use mathlib.Core.Path.{subst}
use entirius_django_atlas.Model.{SourceProductLink}
use entirius_django_atlas.Links.{LinkTable, has_sku}
use entirius_django_atlas.Base.{
  true≢false, if◌then◌else◌, not, ◌&&◌, ◌==◌, ap, Option, none, some, ltb, where_rows, exists_row,
  count_rows, ℕ, suc, ◌+◌, ◌≡◌, refl, ◌∙◌, sym, ◌≢◌, inl, inr, Bool, true, false, Bool-cases,
  String, List, [], ◌∷◌, length, arith,
}
use entirius_django_atlas.Model.Enums.{PrimarySkipReason, EvalFrequency}
use entirius_django_atlas.Links.Consistency.{IsConsistent}
use entirius_django_atlas.Store.{Store, Faults}
use entirius_django_atlas.Primary.{
  PrimaryEvalResult, evaluate_primary_source, active_links, evaluate,
}
use entirius_django_atlas.Primary.Decision.{evaluate_primary_source-Explains, Explains}
use entirius_django_atlas.Switching.{evaluate_and_apply}
use entirius_django_atlas.Switching.Tables.{evaluate_and_apply-IsConsistent}

-- `iter_multi_source_real_product_skus`: each SKU with more than one active link, once.
unfoldable pub distinct_skus : List SourceProductLink → List String
distinct_skus [] = []
distinct_skus (l ∷ ls) =
    if exists_row (has_sku l.real_product_sku) ls
    then distinct_skus ls
    else l.real_product_sku ∷ distinct_skus ls

unfoldable pub iter_multi_source_real_product_skus : LinkTable → List String
unfolding distinct_skus
iter_multi_source_real_product_skus t =
    let active = where_rows (λ l. l.is_active) t.rows in
    where_rows (λ sku. ltb 1 (count_rows (has_sku sku) active)) (distinct_skus active)

abbrev pub is_manual_frequency : EvalFrequency → Bool
is_manual_frequency EvalFrequency.manual = true
is_manual_frequency EvalFrequency.daily = false
is_manual_frequency EvalFrequency.hourly = false

-- `_eligible_real_product_skus`: those with an active link whose source is not manual-only
unfoldable pub eligible_real_product_skus : LinkTable → List String
unfolding iter_multi_source_real_product_skus
eligible_real_product_skus t =
    where_rows
      (λ sku.
        exists_row
          (λ l. has_sku sku l && l.is_active && not (is_manual_frequency l.source.eval_frequency))
          t.rows)
      (iter_multi_source_real_product_skus t)

pub record Summary : Type 0 where
  pub evaluated_count : ℕ
  pub switched : ℕ
  pub skipped_no_change : ℕ
  pub skipped_cooldown : ℕ
  pub skipped_hysteresis : ℕ
  pub skipped_manual_override : ℕ
  pub skipped_no_candidates : ℕ
  pub errors : ℕ

abbrev pub tally_skip : PrimarySkipReason → Summary → Summary
tally_skip PrimarySkipReason.none c = c
tally_skip PrimarySkipReason.no_change c = record c { skipped_no_change = c.skipped_no_change + 1 }
tally_skip PrimarySkipReason.cooldown c = record c { skipped_cooldown = c.skipped_cooldown + 1 }
tally_skip PrimarySkipReason.hysteresis c = record c {
  skipped_hysteresis = c.skipped_hysteresis + 1;
}
tally_skip PrimarySkipReason.manual_override c = record c {
  skipped_manual_override = c.skipped_manual_override + 1;
}
tally_skip PrimarySkipReason.no_candidates c = record c {
  skipped_no_candidates = c.skipped_no_candidates + 1;
}

unfoldable pub tally : PrimaryEvalResult → Summary → Summary
tally r c =
    if r.should_switch then record c { switched = c.switched + 1 } else tally_skip r.skip_reason c

-- Whether the evaluation of a SKU returns, raises before it writes, or raises after the flip of the
-- primary link was committed, which stays.
pub data Course : Type 0 where
  returns raises_before raises_after : Course

-- One round of the loop of `evaluate_all`: the result, if there is one, and the tables.
unfoldable pub evaluate_one :
    (String → Course) → Faults → ℕ → Bool → String → Store → Option PrimaryEvalResult × Store
evaluate_one course faults now bypass sku s =
    let (r, s') = evaluate_and_apply faults now bypass sku s in
    elim (course sku) [
      | returns ↦ (some r, s')
      | raises_before ↦ (none, s)
      | raises_after ↦ (none, record s { links = s'.links })
    ]

unfoldable pub count_one : Option PrimaryEvalResult → Summary → Summary
unfolding tally
count_one none c = record c { evaluated_count = c.evaluated_count + 1; errors = c.errors + 1 }
count_one (some r) c = tally r (record c { evaluated_count = c.evaluated_count + 1 })

unfoldable pub evaluate_each :
    (String → Course) → Faults → ℕ → Bool → List String → Summary → Store → Summary × Store
unfolding evaluate_one count_one
evaluate_each course faults now bypass [] c s = (c, s)
evaluate_each course faults now bypass (sku ∷ skus) c s =
    let (r, s') = evaluate_one course faults now bypass sku s in
    evaluate_each course faults now bypass skus (count_one r c) s'

abbrev pub no_counts : Summary
no_counts = record {
  evaluated_count = 0;
  switched = 0;
  skipped_no_change = 0;
  skipped_cooldown = 0;
  skipped_hysteresis = 0;
  skipped_manual_override = 0;
  skipped_no_candidates = 0;
  errors = 0;
}

unfoldable pub evaluate_all : (String → Course) → Faults → ℕ → Bool → Store → Summary × Store
unfolding evaluate_each eligible_real_product_skus
evaluate_all course faults now bypass s =
    evaluate_each course faults now bypass (eligible_real_product_skus s.links) no_counts s

-- All outcomes that a summary has counted.
abbrev pub total : Summary → ℕ
total c =
    c.switched + c.skipped_no_change + c.skipped_cooldown + c.skipped_hysteresis
    + c.skipped_manual_override + c.skipped_no_candidates + c.errors

-- What an evaluation came to.
abbrev pub is_switch : Option PrimaryEvalResult → Bool
is_switch none = false
is_switch (some r) = r.should_switch

abbrev pub is_raise : Option PrimaryEvalResult → Bool
is_raise none = true
is_raise (some _) = false

abbrev pub reason_code : PrimarySkipReason → ℕ
reason_code PrimarySkipReason.none = 0
reason_code PrimarySkipReason.no_change = 1
reason_code PrimarySkipReason.cooldown = 2
reason_code PrimarySkipReason.hysteresis = 3
reason_code PrimarySkipReason.manual_override = 4
reason_code PrimarySkipReason.no_candidates = 5

abbrev pub is_skip : PrimarySkipReason → Option PrimaryEvalResult → Bool
is_skip reason none = false
is_skip reason (some r) = not r.should_switch && (reason_code r.skip_reason == reason_code reason)

-- A summary adds to another the outcomes of a list, each under its own name.
abbrev pub Adds : Summary → Summary → List (Option PrimaryEvalResult) → Type 0
Adds c d rs =
    (d.evaluated_count ≡ c.evaluated_count + length rs)
    × (d.switched ≡ c.switched + count_rows is_switch rs)
    × (d.skipped_no_change
        ≡ c.skipped_no_change + count_rows (is_skip PrimarySkipReason.no_change) rs)
    × (d.skipped_cooldown ≡ c.skipped_cooldown + count_rows (is_skip PrimarySkipReason.cooldown) rs)
    × (d.skipped_hysteresis
        ≡ c.skipped_hysteresis + count_rows (is_skip PrimarySkipReason.hysteresis) rs)
    × (d.skipped_manual_override
        ≡ c.skipped_manual_override + count_rows (is_skip PrimarySkipReason.manual_override) rs)
    × (d.skipped_no_candidates
        ≡ c.skipped_no_candidates + count_rows (is_skip PrimarySkipReason.no_candidates) rs)
    × (d.errors ≡ c.errors + count_rows is_raise rs)

-- A summary counts the outcomes of a list and nothing else.
abbrev pub IsSummary : Summary → List (Option PrimaryEvalResult) → Type 0
IsSummary d rs = Adds no_counts d rs

skip-Adds :
    (reason : PrimarySkipReason) (r : PrimaryEvalResult) (c : Summary)
    → r.should_switch ≡ false
    → r.skip_reason ≡ reason
    → Adds c
        (tally_skip reason (record c { evaluated_count = c.evaluated_count + 1 }))
        (some r ∷ [])
skip-Adds PrimarySkipReason.none r c off e = rw (off, e) (ground arith)
skip-Adds PrimarySkipReason.no_change r c off e = rw (off, e) (ground arith)
skip-Adds PrimarySkipReason.cooldown r c off e = rw (off, e) (ground arith)
skip-Adds PrimarySkipReason.hysteresis r c off e = rw (off, e) (ground arith)
skip-Adds PrimarySkipReason.manual_override r c off e = rw (off, e) (ground arith)
skip-Adds PrimarySkipReason.no_candidates r c off e = rw (off, e) (ground arith)

tally_off :
    (r : PrimaryEvalResult) (c : Summary)
    → r.should_switch ≡ false
    → tally r c ≡ tally_skip r.skip_reason c
unfolding tally
tally_off r c off = rw (tally, off) refl

count_one-Adds : (r : Option PrimaryEvalResult) (c : Summary) → Adds c (count_one r c) (r ∷ [])
unfolding count_one tally
count_one-Adds none c = ground arith
count_one-Adds (some r) c = elim (Bool-cases r.should_switch) [
  | inl on ↦ rw (count_one, tally, on) (ground arith)
  | inr off ↦
      subst (λ d. Adds c d (some r ∷ []))
        (sym (tally_off r (record c { evaluated_count = c.evaluated_count + 1 }) off))
        (skip-Adds r.skip_reason r c off refl)
]

Adds-cons :
    (r : Option PrimaryEvalResult) (rs : List (Option PrimaryEvalResult)) (c d e : Summary)
    → Adds c d (r ∷ [])
    → Adds d e rs
    → Adds c e (r ∷ rs)
Adds-cons r rs c d e h g = ground (arith, h, g)

tally_skip-total :
    (reason : PrimarySkipReason) (c : Summary)
    → reason ≢ PrimarySkipReason.none
    → total (tally_skip reason c) ≡ suc (total c)
tally_skip-total PrimarySkipReason.none c h = absurd (h refl)
tally_skip-total PrimarySkipReason.no_change c h = omega arith
tally_skip-total PrimarySkipReason.cooldown c h = omega arith
tally_skip-total PrimarySkipReason.hysteresis c h = omega arith
tally_skip-total PrimarySkipReason.manual_override c h = omega arith
tally_skip-total PrimarySkipReason.no_candidates c h = omega arith

tally_skip-evaluated :
    (reason : PrimarySkipReason) (c : Summary)
    → (tally_skip reason c).evaluated_count ≡ c.evaluated_count
tally_skip-evaluated PrimarySkipReason.none c = refl
tally_skip-evaluated PrimarySkipReason.no_change c = refl
tally_skip-evaluated PrimarySkipReason.cooldown c = refl
tally_skip-evaluated PrimarySkipReason.hysteresis c = refl
tally_skip-evaluated PrimarySkipReason.manual_override c = refl
tally_skip-evaluated PrimarySkipReason.no_candidates c = refl

-- A result has a reason exactly if it does not switch.
reasoned :
    (now : ℕ) (bypass : Bool) (sku : String) (s : Store)
    → (evaluate_primary_source now bypass sku s).should_switch ≡ false
    → (evaluate_primary_source now bypass sku s).skip_reason ≢ PrimarySkipReason.none
reasoned now bypass sku s off none_given =
    let r = evaluate_primary_source now bypass sku s in
    let (_, on, _, _) =
      subst (Explains s.products now bypass (active_links sku s.links) r) none_given
        (evaluate_primary_source-Explains now bypass sku s) in
    true≢false (sym on ∙ off)

answered :
    (faults : Faults) (now : ℕ) (bypass : Bool) (sku : String) (s : Store)
    → (evaluate_and_apply faults now bypass sku s).0.should_switch ≡ false
    → (evaluate_and_apply faults now bypass sku s).0.skip_reason ≢ PrimarySkipReason.none
unfolding evaluate_and_apply evaluate
answered faults now bypass sku s = reasoned now bypass sku s

tally_lem :
    (r : PrimaryEvalResult) (c : Summary)
    → (r.should_switch ≡ false → r.skip_reason ≢ PrimarySkipReason.none)
    → ((tally r c).evaluated_count ≡ c.evaluated_count) × (total (tally r c) ≡ suc (total c))
unfolding tally
tally_lem r c h = elim (Bool-cases r.should_switch) [
  | inl e ↦ rw (tally, e) (refl, omega arith)
  | inr e ↦
      rw (tally, e) (tally_skip-evaluated r.skip_reason c, tally_skip-total r.skip_reason c (h e))
]

module _ (course : String → Course) (faults : Faults) (now : ℕ) (bypass : Bool) where
  -- The outcomes of a batch, one for each SKU, each on the tables that the ones before left.
  pub outcomes : List String → Store → List (Option PrimaryEvalResult)
  outcomes [] s = []
  outcomes (sku ∷ skus) s =
      let (r, s') = evaluate_one course faults now bypass sku s in r ∷ outcomes skus s'

  length-outcomes : (skus : List String) (s : Store) → length (outcomes skus s) ≡ length skus
  unfolding outcomes
  length-outcomes [] s = refl
  length-outcomes (sku ∷ skus) s =
      ap suc (length-outcomes skus (evaluate_one course faults now bypass sku s).1)

  evaluate_one_lem :
      (sku : String) (c : Summary) (s : Store)
      → IsConsistent s.links
      → let out = evaluate_one course faults now bypass sku s in
        (total (count_one out.0 c) ≡ suc (total c)) × IsConsistent out.1.links
  unfolding evaluate_one count_one
  evaluate_one_lem sku c s consistent =
      let counted = record c { evaluated_count = c.evaluated_count + 1 } in
      let told =
        tally_lem (evaluate_and_apply faults now bypass sku s).0 counted
          (answered faults now bypass sku s) in
      let after = evaluate_and_apply-IsConsistent faults now bypass sku s consistent in
      elim (course sku)
        as (λ x.
          let out : Option PrimaryEvalResult × Store = elim x [
            | returns ↦ (
              some (evaluate_and_apply faults now bypass sku s).0,
              (evaluate_and_apply faults now bypass sku s).1,
            )
            | raises_before ↦ (none, s)
            | raises_after ↦
                (none, record s { links = (evaluate_and_apply faults now bypass sku s).1.links })
          ] in
          (total (count_one out.0 c) ≡ suc (total c)) × IsConsistent out.1.links) [
            | returns ↦ (told.1, after)
            | raises_before ↦ (omega arith, consistent)
            | raises_after ↦ (omega arith, after)
          ]

  evaluate_each_lem :
      (skus : List String) (c : Summary) (s : Store)
      → IsConsistent s.links
      → let out = evaluate_each course faults now bypass skus c s in
        Adds c out.0 (outcomes skus s)
        × (total out.0 ≡ length skus + total c)
        × IsConsistent out.1.links
  unfolding evaluate_each outcomes
  evaluate_each_lem [] c s consistent = (ground arith, omega arith, consistent)
  evaluate_each_lem (sku ∷ skus) c s consistent =
      let (r, s') = evaluate_one course faults now bypass sku s in
      let one = evaluate_one_lem sku c s consistent in
      let rest = evaluate_each_lem skus (count_one r c) s' one.1 in
      (
        Adds-cons r (outcomes skus s') c (count_one r c)
            (evaluate_each course faults now bypass skus (count_one r c) s').0 (count_one-Adds r c)
            rest.0,
        omega (arith, one.0, rest.1),
        rest.2,
      )

  -- The summary of the batch counts the outcome of each eligible SKU under its own name, as evaluated
  -- and as a switch, one of the five reasons, or an error, exactly one of them; an evaluation that
  -- raises may have committed its switch. On links that meet the table's constraints the batch
  -- leaves links that meet them.
  pub evaluate_all_lem :
      (s : Store)
      → IsConsistent s.links
      → let out = evaluate_all course faults now bypass s in
        let skus = eligible_real_product_skus s.links in
        IsSummary out.0 (outcomes skus s)
        × (length (outcomes skus s) ≡ length skus)
        × (total out.0 ≡ length skus)
        × IsConsistent out.1.links
  unfolding evaluate_all
  evaluate_all_lem s consistent =
      let skus = eligible_real_product_skus s.links in
      let all = evaluate_each_lem skus no_counts s consistent in
      (all.0, length-outcomes skus s, omega (arith, all.1), all.2)
