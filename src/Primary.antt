-- ===== src/Primary.antt =====
-- The auto-primary evaluation of django_atlas/services/primary_strategy_service.py: which link of a
-- RealProduct should be primary, and why a switch is skipped. Percentages are in units of 1/10000 of
-- a percent, the quantum that the code rounds to.
pub mod Winner
pub mod Decision
pub mod Savings
use entirius_django_atlas.Base.{
  ℕ, ◌+◌, ◌*◌, ◌/◌, ◌%◌, Bool, true, false, not, ◌&&◌, ◌||◌, ◌==◌, ltb, leb, Option, none, some,
  List, [], ◌∷◌, String, str_eq, if◌then◌else◌, where_rows, first_row, exists_row,
}
use entirius_django_atlas.Base.Int.{ℤ, pos, pos_part, neg_part, sub_ℕ, ◌-ℤ◌, ltb_ℤ, leb_ℤ, eqb_ℤ}
use entirius_django_atlas.Model.{Source, SourceProduct, SourceProductLink, IntegrationEvent}
use entirius_django_atlas.Model.Enums.{PrimarySkipReason, EventType, EventSeverity}
use entirius_django_atlas.KindGuard.{is_push_blocked}
use entirius_django_atlas.Links.{LinkTable, has_sku}
use entirius_django_atlas.Store.{Store, Faults, record_event}

pub record PrimaryCandidate : Type 0 where
  pub link : SourceProductLink
  pub source_product : SourceProduct
  pub cost : ℤ
  pub stock : ℤ

-- The decision; `decision_audit`, a dictionary for the operator, is not kept.
pub record PrimaryEvalResult : Type 0 where
  pub real_product_sku : String
  pub current_primary : Option SourceProductLink
  pub new_primary : Option SourceProductLink
  pub should_switch : Bool
  pub skip_reason : PrimarySkipReason

-- `order_by("-modified_at", "-id").first()`
abbrev pub newer : SourceProduct → SourceProduct → Bool
newer a b = ltb b.modified_at a.modified_at || ((a.modified_at == b.modified_at) && ltb b.pk a.pk)

unfoldable pub latest : List SourceProduct → Option SourceProduct
latest [] = none
latest (a ∷ rest) = elim (latest rest) [
  | none ↦ some a
  | some b ↦ if newer b a then some b else some a
]

-- The SourceProduct that a link's cost, stock and audit rows are taken from.
unfoldable pub resolve_audit_sp : List SourceProduct → SourceProductLink → Option SourceProduct
unfolding latest
resolve_audit_sp products link = latest (
    where_rows (λ sp. (sp.source.pk == link.source.pk) && str_eq sp.external_id link.external_id)
      products)

-- None when the product lacks a cost or a stock.
abbrev pub usable : SourceProductLink → SourceProduct → Option PrimaryCandidate
usable link sp = elim sp.cost [
  | none ↦ none
  | some cost ↦ elim sp.stock [
    | none ↦ none
    | some stock ↦ some (record { link = link; source_product = sp; cost = cost; stock = stock })
  ]
]

-- `_summarise_link`
unfoldable pub summarise_link : List SourceProduct → SourceProductLink → Option PrimaryCandidate
summarise_link products link =
    if is_push_blocked link.source
    then none
    else (elim (resolve_audit_sp products link) [ none ↦ none | some sp ↦ usable link sp ])

-- Rounds n / d to the nearest integer, a tie to the even one (Decimal's default in `quantize`).
unfoldable pub round_half_even : ℕ → ℕ → ℕ
round_half_even n d =
    let q = n / d in
    let r = n % d in
    if ltb (2 * r) d then q else if ltb d (2 * r) then q + 1 else if (q % 2) == 0 then q else q + 1

abbrev pub round_signed : ℤ → ℕ → ℤ
round_signed a d = sub_ℕ (round_half_even (pos_part a) d) (round_half_even (neg_part a) d)

-- a * 1000000: a percentage of a ratio, in units of 1/10000 percent
abbrev pub scale_up : ℤ → ℤ
scale_up a = sub_ℕ (1_000_000 * pos_part a) (1_000_000 * neg_part a)

-- `_cost_improvement_pct`
unfoldable pub cost_improvement_pct : ℤ → ℤ → ℤ
unfolding round_half_even
cost_improvement_pct current candidate =
    if leb_ℤ current (pos 0)
    then (if ltb_ℤ candidate current then pos 1_000_000 else pos 0)
    else round_signed (scale_up (current -ℤ candidate)) (pos_part current)

-- The sort key (cost, source_id), and Python's stable sort by it.
abbrev pub comes_first : PrimaryCandidate → PrimaryCandidate → Bool
comes_first c d =
    ltb_ℤ c.cost d.cost || (eqb_ℤ c.cost d.cost && leb c.link.source.pk d.link.source.pk)

unfoldable pub insert_candidate : PrimaryCandidate → List PrimaryCandidate → List PrimaryCandidate
insert_candidate c [] = c ∷ []
insert_candidate c (d ∷ ds) = if comes_first c d then c ∷ d ∷ ds else d ∷ insert_candidate c ds

unfoldable pub sort_candidates : List PrimaryCandidate → List PrimaryCandidate
unfolding insert_candidate
sort_candidates [] = []
sort_candidates (c ∷ cs) = insert_candidate c (sort_candidates cs)

-- The candidates with stock, in the order of their links.
unfoldable pub candidates_of : List SourceProduct → List SourceProductLink → List PrimaryCandidate
candidates_of products [] = []
candidates_of products (l ∷ ls) = elim (summarise_link products l) [
  | none ↦ candidates_of products ls
  | some c ↦
      if ltb_ℤ (pos 0) c.stock then c ∷ candidates_of products ls else candidates_of products ls
]

abbrev pub hysteresis_blocks :
    List SourceProduct → Bool → SourceProductLink → PrimaryCandidate → Bool
hysteresis_blocks products bypass current winner = elim (summarise_link products current) [
  | none ↦ false
  | some summary ↦
      not bypass
      && ltb_ℤ (cost_improvement_pct summary.cost winner.cost)
          (pos (current.source.primary_switch_hysteresis_pct * 10_000))
]

abbrev pub cooldown_blocks : ℕ → Bool → SourceProductLink → Bool
cooldown_blocks now bypass current = elim current.preferred_changed_at [
  | none ↦ false
  | some changed ↦
      not bypass && ltb now (changed + current.source.primary_switch_cooldown_hours * 3600)
]

abbrev pub eval_result :
    String
    → Option SourceProductLink
    → Option SourceProductLink
    → Bool
    → PrimarySkipReason
    → PrimaryEvalResult
eval_result sku current new switch reason = record {
  real_product_sku = sku;
  current_primary = current;
  new_primary = new;
  should_switch = switch;
  skip_reason = reason;
}

module _ (products : List SourceProduct) (now : ℕ) (bypass : Bool) (sku : String) where
  -- From the winner on: no change, hysteresis, cooldown, switch.
  unfoldable pub judge : Option SourceProductLink → PrimaryCandidate → PrimaryEvalResult
  judge none winner = eval_result sku none (some winner.link) true PrimarySkipReason.none
  judge (some current) winner =
      let answer = eval_result sku (some current) (some winner.link) in
      if current.pk == winner.link.pk
      then answer false PrimarySkipReason.no_change
      else if hysteresis_blocks products bypass current winner
      then answer false PrimarySkipReason.hysteresis
      else if cooldown_blocks now bypass current
      then answer false PrimarySkipReason.cooldown
      else answer true PrimarySkipReason.none

  unfoldable pub choose : Option SourceProductLink → List PrimaryCandidate → PrimaryEvalResult
  choose current [] = eval_result sku current none false PrimarySkipReason.no_candidates
  choose current (winner ∷ _) = judge current winner

  unfoldable pub evaluate_links : List SourceProductLink → PrimaryEvalResult
  evaluate_links [] = eval_result sku none none false PrimarySkipReason.no_candidates
  evaluate_links (l ∷ ls) =
      let current = first_row (λ r. r.is_primary) (l ∷ ls) in
      if exists_row (λ r. r.manual_override) (l ∷ ls)
      then eval_result sku current none false PrimarySkipReason.manual_override
      else choose current (sort_candidates (candidates_of products (l ∷ ls)))

abbrev pub active_links : String → LinkTable → List SourceProductLink
active_links sku t = where_rows (λ l. has_sku sku l && l.is_active) t.rows

-- `evaluate_primary_source`, as far as its answer goes
unfoldable pub evaluate_primary_source : ℕ → Bool → String → Store → PrimaryEvalResult
unfolding evaluate_links choose judge
evaluate_primary_source now bypass sku s =
    evaluate_links s.products now bypass sku (active_links sku s.links)

-- `_emit_skip_event`: three of the reasons are recorded.
abbrev pub skip_event_type : PrimarySkipReason → Option EventType
skip_event_type PrimarySkipReason.cooldown = some EventType.primary_switch_skipped_cooldown
skip_event_type PrimarySkipReason.hysteresis = some EventType.primary_switch_skipped_hysteresis
skip_event_type PrimarySkipReason.manual_override =
    some EventType.primary_switch_skipped_manual_override
skip_event_type _ = none

abbrev pub source_idx_of : Option SourceProductLink → Option String
source_idx_of none = none
source_idx_of (some l) = some l.source.idx

unfoldable pub emit_skip_event : Faults → PrimaryEvalResult → Store → Store
emit_skip_event faults result s = elim (skip_event_type result.skip_reason) [
  | none ↦ s
  | some event_type ↦
      record_event faults
        (record {
          event_type = event_type;
          severity = EventSeverity.info;
          source_idx = source_idx_of result.current_primary;
          source_product = none;
        })
        s
]

-- `evaluate_primary_source` with the event that it records
unfoldable pub evaluate : Faults → ℕ → Bool → String → Store → PrimaryEvalResult × Store
unfolding evaluate_primary_source emit_skip_event
evaluate faults now bypass sku s =
    let result = evaluate_primary_source now bypass sku s in
    (result, emit_skip_event faults result s)
