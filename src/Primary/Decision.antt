-- ===== src/Primary/Decision.antt =====
-- When the evaluation switches, to whom, and by how much the winner is cheaper.
use entirius_django_atlas.Base.{
  ℕ, ◌+◌, ◌*◌, ◌≤◌, ◌<◌, ◌≡◌, refl, sym, ◌∙◌, ◌≢◌, inl, inr, Bool, true, false, ◌==◌, Option, none,
  some, List, [], ◌∷◌, String, Bool-cases, Option-cases, exists_row, first_row, arith,
}
use entirius_django_atlas.Base.Int.{pos, ◌<ℤ◌, ◌≤ℤ◌}
use entirius_django_atlas.Model.{SourceProduct, SourceProductLink}
use entirius_django_atlas.Model.Enums.{PrimarySkipReason}
use entirius_django_atlas.Store.{Store}
use entirius_django_atlas.Primary.{
  PrimaryCandidate, PrimaryEvalResult, hysteresis_blocks, cooldown_blocks, judge, choose,
  evaluate_links, evaluate_primary_source, active_links, sort_candidates, candidates_of,
  summarise_link, cost_improvement_pct,
}
use entirius_django_atlas.Primary.Winner.{IsWinner, IsIn, sort-head-IsWinner, sort-nil_dry}

-- What stands against replacing a current primary link.
pub record MayReplace (products : List SourceProduct) (now : ℕ) (bypass : Bool)
    (current : SourceProductLink) (w : PrimaryCandidate) : Type 0 where
  pub other : current.pk ≢ w.link.pk
  pub improves :
      bypass ≡ false
      → (c : PrimaryCandidate) → summarise_link products current ≡ some c
      → pos (current.source.primary_switch_hysteresis_pct * 10_000)
        ≤ℤ cost_improvement_pct c.cost w.cost
  pub cooled :
      bypass ≡ false
      → (changed : ℕ) → current.preferred_changed_at ≡ some changed
      → changed + current.source.primary_switch_cooldown_hours * 3600 ≤ now

-- The specification of a switch over the active links of a SKU.
pub record Switches (products : List SourceProduct) (now : ℕ) (bypass : Bool)
    (links : List SourceProductLink) (w : PrimaryCandidate) : Type 0 where
  pub free : exists_row (λ l. l.manual_override) links ≡ false
  pub winner : IsWinner products links w
  pub replaces :
      (current : SourceProductLink)
      → first_row (λ l. l.is_primary) links ≡ some current
      → MayReplace products now bypass current w

module _ (products : List SourceProduct) (now : ℕ) (bypass : Bool) (sku : String) where
  judge-replaces :
      (current : Option SourceProductLink) (w : PrimaryCandidate)
      → (judge products now bypass sku current w).should_switch ≡ true
      → (c : SourceProductLink) → current ≡ some c
      → MayReplace products now bypass c w
  unfolding judge
  judge-replaces none w h c e = cc
  judge-replaces (some current) w h c e = record {
    other = ground arith;
    improves = λ b s es. ground arith;
    cooled = λ b t et. ground arith;
  }

  pub judge-new :
      (current : Option SourceProductLink) (w : PrimaryCandidate)
      → (judge products now bypass sku current w).new_primary ≡ some w.link
  unfolding judge
  judge-new none w = refl
  judge-new (some current) w = ground arith

-- No link has a summary with stock.
abbrev pub NoStock : List SourceProduct → List SourceProductLink → Type 0
NoStock products links =
    (l : SourceProductLink) (c : PrimaryCandidate)
    → IsIn l links
    → summarise_link products l ≡ some c
    → ¬ (pos 0 <ℤ c.stock)

module _ (products : List SourceProduct) (now : ℕ) (bypass : Bool)
    (links : List SourceProductLink) where
  -- The winner, set against a current primary link.
  pub record Contest (current : SourceProductLink) (w : PrimaryCandidate) : Type 0 where
    pub free : exists_row (λ l. l.manual_override) links ≡ false
    pub winner : IsWinner products links w
    pub holds : first_row (λ l. l.is_primary) links ≡ some current

  -- What each reason of a result means, over the active links of the SKU.
  abbrev pub Explains : PrimaryEvalResult → PrimarySkipReason → Type 0
  Explains r PrimarySkipReason.none =
      (w : PrimaryCandidate) × (r.should_switch ≡ true)
      × (r.new_primary ≡ some w.link)
      × Switches products now bypass links w
  Explains r PrimarySkipReason.no_candidates = (r.should_switch ≡ false) × NoStock products links
  Explains r PrimarySkipReason.manual_override =
      (r.should_switch ≡ false) × (exists_row (λ l. l.manual_override) links ≡ true)
  Explains r PrimarySkipReason.no_change =
      (current : SourceProductLink) × (w : PrimaryCandidate) × (r.should_switch ≡ false)
      × Contest current w
      × (current.pk ≡ w.link.pk)
  Explains r PrimarySkipReason.hysteresis =
      (current : SourceProductLink) × (w : PrimaryCandidate) × (summary : PrimaryCandidate)
      × (r.should_switch ≡ false)
      × Contest current w
      × (bypass ≡ false)
      × (summarise_link products current ≡ some summary)
      × (cost_improvement_pct summary.cost w.cost
          <ℤ pos (current.source.primary_switch_hysteresis_pct * 10_000))
  Explains r PrimarySkipReason.cooldown =
      (current : SourceProductLink) × (w : PrimaryCandidate) × (changed : ℕ) × (r.should_switch
        ≡ false)
      × Contest current w
      × (bypass ≡ false)
      × (current.preferred_changed_at ≡ some changed)
      × (now < changed + current.source.primary_switch_cooldown_hours * 3600)

module _ (products : List SourceProduct) (now : ℕ) (bypass : Bool) (sku : String) where
  abbrev Explained : List SourceProductLink → PrimaryEvalResult → Type 0
  Explained links r = Explains products now bypass links r r.skip_reason

  hysteresis_cause :
      (current : SourceProductLink) (w : PrimaryCandidate)
      → hysteresis_blocks products bypass current w ≡ true
      → (summary : PrimaryCandidate) × (bypass ≡ false)
        × (summarise_link products current ≡ some summary)
        × (cost_improvement_pct summary.cost w.cost
            <ℤ pos (current.source.primary_switch_hysteresis_pct * 10_000))
  hysteresis_cause current w h = elim (Option-cases (summarise_link products current)) [
    | inl e ↦ absurd (ground arith)
    | inr (s, e) ↦ (s, ground arith, e, ground arith)
  ]

  cooldown_cause :
      (current : SourceProductLink)
      → cooldown_blocks now bypass current ≡ true
      → (changed : ℕ) × (bypass ≡ false)
        × (current.preferred_changed_at ≡ some changed)
        × (now < changed + current.source.primary_switch_cooldown_hours * 3600)
  cooldown_cause current h = elim (Option-cases current.preferred_changed_at) [
    | inl e ↦ absurd (ground arith)
    | inr (t, e) ↦ (t, ground arith, e, ground arith)
  ]

  module _ (links : List SourceProductLink) (w : PrimaryCandidate)
      (free : exists_row (λ l. l.manual_override) links ≡ false)
      (won : IsWinner products links w) where
    judge-Explained :
        (current : Option SourceProductLink)
        → first_row (λ l. l.is_primary) links ≡ current
        → Explained links (judge products now bypass sku current w)
    unfolding judge
    judge-Explained none none_now =
        (w, refl, refl, record { free = free; winner = won; replaces = λ c e. cc })
    judge-Explained (some current) is_now =
        let contest : Contest products now bypass links current w = record {
          free = free;
          winner = won;
          holds = is_now;
        } in
        elim (Bool-cases (current.pk == w.link.pk)) [
          | inl e ↦ rw (e, judge) (current, w, refl, contest, ground arith)
          | inr e ↦
              rw (e, judge)
                (elim (Bool-cases (hysteresis_blocks products bypass current w)) [
                  | inl h ↦
                      let (s, b, es, lt) = hysteresis_cause current w h in
                      rw (h, judge) (current, w, s, refl, contest, b, es, lt)
                  | inr h ↦
                      rw (h, judge)
                        (elim (Bool-cases (cooldown_blocks now bypass current)) [
                          | inl k ↦
                              let (t, b, et, lt) = cooldown_cause current k in
                              rw (k, judge) (current, w, t, refl, contest, b, et, lt)
                          | inr k ↦
                              rw (k, judge)
                                (
                                  w,
                                  refl,
                                  refl,
                                  record {
                                    free = free;
                                    winner = won;
                                    replaces = λ c held.
                                        judge-replaces products now bypass sku (some current) w
                                          (ground (arith, e, h, k)) c (sym is_now ∙ held);
                                  },
                                )
                        ])
                ])
        ]

  choose-Explained :
      (links : List SourceProductLink)
      → exists_row (λ l. l.manual_override) links ≡ false
      → (sorted : List PrimaryCandidate) → sort_candidates (candidates_of products links) ≡ sorted
      → Explained links
          (choose products now bypass sku (first_row (λ l. l.is_primary) links) sorted)
  unfolding choose
  choose-Explained links free [] e = (refl, sort-nil_dry products links e)
  choose-Explained links free (w ∷ rest) e =
      judge-Explained links w free (sort-head-IsWinner products links w rest e)
        (first_row (λ l. l.is_primary) links) refl

  evaluate_links-Explained :
      (links : List SourceProductLink)
      → Explained links (evaluate_links products now bypass sku links)
  unfolding evaluate_links
  evaluate_links-Explained [] = (refl, λ l c m. absurd m)
  evaluate_links-Explained (l ∷ ls) =
      elim (Bool-cases (exists_row (λ r. r.manual_override) (l ∷ ls))) [
        | inl e ↦ rw (e, evaluate_links) (refl, e)
        | inr e ↦
            rw (e, evaluate_links)
              (choose-Explained (l ∷ ls) e (sort_candidates (candidates_of products (l ∷ ls))) refl)
      ]

pub evaluate_primary_source-Explains :
    (now : ℕ) (bypass : Bool) (sku : String) (s : Store)
    → let r = evaluate_primary_source now bypass sku s in
      Explains s.products now bypass (active_links sku s.links) r r.skip_reason
unfolding evaluate_primary_source
evaluate_primary_source-Explains now bypass sku s =
    evaluate_links-Explained s.products now bypass sku (active_links sku s.links)

-- A switch is explained by `none` alone.
explained_switch :
    {products : List SourceProduct} {now : ℕ} {bypass : Bool} {links : List SourceProductLink}
    (r : PrimaryEvalResult) (reason : PrimarySkipReason)
    → Explains products now bypass links r reason
    → r.should_switch ≡ true
    → (w : PrimaryCandidate) × (r.new_primary ≡ some w.link) × Switches products now bypass links w
explained_switch r PrimarySkipReason.none (w, on, new, sw) h = (w, new, sw)
explained_switch r PrimarySkipReason.no_candidates x h = absurd (ground arith)
explained_switch r PrimarySkipReason.manual_override x h = absurd (ground arith)
explained_switch r PrimarySkipReason.no_change (a, b, off, _, _) h = absurd (ground arith)
explained_switch r PrimarySkipReason.hysteresis (a, b, c, off, _, _, _, _) h = absurd (ground arith)
explained_switch r PrimarySkipReason.cooldown (a, b, c, off, _, _, _, _) h = absurd (ground arith)

-- An evaluation that switches has a winner that meets the specification of a switch.
pub evaluate_primary_source-Switches :
    (now : ℕ) (bypass : Bool) (sku : String) (s : Store)
    → (evaluate_primary_source now bypass sku s).should_switch ≡ true
    → (w : PrimaryCandidate) × ((evaluate_primary_source now bypass sku s).new_primary
        ≡ some w.link)
      × Switches s.products now bypass (active_links sku s.links) w
evaluate_primary_source-Switches now bypass sku s h =
    let r = evaluate_primary_source now bypass sku s in
    explained_switch r r.skip_reason (evaluate_primary_source-Explains now bypass sku s) h
