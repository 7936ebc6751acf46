-- ===== src/Switching/Stable.antt =====
-- A switch settles the evaluation: asked again over the same products, it finds no change to make.
use mathlib.Core.Path.{subst}
use mathlib.Core.Option
use entirius_django_atlas.Base.{
  ℕ, ◌≡◌, refl, sym, ◌∙◌, ap, Bool, true, false, ◌&&◌, ◌==◌, ==_refl, Option, some, List, [], ◌∷◌,
  String, str_eq, str_eq→eq, if◌then◌else◌, inl, inr, Bool-cases, Option-cases, first_row,
  exists_row, where_rows, map, All, arith,
}
use entirius_django_atlas.Base.Int.{pos, ltb_ℤ}
use entirius_django_atlas.Model.{SourceProduct, SourceProductLink}
use entirius_django_atlas.Model.Enums.{PrimarySkipReason}
use entirius_django_atlas.Links.{has_pk, has_sku, unflag, save_row, clear_others}
use entirius_django_atlas.Links.Consistency.{IsConsistent}
use entirius_django_atlas.KindGuard.{is_push_blocked}
use entirius_django_atlas.Links.Preserve.{primary_moved}
use entirius_django_atlas.Store.{Store, Faults}
use entirius_django_atlas.Primary.{
  PrimaryCandidate, evaluate_primary_source, evaluate_links, choose, judge, summarise_link,
  resolve_audit_sp, latest, candidates_of, sort_candidates, insert_candidate, comes_first,
  active_links,
}
use entirius_django_atlas.Primary.Winner.{IsIn, sort-head-IsWinner}
use entirius_django_atlas.Primary.Decision.{judge-new}
use entirius_django_atlas.Switching.{flag_at, evaluate_and_apply}
use entirius_django_atlas.Switching.Tables.{evaluate_and_apply-moved, IsIn-where}

module _ (now k : ℕ) (sku : String) where
  -- What the switch does to one link.
  abbrev moved_link : SourceProductLink → SourceProductLink
  moved_link l = if has_pk k l then flag_at now l else if has_sku sku l then unflag l else l

  moved_rows :
      (rows : List SourceProductLink)
      → save_row k (flag_at now) (clear_others sku k rows) ≡ map moved_link rows
  moved_rows [] = refl
  moved_rows (l ∷ rows) = ground (arith, moved_rows rows)

  active_moved :
      (rows : List SourceProductLink)
      → where_rows (λ l. has_sku sku l && l.is_active) (map moved_link rows)
        ≡ map moved_link (where_rows (λ l. has_sku sku l && l.is_active) rows)
  active_moved [] = refl
  active_moved (l ∷ rows) = ground (arith, active_moved rows)

  override_moved :
      (ls : List SourceProductLink)
      → exists_row (λ l. l.manual_override) (map moved_link ls)
        ≡ exists_row (λ l. l.manual_override) ls
  override_moved [] = refl
  override_moved (l ∷ ls) = ground (arith, override_moved ls)

  abbrev moved_candidate : PrimaryCandidate → PrimaryCandidate
  moved_candidate c = record c { link = moved_link c.link }

  -- The link that holds the key is the first primary one among the links of the SKU.
  primary_after :
      (l : SourceProductLink) (ls : List SourceProductLink)
      → has_pk k l ≡ true
      → IsIn l ls
      → All (λ r. has_sku sku r ≡ true) ls
      → (c : SourceProductLink) × (first_row (λ r. r.is_primary) (map moved_link ls) ≡ some c)
        × (has_pk k c ≡ true)
  primary_after l [] e m h = absurd m
  primary_after l (r ∷ ls) e m h = elim (Bool-cases (has_pk k r)) [
    | inl p ↦ (moved_link r, ground (arith, p), ground (arith, p))
    | inr p ↦ elim m [
      | inl same ↦ absurd (ground arith)
      | inr later ↦
          let (c, found, key) = primary_after l ls e later h.1 in
          (c, ground (arith, p, found, h.0), key)
    ]
  ]

  same_source : (l : SourceProductLink) → (moved_link l).source ≡ l.source
  same_source l = ground arith

  same_external_id : (l : SourceProductLink) → (moved_link l).external_id ≡ l.external_id
  same_external_id l = ground arith

  resolve_moved :
      (products : List SourceProduct) (l : SourceProductLink)
      → resolve_audit_sp products (moved_link l) ≡ resolve_audit_sp products l
  unfolding resolve_audit_sp
  resolve_moved products l = λ i. latest (
      where_rows
        (λ sp.
          (sp.source.pk == (same_source l i).pk) && str_eq sp.external_id (same_external_id l i))
        products)

  summarise_moved :
      (products : List SourceProduct) (l : SourceProductLink)
      → summarise_link products (moved_link l)
        ≡ Option.map moved_candidate (summarise_link products l)
  unfolding summarise_link
  summarise_moved products l = elim (Bool-cases (is_push_blocked l.source)) [
    | inl b ↦ ground (arith, b, same_source l)
    | inr b ↦ elim (Option-cases (resolve_audit_sp products l)) [
      | inl e ↦ ground (arith, b, e, same_source l, resolve_moved products l)
      | inr (sp, e) ↦ elim (Option-cases sp.cost) [
        | inl c ↦ ground (arith, b, e, c, same_source l, resolve_moved products l)
        | inr (cost, c) ↦ elim (Option-cases sp.stock) [
          | inl t ↦ ground (arith, b, e, c, t, same_source l, resolve_moved products l)
          | inr (stock, t) ↦ ground (arith, b, e, c, t, same_source l, resolve_moved products l)
        ]
      ]
    ]
  ]

  candidates_moved :
      (products : List SourceProduct) (ls : List SourceProductLink)
      → candidates_of products (map moved_link ls) ≡ map moved_candidate (candidates_of products ls)
  unfolding candidates_of
  candidates_moved products [] = refl
  candidates_moved products (l ∷ ls) = elim (Option-cases (summarise_link products l)) [
    | inl e ↦ ground (arith, e, summarise_moved products l, candidates_moved products ls)
    | inr (c, e) ↦ elim (Bool-cases (ltb_ℤ (pos 0) c.stock)) [
      | inl p ↦ ground (arith, e, p, summarise_moved products l, candidates_moved products ls)
      | inr p ↦ ground (arith, e, p, summarise_moved products l, candidates_moved products ls)
    ]
  ]

  same_first :
      (c d : PrimaryCandidate)
      → comes_first (moved_candidate c) (moved_candidate d) ≡ comes_first c d
  same_first c d = ground (arith, same_source c.link, same_source d.link)

  insert_moved :
      (c : PrimaryCandidate) (ds : List PrimaryCandidate)
      → insert_candidate (moved_candidate c) (map moved_candidate ds)
        ≡ map moved_candidate (insert_candidate c ds)
  unfolding insert_candidate
  insert_moved c [] = refl
  insert_moved c (d ∷ ds) = elim (Bool-cases (comes_first c d)) [
    | inl e ↦ rw (e, insert_candidate) (rw (same_first c d ∙ e, insert_candidate) refl)
    | inr e ↦
        rw (e, insert_candidate)
          (rw (same_first c d ∙ e, insert_candidate)
            (ap (λ r. moved_candidate d ∷ r) (insert_moved c ds)))
  ]

  sort_moved :
      (cs : List PrimaryCandidate)
      → sort_candidates (map moved_candidate cs) ≡ map moved_candidate (sort_candidates cs)
  unfolding sort_candidates
  sort_moved [] = refl
  sort_moved (c ∷ cs) =
      ap (insert_candidate (moved_candidate c)) (sort_moved cs)
      ∙ insert_moved c (sort_candidates cs)

module _ (products : List SourceProduct) (now : ℕ) (bypass : Bool) (sku : String) where
  judge_same :
      (c : SourceProductLink) (w : PrimaryCandidate)
      → c.pk ≡ w.link.pk
      → (judge products now bypass sku (some c) w).skip_reason ≡ PrimarySkipReason.no_change
  unfolding judge
  judge_same c w e = ground arith

  -- The evaluation of links whose first sorted candidate has the key of their first primary link.
  no_change_of :
      (links : List SourceProductLink) (w : PrimaryCandidate) (rest : List PrimaryCandidate)
      (c : SourceProductLink)
      → exists_row (λ l. l.manual_override) links ≡ false
      → sort_candidates (candidates_of products links) ≡ w ∷ rest
      → first_row (λ l. l.is_primary) links ≡ some c
      → c.pk ≡ w.link.pk
      → (evaluate_links products now bypass sku links).skip_reason ≡ PrimarySkipReason.no_change
  unfolding evaluate_links choose
  no_change_of [] w rest c free sorted held same = cc
  no_change_of (l ∷ ls) w rest c free sorted held same =
      rw (free, evaluate_links) (rw (sorted, choose) (rw held (judge_same c w same)))

  choose_switched :
      (current : Option SourceProductLink) (sorted : List PrimaryCandidate)
      → (choose products now bypass sku current sorted).should_switch ≡ true
      → (w : PrimaryCandidate) × (rest : List PrimaryCandidate) × (sorted ≡ w ∷ rest)
        × ((choose products now bypass sku current sorted).new_primary ≡ some w.link)
  unfolding choose
  choose_switched current [] h = absurd (ground arith)
  choose_switched current (w ∷ rest) h =
      (w, rest, refl, judge-new products now bypass sku current w)

  -- What a switch was decided from.
  switch_sorted :
      (links : List SourceProductLink)
      → (evaluate_links products now bypass sku links).should_switch ≡ true
      → (w : PrimaryCandidate) × (rest : List PrimaryCandidate) × (exists_row
            (λ l. l.manual_override)
            links
          ≡ false)
        × (sort_candidates (candidates_of products links) ≡ w ∷ rest)
        × ((evaluate_links products now bypass sku links).new_primary ≡ some w.link)
  unfolding evaluate_links
  switch_sorted [] h = absurd (ground arith)
  switch_sorted (l ∷ ls) h = elim (Bool-cases (exists_row (λ r. r.manual_override) (l ∷ ls))) [
    | inl o ↦ absurd (ground (arith, o))
    | inr o ↦
        let (w, rest, sorted, new) =
          choose_switched (first_row (λ r. r.is_primary) (l ∷ ls))
            (sort_candidates (candidates_of products (l ∷ ls))) (rw (o, evaluate_links) at h) in
        (w, rest, o, sorted, rw (o, evaluate_links) new)
  ]

where_rows-passes :
    (test : SourceProductLink → Bool) (rows : List SourceProductLink)
    → All (λ l. test l ≡ true) (where_rows test rows)
where_rows-passes test [] = tt
where_rows-passes test (l ∷ rows) = elim (Bool-cases (test l)) [
  | inl e ↦ rw e (e, where_rows-passes test rows)
  | inr e ↦ rw e (where_rows-passes test rows)
]

All-map_to {ℓ κ μ} :
    {A : Type ℓ} (P : A → Type κ) (Q : A → Type μ) (xs : List A)
    → ((x : A) → P x → Q x)
    → All P xs
    → All Q xs
All-map_to P Q [] f h = tt
All-map_to P Q (x ∷ xs) f h = (f x h.0, All-map_to P Q xs f h.1)

-- After an evaluation of a SKU that switched, an evaluation of the SKU over the same products, at any
-- time and with or without the safety gates, answers that there is no change to make.
pub evaluate_and_apply_settles :
    (faults : Faults) (now : ℕ) (bypass : Bool) (sku : String) (s : Store)
    → IsConsistent s.links
    → (evaluate_primary_source now bypass sku s).should_switch ≡ true
    → (later : ℕ) (bypass_later : Bool)
    → (evaluate_primary_source later bypass_later sku
        (record (evaluate_and_apply faults now bypass sku s).1 {
          products = s.products;
        })).skip_reason
      ≡ PrimarySkipReason.no_change
unfolding evaluate_primary_source
evaluate_and_apply_settles faults now bypass sku s c on later bypass_later =
    let links = active_links sku s.links in
    let (w, rest, free, sorted, new) = switch_sorted s.products now bypass sku links on in
    let k = w.link.pk in
    let won = sort-head-IsWinner s.products links w rest sorted in
    let here = won.stocked.0 in
    let passes : has_sku sku w.link ≡ true =
      ground (arith, (IsIn-where w.link _ s.links.rows here).1) in
    let (held, found, key) = primary_after now k sku w.link links (==_refl k) here (
      All-map_to (λ l. (has_sku sku l && l.is_active) ≡ true) (λ l. has_sku sku l ≡ true) links
        (λ l h. ground (arith, h))
        (where_rows-passes (λ l. has_sku sku l && l.is_active) s.links.rows)) in
    let after = (evaluate_and_apply faults now bypass sku s).1 in
    let form : active_links sku after.links ≡ map (moved_link now k sku) links =
      ap (active_links sku) (evaluate_and_apply-moved faults now bypass sku s w.link on new)
      ∙ ap (λ t. active_links sku (primary_moved k t (flag_at now) s.links))
          (str_eq→eq w.link.real_product_sku sku passes)
      ∙ ap (where_rows (λ l. has_sku sku l && l.is_active)) (moved_rows now k sku s.links.rows)
      ∙ active_moved now k sku s.links.rows in
    subst
      (λ ls.
        (evaluate_links s.products later bypass_later sku ls).skip_reason
        ≡ PrimarySkipReason.no_change)
      (sym form)
      (no_change_of s.products later bypass_later sku (map (moved_link now k sku) links)
        (moved_candidate now k sku w) (map (moved_candidate now k sku) rest) held
        (override_moved now k sku links ∙ free)
        (ap sort_candidates (candidates_moved now k sku s.products links)
          ∙ sort_moved now k sku (candidates_of s.products links)
          ∙ ap (map (moved_candidate now k sku)) sorted)
        found (ground (arith, key)))
