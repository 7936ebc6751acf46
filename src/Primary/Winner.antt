-- ===== src/Primary/Winner.antt =====
-- The head of the sorted candidates is the cheapest candidate with stock, the lowest source key
-- among equals, and it is one of the links that were given.
use mathlib.Core.Path.{subst, ap, ◌∙◌}
use entirius_django_atlas.Base.{
  sym, ◌≡◌, ◌⊎◌, inl, inr, true, false, ◌≤◌, some, List, [], ◌∷◌, Bool-cases, Option-cases, All,
  arith,
}
use entirius_django_atlas.Base.Int.{pos, ltb_ℤ, ◌<ℤ◌, ◌≤ℤ◌}
use entirius_django_atlas.Model.{SourceProduct, SourceProductLink}
use entirius_django_atlas.Primary.{
  PrimaryCandidate, comes_first, insert_candidate, sort_candidates, candidates_of, summarise_link,
}

-- In the order of (cost, source key).
pub record Precedes (c d : PrimaryCandidate) : Type 0 where
  pub cost : c.cost ≤ℤ d.cost
  pub tie : d.cost ≤ℤ c.cost → c.link.source.pk ≤ d.link.source.pk

Precedes-trans : (b c d : PrimaryCandidate) → Precedes b c → Precedes c d → Precedes b d
Precedes-trans b c d p q = record {
  cost = omega (arith, p.cost, q.cost);
  tie = λ h.
      omega (arith, p.tie (omega (arith, p.cost, q.cost)), q.tie (omega (arith, p.cost, q.cost)));
}

comes_first-Precedes : (c d : PrimaryCandidate) → comes_first c d ≡ true → Precedes c d
comes_first-Precedes c d h = record { cost = ground arith; tie = λ e. ground arith }

not_first-Precedes : (c d : PrimaryCandidate) → comes_first c d ≡ false → Precedes d c
not_first-Precedes c d h = record { cost = ground arith; tie = λ e. ground arith }

module _ {κ} (P : PrimaryCandidate → Type κ) where
  All-insert :
      (c : PrimaryCandidate) (ds : List PrimaryCandidate)
      → P c
      → All P ds
      → All P (insert_candidate c ds)
  unfolding insert_candidate
  All-insert c [] p h = (p, tt)
  All-insert c (d ∷ ds) p h = elim (Bool-cases (comes_first c d)) [
    | inl e ↦ rw e (p, h)
    | inr e ↦ rw e (h.0, All-insert c ds p h.1)
  ]

  All-sort : (cs : List PrimaryCandidate) → All P cs → All P (sort_candidates cs)
  unfolding sort_candidates
  All-sort [] h = tt
  All-sort (c ∷ cs) h = All-insert c (sort_candidates cs) h.0 (All-sort cs h.1)

  All-insert_inv :
      (c : PrimaryCandidate) (ds : List PrimaryCandidate)
      → All P (insert_candidate c ds)
      → P c × All P ds
  unfolding insert_candidate
  All-insert_inv c [] h = h
  All-insert_inv c (d ∷ ds) h = elim (Bool-cases (comes_first c d)) [
    | inl e ↦ (rw e at h)
    | inr e ↦
        let h' : P d × All P (insert_candidate c ds) = rw e at h in
        let (pc, rest) = All-insert_inv c ds h'.1 in (pc, (h'.0, rest))
  ]

  All-sort_inv : (cs : List PrimaryCandidate) → All P (sort_candidates cs) → All P cs
  unfolding sort_candidates
  All-sort_inv [] h = tt
  All-sort_inv (c ∷ cs) h =
      let (pc, rest) = All-insert_inv c (sort_candidates cs) h in (pc, All-sort_inv cs rest)

-- The head precedes the rest.
abbrev LeastFirst : List PrimaryCandidate → Type 0
LeastFirst [] = Unit
LeastFirst (c ∷ cs) = All (Precedes c) cs

All-Precedes :
    (b c : PrimaryCandidate) (ds : List PrimaryCandidate)
    → Precedes b c
    → All (Precedes c) ds
    → All (Precedes b) ds
All-Precedes b c [] p h = tt
All-Precedes b c (d ∷ ds) p h = (Precedes-trans b c d p h.0, All-Precedes b c ds p h.1)

insert-LeastFirst :
    (c : PrimaryCandidate) (ds : List PrimaryCandidate)
    → LeastFirst ds
    → LeastFirst (insert_candidate c ds)
unfolding insert_candidate
insert-LeastFirst c [] h = tt
insert-LeastFirst c (d ∷ ds) h = elim (Bool-cases (comes_first c d)) [
  | inl e ↦ rw e (comes_first-Precedes c d e, All-Precedes c d ds (comes_first-Precedes c d e) h)
  | inr e ↦ rw e (All-insert (Precedes d) c ds (not_first-Precedes c d e) h)
]

sort-LeastFirst : (cs : List PrimaryCandidate) → LeastFirst (sort_candidates cs)
unfolding sort_candidates
sort-LeastFirst [] = tt
sort-LeastFirst (c ∷ cs) = insert-LeastFirst c (sort_candidates cs) (sort-LeastFirst cs)

Precedes-refl : (c : PrimaryCandidate) → Precedes c c
Precedes-refl c = record { cost = omega arith; tie = λ _. omega arith }

-- The head of the sorted list precedes every candidate.
sort-head_least :
    (cs : List PrimaryCandidate) (w : PrimaryCandidate) (rest : List PrimaryCandidate)
    → sort_candidates cs ≡ w ∷ rest
    → All (Precedes w) cs
sort-head_least cs w rest e =
    All-sort_inv (Precedes w) cs
      (subst (All (Precedes w)) (sym e) (Precedes-refl w, subst LeastFirst e (sort-LeastFirst cs)))

-- `x` is an element of a list.
abbrev pub IsIn : {A : Type 0} → A → List A → Type 0
IsIn x [] = ⊥
IsIn x (y ∷ ys) = (x ≡ y) ⊎ IsIn x ys

summarise_link-link :
    (products : List SourceProduct) (l : SourceProductLink) {c : PrimaryCandidate}
    → summarise_link products l ≡ some c
    → c.link ≡ l
unfolding summarise_link
summarise_link-link products l h = ground arith

-- A candidate with stock is the summary of one of the links.
abbrev pub IsStocked : List SourceProduct → List SourceProductLink → PrimaryCandidate → Type 0
IsStocked products links c =
    IsIn c.link links × (summarise_link products c.link ≡ some c) × (pos 0 <ℤ c.stock)

pub All-IsIn {κ} : {A : Type 0} (P : A → Type κ) (x : A) (xs : List A) → IsIn x xs → All P xs → P x
All-IsIn P x [] m h = absurd m
All-IsIn P x (y ∷ ys) (inl e) h = rw e h.0
All-IsIn P x (y ∷ ys) (inr m) h = All-IsIn P x ys m h.1

weaken-IsStocked :
    (products : List SourceProduct) (l : SourceProductLink) (ls : List SourceProductLink)
    (cs : List PrimaryCandidate)
    → All (IsStocked products ls) cs
    → All (IsStocked products (l ∷ ls)) cs
weaken-IsStocked products l ls [] h = tt
weaken-IsStocked products l ls (c ∷ cs) ((m, e, p), h) =
    ((inr m, e, p), weaken-IsStocked products l ls cs h)

candidates_of-IsStocked :
    (products : List SourceProduct) (ls : List SourceProductLink)
    → All (IsStocked products ls) (candidates_of products ls)
unfolding candidates_of
candidates_of-IsStocked products [] = tt
candidates_of-IsStocked products (l ∷ ls) = elim (Option-cases (summarise_link products l)) [
  | inl e ↦
      rw (e, candidates_of)
        (weaken-IsStocked products l ls (candidates_of products ls)
          (candidates_of-IsStocked products ls))
  | inr (c, e) ↦
      let rest =
        weaken-IsStocked products l ls (candidates_of products ls)
          (candidates_of-IsStocked products ls) in
      rw (e, candidates_of)
        (elim (Bool-cases (ltb_ℤ (pos 0) c.stock)) [
          | inl p ↦ rw p (
            (
              inl (summarise_link-link products l e),
              ap (summarise_link products) (summarise_link-link products l e) ∙ e,
              ground arith,
            ),
            rest,
          )
          | inr p ↦ rw p rest
        ])
]

candidates_of-cons :
    (products : List SourceProduct) (l : SourceProductLink) (ls : List SourceProductLink)
    → ((c : PrimaryCandidate) × (summarise_link products l ≡ some c)
        × (candidates_of products (l ∷ ls) ≡ c ∷ candidates_of products ls))
      ⊎ (candidates_of products (l ∷ ls) ≡ candidates_of products ls)
        × ((c : PrimaryCandidate) → summarise_link products l ≡ some c → ¬ (pos 0 <ℤ c.stock))
unfolding candidates_of
candidates_of-cons products l ls = elim (Option-cases (summarise_link products l)) [
  | inl e ↦ inr (ground (arith, e), λ c h. cc)
  | inr (c, e) ↦ elim (Bool-cases (ltb_ℤ (pos 0) c.stock)) [
    | inl p ↦ inl (c, e, ground (arith, e, p))
    | inr p ↦ inr (ground (arith, e, p), λ d h q. absurd (ground arith))
  ]
]

-- Every link with a stocked summary is among the candidates.
stocked_all {κ} :
    (P : PrimaryCandidate → Type κ) (products : List SourceProduct) (ls : List SourceProductLink)
    → All P (candidates_of products ls)
    → (l : SourceProductLink) (c : PrimaryCandidate) → IsIn l ls
    → summarise_link products l ≡ some c
    → pos 0 <ℤ c.stock
    → P c
stocked_all P products [] h l c m e p = absurd m
stocked_all P products (r ∷ ls) h l c m e p = elim (candidates_of-cons products r ls) [
  | inl (d, some_of, whole) ↦
      let full : All P (d ∷ candidates_of products ls) = subst (All P) whole h in
      elim m [
        | inl same ↦
            let unique : d ≡ c = cc (some_of, e, ap (summarise_link products) same) in
            subst P unique full.0
        | inr m' ↦ stocked_all P products ls full.1 l c m' e p
      ]
  | inr (whole, dry) ↦ elim m [
    | inl same ↦ absurd (dry c (ap (summarise_link products) (sym same) ∙ e) p)
    | inr m' ↦ stocked_all P products ls (subst (All P) whole h) l c m' e p
  ]
]

-- What is known of the first of the sorted candidates.
pub record IsWinner (products : List SourceProduct) (links : List SourceProductLink)
    (w : PrimaryCandidate) : Type 0 where
  pub stocked : IsStocked products links w
  pub least :
      (l : SourceProductLink) (c : PrimaryCandidate)
      → IsIn l links
      → summarise_link products l ≡ some c
      → pos 0 <ℤ c.stock
      → Precedes w c

pub sort-head-IsWinner :
    (products : List SourceProduct) (links : List SourceProductLink) (w : PrimaryCandidate)
    (rest : List PrimaryCandidate)
    → sort_candidates (candidates_of products links) ≡ w ∷ rest
    → IsWinner products links w
sort-head-IsWinner products links w rest e = record {
  stocked =
      (subst (All (IsStocked products links)) e (
        All-sort (IsStocked products links) (candidates_of products links)
          (candidates_of-IsStocked products links))).0;
  least =
      stocked_all (Precedes w) products links
        (sort-head_least (candidates_of products links) w rest e);
}

-- If nothing is sorted, no link has a summary with stock.
pub sort-nil_dry :
    (products : List SourceProduct) (links : List SourceProductLink)
    → sort_candidates (candidates_of products links) ≡ []
    → (l : SourceProductLink) (c : PrimaryCandidate) → IsIn l links
    → summarise_link products l ≡ some c
    → ¬ (pos 0 <ℤ c.stock)
sort-nil_dry products links e =
    stocked_all (λ _. ⊥) products links
      (All-sort_inv (λ _. ⊥) (candidates_of products links) (subst (All (λ _. ⊥)) (sym e) tt))
