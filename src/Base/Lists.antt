-- ===== src/Base/Lists.antt =====
-- Lists as query results: Boolean filters, searches and counts over the native numbers.
use Prim.Native.Nat.{ℕ, zero, suc, ◌+◌, ◌-◌, ◌≤◌}
use mathlib.Core.Path.{◌≡◌, refl, sym, ap, ◌∙◌, subst}
use mathlib.Core.Logic.{◌≢◌, inl, inr}
use mathlib.Core.Bool.{Bool, true, false, ◌||◌}
use mathlib.Core.List.{List, [], ◌∷◌, ◌++◌}
use mathlib.Core.Option.{Option, none, some}
use native.Mathlib.Omega.{arith}
use entirius_django_atlas.Base.Tests.{if◌then◌else◌, is_some, Bool-cases}

-- A predicate on every element, by recursion.
abbrev pub All {ℓ κ} : {A : Type ℓ} → (A → Type κ) → List A → Type κ
All P [] = Unit
All P (x ∷ xs) = P x × All P xs

module _ {ℓ} {A : Type ℓ} where
  abbrev pub length : List A → ℕ
  length [] = 0
  length (x ∷ xs) = suc (length xs)

  -- `.filter(test)`
  abbrev pub where_rows : (A → Bool) → List A → List A
  where_rows test [] = []
  where_rows test (x ∷ xs) = if test x then x ∷ where_rows test xs else where_rows test xs

  -- `.filter(test).first()` on a table in primary-key order, and `.get(...)` on a unique key
  abbrev pub first_row : (A → Bool) → List A → Option A
  first_row test [] = none
  first_row test (x ∷ xs) = if test x then some x else first_row test xs

  -- `.filter(test).exists()`
  abbrev pub exists_row : (A → Bool) → List A → Bool
  exists_row test [] = false
  exists_row test (x ∷ xs) = test x || exists_row test xs

  -- `.filter(test).count()`
  abbrev pub count_rows : (A → Bool) → List A → ℕ
  count_rows test [] = 0
  count_rows test (x ∷ xs) = (if test x then 1 else 0) + count_rows test xs

  -- `.filter(test).update(f)`
  abbrev pub update_rows : (A → Bool) → (A → A) → List A → List A
  update_rows test f [] = []
  update_rows test f (x ∷ xs) = (if test x then f x else x) ∷ update_rows test f xs

  pub length-append : (xs ys : List A) → length (xs ++ ys) ≡ length xs + length ys
  length-append [] ys = omega arith
  length-append (x ∷ xs) ys = omega (arith, length-append xs ys)

  pub count_rows-append :
      (test : A → Bool) (xs ys : List A)
      → count_rows test (xs ++ ys) ≡ count_rows test xs + count_rows test ys
  count_rows-append test [] ys = omega arith
  count_rows-append test (x ∷ xs) ys = omega (arith, count_rows-append test xs ys)

  pub length-where_rows :
      (test : A → Bool) (xs : List A) → length (where_rows test xs) ≡ count_rows test xs
  length-where_rows test [] = refl
  length-where_rows test (x ∷ xs) = ground (arith, length-where_rows test xs)

  -- What a search finds passes the test.
  pub first_row-passes :
      (test : A → Bool) (xs : List A) {x : A} → first_row test xs ≡ some x → test x ≡ true
  first_row-passes test [] h = cc
  first_row-passes test (y ∷ ys) {x} h = ground (arith, first_row-passes test ys {x = x})

  -- A search that finds nothing leaves a table with no such row.
  pub count_rows_of_none :
      (test : A → Bool) (xs : List A) → first_row test xs ≡ none → count_rows test xs ≡ 0
  count_rows_of_none test [] h = refl
  count_rows_of_none test (y ∷ ys) h = ground (arith, count_rows_of_none test ys)

  pub All-append {κ} : (P : A → Type κ) (xs ys : List A) → All P xs → All P ys → All P (xs ++ ys)
  All-append P [] ys hx hy = hy
  All-append P (x ∷ xs) ys hx hy = (hx.0, All-append P xs ys hx.1 hy)

  -- A search succeeds exactly when such a row exists.
  pub exists_row-first_row :
      (test : A → Bool) (xs : List A) → exists_row test xs ≡ is_some (first_row test xs)
  exists_row-first_row test [] = refl
  exists_row-first_row test (x ∷ xs) = ground (arith, exists_row-first_row test xs)

  pub count_rows_of_found :
      (test : A → Bool) (xs : List A) {x : A} → first_row test xs ≡ some x → 1 ≤ count_rows test xs
  count_rows_of_found test [] h = cc
  count_rows_of_found test (y ∷ ys) {x} h = ground (arith, count_rows_of_found test ys {x = x})

  -- `items[:n]`
  abbrev pub take : ℕ → List A → List A
  take zero xs = []
  take (suc n) [] = []
  take (suc n) (x ∷ xs) = x ∷ take n xs

  -- `items[n:]`
  abbrev pub drop : ℕ → List A → List A
  drop zero xs = xs
  drop (suc n) [] = []
  drop (suc n) (x ∷ xs) = drop n xs

  pub take-append-drop : (n : ℕ) (xs : List A) → take n xs ++ drop n xs ≡ xs
  take-append-drop zero xs = refl
  take-append-drop (suc n) [] = refl
  take-append-drop (suc n) (x ∷ xs) = ap (x ∷◌) (take-append-drop n xs)

  pub length-take : (n : ℕ) (xs : List A) → length (take n xs) ≤ n
  length-take zero xs = omega arith
  length-take (suc n) [] = omega arith
  length-take (suc n) (x ∷ xs) = omega (arith, length-take n xs)

  pub length-drop : (n : ℕ) (xs : List A) → length (drop n xs) ≡ length xs - n
  length-drop zero xs = omega arith
  length-drop (suc n) [] = omega arith
  length-drop (suc n) (x ∷ xs) = omega (arith, length-drop n xs)

  none≢some : {x : A} → none ≢ some x
  none≢some h = cc

  some_inj : {x y : A} → some x ≡ some y → x ≡ y
  some_inj h = cc

  found_here :
      (test : A → Bool) (x : A) (xs : List A) → test x ≡ true → first_row test (x ∷ xs) ≡ some x
  found_here test x xs e = rw e refl

  found_later :
      (test : A → Bool) (x : A) (xs : List A)
      → test x ≡ false
      → first_row test (x ∷ xs) ≡ first_row test xs
  found_later test x xs e = rw e refl

  -- What a search finds has every property of all rows.
  pub first_row-All {κ} :
      (P : A → Type κ) (test : A → Bool) (xs : List A) {x : A}
      → All P xs
      → first_row test xs ≡ some x
      → P x
  first_row-All P test [] all h = absurd (none≢some h)
  first_row-All P test (y ∷ ys) {x} all h = elim (Bool-cases (test y)) [
    | inl e ↦ subst P (some_inj (sym (found_here test y ys e) ∙ h)) all.0
    | inr e ↦ first_row-All P test ys all.1 (sym (found_later test y ys e) ∙ h)
  ]

module _ {ℓ} {A : Type ℓ} where
  pub All-map {κ} : {P Q : A → Type κ} (f : (x : A) → P x → Q x) (xs : List A) → All P xs → All Q xs
  All-map f [] h = tt
  All-map f (x ∷ xs) h = (f x h.0, All-map f xs h.1)

  -- Two tests that agree on the rows of a table update, count and find alike.
  pub update_rows-agree :
      (p q : A → Bool) (f : A → A) (rows : List A)
      → All (λ r. p r ≡ q r) rows
      → update_rows p f rows ≡ update_rows q f rows
  update_rows-agree p q f [] h = refl
  update_rows-agree p q f (r ∷ rows) h = ground (arith, h.0, update_rows-agree p q f rows h.1)

  pub count_rows-agree :
      (p q : A → Bool) (rows : List A)
      → All (λ r. p r ≡ q r) rows
      → count_rows p rows ≡ count_rows q rows
  count_rows-agree p q [] h = refl
  count_rows-agree p q (r ∷ rows) h = ground (arith, h.0, count_rows-agree p q rows h.1)

  pub first_row-agree :
      (p q : A → Bool) (rows : List A)
      → All (λ r. p r ≡ q r) rows
      → first_row p rows ≡ first_row q rows
  first_row-agree p q [] h = refl
  first_row-agree p q (r ∷ rows) h = ground (arith, h.0, first_row-agree p q rows h.1)

  -- A table without a row that passes is left as it is.
  pub update_rows_of_none :
      (p : A → Bool) (f : A → A) (rows : List A)
      → first_row p rows ≡ none
      → update_rows p f rows ≡ rows
  update_rows_of_none p f [] h = refl
  update_rows_of_none p f (r ∷ rows) h = ground (arith, update_rows_of_none p f rows)

  pub first_row_of_count :
      (p : A → Bool) (rows : List A) → count_rows p rows ≡ 0 → first_row p rows ≡ none
  first_row_of_count p [] h = refl
  first_row_of_count p (r ∷ rows) h = ground (arith, first_row_of_count p rows)

  pub append_nil : (xs : List A) → xs ++ [] ≡ xs
  append_nil [] = refl
  append_nil (x ∷ xs) = ap (x ∷◌) (append_nil xs)

  pub where_rows-All : (p : A → Bool) (rows : List A) → All (λ r. p r ≡ true) (where_rows p rows)
  where_rows-All p [] = tt
  where_rows-All p (r ∷ rows) = elim (Bool-cases (p r)) [
    | inl e ↦ rw e (e, where_rows-All p rows)
    | inr e ↦ rw e (where_rows-All p rows)
  ]

  pub All-take {κ} : (P : A → Type κ) (n : ℕ) (rows : List A) → All P rows → All P (take n rows)
  All-take P zero rows h = tt
  All-take P (suc n) [] h = tt
  All-take P (suc n) (r ∷ rows) h = (h.0, All-take P n rows h.1)

  -- A row at the end is found only if no row before it is.
  pub first_row-append_out :
      (test : A → Bool) (rows : List A) (x : A)
      → test x ≡ false
      → first_row test (rows ++ x ∷ []) ≡ first_row test rows
  first_row-append_out test [] x h = rw h refl
  first_row-append_out test (r ∷ rows) x h = ground (arith, first_row-append_out test rows x h)

  pub first_row-append_new :
      (test : A → Bool) (rows : List A) (x : A)
      → exists_row test rows ≡ false
      → test x ≡ true
      → first_row test (rows ++ x ∷ []) ≡ some x
  first_row-append_new test [] x n h = rw h refl
  first_row-append_new test (r ∷ rows) x n h = ground (arith, first_row-append_new test rows x)

  pub exists_row-append_new :
      (test : A → Bool) (rows : List A) (x : A)
      → test x ≡ true
      → exists_row test (rows ++ x ∷ []) ≡ true
  exists_row-append_new test [] x h = rw h refl
  exists_row-append_new test (r ∷ rows) x h = ground (arith, exists_row-append_new test rows x h)

  -- The row that a search found is found again after it was updated in place.
  pub first_row-update :
      (test : A → Bool) (f : A → A)
      → ((x : A) → test (f x) ≡ test x)
      → (rows : List A) {x : A} → first_row test rows ≡ some x
      → first_row test (update_rows test f rows) ≡ some (f x)
  first_row-update test f keeps [] h = absurd (none≢some h)
  first_row-update test f keeps (r ∷ rows) {x} h = elim (Bool-cases (test r)) [
    | inl e ↦
        rw (e, keeps r, e) (ap (λ y. some (f y)) (some_inj (sym (found_here test r rows e) ∙ h)))
    | inr e ↦ rw (e, e) (first_row-update test f keeps rows (sym (found_later test r rows e) ∙ h))
  ]

-- Two lists of one length, related at each place.
abbrev pub Pairwise {ℓ} : {A B : Type ℓ} → (A → B → Type 0) → List A → List B → Type 0
Pairwise R [] [] = Unit
Pairwise R (x ∷ xs) (y ∷ ys) = R x y × Pairwise R xs ys
Pairwise R _ _ = ⊥
