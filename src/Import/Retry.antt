-- ===== src/Import/Retry.antt =====
-- The batches of `_batched` and the loop of `_run_batch_with_retry`.
use entirius_django_atlas.Base.{
  ℕ, zero, suc, ◌≤◌, ◌<◌, ◌≡◌, refl, sym, ap, ◌∙◌, Bool, true, false, Option, some, List, [], ◌∷◌,
  ◌++◌, ◌⊎◌, All, length, take, drop, take-append-drop, length-take, length-drop, arith,
}
use entirius_django_atlas.Base.Outcome.{Result, ok, err}
use entirius_django_atlas.Import.{batched, batched_from, chunk_then, gives_up}

abbrev pub concat {ℓ} : {A : Type ℓ} → List (List A) → List A
concat [] = []
concat (xs ∷ rest) = xs ++ concat rest

module _ {ℓ} {A : Type ℓ} where
  abbrev pub FitsIn : ℕ → List A → Type 0
  FitsIn size chunk = (1 ≤ length chunk) × (length chunk ≤ size)

  chunk_then-concat :
      (chunk tail : List A) (rest : List (List A))
      → (length chunk ≡ 0 → tail ≡ [])
      → concat rest ≡ tail
      → concat (chunk_then chunk rest) ≡ chunk ++ tail
  chunk_then-concat [] tail rest h e = sym (h refl)
  chunk_then-concat (x ∷ xs) tail rest h e = ap ((x ∷ xs) ++◌) e

  chunk_then-FitsIn :
      (size : ℕ) (chunk : List A) (rest : List (List A))
      → length chunk ≤ size
      → All (FitsIn size) rest
      → All (FitsIn size) (chunk_then chunk rest)
  chunk_then-FitsIn size [] rest h a = tt
  chunk_then-FitsIn size (x ∷ xs) rest h a = ((omega arith, h), a)

  nothing_left :
      (size : ℕ) (items : List A) → 0 < size → length (take size items) ≡ 0 → drop size items ≡ []
  nothing_left zero items pos h = ground arith
  nothing_left (suc n) [] pos h = refl
  nothing_left (suc n) (x ∷ xs) pos h = ground arith

  batched_from_lem :
      (fuel size : ℕ) (items : List A)
      → 0 < size
      → length items ≤ fuel
      → (concat (batched_from fuel size items) ≡ items)
        × All (FitsIn size) (batched_from fuel size items)
  unfolding batched_from
  batched_from_lem zero size [] pos h = (refl, tt)
  batched_from_lem zero size (x ∷ xs) pos h = ground arith
  batched_from_lem (suc fuel) size items pos h =
      let rest =
        batched_from_lem fuel size (drop size items) pos (omega (arith, length-drop size items)) in
      (
        chunk_then-concat (take size items) (drop size items) _ (nothing_left size items pos) rest.0
            ∙ take-append-drop size items,
        chunk_then-FitsIn size (take size items) _ (length-take size items) rest.1,
      )

  -- For a positive size, the batches of `_batched` are the items in their order, and every batch
  -- has between one and `size` of them.
  pub batched_lem :
      (size : ℕ) (items : List A)
      → 0 < size
      → (concat (batched size items) ≡ items) × All (FitsIn size) (batched size items)
  unfolding batched
  batched_lem size items pos = batched_from_lem (length items) size items pos (omega arith)

module _ {E A S : Type 0} (fn : ℕ → S → Result E A × S) (should_retry : E → ℕ → Bool) where
  -- Attempt `n` raised something that is to be tried again.
  abbrev pub Retried : S → ℕ → Type 0
  Retried s n = (e : E) × ((fn n s).0 ≡ err e) × (gives_up fn should_retry n e ≡ false)

  -- What the last attempt gave the caller.
  abbrev pub EndsWith : S → ℕ → Result E A × S → Type 0
  EndsWith s n out =
      ((a : A) × ((fn n s).0 ≡ ok a) × (out ≡ (ok a, (fn n s).1)))
      ⊎ ((e : E) × ((fn n s).0 ≡ err e)
          × (out ≡ (err e, s))
          × (gives_up fn should_retry n e ≡ true))

  -- The attempts after `attempt`, up to the one that ends the loop.
  abbrev pub Attempts : ℕ → ℕ → S → Option (Result E A × S) → Type 0
  Attempts attempt last s result =
      (n : ℕ) × (out : Result E A × S) × (result ≡ some out)
      × (attempt < n)
      × (n ≤ last)
      × ((k : ℕ) → attempt < k → k < n → Retried s k)
      × EndsWith s n out
