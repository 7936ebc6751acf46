-- ===== src/Push/Approved.antt =====
-- The push of all approved products of a source.
use entirius_django_atlas.Base.{ℕ, ◌+◌, ◌≡◌, ◌⊎◌, Bool, true, false, Option}
use entirius_django_atlas.Base.Outcome.{Result, ok, err}
use entirius_django_atlas.Store.{Faults}
use entirius_django_atlas.Pim.{Catalogue, Runtime}
use entirius_django_atlas.Push.{PushCounts, BatchError, event_not_recorded}

module _ (pim : Catalogue) (run : Runtime) (faults : Faults) (user : Option ℕ) (now : ℕ)
    (suppressed : Bool) where
  -- How a batch over `n` products ends: with `n` of them counted, or, if events cannot be recorded,
  -- at the first failure.
  abbrev pub Counts : ℕ → Result BatchError PushCounts → Type 0
  Counts n (ok c) = (c.success + c.failed ≡ n) × ((faults.event_fails ≡ false) ⊎ (c.failed ≡ 0))
  Counts n (err e) = (faults.event_fails ≡ true) × (e ≡ event_not_recorded)
