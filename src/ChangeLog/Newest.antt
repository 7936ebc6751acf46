-- ===== src/ChangeLog/Newest.antt =====
-- The order and the bounds of the timeline, and what it shows after an acknowledge.
use mathlib.Core.Path.{subst}
use mathlib.Core.List.{Permᴰ}
use mathlib.Core.List.Permᴰ
use entirius_django_atlas.Base.{
  ℕ, zero, suc, ◌≤◌, ◌<◌, ◌⊎◌, ◌↔◌, ◌++◌, some, drop, true≢false, str_eq_iff, ◌≡◌, refl, sym, ap,
  ◌∙◌, inl, inr, Bool, true, false, not, ◌&&◌, Option, none, List, [], ◌∷◌, String, is_some, length,
  where_rows, exists_row, All-map, count_rows, take, All, Bool-cases, arith, length-take,
}
use entirius_django_atlas.Base.Outcome.{ok, ok_inj, raise_if-ok}
use entirius_django_atlas.Model.{SourceProductLink}
use entirius_django_atlas.ChangeLog.{
  ChangeRow, ChangeTable, Timeline, is_blank, of_sku, unseen, acknowledge, later, insert_change,
  newest_first, active_link, max_timeline, selected, mem_text, passes_since, passes_sources, all_in,
  given_sources, change_log_sources, list_for_sku, sku_required, sku_not_found, unknown_source,
}
use entirius_django_atlas.ChangeLog.Acknowledge.{
  acknowledge_lem, all-Marked, nothing_to_mark, blank_refused,
}

-- A change is not newer than another: by its time, and by its key at the same time.
abbrev pub IsNotAfter : ChangeRow → ChangeRow → Type 0
IsNotAfter q r = (q.created_at < r.created_at) ⊎ ((q.created_at ≡ r.created_at) × (q.pk ≤ r.pk))

abbrev pub IsNewestFirst : List ChangeRow → Type 0
IsNewestFirst [] = Unit
IsNewestFirst (r ∷ rows) = All (λ q. IsNotAfter q r) rows × IsNewestFirst rows

not_after : (q r : ChangeRow) → later q r ≡ false → IsNotAfter q r
not_after q r h = ground (arith, h)

module _ (iexact : String → String → Bool) (sku : String) where
  -- After an acknowledge of all unseen changes of a SKU returned, a second one returns zero and
  -- changes nothing, and a timeline of the SKU has no unseen change; neither depends on whether the
  -- audit rows could be written.
  pub acknowledge_settles :
      (fails fails' : Bool) (now now' : ℕ) (t : ChangeTable) {n : ℕ} {t' : ChangeTable}
      (links : List SourceProductLink) (since : Option ℕ) (sources : Option (List String))
      (unseen_only : Bool) {timeline : Timeline}
      → acknowledge iexact fails now sku none true t ≡ ok (n, t')
      → list_for_sku iexact links sku since sources unseen_only t'.rows ≡ ok timeline
      → (acknowledge iexact fails' now' sku none true t' ≡ ok (0, t')) × (timeline.unseen_count ≡ 0)
  unfolding list_for_sku
  acknowledge_settles fails fails' now now' t {n} {t'} links since sources unseen_only h g =
      let cleared : count_rows (unseen iexact sku) t'.rows ≡ 0 =
        all-Marked iexact sku now t t' {n = n}
          (acknowledge_lem iexact sku fails now none true t h) in
      let (_, g1) = raise_if-ok (is_blank sku) sku_required g in
      let (_, g2) =
        raise_if-ok
          (not (is_some (active_link iexact sku links))
            && not (exists_row (of_sku iexact sku) t'.rows))
          sku_not_found g1 in
      let (_, g3) =
        raise_if-ok (not (all_in (given_sources sources) change_log_sources)) unknown_source g2 in
      (
        nothing_to_mark iexact sku fails' now' t' (blank_refused iexact sku fails now none true t h)
            cleared,
        sym (ap (λ (x : Timeline). x.unseen_count) (ok_inj g3)) ∙ cleared,
      )

module _ {κ} (P : ChangeRow → Type κ) where
  All-insert :
      (r : ChangeRow) (rows : List ChangeRow) → P r → All P rows → All P (insert_change r rows)
  unfolding insert_change
  All-insert r [] p h = (p, tt)
  All-insert r (q ∷ rows) p h = elim (Bool-cases (later r q)) [
    | inl e ↦ rw (insert_change, e) (p, h)
    | inr e ↦ rw (insert_change, e) (h.0, All-insert r rows p h.1)
  ]

  All-newest_first : (rows : List ChangeRow) → All P rows → All P (newest_first rows)
  unfolding newest_first
  All-newest_first [] h = tt
  All-newest_first (r ∷ rows) h = All-insert r (newest_first rows) h.0 (All-newest_first rows h.1)

IsNotAfter-latest : (r q : ChangeRow) → later r q ≡ true → IsNotAfter q r
IsNotAfter-latest r q h = ground (arith, h)

IsNotAfter-trans : (r q x : ChangeRow) → IsNotAfter x q → IsNotAfter q r → IsNotAfter x r
IsNotAfter-trans r q x h g = ground (arith, h, g)

insert-IsNewestFirst :
    (r : ChangeRow) (rows : List ChangeRow)
    → IsNewestFirst rows
    → IsNewestFirst (insert_change r rows)
unfolding insert_change
insert-IsNewestFirst r [] h = (tt, tt)
insert-IsNewestFirst r (q ∷ rows) h = elim (Bool-cases (later r q)) [
  | inl e ↦
      let newer = IsNotAfter-latest r q e in
      rw (insert_change, e)
        (
          (
            newer,
            All-map {P = λ x. IsNotAfter x q} {Q = λ x. IsNotAfter x r}
                (λ x g. IsNotAfter-trans r q x g newer) rows h.0,
          ),
          h,
        )
  | inr e ↦
      rw (insert_change, e)
        (
          All-insert (λ x. IsNotAfter x q) r rows (not_after r q e) h.0,
          insert-IsNewestFirst r rows h.1,
        )
]

newest_first-IsNewestFirst : (rows : List ChangeRow) → IsNewestFirst (newest_first rows)
unfolding newest_first
newest_first-IsNewestFirst [] = tt
newest_first-IsNewestFirst (r ∷ rows) =
    insert-IsNewestFirst r (newest_first rows) (newest_first-IsNewestFirst rows)

insert-Perm : (r : ChangeRow) (rows : List ChangeRow) → Permᴰ (insert_change r rows) (r ∷ rows)
unfolding insert_change
insert-Perm r [] = Permᴰ.refl (r ∷ [])
insert-Perm r (q ∷ rows) = elim (Bool-cases (later r q)) [
  | inl e ↦ rw (insert_change, e) (Permᴰ.refl (r ∷ q ∷ rows))
  | inr e ↦
      rw (insert_change, e)
        (Permᴰ.trans (Permᴰ.cons refl (insert-Perm r rows)) (Permᴰ.swap refl refl))
]

newest_first-Perm : (rows : List ChangeRow) → Permᴰ (newest_first rows) rows
unfolding newest_first
newest_first-Perm [] = Permᴰ.nil
newest_first-Perm (r ∷ rows) =
    Permᴰ.trans (insert-Perm r (newest_first rows)) (Permᴰ.cons refl (newest_first-Perm rows))

take-append-drop : {A : Type 0} (n : ℕ) (xs : List A) → take n xs ++ drop n xs ≡ xs
take-append-drop zero xs = refl
take-append-drop (suc n) [] = refl
take-append-drop (suc n) (x ∷ xs) = ap (λ ys. x ∷ ys) (take-append-drop n xs)

all_taken : {A : Type 0} (n : ℕ) (xs : List A) → (drop n xs ≡ []) ⊎ (length (take n xs) ≡ n)
all_taken zero xs = inr refl
all_taken (suc n) [] = inl refl
all_taken (suc n) (x ∷ xs) = elim (all_taken n xs) [ inl h ↦ inl h | inr h ↦ inr (ap suc h) ]

-- The filters of a request, one by one; no sources and an empty list of them are no filter.
abbrev pub IsSince : Option ℕ → ChangeRow → Type 0
IsSince none r = Unit
IsSince (some since) r = since ≤ r.created_at

abbrev pub IsAmong : List String → String → Type 0
IsAmong [] s = ⊥
IsAmong (t ∷ ts) s = (s ≡ t) ⊎ IsAmong ts s

abbrev pub IsFrom : Option (List String) → ChangeRow → Type 0
IsFrom none r = Unit
IsFrom (some []) r = Unit
IsFrom (some (s ∷ ss)) r = IsAmong (s ∷ ss) r.source

mem_text_iff : (s : String) (ts : List String) → (mem_text s ts ≡ true) ↔ IsAmong ts s
mem_text_iff s [] = (λ h. absurd (true≢false (sym h)), λ h. absurd h)
mem_text_iff s (t ∷ ts) = ground (arith, str_eq_iff s t, mem_text_iff s ts)

passes_since_iff :
    (since : Option ℕ) (r : ChangeRow) → (passes_since since r ≡ true) ↔ IsSince since r
passes_since_iff none r = (λ h. tt, λ h. refl)
passes_since_iff (some since) r = ground arith

passes_sources_iff :
    (sources : Option (List String)) (r : ChangeRow)
    → (passes_sources sources r ≡ true) ↔ IsFrom sources r
passes_sources_iff none r = (λ h. tt, λ h. refl)
passes_sources_iff (some []) r = (λ h. tt, λ h. refl)
passes_sources_iff (some (s ∷ ss)) r = mem_text_iff r.source (s ∷ ss)

module _ (iexact : String → String → Bool) (sku : String) (since : Option ℕ)
    (sources : Option (List String)) (unseen_only : Bool) where
  -- A change that the request asks for.
  abbrev pub IsWanted : ChangeRow → Type 0
  IsWanted r =
      (iexact r.real_product_sku sku ≡ true)
      × IsSince since r
      × IsFrom sources r
      × ((unseen_only ≡ false) ⊎ (r.applied_to_pim ≡ false))

  selected_iff :
      (r : ChangeRow) → (selected iexact sku since sources unseen_only r ≡ true) ↔ IsWanted r
  selected_iff r = (
    λ h. (
      ground (arith, h),
      (passes_since_iff since r).0 (ground (arith, h)),
      (passes_sources_iff sources r).0 (ground (arith, h)),
      ground (arith, h),
    ),
    λ (a, b, c, d).
        let b' = (passes_since_iff since r).1 b in
        let c' = (passes_sources_iff sources r).1 c in ground (arith, a, b', c', d),
  )

  -- The changes of a timeline and those that are cut off are together the changes that the request
  -- asks for, in another order: newest first, by the key at the same time. At most a hundred are
  -- returned, and some are cut off only after a hundred.
  pub list_for_sku_lem :
      (links : List SourceProductLink) (rows : List ChangeRow) {timeline : Timeline}
      → list_for_sku iexact links sku since sources unseen_only rows ≡ ok timeline
      → ((r : ChangeRow) → (selected iexact sku since sources unseen_only r ≡ true) ↔ IsWanted r)
        × (rest : List ChangeRow) × Permᴰ
            (timeline.changes ++ rest)
            (where_rows (selected iexact sku since sources unseen_only) rows)
        × IsNewestFirst (timeline.changes ++ rest)
        × (length timeline.changes ≤ 100)
        × ((rest ≡ []) ⊎ (length timeline.changes ≡ 100))
  unfolding list_for_sku
  list_for_sku_lem links rows {timeline} h =
      let shown = selected iexact sku since sources unseen_only in
      let sorted : List ChangeRow = newest_first (where_rows shown rows) in
      let rest : List ChangeRow = drop max_timeline sorted in
      let IsRight : Timeline → Type 0 = λ x.
        Permᴰ (x.changes ++ rest) (where_rows shown rows)
        × IsNewestFirst (x.changes ++ rest)
        × (length x.changes ≤ 100)
        × ((rest ≡ []) ⊎ (length x.changes ≡ 100)) in
      let (_, h1) = raise_if-ok (is_blank sku) sku_required h in
      let (_, h2) =
        raise_if-ok
          (not (is_some (active_link iexact sku links))
            && not (exists_row (of_sku iexact sku) rows))
          sku_not_found h1 in
      let (_, h3) =
        raise_if-ok (not (all_in (given_sources sources) change_log_sources)) unknown_source h2 in
      let whole = sym (take-append-drop max_timeline sorted) in
      let right : IsRight timeline = subst IsRight (ok_inj h3) (
        subst (λ xs. Permᴰ xs (where_rows shown rows)) whole
            (newest_first-Perm (where_rows shown rows)),
        subst IsNewestFirst whole (newest_first-IsNewestFirst (where_rows shown rows)),
        length-take max_timeline sorted,
        all_taken max_timeline sorted,
      ) in
      (selected_iff, rest, right.0, right.1, right.2, right.3)
