-- ===== src/ChangeLog/Acknowledge.antt =====
-- What an acknowledge changes, what it counts and what it refuses.
use mathlib.Core.Path.{subst}
use entirius_django_atlas.Base.{
  ℕ, suc, ◌+◌, ◌≤◌, ◌==◌, ◌≡◌, true≢false, refl, sym, ap, ◌∙◌, inl, inr, ◌↔◌, Bool, true, false,
  not, ◌&&◌, Option, none, some, List, [], ◌∷◌, ◌++◌, String, ltb, length, where_rows, first_row,
  exists_row, count_rows, update_rows, All, All-map, Bool-cases, is_some, Option-cases, arith,
  ==_iff, ==_refl, update_rows-agree, count_rows-agree, update_rows_of_none, count_rows_of_none,
  append_nil, first_row-agree, count_rows-append, first_row_of_count,
}
use entirius_django_atlas.Base.Outcome.{ok, ok_inj, err≢ok, raise_if-ok, bind-ok}
use entirius_django_atlas.ChangeLog.{
  ChangeRow, ChangeTable, unknown_ids, sku_required, both_modes, no_mode, is_blank, no_ids, mem_key,
  keys_of, some_unknown, acknowledged_at, acknowledge_row, unseen, acknowledge_target, mark_rows,
  with_audit_row, acknowledge,
}

module _ (iexact : String → String → Bool) (sku : String) where
  -- The unseen rows of the SKU, of the given keys if keys are given.
  abbrev pub asked_for : Option (List ℕ) → ChangeRow → Bool
  asked_for none r = unseen iexact sku r
  asked_for (some ids) r = unseen iexact sku r && mem_key r.pk ids

  module _ (p : ChangeRow → Bool) where
    key_found :
        (k : ℕ) (rows : List ChangeRow)
        → mem_key k (keys_of (where_rows p rows)) ≡ exists_row (λ r. p r && (k == r.pk)) rows
    key_found k [] = refl
    key_found k (r ∷ rows) = ground (arith, key_found k rows)

    key_kept :
        (k : ℕ) (r : ChangeRow) (rows : List ChangeRow)
        → mem_key k (keys_of (where_rows p rows)) ≡ true
        → mem_key k (keys_of (where_rows p (r ∷ rows))) ≡ true
    key_kept k r rows h = ground arith

    key_here :
        (r : ChangeRow) (rows : List ChangeRow)
        → p r ≡ true
        → mem_key r.pk (keys_of (where_rows p (r ∷ rows))) ≡ true
    key_here r rows h = ground (arith, ==_refl r.pk)

    keys_complete :
        (rows : List ChangeRow)
        → All (λ r. p r ≡ true → mem_key r.pk (keys_of (where_rows p rows)) ≡ true) rows
    keys_complete [] = tt
    keys_complete (r ∷ rows) =
        let Listed : ChangeRow → List ChangeRow → Type 0 =
          λ q qs. p q ≡ true → mem_key q.pk (keys_of (where_rows p qs)) ≡ true in
        (
          key_here r rows,
          All-map {P = λ q. Listed q rows} {Q = λ q. Listed q (r ∷ rows)}
              (λ q h e. key_kept q.pk r rows (h e)) rows (keys_complete rows),
        )

  mem_eq : (j k : ℕ) (ids : List ℕ) → (j == k) ≡ true → mem_key k ids ≡ mem_key j ids
  mem_eq j k ids h = ap (λ i. mem_key i ids) (sym ((==_iff j k).0 h))

  keys_sound :
      (ids : List ℕ) (k : ℕ) (rows : List ChangeRow)
      → mem_key k (keys_of (where_rows (asked_for (some ids)) rows)) ≡ true
      → mem_key k ids ≡ true
  keys_sound ids k [] h = cc
  keys_sound ids k (r ∷ rows) h = ground (arith, mem_eq k r.pk ids, keys_sound ids k rows)

  -- The rows that the update is run on are the rows that were asked for.
  target_agrees :
      (ids : List ℕ) (rows : List ChangeRow)
      → All
          (λ r.
            (unseen iexact sku r && mem_key r.pk (keys_of (where_rows (asked_for (some ids)) rows)))
            ≡ asked_for (some ids) r)
          rows
  target_agrees ids rows =
      let Listed : ChangeRow → Type 0 = λ q.
        asked_for (some ids) q ≡ true
        → mem_key q.pk (keys_of (where_rows (asked_for (some ids)) rows)) ≡ true in
      let Agrees : ChangeRow → Type 0 = λ r.
        (unseen iexact sku r && mem_key r.pk (keys_of (where_rows (asked_for (some ids)) rows)))
        ≡ asked_for (some ids) r in
      All-map {P = Listed} {Q = Agrees} (λ r h. ground (arith, h, keys_sound ids r.pk rows)) rows
        (keys_complete (asked_for (some ids)) rows)

  -- An update of unseen rows lowers the number of unseen rows by the number of updated rows.
  unseen_update :
      (now : ℕ) (ids : Option (List ℕ)) (rows : List ChangeRow)
      → count_rows (unseen iexact sku) (update_rows (asked_for ids) (acknowledged_at now) rows)
          + count_rows (asked_for ids) rows
        ≡ count_rows (unseen iexact sku) rows
  unseen_update now ids [] = refl
  unseen_update now none (r ∷ rows) = ground (arith, unseen_update now none rows)
  unseen_update now (some ids) (r ∷ rows) = ground (arith, unseen_update now (some ids) rows)

  -- What `mark_rows` returns, for a test that agrees with the rows asked for.
  abbrev pub Marked : ℕ → Option (List ℕ) → ChangeTable → ℕ → ChangeTable → Type 0
  Marked now ids t n t' =
      (added : List ChangeRow) × (t'.rows
        ≡ update_rows (asked_for ids) (acknowledged_at now) t.rows ++ added)
      × (length added ≤ 1)
      × All (λ r. r.applied_to_pim ≡ true) added
      × (n ≡ count_rows (asked_for ids) t.rows)
      × (count_rows (unseen iexact sku) t'.rows + n ≡ count_rows (unseen iexact sku) t.rows)

  no_unseen :
      (added : List ChangeRow)
      → All (λ r. r.applied_to_pim ≡ true) added
      → count_rows (unseen iexact sku) added ≡ 0
  no_unseen [] h = refl
  no_unseen (r ∷ added) h = ground (arith, h.0, no_unseen added h.1)

  -- The parts of the count, put together.
  counted :
      (now : ℕ) (ids : Option (List ℕ)) (t t' : ChangeTable) (added : List ChangeRow)
      → t'.rows ≡ update_rows (asked_for ids) (acknowledged_at now) t.rows ++ added
      → length added ≤ 1
      → All (λ r. r.applied_to_pim ≡ true) added
      → Marked now ids t (count_rows (asked_for ids) t.rows) t'
  counted now ids t t' added e few seen =
      let total : count_rows (unseen iexact sku) t'.rows + count_rows (asked_for ids) t.rows
          ≡ count_rows (unseen iexact sku) t.rows =
        rw e (
          omega (
            arith,
            count_rows-append (unseen iexact sku)
                (update_rows (asked_for ids) (acknowledged_at now) t.rows) added,
            no_unseen added seen,
            unseen_update now ids t.rows,
          )) in
      (added, e, few, seen, refl, total)

  module _ (now : ℕ) (ids : Option (List ℕ)) (t : ChangeTable) where
    unmarked : first_row (asked_for ids) t.rows ≡ none → Marked now ids t 0 t
    unmarked e =
        let zero_of : count_rows (asked_for ids) t.rows ≡ 0 =
          count_rows_of_none (asked_for ids) t.rows e in
        let same : t.rows ≡ update_rows (asked_for ids) (acknowledged_at now) t.rows ++ [] = sym (
          append_nil (update_rows (asked_for ids) (acknowledged_at now) t.rows)
          ∙ update_rows_of_none (asked_for ids) (acknowledged_at now) t.rows e) in
        subst (λ n. Marked now ids t n t) zero_of (counted now ids t t [] same (omega arith) tt)

    mark_asked :
        (audit_fails : Bool)
        → Marked now ids t
            (mark_rows iexact audit_fails now sku (asked_for ids) t).0
            (mark_rows iexact audit_fails now sku (asked_for ids) t).1
    unfolding mark_rows
    mark_asked audit_fails = elim (Option-cases (first_row (asked_for ids) t.rows)) [
      | inl e ↦ rw (mark_rows, e) (unmarked e)
      | inr (r, e) ↦
          elim (Bool-cases (ltb 0 (count_rows (asked_for ids) t.rows) && not audit_fails)) [
            | inl b ↦
                rw (mark_rows, e, b)
                  (counted now ids t
                    (record {
                      rows =
                          update_rows (asked_for ids) (acknowledged_at now) t.rows
                          ++ acknowledge_row t.next_pk now r.source_product sku ∷ [];
                      next_pk = suc t.next_pk;
                    })
                    (acknowledge_row t.next_pk now r.source_product sku ∷ []) refl (omega arith)
                    (refl, tt))
            | inr b ↦
                rw (mark_rows, e, b)
                  (counted now ids t
                    (record t { rows = update_rows (asked_for ids) (acknowledged_at now) t.rows })
                    [] (sym (append_nil (update_rows (asked_for ids) (acknowledged_at now) t.rows)))
                    (omega arith) tt)
          ]
    ]

  mark_rows-agree :
      (audit_fails : Bool) (now : ℕ) (p q : ChangeRow → Bool) (t : ChangeTable)
      → All (λ r. p r ≡ q r) t.rows
      → mark_rows iexact audit_fails now sku p t ≡ mark_rows iexact audit_fails now sku q t
  unfolding mark_rows
  mark_rows-agree audit_fails now p q t h =
      let found = first_row-agree p q t.rows h in
      let updated = count_rows-agree p q t.rows h in
      let rows = update_rows-agree p q (acknowledged_at now) t.rows h in
      λ i. with_audit_row audit_fails now sku (found i) (updated i) (rows i) t

  -- A target that `acknowledge_target` returns marks what was asked for.
  target-Marked :
      (audit_fails : Bool) (now : ℕ) (ids : Option (List ℕ)) (t : ChangeTable)
      {target : ChangeRow → Bool}
      → acknowledge_target iexact sku ids t.rows ≡ ok target
      → mark_rows iexact audit_fails now sku target t
        ≡ mark_rows iexact audit_fails now sku (asked_for ids) t
  unfolding acknowledge_target
  target-Marked audit_fails now none t h =
      ap (λ q. mark_rows iexact audit_fails now sku q t) (sym (ok_inj h))
  target-Marked audit_fails now (some ids) t h =
      let target' : ChangeRow → Bool = λ r.
        unseen iexact sku r && mem_key r.pk (keys_of (where_rows (asked_for (some ids)) t.rows)) in
      elim (Bool-cases (some_unknown ids (keys_of (where_rows (asked_for (some ids)) t.rows)))) [
        | inl u ↦ absurd (err≢ok {e = unknown_ids} (rw (acknowledge_target, u) at h))
        | inr u ↦
            ap (λ q. mark_rows iexact audit_fails now sku q t)
              (sym (ok_inj (rw (acknowledge_target, u) at h)))
            ∙ mark_rows-agree audit_fails now target' (asked_for (some ids)) t
                (target_agrees ids t.rows)
      ]

  -- What an acknowledge that returned `n` did: exactly the rows that were asked for are marked, `n` is
  -- their number and by `n` the unseen rows of the SKU are fewer; at most one audit row is appended,
  -- which counts as seen.
  pub acknowledge_lem :
      (audit_fails : Bool) (now : ℕ) (ids : Option (List ℕ)) (all_unseen : Bool) (t : ChangeTable)
      {n : ℕ} {t' : ChangeTable}
      → acknowledge iexact audit_fails now sku ids all_unseen t ≡ ok (n, t')
      → Marked now ids t n t'
  unfolding acknowledge
  acknowledge_lem audit_fails now ids all_unseen t {n} {t'} h =
      let (_, h1) = raise_if-ok (is_blank sku) sku_required h in
      let (_, h2) = raise_if-ok (is_some ids && all_unseen) both_modes h1 in
      let (_, h3) = raise_if-ok (no_ids ids && not all_unseen) no_mode h2 in
      let (target, found, h4) = bind-ok (acknowledge_target iexact sku ids t.rows) h3 in
      let result : mark_rows iexact audit_fails now sku (asked_for ids) t ≡ (n, t') =
        sym (target-Marked audit_fails now ids t found) ∙ ok_inj h4 in
      subst (λ r. Marked now ids t r.0 r.1) result (mark_asked now ids t audit_fails)

  pub all-Marked :
      (now : ℕ) (t t' : ChangeTable) {n : ℕ}
      → Marked now none t n t'
      → count_rows (unseen iexact sku) t'.rows ≡ 0
  all-Marked now t t' {n} m = omega (arith, m)

  -- A call for all unseen rows, on a table without one.
  pub nothing_to_mark :
      (audit_fails : Bool) (now : ℕ) (t : ChangeTable)
      → is_blank sku ≡ false
      → count_rows (unseen iexact sku) t.rows ≡ 0
      → acknowledge iexact audit_fails now sku none true t ≡ ok (0, t)
  unfolding acknowledge acknowledge_target mark_rows
  nothing_to_mark audit_fails now t e z =
      rw (acknowledge, e, mark_rows, first_row_of_count (unseen iexact sku) t.rows z) refl

  pub blank_refused :
      (audit_fails : Bool) (now : ℕ) (ids : Option (List ℕ)) (all_unseen : Bool) (t : ChangeTable)
      {r : ℕ × ChangeTable}
      → acknowledge iexact audit_fails now sku ids all_unseen t ≡ ok r
      → is_blank sku ≡ false
  unfolding acknowledge
  blank_refused audit_fails now ids all_unseen t h = (raise_if-ok (is_blank sku) sku_required h).0

  -- Exactly one mode is asked for, and every given key is that of an unseen row of the SKU.
  abbrev pub IsAnswerable : Option (List ℕ) → Bool → List ChangeRow → Type 0
  IsAnswerable none all_unseen rows = all_unseen ≡ true
  IsAnswerable (some []) all_unseen rows = true ≡ false
  IsAnswerable (some (k ∷ ids)) all_unseen rows =
      (all_unseen ≡ false)
      × All (λ i. exists_row (λ r. unseen iexact sku r && (i == r.pk)) rows ≡ true) (k ∷ ids)

  key_unseen :
      (k : ℕ) (all : List ℕ) (rows : List ChangeRow)
      → mem_key k all ≡ true
      → exists_row (λ r. asked_for (some all) r && (k == r.pk)) rows
        ≡ exists_row (λ r. unseen iexact sku r && (k == r.pk)) rows
  key_unseen k all [] m = refl
  key_unseen k all (r ∷ rows) m = ground (arith, mem_eq k r.pk all, key_unseen k all rows m)

  All-known :
      (ids all : List ℕ) (rows : List ChangeRow)
      → All (λ i. mem_key i all ≡ true) ids
      → (some_unknown ids (keys_of (where_rows (asked_for (some all)) rows)) ≡ false)
        ↔ All (λ i. exists_row (λ r. unseen iexact sku r && (i == r.pk)) rows ≡ true) ids
  All-known [] all rows m = (λ _. tt, λ _. refl)
  All-known (k ∷ ids) all rows m = ground (
    arith,
    key_found (asked_for (some all)) k rows,
    key_unseen k all rows m.0,
    All-known ids all rows m.1,
  )

  All-of_self : (ids : List ℕ) → All (λ i. mem_key i ids ≡ true) ids
  All-of_self [] = tt
  All-of_self (k ∷ ids) = (
    ground (arith, ==_refl k),
    All-map {P = λ i. mem_key i ids ≡ true} {Q = λ i. mem_key i (k ∷ ids) ≡ true}
        (λ i h. ground (arith, h)) ids (All-of_self ids),
  )

  -- A call returns exactly if the SKU is not blank, one mode is asked for and each key is that of an
  -- unseen row of the SKU; else it raises, and no row is changed.
  pub acknowledge_accepts :
      (audit_fails : Bool) (now : ℕ) (ids : Option (List ℕ)) (all_unseen : Bool) (t : ChangeTable)
      → ((r : ℕ × ChangeTable) × (acknowledge iexact audit_fails now sku ids all_unseen t ≡ ok r))
        ↔ ((is_blank sku ≡ false) × IsAnswerable ids all_unseen t.rows)
  unfolding acknowledge acknowledge_target
  acknowledge_accepts audit_fails now none all_unseen t = (
    λ (r, h).
        let (e, h1) = raise_if-ok (is_blank sku) sku_required h in
        let (_, h2) = raise_if-ok false both_modes h1 in
        let (m, _) = raise_if-ok (not all_unseen) no_mode h2 in (e, ground (arith, m)),
    λ (e, a).
        rw (acknowledge, e, a) (mark_rows iexact audit_fails now sku (unseen iexact sku) t, refl),
  )
  acknowledge_accepts audit_fails now (some []) all_unseen t = (
    λ (r, h).
        let (e, h1) = raise_if-ok (is_blank sku) sku_required h in
        let (b, h2) = raise_if-ok all_unseen both_modes h1 in
        let (m, _) = raise_if-ok (not all_unseen) no_mode h2 in (e, ground (arith, m, b)),
    λ (e, a). absurd (true≢false a),
  )
  acknowledge_accepts audit_fails now (some (k ∷ ids)) all_unseen t =
      let all = k ∷ ids in
      let valid_ids = keys_of (where_rows (asked_for (some all)) t.rows) in
      let known = All-known all all t.rows (All-of_self all) in
      let target : ChangeRow → Bool = λ r. unseen iexact sku r && mem_key r.pk valid_ids in
      (
        λ (r, h).
            let (e, h1) = raise_if-ok (is_blank sku) sku_required h in
            let (b, h2) = raise_if-ok all_unseen both_modes h1 in
            let (_, h3) = raise_if-ok false no_mode h2 in
            let (q, h4, _) = bind-ok (acknowledge_target iexact sku (some all) t.rows) h3 in
            let (u, _) = raise_if-ok (some_unknown all valid_ids) unknown_ids h4 in
            (e, (b, known.0 u)),
        λ (e, (b, a)).
            rw (acknowledge, e, b, known.1 a) (mark_rows iexact audit_fails now sku target t, refl),
      )
