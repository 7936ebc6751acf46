-- ===== src/Mapping/Disjoint.antt =====
-- The active mapping profiles of a source have disjoint channels.
use mathlib.Core.Path.{subst}
use entirius_django_atlas.Base.{
  ◌≡◌, refl, sym, ◌∙◌, Bool, true, false, not, ◌&&◌, ◌||◌, String, List, [], ◌∷◌, ◌++◌,
  if◌then◌else◌, str_eq, str_eq→eq, str_eq_refl, str_eq_sym, where_rows, update_rows, All, arith,
  inl, inr, Bool-cases,
}
use entirius_django_atlas.Mapping.{SourceMappingProfile, is_profile, overlap, has_channel}

abbrev pub same_profile : SourceMappingProfile → SourceMappingProfile → Bool
same_profile p q = is_profile p.source_idx p.idx q

-- Two active profiles of one source, with a channel in common.
abbrev pub clash : SourceMappingProfile → SourceMappingProfile → Bool
clash p q =
    str_eq q.source_idx p.source_idx
    && (p.is_active && q.is_active)
    && overlap q.target_channel_idxs p.target_channel_idxs

-- The two may stand in one table.
abbrev pub apart : SourceMappingProfile → SourceMappingProfile → Bool
apart p q = not (same_profile p q) && not (clash p q)

abbrev pub IsDisjoint : List SourceMappingProfile → Type 0
IsDisjoint [] = Unit
IsDisjoint (p ∷ rest) = All (λ q. apart p q ≡ true) rest × IsDisjoint rest

overlap_cons :
    (x : String) (xs ys : List String) → overlap ys (x ∷ xs) ≡ (has_channel ys x || overlap ys xs)
overlap_cons x xs [] = refl
overlap_cons x xs (y ∷ ys) = ground (arith, overlap_cons x xs ys, str_eq_sym x y)

overlap_nil : (ys : List String) → overlap ys [] ≡ false
overlap_nil [] = refl
overlap_nil (y ∷ ys) = overlap_nil ys

overlap_sym : (xs ys : List String) → overlap xs ys ≡ overlap ys xs
overlap_sym [] ys = sym (overlap_nil ys)
overlap_sym (x ∷ xs) ys = rw (overlap_cons x xs ys, overlap_sym xs ys) refl

pub apart_sym : (p q : SourceMappingProfile) → apart p q ≡ apart q p
apart_sym p q = ground (
  arith,
  str_eq_sym p.source_idx q.source_idx,
  str_eq_sym p.idx q.idx,
  overlap_sym p.target_channel_idxs q.target_channel_idxs,
)

pub append-IsDisjoint :
    (rows : List SourceMappingProfile) (p : SourceMappingProfile)
    → All (λ r. apart r p ≡ true) rows
    → IsDisjoint rows
    → IsDisjoint (rows ++ p ∷ [])
append-IsDisjoint [] p a d = (tt, tt)
append-IsDisjoint (r ∷ rows) p a d = (append_All r rows p d.0 a.0, append-IsDisjoint rows p a.1 d.1)
  where
    append_All :
        (r : SourceMappingProfile) (rows : List SourceMappingProfile) (p : SourceMappingProfile)
        → All (λ q. apart r q ≡ true) rows
        → apart r p ≡ true
        → All (λ q. apart r q ≡ true) (rows ++ p ∷ [])
    append_All r [] p a h = (h, tt)
    append_All r (q ∷ rows) p a h = (a.0, append_All r rows p a.1 h)

where_rows-All :
    (test : SourceMappingProfile → Bool) (p : SourceMappingProfile)
    (rows : List SourceMappingProfile)
    → All (λ q. apart p q ≡ true) rows
    → All (λ q. apart p q ≡ true) (where_rows test rows)
where_rows-All test p [] a = tt
where_rows-All test p (r ∷ rows) a = elim (Bool-cases (test r)) [
  | inl e ↦ subst (All (λ q. apart p q ≡ true)) (sym (kept e)) (a.0, where_rows-All test p rows a.1)
  | inr e ↦ subst (All (λ q. apart p q ≡ true)) (sym (dropped e)) (where_rows-All test p rows a.1)
]
  where
    kept : test r ≡ true → where_rows test (r ∷ rows) ≡ r ∷ where_rows test rows
    kept e = rw e refl

    dropped : test r ≡ false → where_rows test (r ∷ rows) ≡ where_rows test rows
    dropped e = rw e refl

pub where_rows-IsDisjoint :
    (test : SourceMappingProfile → Bool) (rows : List SourceMappingProfile)
    → IsDisjoint rows
    → IsDisjoint (where_rows test rows)
where_rows-IsDisjoint test [] d = tt
where_rows-IsDisjoint test (r ∷ rows) d = elim (Bool-cases (test r)) [
  | inl e ↦
      subst IsDisjoint (sym (kept e))
        (where_rows-All test r rows d.0, where_rows-IsDisjoint test rows d.1)
  | inr e ↦ subst IsDisjoint (sym (dropped e)) (where_rows-IsDisjoint test rows d.1)
]
  where
    kept : test r ≡ true → where_rows test (r ∷ rows) ≡ r ∷ where_rows test rows
    kept e = rw e refl

    dropped : test r ≡ false → where_rows test (r ∷ rows) ≡ where_rows test rows
    dropped e = rw e refl

-- `new` may stand beside every row of the table but the one of its own key.
abbrev pub FitsAmong : SourceMappingProfile → List SourceMappingProfile → Type 0
FitsAmong new = All (λ r. (same_profile new r || apart new r) ≡ true)

-- A row that was apart from the old profile of a key and has another key is apart from the new one.
update_apart :
    (new r : SourceMappingProfile) (rows : List SourceMappingProfile)
    → (same_profile new r || apart new r) ≡ true
    → same_profile new r ≡ false
    → All (λ q. apart r q ≡ true) rows
    → All (λ q. apart r q ≡ true) (update_rows (same_profile new) (λ _. new) rows)
update_apart new r [] h e a = tt
update_apart new r (q ∷ rows) h e a = elim (Bool-cases (same_profile new q)) [
  | inl f ↦ (rw f (apart_sym r new ∙ sym (rw e refl) ∙ h), update_apart new r rows h e a.1)
  | inr f ↦ (rw f a.0, update_apart new r rows h e a.1)
]

-- No row after the one of a key has that key: the update leaves them alone.
later_alone :
    (new old : SourceMappingProfile) (rows : List SourceMappingProfile)
    → same_profile new old ≡ true
    → FitsAmong new rows
    → All (λ q. apart old q ≡ true) rows
    → All (λ q. apart new q ≡ true) (update_rows (same_profile new) (λ _. new) rows)
later_alone new old [] e fits a = tt
later_alone new old (q ∷ rows) e fits a = elim (Bool-cases (same_profile new q)) [
  | inl f ↦ absurd (two_rows new old q e f a.0)
  | inr f ↦ (rw f (sym (rw f refl) ∙ fits.0), later_alone new old rows e fits.1 a.1)
]
  where
    two_rows :
        (new old q : SourceMappingProfile)
        → same_profile new old ≡ true
        → same_profile new q ≡ true
        → apart old q ≡ true
        → ⊥
    two_rows new old q e f a = ground (
      arith,
      e,
      f,
      a,
      str_eq→eq old.source_idx new.source_idx,
      str_eq→eq old.idx new.idx,
      str_eq→eq q.source_idx new.source_idx,
      str_eq→eq q.idx new.idx,
      str_eq_refl new.source_idx,
      str_eq_refl new.idx,
    )

pub update_rows-IsDisjoint :
    (new : SourceMappingProfile) (rows : List SourceMappingProfile)
    → FitsAmong new rows
    → IsDisjoint rows
    → IsDisjoint (update_rows (same_profile new) (λ _. new) rows)
update_rows-IsDisjoint new [] fits d = tt
update_rows-IsDisjoint new (r ∷ rows) fits d =
    let Beside =
      λ (x : SourceMappingProfile). All (λ (q : SourceMappingProfile). apart x q ≡ true) after in
    (
      elim (Bool-cases (same_profile new r)) [
        | inl e ↦ subst Beside (head_new e) (later_alone new r rows e fits.1 d.0)
        | inr e ↦ subst Beside (head_old e) (update_apart new r rows fits.0 e d.0)
      ],
      update_rows-IsDisjoint new rows fits.1 d.1,
    )
  where
    after : List SourceMappingProfile
    after = update_rows (same_profile new) (λ _. new) rows

    head_new : same_profile new r ≡ true → new ≡ (if same_profile new r then new else r)
    head_new e = rw e refl

    head_old : same_profile new r ≡ false → r ≡ (if same_profile new r then new else r)
    head_old e = rw e refl
