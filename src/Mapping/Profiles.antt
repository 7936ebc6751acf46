-- ===== src/Mapping/Profiles.antt =====
-- The operations on mapping profiles keep the channels of the active ones disjoint.
use mathlib.Core.Path.{subst}
use entirius_django_atlas.Base.{
  some_inj, none≢some, ℕ, ◌≡◌, refl, sym, ◌∙◌, Bool, true, false, not, ◌||◌, none, some, String,
  List, [], ◌∷◌, if◌then◌else◌, str_eq→eq, str_eq_refl, exists_row, first_row, update_rows, All,
  arith, inl, inr, Bool-cases, Option-cases, is_some, first_row-passes, first_row-All,
}
use entirius_django_atlas.Base.Outcome.{Result, ok, err, Result-cases, raise_if, ◌>>◌}
use entirius_django_atlas.Model.{SourceProduct}
use entirius_django_atlas.Mapping.{
  MappingError, SourceMappingProfile, MappingState, ProfilePatch, is_profile, covers,
  validate_channels_disjoint, patch_profile, is_unknown_language, patches_unknown_language,
  create_profile, update_profile, delete_profile, check_patch, channel_not_found,
}
use entirius_django_atlas.Mapping.Disjoint.{
  same_profile, apart, IsDisjoint, FitsAmong, append-IsDisjoint, where_rows-IsDisjoint,
  update_rows-IsDisjoint, apart_sym,
}

pub data MappingOp : Type 0 where
  create : SourceMappingProfile → MappingOp
  update : String → String → ProfilePatch → MappingOp
  delete : String → String → MappingOp

-- The state after a call; one that raises leaves it as it was.
abbrev pub state_after : MappingState → Result MappingError MappingState → MappingState
state_after before (ok after) = after
state_after before (err _) = before

checked_fits :
    (p r : SourceMappingProfile)
    → (if not p.is_active then false else covers p.source_idx p.idx p.target_channel_idxs r) ≡ false
    → (same_profile p r || apart p r) ≡ true
checked_fits p r h = ground (arith, h)

-- The check passed: the profile fits among the rows.
validated-FitsAmong :
    (p : SourceMappingProfile) (rows : List SourceMappingProfile)
    → (if not p.is_active
        then false
        else exists_row (covers p.source_idx p.idx p.target_channel_idxs) rows)
      ≡ false
    → FitsAmong p rows
validated-FitsAmong p [] h = tt
validated-FitsAmong p (r ∷ rows) h =
    (checked_fits p r (ground (arith, h)), validated-FitsAmong p rows (ground (arith, h)))

-- A raised check, or none: `u` is the unit.
check_of :
    (p : SourceMappingProfile) (rows : List SourceMappingProfile)
    → validate_channels_disjoint p.source_idx p.idx p.target_channel_idxs p.is_active rows ≡ ok tt
    → (if not p.is_active
        then false
        else exists_row (covers p.source_idx p.idx p.target_channel_idxs) rows)
      ≡ false
check_of p rows h = ground (arith, h)

fits_fresh :
    (p : SourceMappingProfile) (rows : List SourceMappingProfile)
    → FitsAmong p rows
    → exists_row (same_profile p) rows ≡ false
    → All (λ r. apart r p ≡ true) rows
fits_fresh p [] f e = tt
fits_fresh p (r ∷ rows) f e =
    (apart_sym r p ∙ ground (arith, f.0, e), fits_fresh p rows f.1 (ground (arith, e)))

or_apart : (p q : SourceMappingProfile) → apart p q ≡ true → (same_profile p q || apart p q) ≡ true
or_apart p q h = ground (arith, h)

apart-FitsAmong :
    (p : SourceMappingProfile) (rows : List SourceMappingProfile)
    → All (λ q. apart p q ≡ true) rows
    → FitsAmong p rows
apart-FitsAmong p [] a = tt
apart-FitsAmong p (q ∷ rows) a = (or_apart p q a.0, apart-FitsAmong p rows a.1)

-- The found profile fits among the rows it stands in.
found-FitsAmong :
    (source_idx idx : String) (rows : List SourceMappingProfile) {old : SourceMappingProfile}
    → IsDisjoint rows
    → first_row (is_profile source_idx idx) rows ≡ some old
    → FitsAmong old rows
found-FitsAmong source_idx idx [] d h = absurd (none≢some h)
found-FitsAmong source_idx idx (r ∷ rows) {old} d h =
    elim (Bool-cases (is_profile source_idx idx r)) [
      | inl e ↦
          subst (λ x. FitsAmong x (r ∷ rows)) (some_inj (sym (here e) ∙ h))
            (rw (str_eq_refl r.source_idx, str_eq_refl r.idx) refl, apart-FitsAmong r rows d.0)
      | inr e ↦
          let later = sym (there e) ∙ h in
          (
            or_apart old r (
                apart_sym old r
                ∙ first_row-All (λ q. apart r q ≡ true) (is_profile source_idx idx) rows d.0 later),
            found-FitsAmong source_idx idx rows d.1 later,
          )
    ]
  where
    here :
        is_profile source_idx idx r ≡ true
        → first_row (is_profile source_idx idx) (r ∷ rows) ≡ some r
    here e = rw e refl

    there :
        is_profile source_idx idx r ≡ false
        → first_row (is_profile source_idx idx) (r ∷ rows)
          ≡ first_row (is_profile source_idx idx) rows
    there e = rw e refl

-- An update that names neither the channels nor the flag.
untouched-FitsAmong :
    (patch : ProfilePatch) (old : SourceMappingProfile) (rows : List SourceMappingProfile)
    → patch.target_channel_idxs ≡ none
    → patch.is_active ≡ none
    → FitsAmong old rows
    → FitsAmong (patch_profile patch old) rows
untouched-FitsAmong patch old [] a b f = tt
untouched-FitsAmong patch old (r ∷ rows) a b f =
    (rw (a, b) f.0, untouched-FitsAmong patch old rows a b f.1)

second_check :
    (test : Bool) (m : Result MappingError (Unit {0}))
    → (raise_if test channel_not_found >> m) ≡ ok tt
    → m ≡ ok tt
second_check true m h = cc
second_check false m h = h

-- The row of a key, whatever the patch.
same_row :
    (source_idx idx : String) (old : SourceMappingProfile) (rows : List SourceMappingProfile)
    (f : SourceMappingProfile → SourceMappingProfile)
    → is_profile source_idx idx old ≡ true
    → update_rows (is_profile source_idx idx) f rows ≡ update_rows (same_profile old) f rows
same_row source_idx idx old rows f h = rw (key.0, key.1) refl
  where
    key : (old.source_idx ≡ source_idx) × (old.idx ≡ idx)
    key = ground (arith, h, str_eq→eq old.source_idx source_idx, str_eq→eq old.idx idx)

module _ (channel_exists : String → Bool) (language_known : ℕ → Bool)
    (products : List SourceProduct) where
  -- The checks of an update let the patched profile stand where the old one stood.
  check_patch-FitsAmong :
      (patch : ProfilePatch) (old : SourceMappingProfile) (rows : List SourceMappingProfile)
      → FitsAmong old rows
      → check_patch channel_exists language_known products patch (patch_profile patch old) rows
        ≡ ok tt
      → FitsAmong (patch_profile patch old) rows
  check_patch-FitsAmong patch old rows fits h =
      elim (Bool-cases (is_some patch.target_channel_idxs || is_some patch.is_active)) [
        | inr e ↦ untouched-FitsAmong patch old rows (ground (arith, e)) (ground (arith, e)) fits
        | inl e ↦
            validated-FitsAmong (patch_profile patch old) rows (
              check_of (patch_profile patch old) rows (second_check _ _ (sym (when_checked e) ∙ h)))
      ]
    where
      when_checked :
          (is_some patch.target_channel_idxs || is_some patch.is_active) ≡ true
          → check_patch channel_exists language_known products patch (patch_profile patch old) rows
            ≡ (raise_if
                  (exists_row
                    (λ c. not (channel_exists c))
                    (patch_profile patch old).target_channel_idxs)
                  channel_not_found
                >> validate_channels_disjoint old.source_idx old.idx
                    (patch_profile patch old).target_channel_idxs
                    (patch_profile patch old).is_active
                    rows)
      when_checked e = rw (check_patch, e) refl

  update_profile-IsDisjoint :
      (source_idx idx : String) (patch : ProfilePatch) (s : MappingState)
      → IsDisjoint s.profiles
      → IsDisjoint
          (state_after s
            (update_profile channel_exists language_known products source_idx idx patch s)).profiles
  unfolding update_profile
  update_profile-IsDisjoint source_idx idx patch s d =
      elim (Bool-cases
        (patches_unknown_language channel_exists language_known products patch.import_language)) [
          | inl l ↦ rw (update_profile, l) d
          | inr l ↦ elim (Option-cases (first_row (is_profile source_idx idx) s.profiles)) [
            | inl e ↦ rw (update_profile, l, e) d
            | inr (old, e) ↦
                elim (Result-cases (
                  check_patch channel_exists language_known products patch (patch_profile patch old)
                    s.profiles)) [
                      | inl (_, f) ↦ rw (update_profile, l, e, f) d
                      | inr (_, f) ↦
                          rw (update_profile, l, e, f)
                            (subst IsDisjoint
                              (sym (
                                same_row source_idx idx old s.profiles
                                  (λ _. patch_profile patch old)
                                  (first_row-passes (is_profile source_idx idx) s.profiles e)))
                              (update_rows-IsDisjoint (patch_profile patch old) s.profiles
                                (check_patch-FitsAmong patch old s.profiles
                                  (found-FitsAmong source_idx idx s.profiles d e) f)
                                d))
                    ]
          ]
        ]

  create_profile-IsDisjoint :
      (source_exists : String → Bool) (p : SourceMappingProfile) (s : MappingState)
      → IsDisjoint s.profiles
      → IsDisjoint
          (state_after s
            (create_profile channel_exists language_known products source_exists p s)).profiles
  unfolding create_profile
  create_profile-IsDisjoint source_exists p s d =
      let known = not (source_exists p.source_idx) in
      let missing = exists_row (λ c. not (channel_exists c)) p.target_channel_idxs in
      let check =
        validate_channels_disjoint p.source_idx p.idx p.target_channel_idxs p.is_active
          s.profiles in
      elim (Bool-cases
        (is_unknown_language channel_exists language_known products p.import_language)) [
          | inl l ↦ rw (create_profile, l) d
          | inr l ↦ elim (Bool-cases known) [
            | inl a ↦ rw (create_profile, l, a) d
            | inr a ↦ elim (Bool-cases missing) [
              | inl b ↦ rw (create_profile, l, a, b) d
              | inr b ↦ elim (Result-cases check) [
                | inl (_, c) ↦ rw (create_profile, l, a, b, c) d
                | inr (_, c) ↦ elim (Bool-cases (exists_row (same_profile p) s.profiles)) [
                  | inl e ↦ rw (create_profile, l, a, b, c, e) d
                  | inr e ↦
                      rw (create_profile, l, a, b, c, e)
                        (append-IsDisjoint s.profiles p
                          (fits_fresh p s.profiles
                            (validated-FitsAmong p s.profiles (check_of p s.profiles c)) e)
                          d)
                ]
              ]
            ]
          ]
        ]

  delete_profile-IsDisjoint :
      (source_idx idx : String) (s : MappingState)
      → IsDisjoint s.profiles
      → IsDisjoint
          (state_after s
            (delete_profile channel_exists language_known products source_idx idx s)).profiles
  unfolding delete_profile
  delete_profile-IsDisjoint source_idx idx s d =
      elim (Option-cases (first_row (is_profile source_idx idx) s.profiles)) [
        | inl e ↦ rw (delete_profile, e) d
        | inr (old, e) ↦
            rw (delete_profile, e)
              (where_rows-IsDisjoint (λ p. not (is_profile source_idx idx p)) s.profiles d)
      ]

  unfoldable pub apply_mapping : (String → Bool) → MappingOp → MappingState → MappingState
  apply_mapping source_exists (create p) s =
      state_after s (create_profile channel_exists language_known products source_exists p s)
  apply_mapping source_exists (update source_idx idx patch) s =
      state_after s (update_profile channel_exists language_known products source_idx idx patch s)
  apply_mapping source_exists (delete source_idx idx) s =
      state_after s (delete_profile channel_exists language_known products source_idx idx s)

  unfoldable pub run_mappings : (String → Bool) → List MappingOp → MappingState → MappingState
  unfolding apply_mapping
  run_mappings source_exists [] s = s
  run_mappings source_exists (op ∷ ops) s =
      run_mappings source_exists ops (apply_mapping source_exists op s)

  -- Whatever creations, updates and deletions of mapping profiles are called, in whatever order and
  -- with whatever outcome, a table without a repeated profile key in which no two active profiles
  -- of one source have a channel in common stays one.
  pub run_mappings-IsDisjoint :
      (source_exists : String → Bool) (ops : List MappingOp) (s : MappingState)
      → IsDisjoint s.profiles
      → IsDisjoint (run_mappings source_exists ops s).profiles
  unfolding run_mappings apply_mapping
  run_mappings-IsDisjoint source_exists [] s d = d
  run_mappings-IsDisjoint source_exists (create p ∷ ops) s d =
      run_mappings-IsDisjoint source_exists ops _ (create_profile-IsDisjoint source_exists p s d)
  run_mappings-IsDisjoint source_exists (update source_idx idx patch ∷ ops) s d =
      run_mappings-IsDisjoint source_exists ops _
        (update_profile-IsDisjoint source_idx idx patch s d)
  run_mappings-IsDisjoint source_exists (delete source_idx idx ∷ ops) s d =
      run_mappings-IsDisjoint source_exists ops _ (delete_profile-IsDisjoint source_idx idx s d)
