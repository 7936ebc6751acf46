-- ===== src/Mapping.antt =====
-- The mapping profiles of django_atlas/services/mapping_service.py: creation, update, deletion.
-- The channels of PIM and the languages of django_regional are parameters. A patch has only the
-- editable fields; the removed channels of an event are kept as their effect, the number of
-- products that they touch.
pub mod Disjoint
pub mod Profiles
use entirius_django_atlas.Base.{
  ℕ, Bool, true, false, not, ◌&&◌, ◌||◌, Option, none, some, String, List, [], ◌∷◌, ◌++◌,
  if◌then◌else◌, str_eq, exists_row, first_row, where_rows, update_rows, count_rows, is_some,
}
use entirius_django_atlas.Base.Outcome.{Result, ok, err, ◌>>=◌, ◌>>◌, raise_if, or_raise}
use entirius_django_atlas.Model.{SourceProduct}

pub data MappingError : Type 0 where
  source_not_found profile_not_found channel_not_found channel_covered language_not_found
        integrity_error :
      MappingError

-- models/source_mapping_profile.py
pub record SourceMappingProfile : Type 0 where
  pub source_idx : String
  pub idx : String
  pub name : String
  pub target_channel_idxs : List String
  pub import_language : Option ℕ
  pub feature_set_idx : Option String
  pub is_active : Bool

-- The events of removed channels.
pub record ChannelRemoval : Type 0 where
  pub source_idx : String
  pub profile_idx : String
  pub affected_skus_count : ℕ

pub record MappingState : Type 0 where
  pub profiles : List SourceMappingProfile
  pub removals : List ChannelRemoval

-- `update_profile(**fields)`
pub record ProfilePatch : Type 0 where
  pub name : Option String
  pub target_channel_idxs : Option (List String)
  pub import_language : Option (Option ℕ)
  pub feature_set_idx : Option (Option String)
  pub is_active : Option Bool

abbrev pub is_profile : String → String → SourceMappingProfile → Bool
is_profile source_idx idx p = str_eq p.source_idx source_idx && str_eq p.idx idx

-- `get_profile`
abbrev pub get_profile :
    String → String → List SourceMappingProfile → Result MappingError SourceMappingProfile
get_profile source_idx idx profiles =
    or_raise (first_row (is_profile source_idx idx) profiles) profile_not_found

abbrev pub has_channel : List String → String → Bool
has_channel channels c = exists_row (λ d. str_eq d c) channels

-- `set(xs) & set(ys)`
abbrev pub overlap : List String → List String → Bool
overlap xs ys = exists_row (has_channel ys) xs

-- `filter(source__idx=source_idx, is_active=True).exclude(idx=profile_idx)`, with an overlap
abbrev pub covers : String → String → List String → SourceMappingProfile → Bool
covers source_idx profile_idx channels p =
    str_eq p.source_idx source_idx
    && p.is_active
    && not (str_eq p.idx profile_idx)
    && overlap p.target_channel_idxs channels

-- `_validate_channels_disjoint`; an empty list overlaps with none
abbrev pub validate_channels_disjoint :
    String
    → String
    → List String
    → Bool
    → List SourceMappingProfile
    → Result MappingError (Unit {0})
validate_channels_disjoint source_idx profile_idx channels is_active profiles =
    if not is_active
    then ok tt
    else raise_if (exists_row (covers source_idx profile_idx channels) profiles) channel_covered

-- `pre_channels - set(new_channels)`
abbrev pub removed_channels : List String → List String → List String
removed_channels before after = where_rows (λ c. not (has_channel after c)) before

-- `_emit_channel_removal_event`, which is called for some removed channel
abbrev pub emit_channel_removal :
    String → String → List String → List SourceProduct → List ChannelRemoval → List ChannelRemoval
emit_channel_removal source_idx profile_idx [] products removals = removals
emit_channel_removal source_idx profile_idx (c ∷ cs) products removals =
    removals
    ++ record {
      source_idx = source_idx;
      profile_idx = profile_idx;
      affected_skus_count =
          count_rows
            (λ sp. str_eq sp.source.idx source_idx && overlap (c ∷ cs) sp.pushed_to_channel_idxs)
            products;
    }
      ∷ []

abbrev pub or_keep : {A : Type 0} → Option A → A → A
or_keep none old = old
or_keep (some new) old = new

abbrev pub patch_profile : ProfilePatch → SourceMappingProfile → SourceMappingProfile
patch_profile patch p = record {
  source_idx = p.source_idx;
  idx = p.idx;
  name = or_keep patch.name p.name;
  target_channel_idxs = or_keep patch.target_channel_idxs p.target_channel_idxs;
  import_language = or_keep patch.import_language p.import_language;
  feature_set_idx = or_keep patch.feature_set_idx p.feature_set_idx;
  is_active = or_keep patch.is_active p.is_active;
}

module _ (channel_exists : String → Bool) (language_known : ℕ → Bool)
    (products : List SourceProduct) where
  -- `_resolve_language`
  abbrev pub is_unknown_language : Option ℕ → Bool
  is_unknown_language none = false
  is_unknown_language (some k) = not (language_known k)

  abbrev pub patches_unknown_language : Option (Option ℕ) → Bool
  patches_unknown_language none = false
  patches_unknown_language (some given) = is_unknown_language given

  -- `_validate_target_channels`
  abbrev pub validate_target_channels : List String → Result MappingError (Unit {0})
  validate_target_channels channels =
      raise_if (exists_row (λ c. not (channel_exists c)) channels) channel_not_found

  unfoldable pub create_profile :
      (String → Bool) → SourceMappingProfile → MappingState → Result MappingError MappingState
  create_profile source_exists p s = do
    raise_if (is_unknown_language p.import_language) language_not_found
    raise_if (not (source_exists p.source_idx)) source_not_found
    validate_target_channels p.target_channel_idxs
    validate_channels_disjoint p.source_idx p.idx p.target_channel_idxs p.is_active s.profiles
    raise_if (exists_row (is_profile p.source_idx p.idx) s.profiles) integrity_error
    ok (record s { profiles = s.profiles ++ p ∷ [] })

  -- The checks of an update that names the channels or the flag.
  abbrev pub check_patch :
      ProfilePatch
      → SourceMappingProfile
      → List SourceMappingProfile
      → Result MappingError (Unit {0})
  check_patch patch new profiles =
      let checked =
        validate_target_channels new.target_channel_idxs
        >> validate_channels_disjoint new.source_idx new.idx new.target_channel_idxs new.is_active
            profiles in
      if is_some patch.target_channel_idxs || is_some patch.is_active then checked else ok tt

  -- The event of the channels that an update takes away, if it names the channels.
  abbrev pub removal_of :
      ProfilePatch
      → SourceMappingProfile
      → SourceMappingProfile
      → List ChannelRemoval
      → List ChannelRemoval
  removal_of patch old new removals =
      if is_some patch.target_channel_idxs
      then emit_channel_removal old.source_idx old.idx
          (removed_channels old.target_channel_idxs new.target_channel_idxs) products removals
      else removals

  unfoldable pub update_profile :
      String → String → ProfilePatch → MappingState → Result MappingError MappingState
  update_profile source_idx idx patch s = do
    raise_if (patches_unknown_language patch.import_language) language_not_found
    old ← get_profile source_idx idx s.profiles
    let new = patch_profile patch old
    check_patch patch new s.profiles
    ok (record s {
      profiles = update_rows (is_profile source_idx idx) (λ _. new) s.profiles;
      removals = removal_of patch old new s.removals;
    })

  unfoldable pub delete_profile : String → String → MappingState → Result MappingError MappingState
  delete_profile source_idx idx s = do
    old ← get_profile source_idx idx s.profiles
    ok (record s {
      profiles = where_rows (λ p. not (is_profile source_idx idx p)) s.profiles;
      removals = emit_channel_removal source_idx idx old.target_channel_idxs products s.removals;
    })
