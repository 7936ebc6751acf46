-- ===== src/Push.antt =====
-- django_atlas/services/push_service.py: the preflight check, the push of a product to the channels
-- of its source's active profiles, the push of all approved products and the forced re-push. A row
-- lock is the read of the row; a transaction's raise leaves the state that it began with.
pub mod Rows
pub mod Pushed
pub mod Approved
pub mod Repushed
use entirius_django_atlas.Base.{
  ℕ, suc, ◌+◌, ◌==◌, Bool, true, false, not, ◌&&◌, ◌||◌, Option, none, some, List, [], ◌∷◌, ◌++◌,
  String, str_eq, if◌then◌else◌, first_row, exists_row, where_rows, update_rows,
}
use entirius_django_atlas.Base.Outcome.{Result, ok, err, ◌>>=◌, ◌>>◌, raise_if, or_raise}
use entirius_django_atlas.Model.{Source, SourceProduct, RealProduct}
use entirius_django_atlas.Model.Enums.{
  ProductStatus, approved, pushed, pushed_pending_images, status_eq, is_pushed_status, EventType,
  EventSeverity,
}
use entirius_django_atlas.KindGuard.{is_push_blocked}
use entirius_django_atlas.Store.{Store, Faults}
use entirius_django_atlas.Attach.{has_sp_pk}
use entirius_django_atlas.Pim.{
  Catalogue, Runtime, PushProfile, AttributeMapping, CategoryMapping, Feature, Product, PimState,
  PushError, product_not_found, wrong_status, preflight_failed, event_failed,
}
use entirius_django_atlas.Pim.Attributes.{is_feature_target, has_category}
use entirius_django_atlas.Pim.Channel.{
  is_channel, mem_channel, with_channel, init_push_to_channel, force_repush_to_channel, save_sp,
}
use entirius_django_atlas.Pim.Target.{in_store, source_event}

pub data PreflightError : Type 0 where
  push_blocked no_active_mapping_profile : PreflightError
  profile_no_target_channels pim_channel_missing pim_feature_missing : String → PreflightError
  pim_category_missing_all_channels pim_feature_set_missing : String → PreflightError

abbrev pub no_entries {ℓ} : {A : Type ℓ} → List A → Bool
no_entries [] = true
no_entries (_ ∷ _) = false

-- `source.mapping_profiles.filter(is_active=True)`
abbrev pub active_profiles_for : Source → List PushProfile → List PushProfile
active_profiles_for source =
    where_rows (λ (p : PushProfile). str_eq p.profile.source_idx source.idx && p.profile.is_active)

module _ (pim : Catalogue) where
  abbrev pub channel_errors : List String → List PreflightError
  channel_errors [] = []
  channel_errors (c ∷ cs) =
      if exists_row (is_channel c) pim.channels
      then channel_errors cs
      else pim_channel_missing c ∷ channel_errors cs

  abbrev pub feature_errors : List AttributeMapping → List PreflightError
  feature_errors [] = []
  feature_errors (m ∷ ms) =
      if not (is_feature_target m.target_type)
        || exists_row (λ (f : Feature). str_eq f.idx m.target_identifier) pim.features
      then feature_errors ms
      else pim_feature_missing m.target_identifier ∷ feature_errors ms

  abbrev pub matched_channels : String → List String → List String
  matched_channels idx = where_rows (λ c. has_category pim.categories c idx)

  abbrev pub category_errors : List String → List CategoryMapping → List PreflightError
  category_errors channels [] = []
  category_errors channels (m ∷ ms) =
      if no_entries (matched_channels m.target_category_idx channels)
      then pim_category_missing_all_channels m.target_category_idx ∷ category_errors channels ms
      else category_errors channels ms

  -- The categories that some but not all channels lack.
  abbrev pub category_warnings : List String → List CategoryMapping → List String
  category_warnings channels [] = []
  category_warnings channels (m ∷ ms) =
      let lacking =
        where_rows (λ c. not (has_category pim.categories c m.target_category_idx)) channels in
      if no_entries (matched_channels m.target_category_idx channels) || no_entries lacking
      then category_warnings channels ms
      else m.target_category_idx ∷ category_warnings channels ms

  abbrev pub profile_errors : PushProfile → List PreflightError
  profile_errors p =
      if no_entries p.profile.target_channel_idxs
      then profile_no_target_channels p.profile.idx ∷ []
      else channel_errors p.profile.target_channel_idxs
        ++ feature_errors p.attribute_mappings
        ++ category_errors p.profile.target_channel_idxs p.category_mappings

  abbrev pub profiles_errors : List PushProfile → List PreflightError
  profiles_errors [] = []
  profiles_errors (p ∷ ps) = profile_errors p ++ profiles_errors ps

  abbrev pub profiles_warnings : List PushProfile → List String
  profiles_warnings [] = []
  profiles_warnings (p ∷ ps) =
      category_warnings p.profile.target_channel_idxs p.category_mappings ++ profiles_warnings ps

  abbrev pub add_given : Option String → List String → List String
  add_given none sets = sets
  add_given (some s) sets = if str_eq s "" then sets else with_channel s sets

  abbrev pub feature_set_idxs : List PushProfile → List String → List String
  feature_set_idxs [] sets = sets
  feature_set_idxs (p ∷ ps) sets = feature_set_idxs ps (
      if no_entries p.profile.target_channel_idxs
      then sets
      else add_given p.profile.feature_set_idx sets)

  abbrev pub feature_set_errors : List String → List PreflightError
  feature_set_errors [] = []
  feature_set_errors (s ∷ ss) =
      if mem_channel s pim.feature_sets
      then feature_set_errors ss
      else pim_feature_set_missing s ∷ feature_set_errors ss

  abbrev pub errors_of : Source → List PushProfile → List PreflightError
  errors_of source [] = no_active_mapping_profile ∷ []
  errors_of source (p ∷ ps) =
      profiles_errors (p ∷ ps)
      ++ feature_set_errors
          (feature_set_idxs (p ∷ ps) (add_given source.default_feature_set_idx []))

  -- The errors of `preflight_check`; the check is passed when there is none.
  unfoldable pub preflight_check : Source → List PushProfile → List PreflightError
  preflight_check source profiles =
      if is_push_blocked source
      then push_blocked ∷ []
      else errors_of source (active_profiles_for source profiles)

-- `_decide_post_push_status`
abbrev pub decide_post_push_status : SourceProduct → ProductStatus
decide_post_push_status sp =
    if no_entries sp.image_urls then ProductStatus.pushed else ProductStatus.pushed_pending_images

-- `sp.status = status`, saved with `modified_at`
abbrev pub at_status : ProductStatus → ℕ → SourceProduct → SourceProduct
at_status status now sp = record sp { status = status; modified_at = now }

abbrev pub save_status : ProductStatus → ℕ → ℕ → PimState → PimState
save_status status now k = in_store (save_sp (at_status status now) k)

abbrev pub note : EventType → EventSeverity → SourceProduct → PimState → PimState
note event_type severity sp =
    in_store
      (λ (s : Store). record s { events = s.events ++ source_event event_type severity sp ∷ [] })

-- The counts of a batch.
pub record PushCounts : Type 0 where
  pub success : ℕ
  pub failed : ℕ

-- The batch answers that the preflight failed, or raises.
pub data BatchError : Type 0 where
  not_ready event_not_recorded : BatchError

-- What the loops over profiles and channels carry.
pub record Progress : Type 0 where
  pub sp : SourceProduct
  pub products : List Product
  pub done : List String
  pub state : PimState

abbrev pub stepped : String → Progress → Product × SourceProduct × PimState → Progress
stepped channel g r = record {
  sp = r.1;
  products = g.products ++ r.0 ∷ [];
  done = g.done ++ channel ∷ [];
  state = r.2;
}

abbrev pub begin : SourceProduct → PimState → Progress
begin sp p = record { sp = sp; products = []; done = sp.pushed_to_channel_idxs; state = p }

-- `_lock_sp`
abbrev pub lock_sp : ℕ → PimState → Result PushError SourceProduct
lock_sp k p = or_raise (first_row (has_sp_pk k) p.store.products) product_not_found

abbrev pub pk_if_there : ℕ → PimState → Option ℕ
pk_if_there k p = elim (first_row (has_sp_pk k) p.store.products) [
  | none ↦ none
  | some sp ↦ some sp.pk
]

abbrev pub note_failed : Source → ℕ → PimState → PimState
note_failed source k p =
    in_store
      (λ (s : Store). record s {
        events =
            s.events
            ++ record {
              event_type = EventType.push_failed;
              severity = EventSeverity.warning;
              source_idx = some source.idx;
              source_product = pk_if_there k p;
            }
              ∷ [];
      })
      p

abbrev pub is_err : {E A : Type 0} → Result E A → Bool
is_err (ok _) = false
is_err (err _) = true

abbrev pub count_push : Bool → PushCounts → PushCounts
count_push true c = record c { failed = suc c.failed }
count_push false c = record c { success = suc c.success }

-- One attempt more, if the rest of the batch returned.
abbrev pub add_count : Bool → Result BatchError PushCounts → Result BatchError PushCounts
add_count failed (ok c) = ok (count_push failed c)
add_count failed (err e) = err e

abbrev pub after_attempt :
    Source → ℕ → PimState → Result PushError (List Product × PimState) → PimState
after_attempt source k p (ok (_, p')) = p'
after_attempt source k p (err _) = note_failed source k p

abbrev pub pks_of : List SourceProduct → List ℕ
pks_of [] = []
pks_of (sp ∷ sps) = sp.pk ∷ pks_of sps

abbrev pub is_approved_of : Source → SourceProduct → Bool
is_approved_of source sp = (sp.source.pk == source.pk) && status_eq sp.status approved

abbrev pub repush_stepped : Progress → Product × SourceProduct × PimState → Progress
repush_stepped g r = record g { sp = r.1; products = g.products ++ r.0 ∷ []; state = r.2 }

module _ (pim : Catalogue) (run : Runtime) (faults : Faults) (user : Option ℕ) (now : ℕ)
    (suppressed : Bool) where
  unfoldable pub push_channels : PushProfile → List String → Progress → Result PushError Progress
  unfolding init_push_to_channel
  push_channels profile [] g = ok g
  push_channels profile (c ∷ cs) g = if mem_channel c g.done then push_channels profile cs g else do
    r ← init_push_to_channel pim run faults user now suppressed g.sp profile c g.state
    push_channels profile cs (stepped c g r)

  unfoldable pub push_profiles : List PushProfile → Progress → Result PushError Progress
  unfolding push_channels
  push_profiles [] g = ok g
  push_profiles (p ∷ ps) g = do
    next ← push_channels p p.profile.target_channel_idxs g
    push_profiles ps next

  -- The end of a push: the status, if it changes, and the event.
  abbrev pub finish_push : Progress → PimState
  finish_push g =
      let status = decide_post_push_status g.sp in
      note EventType.push_succeeded EventSeverity.info g.sp
        (if status_eq g.sp.status status then g.state else save_status status now g.sp.pk g.state)

  unfoldable pub push_source_product_trusted :
      List PushProfile → SourceProduct → PimState → Result PushError (List Product × PimState)
  unfolding push_profiles
  push_source_product_trusted profiles sp p = do
    g ← push_profiles (active_profiles_for sp.source profiles) (begin sp p)
    raise_if faults.event_fails event_failed
    ok (g.products, finish_push g)

  unfoldable pub push_source_product :
      List PushProfile → ℕ → PimState → Result PushError (List Product × PimState)
  unfolding push_source_product_trusted preflight_check
  push_source_product profiles k p = do
    sp ← lock_sp k p
    raise_if (not (status_eq sp.status approved)) wrong_status
    raise_if (not (no_entries (preflight_check pim sp.source profiles))) preflight_failed
    push_source_product_trusted profiles sp p

  -- One product of the batch, in its own transaction.
  unfoldable pub push_locked :
      List PushProfile → ℕ → PimState → Result PushError (List Product × PimState)
  unfolding push_source_product_trusted
  push_locked profiles k p = do
    sp ← lock_sp k p
    raise_if (not (status_eq sp.status approved)) wrong_status
    push_source_product_trusted profiles sp p

  -- The loop: the event of a failed push is not guarded, so if it cannot be recorded the batch
  -- raises, and what was pushed before stays.
  unfoldable pub push_each :
      List PushProfile → Source → List ℕ → PimState → Result BatchError PushCounts × PimState
  unfolding push_locked
  push_each profiles source [] p = (ok (record { success = 0; failed = 0 }), p)
  push_each profiles source (k ∷ ks) p =
      let attempt = push_locked profiles k p in
      let rest = push_each profiles source ks (after_attempt source k p attempt) in
      if is_err attempt && faults.event_fails
      then (err event_not_recorded, p)
      else (add_count (is_err attempt) rest.0, rest.1)

  -- The counts, or the answer that the preflight failed.
  unfoldable pub push_approved_for_source :
      List PushProfile → Source → PimState → Result BatchError PushCounts × PimState
  unfolding push_each preflight_check
  push_approved_for_source profiles source p =
      if not (no_entries (preflight_check pim source profiles))
      then (err not_ready, p)
      else push_each profiles source (pks_of (where_rows (is_approved_of source) p.store.products))
          p

  unfoldable pub repush_channels : PushProfile → List String → Progress → Result PushError Progress
  unfolding force_repush_to_channel
  repush_channels profile [] g = ok g
  repush_channels profile (c ∷ cs) g =
      if not (mem_channel c g.done) then repush_channels profile cs g else do
        r ← force_repush_to_channel pim run faults user now suppressed g.sp profile c g.state
        repush_channels profile cs (repush_stepped g r)

  unfoldable pub repush_profiles : List PushProfile → Progress → Result PushError Progress
  unfolding repush_channels
  repush_profiles [] g = ok g
  repush_profiles (p ∷ ps) g = do
    next ← repush_channels p p.profile.target_channel_idxs g
    repush_profiles ps next

  abbrev pub reopened : SourceProduct → SourceProduct
  reopened sp = record sp { status = approved; reviewed_at = some now; modified_at = now }

  abbrev pub finish_repush : Progress → PimState
  finish_repush g =
      note EventType.force_repush_executed EventSeverity.info g.sp
        (save_status (decide_post_push_status g.sp) now g.sp.pk g.state)

  unfoldable pub force_repush_source_product :
      List PushProfile → ℕ → PimState → Result PushError (List Product × PimState)
  unfolding repush_profiles preflight_check
  force_repush_source_product profiles k p = do
    sp ← lock_sp k p
    raise_if (not (is_pushed_status sp.status)) wrong_status
    raise_if (not (no_entries (preflight_check pim sp.source profiles))) preflight_failed
    let reset = in_store (save_sp reopened sp.pk) p
    g ← repush_profiles (active_profiles_for sp.source profiles) (begin (reopened sp) reset)
    raise_if faults.event_fails event_failed
    ok (g.products, finish_repush g)
