-- ===== src/Push/Pushed.antt =====
-- A push of a product: every channel of its source's active profiles, none of them twice.
use mathlib.Core.Path.{subst}
use entirius_django_atlas.Base.{
  ℕ, ◌≡◌, true≢false, refl, sym, ap, ◌∙◌, inl, inr, Bool, true, false, not, ◌||◌, Option, some,
  List, [], ◌∷◌, ◌++◌, String, str_eq, str_eq_refl, str_eq→eq, first_row, update_rows, All, All-map,
  All-append, Bool-cases, leb, append_nil, arith,
}
use entirius_django_atlas.Base.Outcome.{ok, ok_inj, raise_if-ok, or_raise-ok, bind-ok}
use entirius_django_atlas.Model.{SourceProduct}
use entirius_django_atlas.Model.Enums.{
  ProductStatus, approved, status_code, status_eq, is_pushed_status,
}
use entirius_django_atlas.Store.{Faults}
use entirius_django_atlas.Attach.{has_sp_pk}
use entirius_django_atlas.Pim.{
  Catalogue, Runtime, PushProfile, Product, PimState, product_not_found, wrong_status,
  preflight_failed, event_failed,
}
use entirius_django_atlas.Pim.Channel.{mem_channel, with_channel, save_pushed, init_push_to_channel}
use entirius_django_atlas.Push.{
  Progress, stepped, push_channels, push_profiles, finish_push, begin, push_source_product_trusted,
  push_source_product, active_profiles_for, decide_post_push_status, at_status, preflight_check,
  no_entries,
}
use entirius_django_atlas.Push.Rows.{IsPushed, init_push-IsPushed, saved_row}

mem_end : (c : String) (cs : List String) → mem_channel c (cs ++ c ∷ []) ≡ true
mem_end c [] = ground (arith, str_eq_refl c)
mem_end c (d ∷ cs) = ground (arith, mem_end c cs)

mem_before :
    (c d : String) (cs : List String)
    → mem_channel d cs ≡ true
    → mem_channel d (cs ++ c ∷ []) ≡ true
mem_before c d [] h = cc
mem_before c d (e ∷ cs) h = ground (arith, mem_before c d cs)

mem_end_inv :
    (c d : String) (cs : List String)
    → mem_channel d (cs ++ c ∷ []) ≡ true
    → (mem_channel d cs || str_eq c d) ≡ true
mem_end_inv c d [] h = ground (arith, h)
mem_end_inv c d (e ∷ cs) h = ground (arith, h, mem_end_inv c d cs)

mem_with :
    (c d : String) (cs : List String)
    → (mem_channel d cs || str_eq c d) ≡ true
    → mem_channel d (with_channel c cs) ≡ true
mem_with c d cs h = elim (Bool-cases (str_eq c d)) [
  | inl e ↦
      subst (λ x. mem_channel x (with_channel c cs) ≡ true) (str_eq→eq c d e)
        (elim (Bool-cases (mem_channel c cs)) [
          | inl m ↦ rw (m, m) refl
          | inr m ↦ rw m (mem_end c cs)
        ])
  | inr e ↦
      let here : mem_channel d cs ≡ true = ground (arith, h, e) in
      elim (Bool-cases (mem_channel c cs)) [
        | inl m ↦ rw m here
        | inr m ↦ rw m (mem_before c d cs here)
      ]
]

-- The progress of a push of the product of key `k`, from PIM's products `base` and the channels
-- `begun`: the row is the object, what is done was pushed, and each new product is on a channel that
-- was not pushed at the beginning.
pub record IsTracked (k : ℕ) (base : List Product) (begun : List String) (g : Progress)
    : Type 0 where
  pub row : first_row (has_sp_pk k) g.state.store.products ≡ some g.sp
  pub covers :
      (c : String) → mem_channel c g.done ≡ true → mem_channel c g.sp.pushed_to_channel_idxs ≡ true
  pub added : g.state.products ≡ base ++ g.products
  pub fresh : All (λ (p : Product). mem_channel p.channel begun ≡ false) g.products
  pub grown : (c : String) → mem_channel c begun ≡ true → mem_channel c g.done ≡ true

not_before :
    (begun done : List String) (c : String)
    → (mem_channel c begun ≡ true → mem_channel c done ≡ true)
    → mem_channel c done ≡ false
    → mem_channel c begun ≡ false
not_before begun done c grown h = elim (Bool-cases (mem_channel c begun)) [
  | inl e ↦ absurd (true≢false (sym (grown e) ∙ h))
  | inr e ↦ e
]

or_mono : (a b c : Bool) → (a ≡ true → b ≡ true) → (a || c) ≡ true → (b || c) ≡ true
or_mono true b c f h = rw (f refl) refl
or_mono false b c f h = ground (arith, h)

append_assoc : (xs ys zs : List Product) → xs ++ (ys ++ zs) ≡ (xs ++ ys) ++ zs
append_assoc [] ys zs = refl
append_assoc (x ∷ xs) ys zs = ap (x ∷◌) (append_assoc xs ys zs)

-- The channels that are done are channels of the row.
All-covered :
    (ps : List PushProfile) (g : Progress) (sp : SourceProduct)
    → ((c : String)
        → mem_channel c g.done ≡ true
        → mem_channel c g.sp.pushed_to_channel_idxs ≡ true)
    → sp.pushed_to_channel_idxs ≡ g.sp.pushed_to_channel_idxs
    → All
        (λ (q : PushProfile). All (λ c. mem_channel c g.done ≡ true) q.profile.target_channel_idxs)
        ps
    → All
        (λ (q : PushProfile).
          All (λ c. mem_channel c sp.pushed_to_channel_idxs ≡ true) q.profile.target_channel_idxs)
        ps
All-covered [] g sp covers same all = tt
All-covered (q ∷ ps) g sp covers same (here, all) = (
  All-map {P = λ c. mem_channel c g.done ≡ true}
      {Q = λ c. mem_channel c sp.pushed_to_channel_idxs ≡ true}
      (λ c m. ap (mem_channel c) same ∙ covers c m) q.profile.target_channel_idxs here,
  All-covered ps g sp covers same all,
)

pub decided_pushed : (sp : SourceProduct) → is_pushed_status (decide_post_push_status sp) ≡ true
decided_pushed sp = elim (Bool-cases (no_entries sp.image_urls)) [
  | inl e ↦ rw e refl
  | inr e ↦ rw e refl
]

code_pushed : (s : ProductStatus) → is_pushed_status s ≡ leb 4 (status_code s)
code_pushed ProductStatus.new = refl
code_pushed ProductStatus.queued = refl
code_pushed ProductStatus.approved = refl
code_pushed ProductStatus.rejected = refl
code_pushed ProductStatus.pushed_pending_images = refl
code_pushed ProductStatus.pushed = refl

same_pushed :
    (s t : ProductStatus)
    → status_eq s t ≡ true
    → is_pushed_status t ≡ true
    → is_pushed_status s ≡ true
same_pushed s t h g = ground (arith, code_pushed s, code_pushed t)

module _ (pim : Catalogue) (run : Runtime) (faults : Faults) (user : Option ℕ) (now : ℕ)
    (suppressed : Bool) (k : ℕ) (base : List Product) (begun : List String) where
  abbrev Tracked : Progress → Type 0
  Tracked g = IsTracked k base begun g

  pub row_after :
      (g : Progress) (c : String) (r : Product × SourceProduct × PimState)
      → first_row (has_sp_pk k) g.state.store.products ≡ some g.sp
      → IsPushed pim run faults user now suppressed g.sp c g.state r
      → first_row (has_sp_pk k) r.2.store.products ≡ some r.1
  row_after g c r row (j, _, sp_eq, rows_eq, _, _, _, _) =
      let same : save_pushed r.1 g.sp ≡ r.1 =
        subst (λ x. save_pushed x g.sp ≡ x) (sym sp_eq) refl in
      saved_row k g.sp (save_pushed r.1) g.state.store.products r.2.store.products (λ x. refl) row
        rows_eq
      ∙ ap (λ x. some x) same

  step-Tracked :
      (g : Progress) (c : String) (r : Product × SourceProduct × PimState)
      → Tracked g
      → mem_channel c g.done ≡ false
      → IsPushed pim run faults user now suppressed g.sp c g.state r
      → Tracked (stepped c g r)
  step-Tracked g c r t absent pushed =
      let (j, _, sp_eq, _, added, on, _, _) = pushed in
      record {
        row = row_after g c r t.row pushed;
        covers = λ d h.
            subst (λ (x : SourceProduct). mem_channel d x.pushed_to_channel_idxs ≡ true) (sym sp_eq)
              (mem_with c d g.sp.pushed_to_channel_idxs (
                or_mono (mem_channel d g.done) (mem_channel d g.sp.pushed_to_channel_idxs)
                  (str_eq c d) (t.covers d) (mem_end_inv c d g.done h)));
        added =
            added
            ∙ ap (λ ps. ps ++ r.0 ∷ []) t.added
            ∙ sym (append_assoc base g.products (r.0 ∷ []));
        fresh =
            All-append (λ (p : Product). mem_channel p.channel begun ≡ false) g.products (r.0 ∷ [])
              t.fresh
              (
                subst (λ d. mem_channel d begun ≡ false) (sym on)
                    (not_before begun g.done c (t.grown c) absent),
                tt,
              );
        grown = λ d h. mem_before c d g.done (t.grown d h);
      }

  -- What a loop leaves: the progress is tracked, nothing done is undone, and all its channels are
  -- done.
  abbrev Reached : List String → Progress → Progress → Type 0
  Reached cs g g' =
      Tracked g'
      × ((c : String) → mem_channel c g.done ≡ true → mem_channel c g'.done ≡ true)
      × All (λ c. mem_channel c g'.done ≡ true) cs

  channels-Reached :
      (profile : PushProfile) (cs : List String) (g g' : Progress)
      → Tracked g
      → push_channels pim run faults user now suppressed profile cs g ≡ ok g'
      → Reached cs g g'
  unfolding push_channels
  channels-Reached profile [] g g' t h = subst (Reached [] g) (ok_inj h) (t, (λ c m. m), tt)
  channels-Reached profile (c ∷ cs) g g' t h = elim (Bool-cases (mem_channel c g.done)) [
    | inl e ↦
        let (t', kept, all) = channels-Reached profile cs g g' t (rw (push_channels, e) at h) in
        (t', kept, (kept c e, all))
    | inr e ↦
        let (r, made, h1) =
          bind-ok (init_push_to_channel pim run faults user now suppressed g.sp profile c g.state)
            (rw (push_channels, e) at h) in
        let pushed =
          init_push-IsPushed pim run faults user now suppressed g.sp profile c g.state made in
        let (t', kept, all) =
          channels-Reached profile cs (stepped c g r) g' (step-Tracked g c r t e pushed) h1 in
        (t', (λ d m. kept d (mem_before c d g.done m)), (kept c (mem_end c g.done), all))
  ]

  abbrev AllReached : List PushProfile → Progress → Progress → Type 0
  AllReached ps g g' =
      Tracked g'
      × ((c : String) → mem_channel c g.done ≡ true → mem_channel c g'.done ≡ true)
      × All
          (λ (p : PushProfile).
            All (λ c. mem_channel c g'.done ≡ true) p.profile.target_channel_idxs)
          ps

  profiles-Reached :
      (ps : List PushProfile) (g g' : Progress)
      → Tracked g
      → push_profiles pim run faults user now suppressed ps g ≡ ok g'
      → AllReached ps g g'
  unfolding push_profiles
  profiles-Reached [] g g' t h = subst (AllReached [] g) (ok_inj h) (t, (λ c m. m), tt)
  profiles-Reached (p ∷ ps) g g' t h =
      let cs = p.profile.target_channel_idxs in
      let (next, made, h1) = bind-ok (push_channels pim run faults user now suppressed p cs g) h in
      let (t1, kept1, all1) = channels-Reached p cs g next t made in
      let (t2, kept2, all2) = profiles-Reached ps next g' t1 h1 in
      (
        t2,
        (λ c m. kept2 c (kept1 c m)),
        (
          All-map {P = λ c. mem_channel c next.done ≡ true} {Q = λ c. mem_channel c g'.done ≡ true}
              (λ c m. kept2 c m) cs all1,
          all2,
        ),
      )

  -- The row after the end of a push.
  finish-row :
      (g : Progress)
      → first_row (has_sp_pk k) g.state.store.products ≡ some g.sp
      → (sp : SourceProduct) × (first_row
            (has_sp_pk k)
            (finish_push pim run faults user now suppressed g).store.products
          ≡ some sp)
        × (is_pushed_status sp.status ≡ true)
        × (sp.pushed_to_channel_idxs ≡ g.sp.pushed_to_channel_idxs)
        × ((finish_push pim run faults user now suppressed g).products ≡ g.state.products)
  finish-row g row = elim (Bool-cases (status_eq g.sp.status (decide_post_push_status g.sp))) [
    | inl e ↦ (
      g.sp,
      rw e row,
      same_pushed g.sp.status (decide_post_push_status g.sp) e (decided_pushed g.sp),
      refl,
      rw e refl,
    )
    | inr e ↦
        let status = decide_post_push_status g.sp in
        (
          at_status status now g.sp,
          rw e (
              saved_row k g.sp (at_status status now) g.state.store.products
                (update_rows (has_sp_pk g.sp.pk) (at_status status now) g.state.store.products)
                (λ x. refl) row refl),
          decided_pushed g.sp,
          refl,
          rw e refl,
        )
  ]

module _ (pim : Catalogue) (run : Runtime) (faults : Faults) (user : Option ℕ) (now : ℕ)
    (suppressed : Bool) where
  -- What a push that returned left: the product was approved and its source ready; it is pushed now,
  -- and every channel of the source's active profiles is among those it was pushed to; PIM has the
  -- returned products more, each on a channel that the product had not been pushed to.
  pub push_source_product_lem :
      (profiles : List PushProfile) (k : ℕ) (p : PimState) {products : List Product} {p' : PimState}
      → push_source_product pim run faults user now suppressed profiles k p ≡ ok (products, p')
      → (sp : SourceProduct) × (sp' : SourceProduct) × (first_row (has_sp_pk k) p.store.products
          ≡ some sp)
        × (status_eq sp.status approved ≡ true)
        × (no_entries (preflight_check pim sp.source profiles) ≡ true)
        × (first_row (has_sp_pk k) p'.store.products ≡ some sp')
        × (is_pushed_status sp'.status ≡ true)
        × All
            (λ (q : PushProfile).
              All
                (λ c. mem_channel c sp'.pushed_to_channel_idxs ≡ true)
                q.profile.target_channel_idxs)
            (active_profiles_for sp.source profiles)
        × (p'.products ≡ p.products ++ products)
        × All (λ (q : Product). mem_channel q.channel sp.pushed_to_channel_idxs ≡ false) products
  unfolding push_source_product push_source_product_trusted
  push_source_product_lem profiles k p {products} {p'} h =
      let (sp, found, h1) =
        or_raise-ok (first_row (has_sp_pk k) p.store.products) product_not_found h in
      let (status, h2) = raise_if-ok (not (status_eq sp.status approved)) wrong_status h1 in
      let (ready, h3) =
        raise_if-ok (not (no_entries (preflight_check pim sp.source profiles))) preflight_failed
          h2 in
      let ps = active_profiles_for sp.source profiles in
      let g0 = begin sp p in
      let (g, made, h4) = bind-ok (push_profiles pim run faults user now suppressed ps g0) h3 in
      let (_, h5) = raise_if-ok faults.event_fails event_failed h4 in
      let start : IsTracked k p.products sp.pushed_to_channel_idxs g0 = record {
        row = found;
        covers = λ c m. m;
        added = sym (append_nil p.products);
        fresh = tt;
        grown = λ c m. m;
      } in
      let (t, _, all) =
        profiles-Reached pim run faults user now suppressed k p.products sp.pushed_to_channel_idxs
          ps g0 g start made in
      let (sp', row, is_pushed, same, left) =
        finish-row pim run faults user now suppressed k p.products sp.pushed_to_channel_idxs g
          t.row in
      let eq = ok_inj h5 in
      let finished = finish_push pim run faults user now suppressed g in
      let state_eq : finished ≡ p' = ap (λ (x : List Product × PimState). x.1) eq in
      let products_eq : g.products ≡ products = ap (λ (x : List Product × PimState). x.0) eq in
      (
        sp,
        sp',
        found,
        ground (arith, status),
        ground (arith, ready),
        subst (λ (q : PimState). first_row (has_sp_pk k) q.store.products ≡ some sp') state_eq row,
        is_pushed,
        All-covered ps g sp' t.covers same all,
        subst (λ (q : PimState). q.products ≡ p.products ++ products) state_eq
            (left ∙ t.added ∙ ap (λ qs. p.products ++ qs) products_eq),
        subst
            (λ qs.
              All (λ (q : Product). mem_channel q.channel sp.pushed_to_channel_idxs ≡ false) qs)
            products_eq t.fresh,
      )
