-- ===== src/Pim/Language.antt =====
-- The language of a push.
use entirius_django_atlas.Base.{
  ◌≡◌, ◌↔◌, ◌⊎◌, refl, inl, inr, true, false, Bool-cases, Option-cases, is_some, true≢false, sym,
}
use entirius_django_atlas.Model.{Source}
use entirius_django_atlas.Mapping.{SourceMappingProfile}
use entirius_django_atlas.Pim.{Catalogue, ChannelRow}
use entirius_django_atlas.Pim.Lookup.{speaks, resolve_language, resolve_language_for_channel}

-- The fallback is used exactly if the profile has no language of its own and the channel does not
-- have the source's; with it the language is the channel's default, and without it the language is
-- the one that `resolve_language` gives.
pub resolve_language_for_channel_lem :
    (pim : Catalogue) (profile : SourceMappingProfile) (source : Source) (channel : ChannelRow)
    → (((resolve_language_for_channel pim profile source channel).used_fallback ≡ true) ↔ (
        (is_some profile.import_language ≡ false)
        × (speaks channel source.default_language ≡ false)))
      × (((resolve_language_for_channel pim profile source channel).used_fallback ≡ true)
            × ((resolve_language_for_channel pim profile source channel).language
                ≡ channel.default_language)
          ⊎ ((resolve_language_for_channel pim profile source channel).used_fallback ≡ false)
            × ((resolve_language_for_channel pim profile source channel).language
                ≡ resolve_language pim profile source))
unfolding resolve_language_for_channel resolve_language
resolve_language_for_channel_lem pim profile source channel =
    elim (Option-cases profile.import_language) [
      | inr (k, e) ↦
          rw (resolve_language_for_channel, resolve_language, e)
            ((λ h. absurd (true≢false (sym h)), λ h. absurd (true≢false h.0)), inr (refl, refl))
      | inl e ↦ elim (Bool-cases (speaks channel source.default_language)) [
        | inl b ↦
            rw (resolve_language_for_channel, resolve_language, e, b)
              ((λ h. absurd (true≢false (sym h)), λ h. absurd (true≢false h.1)), inr (refl, refl))
        | inr b ↦
            rw (resolve_language_for_channel, resolve_language, e, b)
              ((λ h. (refl, refl), λ h. refl), inl (refl, refl))
      ]
    ]
