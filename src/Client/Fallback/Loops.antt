-- ===== src/Client/Fallback/Loops.antt =====
-- What the loops of the HTTP fallback have cached when none of their fetches failed.
use central_config_stream.Prelude.{
  ◌≡◌, refl, ◌≢◌, true, not, Option, none, some, List, [], ◌∷◌, ◌++◌, ◌&&◌, ◌||◌, arith, Bool-cases,
  inl, inr, ◌∙◌,
}
use central_config_stream.Prelude.Int.{ℤ, pos, int_beq, int_beq_iff, int_eq, is_positive}
use central_config_stream.Prelude.Map.{Map, lookup, insert, lookup-insert_self}
use central_config_stream.Text.{Text, text_eq, text_beq_iff}
use central_config_stream.Messaging.Publisher.{FlagPayload}
use central_config_stream.Client.{Client, in_scope, bundle, flag_value, service_settings, value_of}
use central_config_stream.Client.Apply.{bundle-put_bundle}
use central_config_stream.Client.Endpoints.{
  HttpFallback, Http, fetch_flag, fetch_config, fetch_localization, store_flag, store_config,
  store_localization, Got, got, missed, FlagValueResponse, FetchError, ConfigValueResponse,
  LocalizationResponse,
}
use central_config_stream.Client.Fallback.{
  Hydration, hydrate_flags, hydrate_flag, hydrate_config, hydrate_locales, hydrate_locale, note,
  is_cached,
}
use central_config_stream.Client.Fallback.Keeps.{hydrate_flags-Kept, hydrate_locales-Kept}

abbrev pub HasFlag : Client → Text → Type 0
HasFlag c flag = (p : FlagPayload) × (lookup flag c.flags ≡ some p)

abbrev pub HasBundle : Client → Text → Type 0
HasBundle c locale = (b : Text) × (bundle c c.ms_id locale ≡ some b)

abbrev pub HasSettings : Client → Type 0
HasSettings c = (b : Text) × (lookup c.ms_id c.micro ≡ some b)

abbrev pub AllFlags : Client → Map Text ℤ → Type 0
AllFlags c [] = Unit
AllFlags c ((flag, id) ∷ ids) = HasFlag c flag × AllFlags c ids

abbrev pub AllBundles : Client → List Text → Type 0
AllBundles c [] = Unit
AllBundles c (locale ∷ locales) = HasBundle c locale × AllBundles c locales

store_flag-Has :
    (c : Client) (flag : Text) (a : Got FlagValueResponse)
    → (store_flag c flag a).0 ≡ none
    → HasFlag (store_flag c flag a).1 flag
store_flag-Has c flag (missed e) h = cc
store_flag-Has c flag (got r) h = elim (Bool-cases (int_beq r.environment_id c.env)) [
  | inr other ↦ cc
  | inl same ↦ rw same (_, lookup-insert_self flag _ c.flags)
]

own_scope : (c : Client) (ms : ℤ) → c.ms_id ≢ pos 0 → in_scope c ms ≡ true → c.ms_id ≡ ms
unfolding in_scope
own_scope c ms scoped h = ground (arith, int_beq_iff c.ms_id (pos 0), int_beq_iff c.ms_id ms)

store_config-Has :
    (c : Client) (a : Got ConfigValueResponse)
    → c.ms_id ≢ pos 0
    → (store_config c a).0 ≡ none
    → HasSettings (store_config c a).1
store_config-Has c (missed e) scoped h = cc
store_config-Has c (got r) scoped h = elim (Bool-cases (int_beq r.environment_id c.env)) [
  | inr other ↦ cc
  | inl same ↦ elim (Bool-cases (in_scope c r.microservice_id)) [
    | inr outside ↦ cc (rw (same, outside) at h)
    | inl inside ↦ rw (same, inside) (r.settings_json, own inside)
  ]
]
  where
    own :
        in_scope c r.microservice_id ≡ true
        → lookup c.ms_id (insert r.microservice_id r.settings_json c.micro) ≡ some r.settings_json
    own inside =
        rw (own_scope c r.microservice_id scoped inside)
          (lookup-insert_self r.microservice_id r.settings_json c.micro)

store_localization-Has :
    (c : Client) (locale : Text) (a : Got LocalizationResponse)
    → (store_localization c locale a).0 ≡ none
    → HasBundle (store_localization c locale a).1 locale
store_localization-Has c locale (missed e) h = cc
store_localization-Has c locale (got r) h = (
  r.bundle_json,
  bundle-put_bundle c c.ms_id locale (some r.bundle_json) c.ms_id locale
      ∙ ground (arith, int_beq_iff c.ms_id c.ms_id, text_beq_iff locale locale),
)

cached_flag : (c : Client) (flag : Text) → is_cached (flag_value c flag) ≡ true → HasFlag c flag
unfolding flag_value
cached_flag c flag h = go (lookup flag c.flags) h
  where
    go : (o : Option FlagPayload) → is_cached (value_of o) ≡ true → (p : FlagPayload) × (o ≡ some p)
    go none k = cc
    go (some p) k = (p, refl)

cached_value {ℓ} : {V : Type ℓ} (o : Option V) → is_cached o ≡ true → (v : V) × (o ≡ some v)
cached_value none k = cc
cached_value (some v) k = (v, refl)

module _ (http : Http) (f : HttpFallback) where
  abbrev pub Clean : Hydration http f → Type 0
  Clean h = h.errs ≡ []

  note-Clean :
      (h : Hydration http f) (out : Option FetchError × Client × http.World)
      → Clean (note http f h out)
      → Clean h × (out.0 ≡ none) × ((note http f h out).client ≡ out.1)
  note-Clean h (none, c, w) e = (e, refl, refl)
  note-Clean h (some x, c, w) e = absurd (no_last h.errs e)
    where
      no_last : (xs : List FetchError) → xs ++ x ∷ [] ≢ []
      no_last [] k = cc
      no_last (y ∷ ys) k = cc

  fetch_flag-Has :
      (c : Client) (flag : Text) (id : ℤ) (w : http.World)
      → (fetch_flag http f c flag id w).0 ≡ none
      → HasFlag (fetch_flag http f c flag id w).1 flag
  unfolding fetch_flag
  fetch_flag-Has c flag id w h = store_flag-Has c flag _ h

  fetch_config-Has :
      (c : Client) (w : http.World)
      → c.ms_id ≢ pos 0
      → (fetch_config http f c w).0 ≡ none
      → HasSettings (fetch_config http f c w).1
  unfolding fetch_config
  fetch_config-Has c w scoped h = store_config-Has c _ scoped h

  fetch_localization-Has :
      (c : Client) (locale : Text) (w : http.World)
      → (fetch_localization http f c locale w).0 ≡ none
      → HasBundle (fetch_localization http f c locale w).1 locale
  unfolding fetch_localization
  fetch_localization-Has c locale w h = store_localization-Has c locale _ h

  hydrate_flag-Has :
      (h : Hydration http f) (flag : Text) (id : ℤ)
      → Clean (hydrate_flag http f h flag id)
      → Clean h × HasFlag (hydrate_flag http f h flag id).client flag
  hydrate_flag-Has h flag id e = elim (Bool-cases (is_cached (flag_value h.client flag))) [
    | inl old ↦ rw old (rw old at e, cached_flag h.client flag old)
    | inr new ↦
        let (before, fine, same) =
          note-Clean h (fetch_flag http f h.client flag id h.world) (rw new at e) in
        rw (new, same) (before, fetch_flag-Has h.client flag id h.world fine)
  ]

  pub hydrate_flags-All :
      (ids : Map Text ℤ) (h : Hydration http f)
      → Clean (hydrate_flags http f ids h)
      → Clean h × AllFlags (hydrate_flags http f ids h).client ids
  unfolding hydrate_flags
  hydrate_flags-All [] h e = (e, tt)
  hydrate_flags-All ((flag, id) ∷ ids) h e =
      let mid = hydrate_flag http f h flag id in
      let (clean, rest) = hydrate_flags-All ids mid e in
      let (before, (p, there)) = hydrate_flag-Has h flag id clean in
      (before, ((p, (hydrate_flags-Kept http f ids mid).flags flag p there), rest))

  hydrate_locale-Has :
      (h : Hydration http f) (locale : Text)
      → Clean (hydrate_locale http f h locale)
      → Clean h × HasBundle (hydrate_locale http f h locale).client locale
  hydrate_locale-Has h locale e =
      elim (Bool-cases (is_cached (bundle h.client h.client.ms_id locale))) [
        | inl old ↦ rw old (rw old at e, cached_value (bundle h.client h.client.ms_id locale) old)
        | inr new ↦
            let (before, fine, same) =
              note-Clean h (fetch_localization http f h.client locale h.world) (rw new at e) in
            rw (new, same) (before, fetch_localization-Has h.client locale h.world fine)
      ]

  pub hydrate_locales-All :
      (locales : List Text) (h : Hydration http f)
      → Clean (hydrate_locales http f locales h)
      → Clean h × AllBundles (hydrate_locales http f locales h).client locales
  unfolding hydrate_locales
  hydrate_locales-All [] h e = (e, tt)
  hydrate_locales-All (locale ∷ locales) h e =
      let mid = hydrate_locale http f h locale in
      let (clean, rest) = hydrate_locales-All locales mid e in
      let (before, (b, there)) = hydrate_locale-Has h locale clean in
      let kept = hydrate_locales-Kept http f locales mid in
      (before, ((b, rw kept.ms_id (kept.bundles mid.client.ms_id locale b there)), rest))

  -- after the step for the settings they are cached, if they are configured for a client of one service
  pub hydrate_config-Has :
      (h : Hydration http f)
      → Clean (hydrate_config http f h)
      → Clean h
        × (is_positive f.config_value_id ≡ true
            → h.client.ms_id ≢ pos 0
            → HasSettings (hydrate_config http f h).client)
  unfolding hydrate_config service_settings in_scope
  hydrate_config-Has h e =
      elim (Bool-cases (
        is_positive f.config_value_id
        && (not (is_cached (service_settings h.client h.client.ms_id).0)
            || int_beq h.client.ms_id (pos 0)))) [
              | inl new ↦
                  let (before, fine, same) =
                    note-Clean h (fetch_config http f h.client h.world) (rw new at e) in
                  rw (new, same)
                    (before, λ configured scoped. fetch_config-Has h.client h.world scoped fine)
              | inr old ↦ rw old (
                rw old at e,
                λ configured scoped. cached_value (lookup h.client.ms_id h.client.micro) (
                    ground (
                      arith,
                      int_beq_iff h.client.ms_id (pos 0),
                      int_beq_iff h.client.ms_id h.client.ms_id,
                    )),
              )
            ]
