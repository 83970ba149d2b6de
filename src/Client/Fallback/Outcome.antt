-- ===== src/Client/Fallback/Outcome.antt =====
-- When a pass of the HTTP fallback reports an error.
use central_config_stream.Prelude.{
  ◌+◌, ◌≤◌, ◌<◌, ◌≡◌, refl, ◌↔◌, false, Option, none, some, List, [], ◌∷◌, ◌++◌, ◌||◌, ◌&&◌, not,
  arith, Bool-cases, inl, inr, ◌==◌, All,
}
use central_config_stream.Prelude.Int.{ℤ, pos, int_beq, is_positive}
use central_config_stream.Prelude.Map.{Map}
use central_config_stream.Text.{Text}
use central_config_stream.Client.{Client, flag_value, service_settings, bundle}
use central_config_stream.Client.Endpoints.{
  HttpFallback, Http, FetchError, is_refused, validate, InvalidFallback, fetch_flag, fetch_config,
  fetch_localization,
}
use central_config_stream.Client.Fallback.{
  Hydration, hydrate, hydrate_all, hydrate_flags, hydrate_flag, hydrate_config, hydrate_locales,
  hydrate_locale, note, any_refused, count, conclude, hydrate_valid, is_cached,
}

count-append : (xs ys : List FetchError) → count (xs ++ ys) ≡ count xs + count ys
count-append [] ys = omega arith
count-append (x ∷ xs) ys = omega (arith, count-append xs ys)

any_refused_iff :
    (es : List FetchError) → (any_refused es ≡ false) ↔ All (λ e. is_refused e ≡ false) es
any_refused_iff es = (to es, from es)
  where
    to : (es : List FetchError) → any_refused es ≡ false → All (λ e. is_refused e ≡ false) es
    to [] h = tt
    to (e ∷ es) h = (ground arith, to es (ground arith))

    from : (es : List FetchError) → All (λ e. is_refused e ≡ false) es → any_refused es ≡ false
    from [] h = refl
    from (e ∷ es) (h, k) = rw h (from es k)

module _ (http : Http) (f : HttpFallback) where
  -- no more fetches failed than were made
  abbrev Counted : Hydration http f → Type 0
  Counted h = count h.errs ≤ h.attempted

  note-Counted :
      (h : Hydration http f) (out : Option FetchError × Client × http.World)
      → Counted h
      → Counted (note http f h out)
  note-Counted h (none, c, w) k = omega arith
  note-Counted h (some e, c, w) k = omega (arith, count-append h.errs (e ∷ []))

  hydrate_flags-Counted :
      (ids : Map Text ℤ) (h : Hydration http f) → Counted h → Counted (hydrate_flags http f ids h)
  unfolding hydrate_flags
  hydrate_flags-Counted [] h k = k
  hydrate_flags-Counted ((flag, id) ∷ ids) h k =
      hydrate_flags-Counted ids (hydrate_flag http f h flag id)
        (elim (Bool-cases (is_cached (flag_value h.client flag))) [
          | inl old ↦ rw old k
          | inr new ↦ rw new (note-Counted h (fetch_flag http f h.client flag id h.world) k)
        ])

  hydrate_locales-Counted :
      (locales : List Text) (h : Hydration http f)
      → Counted h
      → Counted (hydrate_locales http f locales h)
  unfolding hydrate_locales
  hydrate_locales-Counted [] h k = k
  hydrate_locales-Counted (locale ∷ locales) h k =
      hydrate_locales-Counted locales (hydrate_locale http f h locale)
        (elim (Bool-cases (is_cached (bundle h.client h.client.ms_id locale))) [
          | inl old ↦ rw old k
          | inr new ↦ rw new (note-Counted h (fetch_localization http f h.client locale h.world) k)
        ])

  hydrate_config-Counted : (h : Hydration http f) → Counted h → Counted (hydrate_config http f h)
  unfolding hydrate_config
  hydrate_config-Counted h k =
      elim (Bool-cases (
        is_positive f.config_value_id
        && (not (is_cached (service_settings h.client h.client.ms_id).0)
            || int_beq h.client.ms_id (pos 0)))) [
              | inl new ↦ rw new (note-Counted h (fetch_config http f h.client h.world) k)
              | inr old ↦ rw old k
            ]

  hydrate_all-Counted : (c : Client) (w : http.World) → Counted (hydrate_all http f c w)
  unfolding hydrate_all
  hydrate_all-Counted c w =
      let start : Hydration http f = record { attempted = 0; errs = []; client = c; world = w } in
      let second = hydrate_config http f (hydrate_flags http f f.flag_value_ids start) in
      let counted =
        hydrate_config-Counted (hydrate_flags http f f.flag_value_ids start)
          (hydrate_flags-Counted f.flag_value_ids start (omega arith)) in
      elim (Bool-cases (is_positive second.client.ms_id)) [
        | inl scoped ↦ rw scoped (hydrate_locales-Counted f.locales second counted)
        | inr fleet ↦ rw fleet counted
      ]

  conclude_iff :
      (h : Hydration http f)
      → Counted h
      → ((conclude http f h).0 ≡ none)
        ↔ ((count h.errs < h.attempted) × All (λ e. is_refused e ≡ false) h.errs)
  conclude_iff h k = (to, from)
    where
      to :
          (conclude http f h).0 ≡ none
          → (count h.errs < h.attempted) × All (λ e. is_refused e ≡ false) h.errs
      to e = elim (Bool-cases (h.attempted == 0)) [
        | inl nothing ↦ cc (rw nothing at e)
        | inr tried ↦ elim (Bool-cases (any_refused h.errs || count h.errs == h.attempted)) [
          | inl bad ↦ cc (rw (tried, bad) at e)
          | inr good ↦ (ground arith, (any_refused_iff h.errs).0 (ground arith))
        ]
      ]

      from :
          (count h.errs < h.attempted) × All (λ e. is_refused e ≡ false) h.errs
          → (conclude http f h).0 ≡ none
      from (some_, all) =
          let none_refused : any_refused h.errs ≡ false = (any_refused_iff h.errs).1 all in
          let tried : (h.attempted == 0) ≡ false = ground arith in
          let fewer : (count h.errs == h.attempted) ≡ false = ground arith in
          rw (tried, none_refused, fewer) refl

  -- A pass reports no error exactly when its configuration is valid, one of its fetches succeeded, and none
  -- was answered with 401 or 403.
  pub hydrate-none_iff :
      (c : Client) (w : http.World)
      → ((hydrate http f c w).0 ≡ none) ↔ (
          (validate f ≡ none)
          × (count (hydrate_all http f c w).errs < (hydrate_all http f c w).attempted)
          × All (λ e. is_refused e ≡ false) (hydrate_all http f c w).errs)
  unfolding hydrate
  hydrate-none_iff c w = go (validate f)
    where
      all_iff : ((conclude http f (hydrate_all http f c w)).0 ≡ none) ↔ (
          (count (hydrate_all http f c w).errs < (hydrate_all http f c w).attempted)
          × All (λ e. is_refused e ≡ false) (hydrate_all http f c w).errs)
      all_iff = conclude_iff (hydrate_all http f c w) (hydrate_all-Counted c w)

      go :
          (o : Option InvalidFallback)
          → ((hydrate_valid http f c w o).0 ≡ none) ↔ (
              (o ≡ none)
              × (count (hydrate_all http f c w).errs < (hydrate_all http f c w).attempted)
              × All (λ e. is_refused e ≡ false) (hydrate_all http f c w).errs)
      go (some x) = (λ e. cc, λ h. cc)
      go none = (λ e. (refl, (all_iff.0 e).0, (all_iff.0 e).1), λ h. all_iff.1 (h.1, h.2))
