-- ===== src/Client/Fallback/Keeps.antt =====
-- What a pass of the HTTP fallback may change in the caches.
use central_config_stream.Prelude.{
  ◌≡◌, refl, ◌≢◌, false, not, Option, none, some, List, [], ◌∷◌, ◌&&◌, ◌||◌, arith, ltb, ◌==◌,
  Bool-cases, Option-cases, inl, inr,
}
use central_config_stream.Prelude.Int.{ℤ, pos, int_beq, int_beq_iff, int_eq, is_positive}
use central_config_stream.Prelude.Map.{Map, lookup}
use central_config_stream.Text.{Text, text_eq}
use central_config_stream.Client.{Client, in_scope, bundle, flag_value, service_settings}
use central_config_stream.Client.Endpoints.{
  HttpFallback, Http, fetch_flag, fetch_config, fetch_localization, FetchError, validate,
  InvalidFallback,
}
use central_config_stream.Client.Fallback.{
  Hydration, hydrate, hydrate_all, hydrate_flags, hydrate_flag, hydrate_config, hydrate_locales,
  hydrate_locale, note, is_cached, mark_used, conclude, count, hydrate_valid,
}
use central_config_stream.Client.Fallback.Stores.{
  Kept, Kept-refl, Kept-trans, store_flag-Kept, store_config-Kept, store_localization-Kept,
}

module _ (http : Http) (f : HttpFallback) where
  abbrev pub Step : Hydration http f → Hydration http f → Type 0
  Step before after = Kept before.client after.client

  note-Kept :
      (h : Hydration http f) (out : Option FetchError × Client × http.World)
      → Kept h.client out.1
      → Step h (note http f h out)
  note-Kept h (none, c, w) k = k
  note-Kept h (some e, c, w) k = k

  fetch_flag-Kept :
      (c : Client) (flag : Text) (id : ℤ) (w : http.World)
      → is_cached (flag_value c flag) ≡ false
      → Kept c (fetch_flag http f c flag id w).1
  unfolding fetch_flag
  fetch_flag-Kept c flag id w new = store_flag-Kept c flag _ new

  fetch_config-Kept :
      (c : Client) (w : http.World)
      → (c.ms_id ≢ pos 0 → lookup c.ms_id c.micro ≡ none)
      → Kept c (fetch_config http f c w).1
  unfolding fetch_config
  fetch_config-Kept c w new = store_config-Kept c _ new

  fetch_localization-Kept :
      (c : Client) (locale : Text) (w : http.World)
      → is_cached (bundle c c.ms_id locale) ≡ false
      → Kept c (fetch_localization http f c locale w).1
  unfolding fetch_localization
  fetch_localization-Kept c locale w new = store_localization-Kept c locale _ new

  hydrate_flag-Kept :
      (h : Hydration http f) (flag : Text) (id : ℤ) → Step h (hydrate_flag http f h flag id)
  hydrate_flag-Kept h flag id = elim (Bool-cases (is_cached (flag_value h.client flag))) [
    | inl old ↦ rw old (Kept-refl h.client)
    | inr new ↦ rw new (note-Kept h _ (fetch_flag-Kept h.client flag id h.world new))
  ]

  pub hydrate_flags-Kept :
      (ids : Map Text ℤ) (h : Hydration http f) → Step h (hydrate_flags http f ids h)
  unfolding hydrate_flags
  hydrate_flags-Kept [] h = Kept-refl h.client
  hydrate_flags-Kept ((flag, id) ∷ ids) h =
      Kept-trans (hydrate_flag-Kept h flag id)
        (hydrate_flags-Kept ids (hydrate_flag http f h flag id))

  pub own_absent :
      (c : Client)
      → c.ms_id ≢ pos 0
      → is_cached (service_settings c c.ms_id).0 ≡ false
      → lookup c.ms_id c.micro ≡ none
  unfolding service_settings in_scope
  own_absent c scoped h =
      ground (arith, int_beq_iff c.ms_id c.ms_id, Option-cases (lookup c.ms_id c.micro))

  pub hydrate_config-Kept : (h : Hydration http f) → Step h (hydrate_config http f h)
  unfolding hydrate_config
  hydrate_config-Kept h =
      elim (Bool-cases (
        is_positive f.config_value_id
        && (not (is_cached (service_settings h.client h.client.ms_id).0)
            || int_beq h.client.ms_id (pos 0)))) [
              | inr old ↦ rw old (Kept-refl h.client)
              | inl new ↦ rw new (
                  note-Kept h _ (
                    fetch_config-Kept h.client h.world (λ scoped.
                      own_absent h.client scoped
                        (ground (arith, int_beq_iff h.client.ms_id (pos 0))))))
            ]

  hydrate_locale-Kept :
      (h : Hydration http f) (locale : Text) → Step h (hydrate_locale http f h locale)
  hydrate_locale-Kept h locale =
      elim (Bool-cases (is_cached (bundle h.client h.client.ms_id locale))) [
        | inl old ↦ rw old (Kept-refl h.client)
        | inr new ↦ rw new (note-Kept h _ (fetch_localization-Kept h.client locale h.world new))
      ]

  pub hydrate_locales-Kept :
      (locales : List Text) (h : Hydration http f) → Step h (hydrate_locales http f locales h)
  unfolding hydrate_locales
  hydrate_locales-Kept [] h = Kept-refl h.client
  hydrate_locales-Kept (locale ∷ locales) h =
      Kept-trans (hydrate_locale-Kept h locale)
        (hydrate_locales-Kept locales (hydrate_locale http f h locale))

  pub hydrate_all-Kept : (c : Client) (w : http.World) → Kept c (hydrate_all http f c w).client
  unfolding hydrate_all
  hydrate_all-Kept c w =
      let start : Hydration http f = record { attempted = 0; errs = []; client = c; world = w } in
      let first = hydrate_flags http f f.flag_value_ids start in
      let second = hydrate_config http f first in
      let kept =
        Kept-trans (hydrate_flags-Kept f.flag_value_ids start) (hydrate_config-Kept first) in
      elim (Bool-cases (is_positive second.client.ms_id)) [
        | inl scoped ↦ rw scoped (Kept-trans kept (hydrate_locales-Kept f.locales second))
        | inr fleet ↦ rw fleet kept
      ]

  pub mark_used-Kept : (h : Hydration http f) → Kept h.client (mark_used http f h)
  unfolding bundle
  mark_used-Kept h = elim (Bool-cases (ltb (count h.errs) h.attempted)) [
    | inr all ↦ rw all (Kept-refl h.client)
    | inl some_ ↦ rw some_ (record {
      env = refl;
      ms_id = refl;
      watch = refl;
      flags = λ j p k. k;
      bundles = λ ms locale b k. k;
      micro = λ scoped ms settings k. k;
    })
  ]

  pub conclude-Kept : (h : Hydration http f) → Kept h.client (conclude http f h).1
  conclude-Kept h = elim (Bool-cases (h.attempted == 0)) [
    | inl nothing ↦ rw nothing (Kept-refl h.client)
    | inr tried ↦ rw tried (mark_used-Kept h)
  ]

  -- A pass of the fallback, whatever is answered and whether or not it reports an error, leaves the client's
  -- scope and every cached flag and bundle as they were, and for a client of one microservice the cached
  -- settings too.
  pub hydrate-Kept : (c : Client) (w : http.World) → Kept c (hydrate http f c w).1
  unfolding hydrate
  hydrate-Kept c w = go (validate f)
    where
      go : (o : Option InvalidFallback) → Kept c (hydrate_valid http f c w o).1
      go (some e) = Kept-refl c
      go none = Kept-trans (hydrate_all-Kept c w) (conclude-Kept (hydrate_all http f c w))
