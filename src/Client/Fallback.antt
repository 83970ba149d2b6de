-- ===== src/Client/Fallback.antt =====
-- pkg/configclient/httpfallback.go: filling the caches over HTTP when JetStream cannot, and whether that is
-- due.
pub mod Stores
pub mod Keeps
pub mod Overwrites
pub mod Outcome
pub mod Loops
pub mod Fills
mod Tests
use central_config_stream.Prelude.{
  ℕ, suc, ◌<◌, Bool, true, false, not, ◌&&◌, ◌||◌, Option, none, some, List, [], ◌∷◌, ◌++◌, leb,
  ltb, ◌==◌, if◌then◌else◌, all,
}
use central_config_stream.Prelude.Int.{ℤ, pos, int_beq, int_eq, is_positive}
use central_config_stream.Prelude.Map.{Map, lookup, insert}
use central_config_stream.Text.{Text, codes, text_eq, is_empty, trim_space, trim_right}
use central_config_stream.Text.Decimal.{format_int}
use central_config_stream.Text.Utf8.{path_escape}
use central_config_stream.Messaging.Publisher.{FlagPayload}
use central_config_stream.Client.{
  Client, in_scope, bundle, flag_value, service_settings, bundles_or_empty,
}
use central_config_stream.Client.Endpoints.{
  HttpFallback, InvalidFallback, validate, Http, FetchError, is_refused, fetch_flag, fetch_config,
  fetch_localization,
}

abbrev pub is_cached {ℓ} : {V : Type ℓ} → Option V → Bool
is_cached none = false
is_cached (some v) = true

pub data HydrateError : Type 0 where
  invalid : InvalidFallback → HydrateError
  no_targets : HydrateError
  hydrate_failed : List FetchError → HydrateError

abbrev pub any_refused : List FetchError → Bool
any_refused [] = false
any_refused (e ∷ es) = is_refused e || any_refused es

abbrev pub count : List FetchError → ℕ
count [] = 0
count (e ∷ es) = suc (count es)

module _ (http : Http) (f : HttpFallback) where
  -- the state of hydrate: how many fetches were made, and the errors of those that failed
  pub record Hydration : Type 0 where
    pub attempted : ℕ
    pub errs : List FetchError
    pub client : Client
    pub world : http.World

  -- the closure `ok`
  abbrev pub note : Hydration → Option FetchError × Client × http.World → Hydration
  note h (none, c, w) = record h { attempted = suc h.attempted; client = c; world = w }
  note h (some e, c, w) = record {
    attempted = suc h.attempted;
    errs = h.errs ++ e ∷ [];
    client = c;
    world = w;
  }

  abbrev pub hydrate_flag : Hydration → Text → ℤ → Hydration
  hydrate_flag h flag id =
      if is_cached (flag_value h.client flag)
      then h
      else note h (fetch_flag http f h.client flag id h.world)

  unfoldable pub hydrate_flags : Map Text ℤ → Hydration → Hydration
  unfolding fetch_flag flag_value
  hydrate_flags [] h = h
  hydrate_flags ((flag, id) ∷ ids) h = hydrate_flags ids (hydrate_flag h flag id)

  unfoldable pub hydrate_config : Hydration → Hydration
  unfolding fetch_config service_settings
  hydrate_config h =
      if is_positive f.config_value_id
        && (not (is_cached (service_settings h.client h.client.ms_id).0)
            || int_beq h.client.ms_id (pos 0))
      then note h (fetch_config http f h.client h.world)
      else h

  abbrev pub hydrate_locale : Hydration → Text → Hydration
  hydrate_locale h locale =
      if is_cached (bundle h.client h.client.ms_id locale)
      then h
      else note h (fetch_localization http f h.client locale h.world)

  unfoldable pub hydrate_locales : List Text → Hydration → Hydration
  unfolding fetch_localization bundle
  hydrate_locales [] h = h
  hydrate_locales (locale ∷ locales) h = hydrate_locales locales (hydrate_locale h locale)

  unfoldable pub hydrate_all : Client → http.World → Hydration
  unfolding hydrate_flags hydrate_config hydrate_locales
  hydrate_all c w =
      let start : Hydration = record { attempted = 0; errs = []; client = c; world = w } in
      let h = hydrate_config (hydrate_flags f.flag_value_ids start) in
      if is_positive h.client.ms_id then hydrate_locales f.locales h else h

  abbrev pub mark_used : Hydration → Client
  mark_used h =
      if ltb (count h.errs) h.attempted then record h.client { http_used = true } else h.client

  abbrev pub conclude : Hydration → Option HydrateError × Client × http.World
  conclude h = if h.attempted == 0 then (some no_targets, h.client, h.world) else (
    (if any_refused h.errs || count h.errs == h.attempted
        then some (hydrate_failed h.errs)
        else none),
    mark_used h,
    h.world,
  )

  abbrev hydrate_valid :
      Client → http.World → Option InvalidFallback → Option HydrateError × Client × http.World
  hydrate_valid c w (some e) = (some (invalid e), c, w)
  hydrate_valid c w none = conclude (hydrate_all c w)

  unfoldable pub hydrate : Client → http.World → Option HydrateError × Client × http.World
  unfolding validate hydrate_all
  hydrate c w = hydrate_valid c w (validate f)

abbrev pub lacks_flag : Client → Map Text ℤ → Bool
lacks_flag c [] = false
lacks_flag c ((flag, id) ∷ ids) = not (is_cached (lookup flag c.flags)) || lacks_flag c ids

abbrev pub lacks_locale : Client → List Text → Bool
lacks_locale c [] = false
lacks_locale c (locale ∷ locales) =
    not (is_cached (bundle c c.ms_id locale)) || lacks_locale c locales

unfoldable pub missing_own_keys : HttpFallback → Client → Bool
unfolding bundle
missing_own_keys f c =
    (is_positive f.config_value_id
      && is_positive c.ms_id
      && not (is_cached (lookup c.ms_id c.micro)))
    || lacks_locale c f.locales
    || lacks_flag c f.flag_value_ids
