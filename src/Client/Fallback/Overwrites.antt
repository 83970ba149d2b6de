-- ===== src/Client/Fallback/Overwrites.antt =====
-- The fetch of the settings for a fleet-wide client.
use central_config_stream.Prelude.{
  ◌≡◌, refl, true, not, Option, none, some, ◌&&◌, ◌||◌, arith, ◌++◌, ◌∙◌, ap,
}
use central_config_stream.Prelude.Int.{pos, int_beq, int_beq_iff, int_eq, is_positive}
use central_config_stream.Prelude.Map.{lookup, lookup-insert}
use central_config_stream.Text.{codes, text_eq}
use central_config_stream.Text.Decimal.{format_int}
use central_config_stream.Client.{Client, in_scope, service_settings}
use central_config_stream.Client.Endpoints.{
  HttpFallback, Http, fetch_config, store_config, got, FetchError, get, ConfigValueResponse,
}
use central_config_stream.Client.Fallback.{Hydration, hydrate_config, note, is_cached}

module _ (http : Http) (f : HttpFallback) where
  store_config-stores :
      (c : Client) (r : ConfigValueResponse)
      → c.ms_id ≡ pos 0
      → r.environment_id ≡ c.env
      → lookup r.microservice_id (store_config c (got r)).1.micro ≡ some r.settings_json
  unfolding in_scope
  store_config-stores c r fleet same = ground (
    arith,
    int_beq_iff r.environment_id c.env,
    int_beq_iff c.ms_id (pos 0),
    lookup-insert r.microservice_id r.microservice_id r.settings_json c.micro,
    int_beq_iff r.microservice_id r.microservice_id,
  )

  fetch_config-stores :
      (c : Client) (w : http.World) (r : ConfigValueResponse)
      → c.ms_id ≡ pos 0
      → (get http f http.config_value
          (codes "/configs/values/" ++ format_int f.config_value_id)
          w).0
        ≡ got r
      → r.environment_id ≡ c.env
      → lookup r.microservice_id (fetch_config http f c w).1.micro ≡ some r.settings_json
  unfolding fetch_config
  fetch_config-stores c w r fleet found same =
      ap (λ a. lookup r.microservice_id (store_config c a).1.micro) found
      ∙ store_config-stores c r fleet same

  note-client :
      (h : Hydration http f) (out : Option FetchError × Client × http.World)
      → (note http f h out).client ≡ out.1
  note-client h (none, c, w) = refl
  note-client h (some e, c, w) = refl

  -- For a fleet-wide client the settings are fetched whether or not they are cached, and the settings that
  -- are answered replace those that JetStream has delivered.
  pub hydrate_config-overwrites :
      (h : Hydration http f) (r : ConfigValueResponse)
      → h.client.ms_id ≡ pos 0
      → is_positive f.config_value_id ≡ true
      → (get http f http.config_value
          (codes "/configs/values/" ++ format_int f.config_value_id)
          h.world).0
        ≡ got r
      → r.environment_id ≡ h.client.env
      → lookup r.microservice_id (hydrate_config http f h).client.micro ≡ some r.settings_json
  unfolding hydrate_config
  hydrate_config-overwrites h r fleet configured found same =
      let asks : (is_positive f.config_value_id
            && (not (is_cached (service_settings h.client h.client.ms_id).0)
                || int_beq h.client.ms_id (pos 0)))
          ≡ true =
        ground (arith, int_beq_iff h.client.ms_id (pos 0)) in
      rw asks (
        ap (λ c. lookup r.microservice_id c.micro)
          (note-client h (fetch_config http f h.client h.world))
        ∙ fetch_config-stores h.client h.world r fleet found same)
