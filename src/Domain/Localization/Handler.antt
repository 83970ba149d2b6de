-- ===== src/Domain/Localization/Handler.antt =====
-- internal/localization/handler.go: the routes of the bundles over the service. encoding/json is a
-- parameter.
pub mod Replies
use central_config_stream.Prelude.{ℕ, Bool, Option, none, some, List}
use central_config_stream.Prelude.Int.{ℤ, pos}
use central_config_stream.Text.{Text, codes}
use central_config_stream.Text.Decimal.{parse_int}
use central_config_stream.Messaging.ConfigPublisher.{ConfigPublisher}
use central_config_stream.Web.{
  ApiRequest, Reply, sent, refused, failed, no_content, internal_server_error, Decoder, decode_json,
  parse_page, int64_param, reply_with, replied, deleted, with_id, on_id, on_body,
}
use central_config_stream.Domain.Localization
use central_config_stream.Domain.Localization.{
  LocalizationError, localization_not_found, invalid_localization_id, invalid_microservice_id,
  invalid_environment_id, invalid_locale, invalid_bundle_json, bundle_too_large,
  microservice_not_found, environment_not_found, localization_exists, conflict, database_error,
  Repository,
}

-- writeErr, which classifies every error of the domain
unfoldable pub write_err {ℓ} : {A : Type ℓ} → LocalizationError → Reply LocalizationError A
write_err invalid_localization_id = failed 400 invalid_localization_id
write_err invalid_microservice_id = failed 400 invalid_microservice_id
write_err invalid_environment_id = failed 400 invalid_environment_id
write_err invalid_locale = failed 400 invalid_locale
write_err invalid_bundle_json = failed 400 invalid_bundle_json
write_err bundle_too_large = failed 400 bundle_too_large
write_err localization_not_found = failed 404 localization_not_found
write_err microservice_not_found = failed 404 microservice_not_found
write_err environment_not_found = failed 404 environment_not_found
write_err conflict = failed 409 conflict
write_err localization_exists = failed 409 localization_exists
write_err database_error = internal_server_error

abbrev pub Row : Type 0
Row = Localization.Localization

module _ (P : ConfigPublisher) (repo : Repository) (valid : Text → Bool) where
  abbrev pub World : Type 0
  World = Localization.World P repo valid

  unfoldable pub get_localization_by_id : ApiRequest → World → Reply LocalizationError Row
  get_localization_by_id r w =
      with_id (parse_int (r.path_value (codes "id")))
        (λ id. reply_with write_err 200 (Localization.get_localization_by_id P repo valid id w))

  abbrev on_ids : ApiRequest → World → Option ℤ → Option ℤ → Reply LocalizationError Row
  on_ids r w none env = refused 400 (codes "invalid msId")
  on_ids r w (some ms) none = refused 400 (codes "invalid envId")
  on_ids r w (some ms) (some env) =
      reply_with write_err 200
        (Localization.get_localization P repo valid ms env (r.path_value (codes "locale")) w)

  unfoldable pub get_localization : ApiRequest → World → Reply LocalizationError Row
  get_localization r w =
      on_ids r w (parse_int (r.path_value (codes "msId")))
        (parse_int (r.path_value (codes "envId")))

  abbrev pub on_page :
      World → ApiRequest → Option (ℕ × ℕ) → Option ℕ → Option ℕ → Reply LocalizationError (List Row)
  on_page w r none ms env = refused 400 (codes "invalid query parameter")
  on_page w r (some page) none env = refused 400 (codes "invalid microserviceId")
  on_page w r (some page) (some ms) none = refused 400 (codes "invalid environmentId")
  on_page w r (some (limit, offset)) (some ms) (some env) = reply_with write_err 200 (
      Localization.list_localizations P repo valid
        (record {
          page = record { limit = pos limit; offset = pos offset };
          microservice_id = pos ms;
          environment_id = pos env;
          locale = r.query (codes "locale");
        })
        w)

  unfoldable pub list_localizations : ApiRequest → World → Reply LocalizationError (List Row)
  unfolding parse_page int64_param
  list_localizations r w =
      on_page w r (parse_page r) (int64_param r (codes "microserviceId"))
        (int64_param r (codes "environmentId"))

  abbrev pub Writes {ℓ} : Type ℓ → Type ℓ
  Writes A = Reply LocalizationError A × World

  unfoldable pub create_localization : Decoder Row → ApiRequest → World → Writes Row
  unfolding decode_json
  create_localization json r w =
      on_body (decode_json json r) w
        (λ req. replied write_err 201 (Localization.create_localization P repo valid req w))

  unfoldable pub update_localization : Decoder Row → ApiRequest → World → Writes Row
  unfolding decode_json
  update_localization json r w =
      on_body (decode_json json r) w
        (λ req. replied write_err 200 (Localization.update_localization P repo valid req w))

  unfoldable pub delete_localization : ApiRequest → World → Writes (Unit {0})
  delete_localization r w =
      on_id (parse_int (r.path_value (codes "id"))) w
        (λ id. deleted write_err (Localization.delete_localization P repo valid id w))
