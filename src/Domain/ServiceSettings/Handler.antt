-- ===== src/Domain/ServiceSettings/Handler.antt =====
-- internal/servicesettings/handler.go: the routes of the settings, the microservices and the environments
-- over the service. encoding/json is a parameter.
pub mod Replies
use central_config_stream.Prelude.{ℕ, Bool, Option, none, some, List}
use central_config_stream.Prelude.Int.{ℤ, pos}
use central_config_stream.Prelude.Result.{Result}
use central_config_stream.Text.{Text, codes}
use central_config_stream.Text.Decimal.{parse_int}
use central_config_stream.Messaging.ConfigPublisher.{ConfigPublisher}
use central_config_stream.Web.{
  ApiRequest, Reply, sent, refused, failed, no_content, internal_server_error, Decoder, decode_json,
  parse_page, int64_param, reply_with, replied, deleted, with_id, on_id, on_body,
}
use central_config_stream.Domain.{Page}
use central_config_stream.Domain.ServiceSettings
use central_config_stream.Domain.ServiceSettings.{
  SettingsError, config_not_found, invalid_config_id, invalid_microservice_id,
  invalid_environment_id, invalid_settings_json, settings_too_large, microservice_not_found,
  environment_not_found, invalid_microservice_name, invalid_environment_name, microservice_exists,
  environment_exists, config_exists, microservice_in_use, environment_in_use, conflict,
  database_error, Reference, MicroserviceAppSettings, Repository,
}

-- writeErr, which classifies every error of the domain
unfoldable pub write_err {ℓ} : {A : Type ℓ} → SettingsError → Reply SettingsError A
write_err invalid_config_id = failed 400 invalid_config_id
write_err invalid_microservice_id = failed 400 invalid_microservice_id
write_err invalid_environment_id = failed 400 invalid_environment_id
write_err invalid_settings_json = failed 400 invalid_settings_json
write_err settings_too_large = failed 400 settings_too_large
write_err invalid_microservice_name = failed 400 invalid_microservice_name
write_err invalid_environment_name = failed 400 invalid_environment_name
write_err config_not_found = failed 404 config_not_found
write_err microservice_not_found = failed 404 microservice_not_found
write_err environment_not_found = failed 404 environment_not_found
write_err conflict = failed 409 conflict
write_err config_exists = failed 409 config_exists
write_err microservice_exists = failed 409 microservice_exists
write_err environment_exists = failed 409 environment_exists
write_err microservice_in_use = failed 409 microservice_in_use
write_err environment_in_use = failed 409 environment_in_use
write_err database_error = internal_server_error

module _ (P : ConfigPublisher) (repo : Repository) (valid : Text → Bool) where
  abbrev pub World : Type 0
  World = ServiceSettings.World P repo valid

  unfoldable pub get_microservice_config :
      ApiRequest → World → Reply SettingsError MicroserviceAppSettings
  get_microservice_config r w =
      with_id (parse_int (r.path_value (codes "id")))
        (λ id. reply_with write_err 200 (ServiceSettings.get_config_by_id P repo valid id w))

  unfoldable pub get_microservice : ApiRequest → World → Reply SettingsError Reference
  get_microservice r w =
      with_id (parse_int (r.path_value (codes "id")))
        (λ id. reply_with write_err 200 (ServiceSettings.get_microservice_by_id P repo valid id w))

  abbrev pub on_page :
      World
      → ApiRequest
      → Option (ℕ × ℕ)
      → Option ℕ
      → Option ℕ
      → Reply SettingsError (List MicroserviceAppSettings)
  on_page w r none ms env = refused 400 (codes "invalid query parameter")
  on_page w r (some page) none env = refused 400 (codes "invalid microserviceId")
  on_page w r (some page) (some ms) none = refused 400 (codes "invalid environmentId")
  on_page w r (some (limit, offset)) (some ms) (some env) = reply_with write_err 200 (
      ServiceSettings.list_configs P repo valid
        (record {
          page = record { limit = pos limit; offset = pos offset };
          microservice_id = pos ms;
          environment_id = pos env;
        })
        w)

  unfoldable pub list_microservice_configs :
      ApiRequest → World → Reply SettingsError (List MicroserviceAppSettings)
  unfolding parse_page int64_param
  list_microservice_configs r w =
      on_page w r (parse_page r) (int64_param r (codes "microserviceId"))
        (int64_param r (codes "environmentId"))

  -- a page of reference rows
  abbrev pub on_reference_page :
      (Page → Result SettingsError (List Reference))
      → Option (ℕ × ℕ)
      → Reply SettingsError (List Reference)
  on_reference_page list none = refused 400 (codes "invalid query parameter")
  on_reference_page list (some (limit, offset)) =
      reply_with write_err 200 (list (record { limit = pos limit; offset = pos offset }))

  unfoldable pub list_microservices : ApiRequest → World → Reply SettingsError (List Reference)
  unfolding parse_page
  list_microservices r w =
      on_reference_page (λ page. ServiceSettings.list_microservices P repo valid page w)
        (parse_page r)

  unfoldable pub list_environments : ApiRequest → World → Reply SettingsError (List Reference)
  unfolding parse_page
  list_environments r w =
      on_reference_page (λ page. ServiceSettings.list_environments P repo valid page w)
        (parse_page r)

  abbrev pub Writes {ℓ} : Type ℓ → Type ℓ
  Writes A = Reply SettingsError A × World

  unfoldable pub create_microservice_config :
      Decoder MicroserviceAppSettings → ApiRequest → World → Writes MicroserviceAppSettings
  unfolding decode_json
  create_microservice_config json r w =
      on_body (decode_json json r) w
        (λ req. replied write_err 201 (ServiceSettings.create_config P repo valid req w))

  unfoldable pub update_microservice_config :
      Decoder MicroserviceAppSettings → ApiRequest → World → Writes MicroserviceAppSettings
  unfolding decode_json
  update_microservice_config json r w =
      on_body (decode_json json r) w
        (λ req. replied write_err 200 (ServiceSettings.update_config P repo valid req w))

  unfoldable pub delete_microservice_config : ApiRequest → World → Writes (Unit {0})
  delete_microservice_config r w =
      on_id (parse_int (r.path_value (codes "id"))) w
        (λ id. deleted write_err (ServiceSettings.delete_config P repo valid id w))

  unfoldable pub create_microservice : Decoder Reference → ApiRequest → World → Writes Reference
  unfolding decode_json
  create_microservice json r w =
      on_body (decode_json json r) w
        (λ req. replied write_err 201 (ServiceSettings.create_microservice P repo valid req w))

  unfoldable pub delete_microservice : ApiRequest → World → Writes (Unit {0})
  delete_microservice r w =
      on_id (parse_int (r.path_value (codes "id"))) w
        (λ id. deleted write_err (ServiceSettings.delete_microservice P repo valid id w))

  unfoldable pub create_environment : Decoder Reference → ApiRequest → World → Writes Reference
  unfolding decode_json
  create_environment json r w =
      on_body (decode_json json r) w
        (λ req. replied write_err 201 (ServiceSettings.create_environment P repo valid req w))

  unfoldable pub delete_environment : ApiRequest → World → Writes (Unit {0})
  delete_environment r w =
      on_id (parse_int (r.path_value (codes "id"))) w
        (λ id. deleted write_err (ServiceSettings.delete_environment P repo valid id w))
