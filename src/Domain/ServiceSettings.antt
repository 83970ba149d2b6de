-- ===== src/Domain/ServiceSettings.antt =====
-- internal/servicesettings/service.go: the settings of a service in an environment, and the reference
-- rows of microservices and environments. State and errors are as in Domain/Localization.
pub mod Effect
pub mod Handler
mod Tests
pub mod WriteThrough
use central_config_stream.Prelude.{
  ℕ, Bool, true, false, not, ◌||◌, ◌&&◌, Option, none, some, List, leb, if◌then◌else◌,
}
use central_config_stream.Prelude.Int.{ℤ, is_positive}
use central_config_stream.Prelude.Result.{Result, ok, err}
use central_config_stream.Text.{Text, text_beq, byte_length, is_empty, trim_space}
use central_config_stream.Keys.{service_settings_key, bucket_service_settings}
use central_config_stream.Messaging.ConfigPublisher.{ConfigPublisher}
use central_config_stream.Domain.{Page, normalize_page, check_document}

-- errors.go, and the error of the driver
pub data SettingsError : Type 0 where
  config_not_found invalid_config_id invalid_microservice_id invalid_environment_id : SettingsError
  invalid_settings_json settings_too_large microservice_not_found : SettingsError
  environment_not_found invalid_microservice_name invalid_environment_name : SettingsError
  microservice_exists environment_exists config_exists microservice_in_use : SettingsError
  environment_in_use conflict database_error : SettingsError

pub record MicroserviceAppSettings : Type 0 where
  pub id : ℤ
  pub microservice_id : ℤ
  pub environment_id : ℤ
  pub settings_json : Text
  pub updated_at : Text
  pub expected_updated_at : Option Text

-- a row of the microservices or of the environments
pub record Reference : Type 0 where
  pub id : ℤ
  pub name : Text
  pub updated_at : Text

pub record AppSettingsFilter : Type 0 where
  pub page : Page
  pub microservice_id : ℤ
  pub environment_id : ℤ

pub record Repository : Type 1 where
  pub Db : Type 0
  pub others : Db → Db
  pub get_config_by_id : Db → ℤ → Result SettingsError MicroserviceAppSettings
  pub get_microservice_by_id : Db → ℤ → Result SettingsError Reference
  pub update_config :
      Db → MicroserviceAppSettings → Result SettingsError MicroserviceAppSettings × Db
  pub list_configs : Db → AppSettingsFilter → Result SettingsError (List MicroserviceAppSettings)
  pub create_config :
      Db → MicroserviceAppSettings → Result SettingsError MicroserviceAppSettings × Db
  pub delete_config : Db → ℤ → Result SettingsError MicroserviceAppSettings × Db
  pub list_microservices : Db → Page → Result SettingsError (List Reference)
  pub create_microservice : Db → Text → Result SettingsError Reference × Db
  pub delete_microservice : Db → ℤ → Option SettingsError × Db
  pub list_environments : Db → Page → Result SettingsError (List Reference)
  pub create_environment : Db → Text → Result SettingsError Reference × Db
  pub delete_environment : Db → ℤ → Option SettingsError × Db

unfoldable pub check_settings : (Text → Bool) → Text → Option SettingsError
check_settings valid settings =
    check_document settings_too_large invalid_settings_json valid settings

unfoldable pub check_create : (Text → Bool) → MicroserviceAppSettings → Option SettingsError
unfolding check_settings
check_create valid req =
    if not (is_positive req.microservice_id)
    then some invalid_microservice_id
    else if not (is_positive req.environment_id)
    then some invalid_environment_id
    else check_settings valid req.settings_json

unfoldable pub check_update : (Text → Bool) → MicroserviceAppSettings → Option SettingsError
unfolding check_create
check_update valid req =
    if not (is_positive req.id) then some invalid_config_id else check_create valid req

unfoldable pub key_of : MicroserviceAppSettings → Text
key_of s = service_settings_key s.environment_id s.microservice_id

unfoldable pub valid_name : Text → Bool
valid_name name = not (is_empty name) && leb (byte_length name) 100

module _ (P : ConfigPublisher) (repo : Repository) (valid : Text → Bool) where
  abbrev pub World : Type 0
  World = repo.Db × P.State

  -- errors are logged, not returned
  unfoldable pub publish : P.State → MicroserviceAppSettings → P.State
  publish p s = (P.publish_service_settings p s.environment_id s.microservice_id s.settings_json).1

  unfoldable pub purge : P.State → MicroserviceAppSettings → P.State
  purge p s = (P.delete_key p bucket_service_settings (key_of s)).1

  unfoldable pub purge_moved : P.State → MicroserviceAppSettings → MicroserviceAppSettings → P.State
  unfolding purge
  purge_moved p previous updated =
      if text_beq (key_of previous) (key_of updated) then p else purge p previous

  abbrev after_update :
      P.State
      → MicroserviceAppSettings
      → Result SettingsError MicroserviceAppSettings × repo.Db
      → Result SettingsError MicroserviceAppSettings × World
  after_update p previous (err e, d) = (err e, (d, p))
  after_update p previous (ok updated, d) =
      (ok updated, (d, purge_moved (publish p updated) previous updated))

  abbrev with_previous :
      MicroserviceAppSettings
      → World
      → Result SettingsError MicroserviceAppSettings
      → Result SettingsError MicroserviceAppSettings × World
  with_previous req w (err e) = (err e, w)
  with_previous req w (ok previous) =
      after_update w.1 previous (repo.update_config (repo.others w.0) req)

  abbrev update_checked :
      MicroserviceAppSettings
      → World
      → Option SettingsError
      → Result SettingsError MicroserviceAppSettings × World
  update_checked req w (some e) = (err e, w)
  update_checked req w none = with_previous req w (repo.get_config_by_id w.0 req.id)

  unfoldable pub update_config :
      MicroserviceAppSettings → World → Result SettingsError MicroserviceAppSettings × World
  unfolding check_update purge_moved publish
  update_config req w = update_checked req w (check_update valid req)

  abbrev after_create :
      P.State
      → Result SettingsError MicroserviceAppSettings × repo.Db
      → Result SettingsError MicroserviceAppSettings × World
  after_create p (err e, d) = (err e, (d, p))
  after_create p (ok created, d) = (ok created, (d, publish p created))

  abbrev create_checked :
      MicroserviceAppSettings
      → World
      → Option SettingsError
      → Result SettingsError MicroserviceAppSettings × World
  create_checked req w (some e) = (err e, w)
  create_checked req w none = after_create w.1 (repo.create_config w.0 req)

  unfoldable pub create_config :
      MicroserviceAppSettings → World → Result SettingsError MicroserviceAppSettings × World
  unfolding check_create publish
  create_config req w = create_checked req w (check_create valid req)

  abbrev after_delete :
      P.State
      → Result SettingsError MicroserviceAppSettings × repo.Db
      → Option SettingsError × World
  after_delete p (err e, d) = (some e, (d, p))
  after_delete p (ok removed, d) = (none, (d, purge p removed))

  unfoldable pub delete_config : ℤ → World → Option SettingsError × World
  unfolding purge
  delete_config id w =
      if not (is_positive id)
      then (some invalid_config_id, w)
      else after_delete w.1 (repo.delete_config w.0 id)

  unfoldable pub get_config_by_id : ℤ → World → Result SettingsError MicroserviceAppSettings
  get_config_by_id id w =
      if not (is_positive id) then err invalid_config_id else repo.get_config_by_id w.0 id

  unfoldable pub get_microservice_by_id : ℤ → World → Result SettingsError Reference
  get_microservice_by_id id w =
      if not (is_positive id)
      then err invalid_microservice_id
      else repo.get_microservice_by_id w.0 id

  unfoldable pub list_configs :
      AppSettingsFilter → World → Result SettingsError (List MicroserviceAppSettings)
  list_configs filter w =
      repo.list_configs w.0 (record filter { page = normalize_page filter.page })

  -- The reference rows have no KV key, so these calls leave the publisher alone.
  abbrev in_db {ℓ} : {A : Type ℓ} → P.State → A × repo.Db → A × World
  in_db p (a, d) = (a, (d, p))

  unfoldable pub list_microservices : Page → World → Result SettingsError (List Reference)
  list_microservices page w = repo.list_microservices w.0 (normalize_page page)

  unfoldable pub create_microservice : Reference → World → Result SettingsError Reference × World
  unfolding valid_name
  create_microservice req w =
      let name = trim_space req.name in
      if not (valid_name name)
      then (err invalid_microservice_name, w)
      else in_db w.1 (repo.create_microservice w.0 name)

  unfoldable pub delete_microservice : ℤ → World → Option SettingsError × World
  delete_microservice id w =
      if not (is_positive id)
      then (some invalid_microservice_id, w)
      else in_db w.1 (repo.delete_microservice w.0 id)

  unfoldable pub list_environments : Page → World → Result SettingsError (List Reference)
  list_environments page w = repo.list_environments w.0 (normalize_page page)

  unfoldable pub create_environment : Reference → World → Result SettingsError Reference × World
  unfolding valid_name
  create_environment req w =
      let name = trim_space req.name in
      if not (valid_name name)
      then (err invalid_environment_name, w)
      else in_db w.1 (repo.create_environment w.0 name)

  unfoldable pub delete_environment : ℤ → World → Option SettingsError × World
  delete_environment id w =
      if not (is_positive id)
      then (some invalid_environment_id, w)
      else in_db w.1 (repo.delete_environment w.0 id)
