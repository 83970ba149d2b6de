-- ===== src/Domain/ServiceSettings/Tests.antt =====
-- The settings service over the server in memory, with a database of one row that moves from
-- microservice 3 to microservice 4.
use SettingsService.{update_config}
use central_config_stream.Domain.{check_document}
use central_config_stream.Prelude.{ℕ, ◌≡◌, refl, ◌⊎◌, Bool, true, none, some, [], ◌∷◌}
use central_config_stream.Prelude.Int.{pos}
use central_config_stream.Prelude.Result.{ok, err}
use central_config_stream.Text.{Text, codes, text_beq, byte_length, trim_json_space}
use central_config_stream.Keys.{bucket_service_settings}
use central_config_stream.Messaging.Buckets.{resolved, by_name}
use central_config_stream.Messaging.Publish.Progress.{Holds}
use central_config_stream.Messaging.Publisher.{Publisher}
use central_config_stream.Messaging.ConfigPublisher.{ConfigPublisher, live_publisher}
use central_config_stream.Messaging.Sample.{memory_kv, memory_view, ready_publisher}
use central_config_stream.Messaging.Sample.Laws.{memory_laws, memory_quiet}
use central_config_stream.Messaging.Sample.Codec.{plain_codec}
use central_config_stream.Domain.ServiceSettings as SettingsService
use central_config_stream.Domain.ServiceSettings.{
  microservice_not_found, microservice_exists, microservice_in_use, environment_exists,
  environment_in_use,
}
use central_config_stream.Domain.ServiceSettings.WriteThrough.{update_config-Holds}

abbrev clock : Publisher memory_kv → ℕ → Text
clock p n = codes "now"

abbrev live : ConfigPublisher
live = live_publisher memory_kv plain_codec clock

abbrev any_json : Text → Bool
any_json t = true

settings_ready :
    by_name ready_publisher.buckets bucket_service_settings ≡ resolved (codes "SERVICESETTINGS")
unfolding by_name text_beq
settings_ready = refl

abbrev stored_settings : SettingsService.MicroserviceAppSettings
stored_settings = record {
  id = pos 1;
  microservice_id = pos 3;
  environment_id = pos 7;
  settings_json = codes "{}";
  updated_at = [];
  expected_updated_at = none;
}

abbrev moved_settings : SettingsService.MicroserviceAppSettings
moved_settings = record stored_settings { microservice_id = pos 4 }

abbrev one_config : SettingsService.Repository
one_config = record {
  Db = SettingsService.MicroserviceAppSettings;
  others = λ d. d;
  get_config_by_id = λ d id. ok d;
  get_microservice_by_id = λ d id. err microservice_not_found;
  update_config = λ d req. (ok req, req);
  list_configs = λ d f. ok (d ∷ []);
  create_config = λ d req. (ok req, req);
  delete_config = λ d id. (ok d, d);
  list_microservices = λ d page. ok [];
  create_microservice = λ d name. (err microservice_exists, d);
  delete_microservice = λ d id. (some microservice_in_use, d);
  list_environments = λ d page. ok [];
  create_environment = λ d name. (err environment_exists, d);
  delete_environment = λ d id. (some environment_in_use, d);
}

config_updated :
    (SettingsService.update_config live one_config any_json moved_settings
      (stored_settings, ready_publisher)).0
    ≡ ok moved_settings
unfolding update_config check_document byte_length trim_json_space
config_updated = refl

update_config-Holds_example :
    let p' =
      (SettingsService.update_config live one_config any_json moved_settings
        (stored_settings, ready_publisher)).1.1 in
    Holds memory_laws p'.world
      (codes "SERVICESETTINGS")
      (SettingsService.key_of moved_settings)
      (codes "{}")
    × ((previous : SettingsService.MicroserviceAppSettings) × (one_config.get_config_by_id
            stored_settings
            (pos 1)
          ≡ ok previous)
        × ((SettingsService.key_of previous ≡ SettingsService.key_of moved_settings)
            ⊎ (memory_view p'.world (codes "SERVICESETTINGS") (SettingsService.key_of previous)
                ≡ none)))
update_config-Holds_example =
    update_config-Holds memory_kv memory_laws memory_quiet plain_codec clock one_config any_json
      (codes "SERVICESETTINGS") moved_settings moved_settings (stored_settings, ready_publisher)
      settings_ready config_updated refl
