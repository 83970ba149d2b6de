-- ===== src/Domain/ServiceSettings/Handler/Replies.antt =====
-- What the handlers of internal/servicesettings/handler.go answer, and what they do to the state.
use central_config_stream.Prelude.{Bool, ◌≡◌, arith}
use central_config_stream.Text.{Text}
use central_config_stream.Messaging.ConfigPublisher.{ConfigPublisher}
use central_config_stream.Web.{ApiRequest, Decoder}
use central_config_stream.Domain.Replies.{Quiet}
use central_config_stream.Domain.ServiceSettings
use central_config_stream.Domain.ServiceSettings.{Repository, MicroserviceAppSettings, Reference}
use central_config_stream.Domain.ServiceSettings.Handler
use central_config_stream.Domain.ServiceSettings.Handler.{write_err}

module _ (P : ConfigPublisher) (repo : Repository) (valid : Text → Bool) (r : ApiRequest)
    (w : ServiceSettings.World P repo valid) where
  -- Every handler of the settings that writes answers 201 to a creation, 200 to an update and 204 to a removal, or with 400, 404, 409 or 500 and
  -- leaves the publisher as it was; those of the microservices and the environments leave it so in any case.
  pub settings_writes-Quiet :
      (config : Decoder MicroserviceAppSettings) (reference : Decoder Reference)
      → Quiet 201 w.1 (Handler.create_microservice_config P repo valid config r w)
        × Quiet 200 w.1 (Handler.update_microservice_config P repo valid config r w)
        × Quiet 204 w.1 (Handler.delete_microservice_config P repo valid r w)
        × ((Handler.create_microservice P repo valid reference r w).1.1 ≡ w.1)
        × ((Handler.delete_microservice P repo valid r w).1.1 ≡ w.1)
        × ((Handler.create_environment P repo valid reference r w).1.1 ≡ w.1)
        × ((Handler.delete_environment P repo valid r w).1.1 ≡ w.1)
  unfolding write_err Handler.create_microservice_config Handler.update_microservice_config
      Handler.delete_microservice_config Handler.create_microservice Handler.delete_microservice
      Handler.create_environment Handler.delete_environment ServiceSettings.create_config
      ServiceSettings.update_config ServiceSettings.delete_config
      ServiceSettings.create_microservice ServiceSettings.delete_microservice
      ServiceSettings.create_environment ServiceSettings.delete_environment
  settings_writes-Quiet config reference = (
    ground arith,
    ground arith,
    ground arith,
    ground arith,
    ground arith,
    ground arith,
    ground arith,
  )
