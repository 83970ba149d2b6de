-- ===== src/Domain/Localization/Handler/Replies.antt =====
-- What the handlers of internal/localization/handler.go answer, and what they do to the state.
use central_config_stream.Prelude.{Bool, arith}
use central_config_stream.Text.{Text}
use central_config_stream.Messaging.ConfigPublisher.{ConfigPublisher}
use central_config_stream.Web.{ApiRequest, Decoder}
use central_config_stream.Domain.Replies.{Quiet}
use central_config_stream.Domain.Localization
use central_config_stream.Domain.Localization.{Repository}
use central_config_stream.Domain.Localization.Handler
use central_config_stream.Domain.Localization.Handler.{write_err, Row}

-- Every handler of the bundles that writes answers 201 to a creation, 200 to an update and 204 to a removal, or with 400, 404, 409 or 500 and
-- leaves the publisher as it was.
pub bundle_writes-Quiet :
    (P : ConfigPublisher) (repo : Repository) (valid : Text → Bool) (json : Decoder Row)
    (r : ApiRequest) (w : Localization.World P repo valid)
    → Quiet 201 w.1 (Handler.create_localization P repo valid json r w)
      × Quiet 200 w.1 (Handler.update_localization P repo valid json r w)
      × Quiet 204 w.1 (Handler.delete_localization P repo valid r w)
unfolding write_err Handler.create_localization Handler.update_localization
    Handler.delete_localization Localization.create_localization Localization.update_localization
    Localization.delete_localization
bundle_writes-Quiet P repo valid json r w = (ground arith, ground arith, ground arith)
