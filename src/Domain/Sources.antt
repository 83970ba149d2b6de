-- ===== src/Domain/Sources.antt =====
-- internal/app/app.go: the three sources that the reconciler sweeps. The listing of a repository is a
-- parameter, read in the state in which the sweep reaches the source; `none` is its error.
pub mod Keeps
mod Tests
use central_config_stream.Prelude.{ℕ, Bool, false, not, Option, none, some, List, [], ◌∷◌}
use central_config_stream.Prelude.Int.{ℤ, pos, int_beq}
use central_config_stream.Text.{Text, codes}
use central_config_stream.Keys.{
  bucket_flags, bucket_service_settings, bucket_localization, flag_key, service_settings_key,
  localization_key,
}
use central_config_stream.Messaging.Publish.{PublishError}
use central_config_stream.Messaging.ConfigPublisher.{ConfigPublisher}
use central_config_stream.Messaging.Reconciler.{ResyncResult, Source, record_row}
use central_config_stream.Domain.Localization.{Localization}
use central_config_stream.Domain.ServiceSettings.{MicroserviceAppSettings}

-- internal/flagsconfig/repository.go
pub record ReconcileRow : Type 0 where
  pub id : ℤ
  pub environment_id : ℤ
  pub flag_key : Text
  pub enabled : ℤ
  pub value : Text

abbrev pub no_rows : ResyncResult
no_rows = record { keys = []; partial = false }

module _ (P : ConfigPublisher) where
  -- the loop over the rows of a source
  unfoldable pub publish_rows {ℓ} :
      {Row : Type ℓ}
      → (Row → Text)
      → (P.State → Row → Option PublishError × P.State)
      → List Row
      → ResyncResult
      → P.State
      → ResyncResult × P.State
  unfolding record_row
  publish_rows key send [] res w = (res, w)
  publish_rows key send (row ∷ rows) res w =
      let (failed, w') = send w row in
      publish_rows key send rows (record_row res (key row) failed) w'

  abbrev pub resync_rows {ℓ} :
      {Row : Type ℓ}
      → (Row → Text)
      → (P.State → Row → Option PublishError × P.State)
      → P.State
      → Option (List Row)
      → Option ResyncResult × P.State
  resync_rows key send w none = (none, w)
  resync_rows key send w (some rows) =
      let (res, w') = publish_rows key send rows no_rows w in (some res, w')

  abbrev pub Lister {ℓ} : Type ℓ → Type ℓ
  Lister Row = P.State → Option ℕ → Option (List Row)

  abbrev pub flag_row_key : ReconcileRow → Text
  flag_row_key row = flag_key row.environment_id row.flag_key

  abbrev pub send_flag : P.State → ReconcileRow → Option PublishError × P.State
  send_flag w row =
      P.publish_flag w row.environment_id row.flag_key
        (record { enabled = not (int_beq row.enabled (pos 0)); value = row.value; updated_at = [] })

  unfoldable pub flags_source : Lister ReconcileRow → Source P
  unfolding publish_rows
  flags_source list = record {
    name = codes "flags";
    bucket = bucket_flags;
    resync = λ w since. resync_rows flag_row_key send_flag w (list w since);
  }

  abbrev pub settings_row_key : MicroserviceAppSettings → Text
  settings_row_key row = service_settings_key row.environment_id row.microservice_id

  abbrev pub send_settings : P.State → MicroserviceAppSettings → Option PublishError × P.State
  send_settings w row =
      P.publish_service_settings w row.environment_id row.microservice_id row.settings_json

  unfoldable pub settings_source : Lister MicroserviceAppSettings → Source P
  unfolding publish_rows
  settings_source list = record {
    name = codes "servicesettings";
    bucket = bucket_service_settings;
    resync = λ w since. resync_rows settings_row_key send_settings w (list w since);
  }

  abbrev pub localization_row_key : Localization → Text
  localization_row_key row = localization_key row.environment_id row.microservice_id row.locale

  abbrev pub send_localization : P.State → Localization → Option PublishError × P.State
  send_localization w row =
      P.publish_localization w row.environment_id row.microservice_id row.locale row.bundle_json

  unfoldable pub localization_source : Lister Localization → Source P
  unfolding publish_rows
  localization_source list = record {
    name = codes "localization";
    bucket = bucket_localization;
    resync = λ w since. resync_rows localization_row_key send_localization w (list w since);
  }
