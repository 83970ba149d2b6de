-- ===== src/Domain/ServiceSettings/Effect.antt =====
-- What the service does to the database and to the buckets.
use central_config_stream.Prelude.{◌≡◌, refl, Bool, true, Option, none, some, arith}
use central_config_stream.Prelude.Int.{is_positive}
use central_config_stream.Prelude.Result.{Result, ok, err}
use central_config_stream.Text.{Text}
use central_config_stream.Messaging.ConfigPublisher.{ConfigPublisher}
use central_config_stream.Domain.Document.{Fits, check_document-Fits}
use central_config_stream.Domain.ServiceSettings.{
  MicroserviceAppSettings, SettingsError, settings_too_large, invalid_settings_json, Repository,
  check_create, check_update, World, check_settings, publish, purge_moved, after_update,
  with_previous, update_checked, update_config,
}

-- What every row that the service writes satisfies.
pub record IsAccepted (valid : Text → Bool) (req : MicroserviceAppSettings) : Type 0 where
  pub microservice : is_positive req.microservice_id ≡ true
  pub environment : is_positive req.environment_id ≡ true
  pub settings : Fits valid req.settings_json

check_create-IsAccepted :
    (valid : Text → Bool) (req : MicroserviceAppSettings)
    → check_create valid req ≡ none
    → IsAccepted valid req
unfolding check_create check_settings
check_create-IsAccepted valid req h = record {
  microservice = ground arith;
  environment = ground arith;
  settings =
      check_document-Fits settings_too_large invalid_settings_json valid req.settings_json
        (ground arith);
}

check_update-IsAccepted :
    (valid : Text → Bool) (req : MicroserviceAppSettings)
    → check_update valid req ≡ none
    → IsAccepted valid req
unfolding check_update
check_update-IsAccepted valid req h = check_create-IsAccepted valid req (ground arith)

module _ (P : ConfigPublisher) (repo : Repository) (valid : Text → Bool)
    (req : MicroserviceAppSettings) (w : World P repo valid) where
  -- An update that returned a row: the row that it replaced was read first, and the new one is stored,
  -- published, and purged under its old key.
  pub record Updated (row : MicroserviceAppSettings) : Type 0 where
    pub accepted : IsAccepted valid req
    pub previous : MicroserviceAppSettings
    pub db : repo.Db
    pub read : repo.get_config_by_id w.0 req.id ≡ ok previous
    pub stored : repo.update_config (repo.others w.0) req ≡ (ok row, db)
    pub after :
        update_config P repo valid req w
        ≡ (ok row, (db, purge_moved P repo valid (publish P repo valid w.1 row) previous row))

  pub update_config-Updated :
      (row : MicroserviceAppSettings) → (update_config P repo valid req w).0 ≡ ok row → Updated row
  unfolding update_config
  update_config-Updated row h = checked (check_update valid req) refl h
    where
      stored :
          (previous : MicroserviceAppSettings)
          → repo.get_config_by_id w.0 req.id ≡ ok previous
          → (r : Result SettingsError MicroserviceAppSettings × repo.Db)
          → repo.update_config (repo.others w.0) req ≡ r
          → check_update valid req ≡ none
          → (after_update P repo valid w.1 previous r).0 ≡ ok row
          → Updated row
      stored previous e (err x, d) e2 c h = cc
      stored previous e (ok new, d) e2 c h =
          let same : new ≡ row = ground arith in
          record {
            accepted = check_update-IsAccepted valid req c;
            previous = previous;
            db = d;
            read = e;
            stored = rw (← same) e2;
            after = rw (← same, c, e, e2) refl;
          }

      read :
          (r : Result SettingsError MicroserviceAppSettings)
          → repo.get_config_by_id w.0 req.id ≡ r
          → check_update valid req ≡ none
          → (with_previous P repo valid req w r).0 ≡ ok row
          → Updated row
      read (err x) e c h = cc
      read (ok previous) e c h =
          stored previous e (repo.update_config (repo.others w.0) req) refl c h

      checked :
          (o : Option SettingsError)
          → check_update valid req ≡ o
          → (update_checked P repo valid req w o).0 ≡ ok row
          → Updated row
      checked (some x) c h = cc
      checked none c h = read (repo.get_config_by_id w.0 req.id) refl c h
